-- ===== src/Client/Sound/Replies.antt =====
-- The functions that send a reply.
use ceserver_pcileech.Prelude.{ℕ, List, [], Bool, true, Option, none, some}
use ceserver_pcileech.Prelude.Bytes.{le_bytes}
use ceserver_pcileech.Memory.Region.{MemoryRegion, ProcessInfo}
use ceserver_pcileech.ClientState.{ClientState}
use ceserver_pcileech.Machine.{Machine}
use ceserver_pcileech.Commands.Layout.{
  process_entry_bytes, module_entry_bytes, query_output_bytes, region_info_bytes, version_bytes,
  CeProcessEntry, CeModuleEntry, CeVersion, CeRegionInfo, CeVirtualQueryExOutput,
}
use ceserver_pcileech.Client.Names.Entries.{EntryNamed}
use ceserver_pcileech.Client.Send.{
  send_process32_entry, send_module32_entry, send_thread32_entry, send_module_region,
  send_virtual_query_ex_result, send_virtual_query_ex_full_result,
}
use ceserver_pcileech.Client.Snapshots.{
  c_str, strlen, send_process_entry, send_module_entry, handle_command_get_version,
}
use ceserver_pcileech.Client.Sound.{Texts, Leads, Anything}
use ceserver_pcileech.Client.Sound.Steps.{leads_rules}

module _ {IsText : List ℕ → Type 0} (texts : Texts IsText) where
  version_bytes-text : (e : CeVersion) → IsText (version_bytes e)
  unfolding version_bytes
  version_bytes-text e = search (texts.both, texts.word)

  process_entry_bytes-text : (e : CeProcessEntry) → IsText (process_entry_bytes e)
  unfolding process_entry_bytes
  process_entry_bytes-text e = search (texts.both, texts.word)

  module_entry_bytes-text : (e : CeModuleEntry) → IsText (module_entry_bytes e)
  unfolding module_entry_bytes
  module_entry_bytes-text e = search (texts.both, texts.word)

  query_output_bytes-text : (e : CeVirtualQueryExOutput) → IsText (query_output_bytes e)
  unfolding query_output_bytes
  query_output_bytes-text e = search (texts.both, texts.word)

  region_info_bytes-text : (e : CeRegionInfo) → IsText (region_info_bytes e)
  unfolding region_info_bytes
  region_info_bytes-text e = search (texts.both, texts.word)

  -- The name of no entry.
  pub empty_text : IsText []
  unfolding le_bytes
  empty_text = texts.word 0 0

module _ {m : Machine} {IsText : List ℕ → Type 0} (texts : Texts IsText) {s : ClientState} where
  pub process32_entry-Leads :
      {n : ℕ} (b : Bool) (pid : ℕ) (name : List ℕ)
      → IsText name
      → Leads {m = m} IsText s n n Anything (send_process32_entry b pid name)
  unfolding send_process32_entry
  process32_entry-Leads b pid name text = search (leads_rules, process_entry_bytes-text texts)

  pub module32_entry-Leads :
      {n : ℕ} (b : Bool) (base part size offset : ℕ) (name : List ℕ)
      → IsText name
      → Leads {m = m} IsText s n n Anything (send_module32_entry b base part size offset name)
  unfolding send_module32_entry
  module32_entry-Leads b base part size offset name text =
      search (leads_rules, module_entry_bytes-text texts)

  pub thread32_entry-Leads :
      {n : ℕ} (tid : ℕ) → Leads {m = m} IsText s n n Anything (send_thread32_entry tid)
  unfolding send_thread32_entry
  thread32_entry-Leads tid = search leads_rules

  pub module_region-Leads :
      {n : ℕ} (r : MemoryRegion)
      → IsText r.name
      → Leads {m = m} IsText s n n Anything (send_module_region r)
  unfolding send_module_region
  module_region-Leads r text = search module32_entry-Leads

  pub virtual_query_ex_result-Leads :
      {n : ℕ} (r : Option MemoryRegion)
      → Leads {m = m} IsText s n n Anything (send_virtual_query_ex_result r)
  unfolding send_virtual_query_ex_result
  virtual_query_ex_result-Leads r = search (leads_rules, query_output_bytes-text texts)

  pub virtual_query_ex_full_result-Leads :
      {n : ℕ} (r : MemoryRegion)
      → Leads {m = m} IsText s n n Anything (send_virtual_query_ex_full_result r)
  unfolding send_virtual_query_ex_full_result
  virtual_query_ex_full_result-Leads r = search (leads_rules, region_info_bytes-text texts)

  pub process_entry-Leads :
      {n : ℕ} (o : Option ProcessInfo)
      → EntryNamed IsText (λ p. p.name) o
      → Leads {m = m} IsText s n n Anything (send_process_entry o)
  process_entry-Leads none named = search (process32_entry-Leads, empty_text texts)
  process_entry-Leads (some p) named =
      process32_entry-Leads true p.pid (c_str p.name) (texts.part (strlen p.name) p.name named)

  pub module_entry-Leads :
      {n : ℕ} (o : Option MemoryRegion)
      → EntryNamed IsText (λ r. r.name) o
      → Leads {m = m} IsText s n n Anything (send_module_entry o)
  module_entry-Leads none named = search (module32_entry-Leads, empty_text texts)
  module_entry-Leads (some r) named = module_region-Leads r named

  pub version-Leads : {n : ℕ} → Leads {m = m} IsText s n n Anything handle_command_get_version
  unfolding handle_command_get_version
  version-Leads = search (leads_rules, version_bytes-text texts, texts.version)
