-- ===== src/Client/Sound/Region.antt =====
-- The handlers that describe the regions of a process.
use ceserver_pcileech.Prelude.{
  ℕ, List, [], Bool, Bool-cases, inl, inr, true, ◌∷◌, Option, none, some, length, min,
}
use ceserver_pcileech.Memory.Region.{MemoryRegion}
use ceserver_pcileech.ClientState.{ClientState, get_process_id}
use ceserver_pcileech.Machine.{Machine}
use ceserver_pcileech.Client.Region.{
  covers, truncated_name, find_region, send_name, query_region, handle_command_get_region_info,
  send_regions, handle_command_virtual_query_ex_full,
}
use ceserver_pcileech.Client.Names.{AllNamed}
use ceserver_pcileech.Client.Names.Entries.{EntryNamed}
use ceserver_pcileech.Client.Sound.{
  Texts, DeviceTexts, Leads, Anything, bind-Leads, bind_any-Leads, then_any-Leads, asks-Leads,
  pure-Leads, when-Leads,
}
use ceserver_pcileech.Client.Sound.Steps.{leads_rules, calls-Leads, for_each_any-Leads}
use ceserver_pcileech.Client.Sound.Replies.{
  empty_text, virtual_query_ex_result-Leads, virtual_query_ex_full_result-Leads,
}

find_region-EntryNamed :
    (IsText : List ℕ → Type 0) (address : ℕ) (regions : List MemoryRegion)
    → AllNamed IsText (λ r. r.name) regions
    → EntryNamed IsText (λ (r : MemoryRegion). r.name) (find_region address regions)
unfolding find_region
find_region-EntryNamed IsText address [] named = tt
find_region-EntryNamed IsText address (r ∷ rs) (first, named) =
    elim (Bool-cases (covers address r)) [
      | inl e ↦ rw e first
      | inr e ↦ rw e (find_region-EntryNamed IsText address rs named)
    ]

module _ {IsText : List ℕ → Type 0} (texts : Texts IsText) where
  truncated_name-text :
      (o : Option MemoryRegion)
      → EntryNamed IsText (λ (r : MemoryRegion). r.name) o
      → IsText (truncated_name o)
  unfolding truncated_name
  truncated_name-text none named = empty_text texts
  truncated_name-text (some r) named = texts.part (min 127 (length r.name)) r.name named

module _ {m : Machine} {IsText : List ℕ → Type 0} (texts : Texts IsText)
    (device : DeviceTexts IsText m) {s : ClientState} where
  name-Leads :
      {n : ℕ} (o : Option MemoryRegion)
      → IsText (truncated_name o)
      → Leads {m = m} IsText s n n Anything (send_name o)
  unfolding send_name
  name-Leads o text = search leads_rules

  region-Leads :
      {n : ℕ} (b : Bool) (h address : ℕ)
      → Leads {m = m} IsText s n n Anything (query_region b h address)
  unfolding query_region
  region-Leads b h address = bind_any-Leads _ _ (asks-Leads (get_process_id h)) λ pid.
      bind-Leads _ _ (calls-Leads (m.get_module_snapshot pid) (device.names.region_names pid))
        λ regions named.
          let found = find_region address regions in
          then_any-Leads _ _ (virtual_query_ex_result-Leads texts found) (
            then_any-Leads _ _
              (when-Leads b _ (
                name-Leads found (
                  truncated_name-text texts found
                    (find_region-EntryNamed IsText address regions named))))
              (pure-Leads true tt))

  pub get_region_info-Leads :
      {n : ℕ} (b : Bool) → Leads {m = m} IsText s n n Anything (handle_command_get_region_info b)
  unfolding handle_command_get_region_info
  get_region_info-Leads b =
      search (leads_rules, virtual_query_ex_result-Leads, region-Leads) depth 9

  regions-Leads : {n : ℕ} (h : ℕ) → Leads {m = m} IsText s n n Anything (send_regions h)
  unfolding send_regions
  regions-Leads h =
      search (leads_rules, for_each_any-Leads, virtual_query_ex_full_result-Leads) depth 7

  pub virtual_query_ex_full-Leads :
      {n : ℕ} → Leads {m = m} IsText s n n Anything handle_command_virtual_query_ex_full
  unfolding handle_command_virtual_query_ex_full
  virtual_query_ex_full-Leads = search (leads_rules, regions-Leads) depth 7
