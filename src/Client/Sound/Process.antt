-- ===== src/Client/Sound/Process.antt =====
-- The handlers for an opened process, and those that describe its regions.
use ceserver_pcileech.Prelude.{ℕ, suc, List}
use ceserver_pcileech.ClientState.{ClientState, get_process_id}
use ceserver_pcileech.Machine.{Machine}
use ceserver_pcileech.Client.Process.{
  handle_command_open_process, send_memory_contents, read_memory,
  handle_command_read_process_memory, write_memory, handle_command_write_process_memory,
  handle_command_get_symbol_list_from_file,
}
use ceserver_pcileech.Client.Sound.{
  Texts, DeviceTexts, Leads, Anything, bind-Leads, bind_any-Leads, asks-Leads, read_word-Leads,
}
use ceserver_pcileech.Client.Sound.Steps.{
  leads_rules, waits-Leads, send_word-Leads, store_open_process-Leads,
}

module _ {m : Machine} {IsText : List ℕ → Type 0} (texts : Texts IsText)
    (device : DeviceTexts IsText m) {s : ClientState} where
  pub open_process-Leads :
      {n : ℕ} → Leads {m = m} IsText s n (suc n) Anything handle_command_open_process
  unfolding handle_command_open_process
  open_process-Leads =
      bind_any-Leads _ _ (read_word-Leads 4)
        λ pid. bind-Leads _ _ (store_open_process-Leads pid) λ h _. send_word-Leads texts 4 h

  memory_contents-Leads :
      {n : ℕ} (size count : ℕ) (bs : List ℕ)
      → IsText bs
      → Leads {m = m} IsText s n n Anything (send_memory_contents size count bs)
  unfolding send_memory_contents
  memory_contents-Leads size count bs text = search (leads_rules, texts.part) depth 7

  read_memory-Leads :
      {n : ℕ} (h address size : ℕ)
      → Leads {m = m} IsText s n n Anything (read_memory h address size)
  unfolding read_memory
  read_memory-Leads h address size = bind_any-Leads _ _ (asks-Leads (get_process_id h)) λ pid.
      bind-Leads _ _ (waits-Leads _ λ d r e. device.read pid address size d r e)
        λ r text. memory_contents-Leads size r.0 r.1 text

  pub read_process_memory-Leads :
      {n : ℕ} → Leads {m = m} IsText s n n Anything handle_command_read_process_memory
  unfolding handle_command_read_process_memory
  read_process_memory-Leads = search (leads_rules, read_memory-Leads) depth 12

  write_memory-Leads :
      {n : ℕ} (h address size : ℕ) (bs : List ℕ)
      → Leads {m = m} IsText s n n Anything (write_memory h address size bs)
  unfolding write_memory
  write_memory-Leads h address size bs = search leads_rules depth 7

  pub write_process_memory-Leads :
      {n : ℕ} → Leads {m = m} IsText s n n Anything handle_command_write_process_memory
  unfolding handle_command_write_process_memory
  write_process_memory-Leads = search (leads_rules, write_memory-Leads) depth 9

  pub symbol_list_from_file-Leads :
      {n : ℕ} → Leads {m = m} IsText s n n Anything handle_command_get_symbol_list_from_file
  unfolding handle_command_get_symbol_list_from_file
  symbol_list_from_file-Leads = search leads_rules depth 7
