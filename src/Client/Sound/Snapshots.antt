-- ===== src/Client/Sound/Snapshots.antt =====
-- The handlers that make, walk and close snapshots, and those with a fixed answer.
use ceserver_pcileech.Prelude.{ℕ, suc, List, [], Bool, false}
use ceserver_pcileech.ClientState.{ClientState, store_process_snapshot, store_module_snapshot}
use ceserver_pcileech.Machine.{Machine}
use ceserver_pcileech.Client.Monad.{calls, updates, ◌>>=◌}
use ceserver_pcileech.Client.Snapshots.{
  make_snapshot, handle_command_tool_help32_snapshot, send_thread_list, send_module_list,
  send_process_snapshot, handle_command_tool_help32_snapshot_ex, send_next_process,
  handle_command_iterate_processes_next, send_next_module, handle_command_iterate_modules_next,
  handle_command_close_handle, handle_command_get_abi, handle_command_set_connection_name,
  handle_command_start_debug, handle_command_get_options,
}
use ceserver_pcileech.Client.Sound.{
  Texts, DeviceTexts, Leads, Anything, bind-Leads, bind_any-Leads, read_word-Leads, more-Leads,
  pure-Leads, then_any-Leads, when-Leads, if-Leads,
}
use ceserver_pcileech.Client.Sound.Steps.{
  leads_rules, reset_process_iterator-Leads, reset_module_iterator-Leads, calls-Leads,
  next_process_info-Leads, next_memory_region-Leads, for_each-Leads, for_each_any-Leads,
  send_word-Leads, store_process_snapshot-Leads, store_module_snapshot-Leads, set_name-Leads,
}
use ceserver_pcileech.Client.Sound.Replies.{
  process32_entry-Leads, module32_entry-Leads, thread32_entry-Leads, module_region-Leads,
  empty_text, process_entry-Leads, module_entry-Leads,
}

module _ {m : Machine} {IsText : List ℕ → Type 0} (texts : Texts IsText)
    (device : DeviceTexts IsText m) {s : ClientState} where
  process_snapshot-Leads :
      {n : ℕ}
      → Leads {m = m} IsText s n (suc n) Anything (
          calls {m = m} m.get_process_snapshot
          >>= (λ snapshot. updates (store_process_snapshot snapshot)))
  process_snapshot-Leads =
      bind-Leads _ _ (calls-Leads _ device.names.process_names)
        λ snapshot named. store_process_snapshot-Leads snapshot named

  module_snapshot-Leads :
      {n : ℕ} (pid : ℕ)
      → Leads {m = m} IsText s n (suc n) Anything (
          calls {m = m} (m.get_module_snapshot pid)
          >>= (λ snapshot. updates (store_module_snapshot snapshot)))
  module_snapshot-Leads pid =
      bind-Leads _ _ (calls-Leads _ (device.names.region_names pid))
        λ snapshot named. store_module_snapshot-Leads snapshot named

  make_snapshot-Leads :
      {n : ℕ} (flags pid : ℕ) → Leads {m = m} IsText s n (suc n) Anything (make_snapshot flags pid)
  unfolding make_snapshot
  make_snapshot-Leads flags pid =
      if-Leads _ _ _ process_snapshot-Leads
        (if-Leads _ _ _ (module_snapshot-Leads pid) (more-Leads _ (pure-Leads 0 tt)))

  pub tool_help32_snapshot-Leads :
      {n : ℕ} → Leads {m = m} IsText s n (suc n) Anything handle_command_tool_help32_snapshot
  unfolding handle_command_tool_help32_snapshot
  tool_help32_snapshot-Leads = bind_any-Leads _ _ (read_word-Leads 4) λ flags.
      bind_any-Leads _ _ (read_word-Leads 4)
        λ pid. bind-Leads _ _ (make_snapshot-Leads flags pid) λ h _. send_word-Leads texts 4 h

  thread_list-Leads : {n : ℕ} (pid : ℕ) → Leads {m = m} IsText s n n Anything (send_thread_list pid)
  unfolding send_thread_list
  thread_list-Leads pid = search (leads_rules, for_each_any-Leads, thread32_entry-Leads)

  module_list-Leads : {n : ℕ} (pid : ℕ) → Leads {m = m} IsText s n n Anything (send_module_list pid)
  unfolding send_module_list
  module_list-Leads pid =
      bind-Leads _ _ (calls-Leads _ (device.names.region_names pid)) λ snapshot named.
        then_any-Leads _ _
          (for_each-Leads texts (λ r. r.name) snapshot _ named λ r. module_region-Leads texts r)
          (module32_entry-Leads texts false 0 0 0 0 [] (empty_text texts))

  send_process_snapshot-Leads :
      {n : ℕ} → Leads {m = m} IsText s n (suc n) Anything send_process_snapshot
  unfolding send_process_snapshot
  send_process_snapshot-Leads =
      bind-Leads _ _ (calls-Leads _ device.names.process_names) λ snapshot named.
        bind-Leads _ _ (store_process_snapshot-Leads snapshot named)
          λ h _. send_word-Leads texts 4 h

  pub tool_help32_snapshot_ex-Leads :
      {n : ℕ} → Leads {m = m} IsText s n (suc n) Anything handle_command_tool_help32_snapshot_ex
  unfolding handle_command_tool_help32_snapshot_ex
  tool_help32_snapshot_ex-Leads = bind_any-Leads _ _ (read_word-Leads 4) λ flags.
      bind_any-Leads _ _ (read_word-Leads 4) λ pid.
        if-Leads _ _ _ (more-Leads _ (thread_list-Leads pid))
          (if-Leads _ _ _ (more-Leads _ (module_list-Leads pid)) send_process_snapshot-Leads)

  next_process-Leads :
      {n : ℕ} (b : Bool) (h : ℕ) → Leads {m = m} IsText s n n Anything (send_next_process b h)
  unfolding send_next_process
  next_process-Leads b h =
      then_any-Leads _ _ (when-Leads b _ (reset_process_iterator-Leads h))
        (bind-Leads _ _ (next_process_info-Leads h) λ o named. process_entry-Leads texts o named)

  pub iterate_processes_next-Leads :
      {n : ℕ} (b : Bool)
      → Leads {m = m} IsText s n n Anything (handle_command_iterate_processes_next b)
  unfolding handle_command_iterate_processes_next
  iterate_processes_next-Leads b =
      search (leads_rules, next_process-Leads, process32_entry-Leads, empty_text texts)

  next_module-Leads :
      {n : ℕ} (b : Bool) (h : ℕ) → Leads {m = m} IsText s n n Anything (send_next_module b h)
  unfolding send_next_module
  next_module-Leads b h =
      then_any-Leads _ _ (when-Leads b _ (reset_module_iterator-Leads h))
        (bind-Leads _ _ (next_memory_region-Leads h) λ o named. module_entry-Leads texts o named)

  pub iterate_modules_next-Leads :
      {n : ℕ} (b : Bool)
      → Leads {m = m} IsText s n n Anything (handle_command_iterate_modules_next b)
  unfolding handle_command_iterate_modules_next
  iterate_modules_next-Leads b =
      search (leads_rules, next_module-Leads, module32_entry-Leads, empty_text texts)

  pub close_handle-Leads : {n : ℕ} → Leads {m = m} IsText s n n Anything handle_command_close_handle
  unfolding handle_command_close_handle
  close_handle-Leads = search leads_rules

  pub abi-Leads : {n : ℕ} → Leads {m = m} IsText s n n Anything handle_command_get_abi
  unfolding handle_command_get_abi
  abi-Leads = search leads_rules

  pub start_debug-Leads : {n : ℕ} → Leads {m = m} IsText s n n Anything handle_command_start_debug
  unfolding handle_command_start_debug
  start_debug-Leads = search leads_rules

  pub options-Leads : {n : ℕ} → Leads {m = m} IsText s n n Anything handle_command_get_options
  unfolding handle_command_get_options
  options-Leads = search leads_rules

  pub set_connection_name-Leads :
      {n : ℕ} → Leads {m = m} IsText s n n Anything handle_command_set_connection_name
  unfolding handle_command_set_connection_name
  set_connection_name-Leads = search (leads_rules, set_name-Leads) depth 9
