-- ===== src/Client/Answers/Walks.antt =====
-- The handlers that walk through a snapshot.
use ceserver_pcileech.Prelude.{ℕ, ◌<◌, ◌^◌, ◌≡◌, List, [], ◌++◌, Bool, true, false, if◌then◌else◌}
use ceserver_pcileech.Prelude.Bytes.{le_bytes}
use ceserver_pcileech.ClientState.{
  contains_process_info_handle, contains_memory_region_handle, reset_process_iterator,
  reset_module_iterator, next_process_info, next_memory_region,
}
use ceserver_pcileech.Machine.{Machine, NetLaws}
use ceserver_pcileech.Client.Monad.{Ctx, ◌>>=◌, asks, updates, modifies}
use ceserver_pcileech.Client.Facts.{
  Facts, facts, Does, bind-Does, asks-Does, updates-Does, modifies-Does,
}
use ceserver_pcileech.Client.Facts.Blocks.{read-Does, then-Does, cond-Does}
use ceserver_pcileech.Client.Send.{send_process32_entry, send_module32_entry}
use ceserver_pcileech.Client.Snapshots.{
  send_next_process, handle_command_iterate_processes_next, send_next_module,
  handle_command_iterate_modules_next, send_process_entry, send_module_entry,
}
use ceserver_pcileech.Client.Spec.{
  answer, asks_process, asks_module, process_reply, module_reply, replying,
}
use ceserver_pcileech.Client.Answers.Entries.{
  send_end_of_processes-Replies, send_end_of_modules-Replies, send_process_entry-Replies,
  send_module_entry-Replies,
}

module _ {m : Machine} (laws : NetLaws m) where
  module _ (c : Ctx m) (s : Facts m) (p : facts laws c ≡ s) where
    next_process-Does :
        (from_start : Bool) (h : ℕ)
        → let start = if from_start then reset_process_iterator h s.state else s.state in
          let (entry, state) = next_process_info h start in
          Does laws
            (send_next_process from_start h)
            c
            tt
            (replying (process_reply entry) (record s { state = state }))
    unfolding send_next_process
    next_process-Does true h =
        then-Does laws (modifies (reset_process_iterator h))
          (updates (next_process_info h) >>= send_process_entry) c tt _ _
          (modifies-Does laws (reset_process_iterator h) c s p)
          λ c' p'.
            bind-Does laws (updates (next_process_info h)) send_process_entry c' _ _ _ _
              (updates-Does laws (next_process_info h) c' _ p')
              λ c'' p''. send_process_entry-Replies laws _ c'' _ p''
    next_process-Does false h =
        bind-Does laws (updates (next_process_info h)) send_process_entry c _ _ _ _
          (updates-Does laws (next_process_info h) c s p)
          λ c' p'. send_process_entry-Replies laws _ c' _ p'

    next_module-Does :
        (from_start : Bool) (h : ℕ)
        → let start = if from_start then reset_module_iterator h s.state else s.state in
          let (entry, state) = next_memory_region h start in
          Does laws
            (send_next_module from_start h)
            c
            tt
            (replying (module_reply entry) (record s { state = state }))
    unfolding send_next_module
    next_module-Does true h =
        then-Does laws (modifies (reset_module_iterator h))
          (updates (next_memory_region h) >>= send_module_entry) c tt _ _
          (modifies-Does laws (reset_module_iterator h) c s p)
          λ c' p'.
            bind-Does laws (updates (next_memory_region h)) send_module_entry c' _ _ _ _
              (updates-Does laws (next_memory_region h) c' _ p')
              λ c'' p''. send_module_entry-Replies laws _ c'' _ p''
    next_module-Does false h =
        bind-Does laws (updates (next_memory_region h)) send_module_entry c _ _ _ _
          (updates-Does laws (next_memory_region h) c s p)
          λ c' p'. send_module_entry-Replies laws _ c' _ p'

  module _ (rest : List ℕ) (c : Ctx m) (s : Facts m) (p : facts laws c ≡ s) where
    pub processes_next-Does :
        (from_start : Bool) (h : ℕ)
        → s.pending ≡ le_bytes 4 h ++ rest
        → h < 256 ^ 4
        → Does laws
            (handle_command_iterate_processes_next from_start)
            c
            tt
            (answer (asks_process from_start h) (record s { pending = rest })).1
    unfolding handle_command_iterate_processes_next
    processes_next-Does from_start h q fits = read-Does laws 4 h rest _ c s tt _ p q fits λ c' p'.
        bind-Does laws (asks (contains_process_info_handle h))
          (λ known.
            if known then send_next_process from_start h else send_process32_entry false 0 [])
          c' _ _ _ _ (asks-Does laws (contains_process_info_handle h) c' _ p')
          λ c'' p''.
            cond-Does laws (contains_process_info_handle h s.state) (send_next_process from_start h)
              (send_process32_entry false 0 []) c'' _ _ (next_process-Does c'' _ p'' from_start h)
              (send_end_of_processes-Replies laws c'' _ p'')

    pub modules_next-Does :
        (from_start : Bool) (h : ℕ)
        → s.pending ≡ le_bytes 4 h ++ rest
        → h < 256 ^ 4
        → Does laws
            (handle_command_iterate_modules_next from_start)
            c
            tt
            (answer (asks_module from_start h) (record s { pending = rest })).1
    unfolding handle_command_iterate_modules_next
    modules_next-Does from_start h q fits = read-Does laws 4 h rest _ c s tt _ p q fits λ c' p'.
        bind-Does laws (asks (contains_memory_region_handle h))
          (λ known.
            if known then send_next_module from_start h else send_module32_entry false 0 0 0 0 [])
          c' _ _ _ _ (asks-Does laws (contains_memory_region_handle h) c' _ p')
          λ c'' p''.
            cond-Does laws (contains_memory_region_handle h s.state) (send_next_module from_start h)
              (send_module32_entry false 0 0 0 0 []) c'' _ _
              (next_module-Does c'' _ p'' from_start h) (send_end_of_modules-Replies laws c'' _ p'')
