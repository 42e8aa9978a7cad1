-- ===== src/Client/Answers/Snapshots.antt =====
-- The handlers that make a snapshot or close a handle answer as the specification says.
use ceserver_pcileech.Prelude.{ℕ, ◌<◌, ◌^◌, ◌≡◌, refl, List, [], ◌++◌, false, if◌then◌else◌, length}
use ceserver_pcileech.Prelude.Bytes.{le_bytes}
use ceserver_pcileech.ClientState.{close_handle, store_process_snapshot, store_module_snapshot}
use ceserver_pcileech.Machine.{Machine, NetLaws}
use ceserver_pcileech.Client.Monad.{Ctx, ◌>>=◌, ◌>>◌, updates, calls, modifies, send_word, for_each}
use ceserver_pcileech.Client.Facts.{
  Facts, facts, Does, bind-Does, pure-Does, updates-Does, calls-Does, modifies-Does, send_word-Does,
  concat_map,
}
use ceserver_pcileech.Client.Facts.Blocks.{
  read-Does, then-Does, if-Does, cond-Does, Replies-append, Replies-for_each,
}
use ceserver_pcileech.Client.Protection.{has_bits}
use ceserver_pcileech.Client.Send.{send_module32_entry, send_thread32_entry, send_module_region}
use ceserver_pcileech.Client.Snapshots.{
  handle_command_close_handle, make_snapshot, handle_command_tool_help32_snapshot, send_thread_list,
  send_module_list, send_process_snapshot, handle_command_tool_help32_snapshot_ex,
  handle_command_start_debug, th32cs_snapprocess, th32cs_snapthread, th32cs_snapmodule,
}
use ceserver_pcileech.Client.Spec.{
  answer, closes_handle, making_snapshot, storing_processes, storing_modules, makes_snapshot,
  makes_snapshot_ex, starts_debug, region_reply, end_of_modules, snapshot_ex_answer, replying,
}
use ceserver_pcileech.Client.Answers.Entries.{
  send_module_region-Replies, send_end_of_modules-Replies,
}

module _ {m : Machine} (laws : NetLaws m) where
  module _ (rest : List ℕ) (c : Ctx m) (s : Facts m) (p : facts laws c ≡ s) where
    pub close_handle-Does :
        (h : ℕ)
        → s.pending ≡ le_bytes 4 h ++ rest
        → h < 256 ^ 4
        → Does laws handle_command_close_handle c tt
            (answer (closes_handle h) (record s { pending = rest })).1
    unfolding handle_command_close_handle
    close_handle-Does h q fits = read-Does laws 4 h rest _ c s tt _ p q fits λ c' p'.
        then-Does laws (modifies (close_handle h)) _ c' tt _ _
          (modifies-Does laws (close_handle h) c' _ p') λ c'' p''. send_word-Does laws 4 1 c'' _ p''

    pub start_debug-Does :
        (h : ℕ)
        → s.pending ≡ le_bytes 4 h ++ rest
        → h < 256 ^ 4
        → Does laws handle_command_start_debug c tt
            (answer (starts_debug h) (record s { pending = rest })).1
    unfolding handle_command_start_debug
    start_debug-Does h q fits =
        read-Does laws 4 h rest _ c s tt _ p q fits λ c' p'. send_word-Does laws 4 h c' _ p'

  module _ (c : Ctx m) (s : Facts m) (p : facts laws c ≡ s) where
    make_snapshot-Does :
        (flags pid : ℕ)
        → Does laws
            (make_snapshot flags pid)
            c
            (making_snapshot flags pid s).0
            (making_snapshot flags pid s).1
    unfolding make_snapshot
    make_snapshot-Does flags pid =
        if-Does laws (has_bits flags th32cs_snapprocess) _ _ c (storing_processes s) _
          (bind-Does laws (calls m.get_process_snapshot) (λ xs. updates (store_process_snapshot xs))
            c _ _ _ _ (calls-Does laws m.get_process_snapshot c s p)
            (λ c' p'. updates-Does laws (store_process_snapshot _) c' _ p'))
          (if-Does laws (has_bits flags th32cs_snapmodule) _ _ c (storing_modules pid s) (0, s)
            (bind-Does laws (calls (m.get_module_snapshot pid))
              (λ xs. updates (store_module_snapshot xs)) c _ _ _ _
              (calls-Does laws (m.get_module_snapshot pid) c s p)
              (λ c' p'. updates-Does laws (store_module_snapshot _) c' _ p'))
            (pure-Does laws 0 c s p))

    send_thread_list-Does :
        (pid : ℕ)
        → let r = m.get_thread_snapshot pid s.mem in
          Does laws (send_thread_list pid) c tt (
            replying
              (le_bytes 4 (length r.0) ++ concat_map (λ t. le_bytes 4 t.tid) r.0)
              (record s { mem = r.1 }))
    unfolding send_thread_list
    send_thread_list-Does pid =
        let r = m.get_thread_snapshot pid s.mem in
        bind-Does laws (calls (m.get_thread_snapshot pid))
          (λ xs. send_word 4 (length xs) >> for_each xs (λ t. send_thread32_entry t.tid)) c _ _ _ _
          (calls-Does laws (m.get_thread_snapshot pid) c s p)
          λ c' p'.
            Replies-append laws (send_word 4 (length r.0))
              (for_each r.0 (λ t. send_thread32_entry t.tid)) _ _
              (send_word-Does laws 4 (length r.0))
              (Replies-for_each laws (λ t. send_thread32_entry t.tid) (λ t. le_bytes 4 t.tid) r.0
                (λ t. unfold send_thread32_entry in send_word-Does laws 4 t.tid))
              c' (record s { mem = r.1 }) p'

    send_module_list-Does :
        (pid : ℕ)
        → let r = m.get_module_snapshot pid s.mem in
          Does laws
            (send_module_list pid)
            c
            tt
            (replying (concat_map region_reply r.0 ++ end_of_modules) (record s { mem = r.1 }))
    unfolding send_module_list
    send_module_list-Does pid =
        let r = m.get_module_snapshot pid s.mem in
        bind-Does laws (calls (m.get_module_snapshot pid))
          (λ xs. for_each xs send_module_region >> send_module32_entry false 0 0 0 0 []) c _ _ _ _
          (calls-Does laws (m.get_module_snapshot pid) c s p)
          λ c' p'.
            Replies-append laws (for_each r.0 send_module_region)
              (send_module32_entry false 0 0 0 0 []) _ _
              (Replies-for_each laws send_module_region region_reply r.0
                (send_module_region-Replies laws))
              (send_end_of_modules-Replies laws) c' (record s { mem = r.1 }) p'

    send_process_snapshot-Does :
        let (h, s') = storing_processes s in
        Does laws send_process_snapshot c tt (replying (le_bytes 4 h) s')
    unfolding send_process_snapshot
    send_process_snapshot-Does =
        bind-Does laws (calls m.get_process_snapshot)
          (λ xs. updates (store_process_snapshot xs) >>= (λ h. send_word 4 h)) c _ _ _ _
          (calls-Does laws m.get_process_snapshot c s p)
          (λ c' p'.
            bind-Does laws (updates (store_process_snapshot _)) (λ h. send_word 4 h) c' _ _ _ _
              (updates-Does laws (store_process_snapshot _) c' _ p')
              (λ c'' p''. send_word-Does laws 4 _ c'' _ p''))

    snapshot_ex-Does :
        (flags pid : ℕ)
        → Does laws
            (if has_bits flags th32cs_snapthread
              then send_thread_list pid
              else if has_bits flags th32cs_snapmodule
              then send_module_list pid
              else send_process_snapshot)
            c
            tt
            (snapshot_ex_answer flags pid s)
    snapshot_ex-Does flags pid =
        cond-Does laws (has_bits flags th32cs_snapthread) (send_thread_list pid) _ c _ _
          (send_thread_list-Does pid)
          (cond-Does laws (has_bits flags th32cs_snapmodule) (send_module_list pid)
            send_process_snapshot c _ _ (send_module_list-Does pid) send_process_snapshot-Does)

  module _ (rest : List ℕ) (c : Ctx m) (s : Facts m) (p : facts laws c ≡ s) where
    pub snapshot-Does :
        (flags pid : ℕ)
        → s.pending ≡ le_bytes 4 flags ++ (le_bytes 4 pid ++ rest)
        → (flags < 256 ^ 4) × (pid < 256 ^ 4)
        → Does laws handle_command_tool_help32_snapshot c tt
            (answer (makes_snapshot flags pid) (record s { pending = rest })).1
    unfolding handle_command_tool_help32_snapshot
    snapshot-Does flags pid q fits = read-Does laws 4 flags _ _ c s tt _ p q fits.0 λ c' p'.
        read-Does laws 4 pid rest _ c' _ tt _ p' refl fits.1 λ c'' p''.
          bind-Does laws (make_snapshot flags pid) (λ h. send_word 4 h) c'' _ _ _ _
            (make_snapshot-Does c'' _ p'' flags pid) λ d r. send_word-Does laws 4 _ d _ r

    pub snapshot_ex_handler-Does :
        (flags pid : ℕ)
        → s.pending ≡ le_bytes 4 flags ++ (le_bytes 4 pid ++ rest)
        → (flags < 256 ^ 4) × (pid < 256 ^ 4)
        → Does laws handle_command_tool_help32_snapshot_ex c tt
            (answer (makes_snapshot_ex flags pid) (record s { pending = rest })).1
    unfolding handle_command_tool_help32_snapshot_ex
    snapshot_ex_handler-Does flags pid q fits =
        read-Does laws 4 flags _ _ c s tt _ p q fits.0 λ c' p'.
          read-Does laws 4 pid rest _ c' _ tt _ p' refl fits.1
            λ c'' p''. snapshot_ex-Does c'' _ p'' flags pid
