-- ===== src/Client/Answers/Entries.antt =====
-- The entries of the lists of processes and regions on the wire.
use ceserver_pcileech.Prelude.{
  ℕ, List, [], ◌∷◌, ◌++◌, Bool, true, false, append-nil, Option, none, some,
}
use ceserver_pcileech.Memory.Region.{ProcessInfo, MemoryRegion}
use ceserver_pcileech.Commands.Layout.{process_entry_bytes, module_entry_bytes}
use ceserver_pcileech.Machine.{Machine, NetLaws}
use ceserver_pcileech.Client.Monad.{pure, send}
use ceserver_pcileech.Client.Facts.{send-Does}
use ceserver_pcileech.Client.Facts.Blocks.{Replies, Replies-append, Replies-pure}
use ceserver_pcileech.Client.Send.{
  send_process32_entry, send_module32_entry, send_module_region, process_entry, module_entry,
}
use ceserver_pcileech.Client.Snapshots.{c_str, send_process_entry, send_module_entry}
use ceserver_pcileech.Client.Spec.{process_reply, region_reply, module_reply, end_of_modules}

module _ {m : Machine} (laws : NetLaws m) where
  -- What the entries of the lists look like on the wire.
  pub send_process32_entry-Replies :
      (b : Bool) (pid : ℕ) (name : List ℕ)
      → Replies laws
          (send_process32_entry b pid name)
          (process_entry_bytes (process_entry b pid name) ++ name)
  unfolding send_process32_entry
  send_process32_entry-Replies b pid [] =
      Replies-append laws (send (process_entry_bytes (process_entry b pid []))) (pure tt) _ []
        (send-Does laws _) (Replies-pure laws)
  send_process32_entry-Replies b pid (x ∷ xs) =
      Replies-append laws (send (process_entry_bytes (process_entry b pid (x ∷ xs))))
        (send (x ∷ xs)) _ (x ∷ xs) (send-Does laws _) (send-Does laws (x ∷ xs))

  pub send_module32_entry-Replies :
      (b : Bool) (base part size offset : ℕ) (name : List ℕ)
      → Replies laws
          (send_module32_entry b base part size offset name)
          (module_entry_bytes (module_entry b base part size name) ++ name)
  unfolding send_module32_entry
  send_module32_entry-Replies b base part size offset [] =
      Replies-append laws (send (module_entry_bytes (module_entry b base part size []))) (pure tt) _
        [] (send-Does laws _) (Replies-pure laws)
  send_module32_entry-Replies b base part size offset (x ∷ xs) =
      Replies-append laws (send (module_entry_bytes (module_entry b base part size (x ∷ xs))))
        (send (x ∷ xs)) _ (x ∷ xs) (send-Does laws _) (send-Does laws (x ∷ xs))

  pub send_module_region-Replies :
      (r : MemoryRegion) → Replies laws (send_module_region r) (region_reply r)
  unfolding send_module_region
  send_module_region-Replies r =
      send_module32_entry-Replies true r.start_addr r.part r.region_size r.file_offset r.name

  pub send_end_of_processes-Replies :
      Replies laws (send_process32_entry false 0 []) (process_reply none)
  send_end_of_processes-Replies =
      rw (← append-nil (process_reply none)) (send_process32_entry-Replies false 0 [])

  pub send_end_of_modules-Replies :
      Replies laws (send_module32_entry false 0 0 0 0 []) end_of_modules
  send_end_of_modules-Replies =
      rw (← append-nil end_of_modules) (send_module32_entry-Replies false 0 0 0 0 [])

  pub send_process_entry-Replies :
      (e : Option ProcessInfo) → Replies laws (send_process_entry e) (process_reply e)
  send_process_entry-Replies none = send_end_of_processes-Replies
  send_process_entry-Replies (some r) = send_process32_entry-Replies true r.pid (c_str r.name)

  pub send_module_entry-Replies :
      (e : Option MemoryRegion) → Replies laws (send_module_entry e) (module_reply e)
  send_module_entry-Replies none = send_end_of_modules-Replies
  send_module_entry-Replies (some r) = send_module_region-Replies r
