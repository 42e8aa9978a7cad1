-- ===== src/Memory/Api.antt =====
-- Class Memory behind the interface that a Client uses, for a client whose reads do not meet those of
-- other clients in the backlog.
use ceserver_pcileech.Prelude.{ℕ, suc, ◌≤◌, ◌<◌, ◌^◌, ◌≡◌, List, Option, none, some, take}
use ceserver_pcileech.Machine.{MemoryApi}
use ceserver_pcileech.Memory.Backlog.{BacklogItem, Printing, max_bytes_per_dispatch}
use ceserver_pcileech.Memory.Device.{
  Device, get_process_snapshot, get_module_snapshot, get_thread_snapshot, write, get_memory_model,
}
use ceserver_pcileech.Memory.Device.Results.{DeviceLaws}
use ceserver_pcileech.Memory.Alone.{found, read_alone, read_alone_lem, read_alone-blocked}

-- `place` is where the backlog's map puts an entry, and `freed` says of a read whether its buffer is
-- given back before it is copied, and what it holds then. The loop of the dispatcher runs for one round
-- and `rounds` more.
module _ (d : Device) (printing : Printing) (place : ℕ)
    (freed : BacklogItem → d.State → Option (ℕ → ℕ)) (rounds : ℕ) where
  unfoldable pub read : ℕ → ℕ → ℕ → d.State → Option ((ℕ × List ℕ) × d.State)
  read pid address size s =
      read_alone d freed printing place (suc rounds)
        (record { pid = pid; address = address; size = size }) s

  abbrev pub memory_api : MemoryApi
  memory_api = record {
    Mem = d.State;
    get_process_snapshot = get_process_snapshot d;
    get_module_snapshot = get_module_snapshot d;
    get_thread_snapshot = get_thread_snapshot d;
    read = read;
    write = write d;
    get_memory_model = get_memory_model d;
  }

  -- Class Memory keeps the promise of its interface, on a device whose reads do not report more bytes
  -- than they were asked for: a read of less than a gigabyte returns, with no more bytes than asked.
  pub read_returns_lem :
      (laws : DeviceLaws d) (pid address size : ℕ) (s : d.State)
      → size < max_bytes_per_dispatch
      → (r : ℕ × List ℕ) × (s' : d.State) × (read pid address size s ≡ some (r, s')) × (r.0 ≤ size)
  unfolding read
  read_returns_lem laws pid address size s small =
      let item : BacklogItem = record { pid = pid; address = address; size = size } in
      let r = d.mem_read_ex pid address size s in
      (
        (r.0.0, take r.0.0 (take size (found (freed item s) r.0.1))),
        d.mem_free r.1,
        read_alone_lem d freed printing place rounds item s small,
        laws.mem_read_ex-le pid address size s,
      )

  -- It makes no promise for more: a read of a gigabyte or more waits after any number of rounds.
  pub read_never :
      (pid address size : ℕ) (s : d.State)
      → max_bytes_per_dispatch ≤ size
      → size < 2 ^ 64
      → read pid address size s ≡ none
  unfolding read
  read_never pid address size s le lt =
      read_alone-blocked d freed printing place (suc rounds)
        (record { pid = pid; address = address; size = size }) s le lt
