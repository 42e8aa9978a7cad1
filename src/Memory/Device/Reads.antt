-- ===== src/Memory/Device/Reads.antt =====
-- The two branches of Memory::dispatch against reads one by one.
use ceserver_pcileech.Prelude.{ℕ, ◌%◌, ◌^◌, ◌≡◌, List, map}
use ceserver_pcileech.Memory.Backlog.{BacklogItem}
use ceserver_pcileech.Memory.Device.{Device}

-- What the library documents of a memory that stays as it is: a read, alone or scattered, gives what
-- the memory of the process holds; a scatter handle reads the process that it was made for.
pub record MemoryStays (d : Device) (memory : ℕ → ℕ → ℕ → ℕ × List ℕ) : Type 0 where
  pub alone :
      (pid address size : ℕ) (s : d.State)
      → (d.mem_read_ex pid address size s).0 ≡ memory pid address size
  pub scattered :
      (pid address size : ℕ) (made s : d.State)
      → (d.scatter_read (d.scatter_initialize pid made).0 address size s).0
        ≡ memory pid address size

-- One read of each item, in the order of the batch. The size is a DWORD.
abbrev pub one_by_one : (ℕ → ℕ → ℕ → ℕ × List ℕ) → ℕ → List BacklogItem → List (ℕ × List ℕ)
one_by_one memory pid items = map (λ item. memory pid item.address (item.size % 2 ^ 32)) items
