-- ===== src/Tests/Reads.antt =====
-- The theorems on the backlog and the device, at concrete ones.
use ceserver_pcileech.Prelude.{
  ℕ, zero, suc, ◌≡◌, refl, ap, List, [], ◌∷◌, true, arith, none, some, length, replicate,
}
use ceserver_pcileech.Prelude.Bytes.{codes}
use ceserver_pcileech.Memory.Backlog.{
  BacklogItem, Backlog, Printing, backlog_key, find, request, dispatch_round, dispatch_rounds,
}
use ceserver_pcileech.Memory.Backlog.Keys.{NoColon, PrintingLaws, ItemFits, Keyed, request_lem}
use ceserver_pcileech.Memory.Backlog.Batch.{IsBatch, dispatch_round-IsBatch}
use ceserver_pcileech.Memory.Backlog.Progress.{dispatch_rounds-blocked}
use ceserver_pcileech.Memory.Device.{Device, generate_memory_map}
use ceserver_pcileech.Memory.Device.Results.{DeviceLaws, IsBalanced, generate_memory_map-IsBalanced}
use ceserver_pcileech.Memory.Device.Reads.{MemoryStays}
use ceserver_pcileech.Memory.Handover.{Handover, Reachable, read_freed_iff}
use ceserver_pcileech.Prelude.{◌↔◌}
use ceserver_pcileech.Memory.Alone.{found, overwritten, read_alone, read_alone_lem}
use ceserver_pcileech.Tests.Toy.{writable}

abbrev pub small : BacklogItem
small = record { pid = 7; address = 4096; size = 8 }

abbrev pub other : BacklogItem
other = record { pid = 9; address = 4096; size = 8 }

abbrev huge : BacklogItem
huge = record { pid = 7; address = 0; size = 4000000000 }

abbrev two_waiting : Backlog
two_waiting = (codes "a", small) ∷ (codes "b", other) ∷ []

dispatch_round-IsBatch_example : IsBatch 7 (dispatch_round two_waiting).0
dispatch_round-IsBatch_example =
    dispatch_round-IsBatch (codes "a", small) ((codes "b", other) ∷ [])
      (omega arith, (omega arith, tt))

dispatch_rounds-blocked_example :
    dispatch_rounds 100 ((codes "a", huge) ∷ two_waiting) ≡ (codes "a", huge) ∷ two_waiting
dispatch_rounds-blocked_example =
    dispatch_rounds-blocked 100 (codes "a", huge) two_waiting (omega arith) (omega arith)

-- Numbers in unary.
abbrev tally : ℕ → List ℕ
tally n = replicate n 49

abbrev pub unary : Printing
unary = record { print_int = tally; print_unsigned = tally }

pub replicate-NoColon : (n : ℕ) → NoColon (tally n)
replicate-NoColon zero = tt
replicate-NoColon (suc n) = (refl, replicate-NoColon n)

length-replicate : (n : ℕ) → length (tally n) ≡ n
length-replicate zero = refl
length-replicate (suc n) = omega (arith, length-replicate n)

pub replicate-distinct : (n k : ℕ) → tally n ≡ tally k → n ≡ k
replicate-distinct n k e = omega (arith, ap length e, length-replicate n, length-replicate k)

abbrev pub unary_laws : PrintingLaws unary
unary_laws = record {
  int_digits = replicate-NoColon;
  unsigned_digits = replicate-NoColon;
  int_distinct = λ n k f g e. replicate-distinct n k e;
  unsigned_distinct = λ n k f g e. replicate-distinct n k e;
}

abbrev pub small_fits : ItemFits small
small_fits = record { pid = omega arith; address = omega arith; size = omega arith }

request_lem_example :
    ((request unary 0 small []).0 ≡ small)
    × (find (backlog_key unary small) (request unary 0 small []).1 ≡ some small)
    × Keyed unary (request unary 0 small []).1
request_lem_example = request_lem unary_laws 0 small [] small_fits tt

-- A device that reads zeros.
abbrev pub zeros : Device
zeros = record {
  State = Unit;
  Handle = Unit;
  ScatterHandle = Unit;
  mmap_path = codes "m";
  initialize = λ args s. (some tt, s);
  close = λ h s. s;
  get_phys_mem = λ h s. (some (record { version = 1; parts = (4096, 4096) ∷ [] }), s);
  mem_free = λ s. s;
  physmem_version = 1;
  pid_count = λ s. (some 1, s);
  pid_list = λ n s. (some (7 ∷ []), s);
  user_image_path = λ pid s. (some (codes "a"), s);
  get_vad_u = λ pid s. (some (writable ∷ []), s);
  get_thread = λ pid s. (none, s);
  mem_read_ex = λ pid a n s. ((n, replicate n 0), s);
  mem_write = λ bs pid a n s. (true, s);
  scatter_initialize = λ pid s. (tt, s);
  scatter_prepare = λ h a n s. (true, s);
  scatter_execute = λ h s. (true, s);
  scatter_read = λ h a n s. ((n, replicate n 0), s);
  scatter_close_handle = λ h s. s;
  memory_model_of = λ pid s. (some 3, s);
  memorymodel_na = 0;
  memorymodel_x86pae = 2;
  memorymodel_arm64 = 4;
  memorymodel_x64 = 3;
  memorymodel_x86 = 1;
}

abbrev pub zeros_laws : DeviceLaws zeros
zeros_laws = record {
  mem_read_ex-le = λ pid a n s. omega arith;
  scatter_read-le = λ h a n s. omega arith;
}

generate_memory_map-IsBalanced_example :
    IsBalanced (generate_memory_map zeros tt).0.0 (generate_memory_map zeros tt).0.1
generate_memory_map-IsBalanced_example = generate_memory_map-IsBalanced zeros tt

-- A device whose bytes are their addresses.
abbrev numbered : Device
numbered = record zeros {
  mem_read_ex = λ pid a n s. ((n, replicate n a), s);
  scatter_read = λ h a n s. ((n, replicate n a), s);
}

abbrev numbers_stay : MemoryStays numbered (λ pid a n. (n, replicate n a))
numbers_stay = record { alone = λ pid a n s. refl; scattered = λ pid a n made s. refl }

abbrev next : BacklogItem
next = record { pid = 7; address = 8192; size = 4 }

read_freed_iff_example :
    ((s : Handover) × Reachable (small ∷ other ∷ []) s × (s.read_freed ≡ true))
    ↔ (length (other ∷ []) ≡ 0)
read_freed_iff_example = read_freed_iff small (other ∷ [])

-- The whole way of a read.
read_alone_lem_example :
    read_alone zeros (λ item s. some (λ i. 170)) unary 0 3 small tt
    ≡ some ((8, replicate 8 170), tt)
unfolding found overwritten
read_alone_lem_example =
    read_alone_lem zeros (λ item s. some (λ i. 170)) unary 0 2 small tt (omega arith)
