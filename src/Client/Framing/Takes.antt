-- ===== src/Client/Framing/Takes.antt =====
-- The parts of the replies, as their reader takes them.
use ceserver_pcileech.Prelude.{
  ℕ, ◌*◌, ◌^◌, ◌≤◌, ◌<◌, ◌≡◌, sym, ap, ◌∙◌, List, [], ◌++◌, Bool, true, false, leb, Option, none,
  some, Bool-cases, inl, inr, length, take, append_assoc, append-nil, arith, min, length-take,
}
use ceserver_pcileech.Prelude.Bytes.{le_bytes, length-le_bytes}
use ceserver_pcileech.Memory.Region.{ProcessInfo, MemoryRegion}
use ceserver_pcileech.Client.Send.{query_output}
use ceserver_pcileech.Client.Region.{truncated_name}
use ceserver_pcileech.Client.Snapshots.{c_str, strlen}
use ceserver_pcileech.Client.Spec.{
  Request, asks_region, process_reply, module_reply, query_reply, memory_reply,
}
use ceserver_pcileech.Client.Framing.{skip_query, skip, skip_counted, skip_named}
use ceserver_pcileech.Client.Framing.Lengths.{
  IsShort, skip-append, skip_counted-le_bytes, skip-process_row, skip-module_row,
}
use ceserver_pcileech.Client.Framing.Structs.{skip_query-alone, skip_query-named}
use ceserver_pcileech.Client.Names.Entries.{EntryNamed}

-- A reader takes these bytes, whatever follows them.
abbrev pub Takes : (List ℕ → Option (List ℕ)) → List ℕ → Type 0
Takes read bs = (rest : List ℕ) → read (bs ++ rest) ≡ some rest

pub skip_word : (n v : ℕ) → Takes (skip n) (le_bytes n v)
skip_word n v rest = skip-append n (le_bytes n v) rest (length-le_bytes n v)

pub process_reply-Takes :
    (o : Option ProcessInfo)
    → EntryNamed IsShort (λ p. p.name) o
    → Takes (skip_named 8) (process_reply o)
process_reply-Takes none short rest =
    ap (λ bs. skip_named 8 (bs ++ rest)) (sym (append-nil (process_reply none)))
    ∙ skip-process_row false 0 [] rest (omega arith)
process_reply-Takes (some p) short rest =
    skip-process_row true p.pid (c_str p.name) rest
      (omega (arith, short, length-take (strlen p.name) p.name))

pub module_reply-Takes :
    (o : Option MemoryRegion)
    → EntryNamed IsShort (λ r. r.name) o
    → Takes (skip_named 20) (module_reply o)
module_reply-Takes none short rest =
    ap (λ bs. skip_named 20 (bs ++ rest)) (sym (append-nil (module_reply none)))
    ∙ skip-module_row false 0 0 0 [] rest (omega arith)
module_reply-Takes (some r) short rest =
    skip-module_row true r.start_addr r.part r.region_size r.name rest short

pub counted-Takes :
    (w unit n : ℕ) (bs : List ℕ)
    → n < 256 ^ w
    → length bs ≡ n * unit
    → Takes (skip_counted w unit) (le_bytes w n ++ bs)
counted-Takes w unit n bs fits e rest =
    ap (skip_counted w unit) (append_assoc (le_bytes w n) bs rest)
    ∙ skip_counted-le_bytes w unit n bs rest fits e

pub memory_reply-Takes :
    (n : ℕ) (bs : List ℕ)
    → n ≤ length bs
    → n < 256 ^ 4
    → Takes (skip_counted 4 1) (memory_reply (n, bs))
memory_reply-Takes n bs enough fits rest = elim (Bool-cases (leb n 0)) [
  | inl e ↦ rw e (
      ap (λ t. skip_counted 4 1 (t ++ rest)) (sym (append-nil (le_bytes 4 0)))
      ∙ counted-Takes 4 1 0 [] (omega arith) (omega arith) rest)
  | inr e ↦ rw e (counted-Takes 4 1 n (take n bs) fits (ground (arith, length-take n bs)) rest)
]

pub length-truncated_name : (o : Option MemoryRegion) → length (truncated_name o) < 256
unfolding truncated_name
length-truncated_name none = omega arith
length-truncated_name (some r) = omega (arith, length-take (min 127 (length r.name)) r.name)

pub query_reply-Takes :
    (b : Bool) (past_end : List ℕ) (o : Option MemoryRegion)
    → Takes (skip_query b) (query_reply b past_end o)
query_reply-Takes true past_end o rest =
    skip_query-named (query_output past_end o) (truncated_name o) rest (length-truncated_name o)
query_reply-Takes false past_end o rest = skip_query-alone (query_output past_end o) rest

-- Only for a region's name does the protocol need an address other than 0.
abbrev pub AddressGiven : Request → Type 0
AddressGiven (asks_region true h a) = 0 < a
AddressGiven _ = Unit

pub no_name-Takes :
    (b : Bool) (h address : ℕ) (past_end : List ℕ)
    → AddressGiven (asks_region b h address)
    → leb address 0 ≡ true
    → Takes (skip_query b) (query_reply false past_end none)
no_name-Takes true h address past_end given e = absurd (ground arith)
no_name-Takes false h address past_end given e = query_reply-Takes false past_end none

pub no_bytes-Takes : Takes (skip_counted 4 1) (le_bytes 4 0)
no_bytes-Takes rest =
    ap (λ bs. skip_counted 4 1 (bs ++ rest)) (sym (append-nil (le_bytes 4 0)))
    ∙ counted-Takes 4 1 0 [] (omega arith) (omega arith) rest
