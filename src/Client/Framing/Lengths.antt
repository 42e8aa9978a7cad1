-- ===== src/Client/Framing/Lengths.antt =====
-- The structs of the replies, one by one, are as long as their reader takes them to be.
use ceserver_pcileech.Prelude.{
  ℕ, zero, suc, ◌*◌, ◌%◌, ◌^◌, ◌≤◌, ◌<◌, ◌≡◌, refl, sym, ap, ◌∙◌, List, [], ◌∷◌, ◌++◌, Bool, true,
  false, if◌then◌else◌, leb, ◌==◌, some, length, drop-append, length-append, append_assoc,
  append-nil, arith,
}
use ceserver_pcileech.Prelude.Bytes.{le_bytes, length-le_bytes}
use ceserver_pcileech.Commands.Layout.{process_entry_bytes, module_entry_bytes}
use ceserver_pcileech.Commands.RoundTrip.{word-le_bytes}
use ceserver_pcileech.Memory.Region.{MemoryRegion}
use ceserver_pcileech.Client.Send.{process_entry, module_entry, flag}
use ceserver_pcileech.Client.Facts.{concat_map}
use ceserver_pcileech.Client.Names.{AllNamed}
use ceserver_pcileech.Client.Spec.{region_reply, end_of_modules}
use ceserver_pcileech.Client.Framing.{skip, skip_counted, skip_named, skip_modules}

pub skip-append : (n : ℕ) (xs rest : List ℕ) → length xs ≡ n → skip n (xs ++ rest) ≡ some rest
unfolding skip
skip-append n xs rest e =
    let enough : leb n (length (xs ++ rest)) ≡ true = ground (arith, length-append xs rest) in
    rw (enough, ← e) (ap some (drop-append xs rest))

pub skip_counted-le_bytes :
    (w unit v : ℕ) (xs rest : List ℕ)
    → v < 256 ^ w
    → length xs ≡ v * unit
    → skip_counted w unit (le_bytes w v ++ (xs ++ rest)) ≡ some rest
unfolding skip_counted
skip_counted-le_bytes w unit v xs rest fits e =
    rw (skip_counted, word-le_bytes w v (xs ++ rest) fits) (skip-append (v * unit) xs rest e)

pub skip_named-append :
    (n : ℕ) (head name rest : List ℕ)
    → length head ≡ n
    → length name < 256 ^ 4
    → skip_named n (head ++ (le_bytes 4 (length name) ++ (name ++ rest))) ≡ some rest
unfolding skip_named
skip_named-append n head name rest e fits =
    rw
      (
        skip_named,
        skip-append n head (le_bytes 4 (length name) ++ (name ++ rest)) e,
        skip_counted-le_bytes 4 1 (length name) name rest fits (omega arith),
      )
      refl

small : (n : ℕ) → n < 256 ^ 4 → n % 2 ^ 32 ≡ n
small n lt = omega arith

-- The fields in front of the length of a name.
abbrev process_head : Bool → ℕ → List ℕ
process_head has_next pid = le_bytes 4 (flag has_next) ++ le_bytes 4 pid

abbrev module_head : ℕ → ℕ → ℕ → List ℕ
module_head base part size = le_bytes 8 base ++ (le_bytes 4 part ++ le_bytes 4 size)

length-process_head : (b : Bool) (pid : ℕ) → length (process_head b pid) ≡ 8
length-process_head b pid = omega (
  arith,
  length-append (le_bytes 4 (flag b)) (le_bytes 4 pid),
  length-le_bytes 4 (flag b),
  length-le_bytes 4 pid,
)

length-module_head : (base part size : ℕ) → length (module_head base part size) ≡ 16
length-module_head base part size = omega (
  arith,
  length-append (le_bytes 8 base) (le_bytes 4 part ++ le_bytes 4 size),
  length-append (le_bytes 4 part) (le_bytes 4 size),
  length-le_bytes 8 base,
  length-le_bytes 4 part,
  length-le_bytes 4 size,
)

-- An entry with its name.
abbrev process_row : Bool → ℕ → List ℕ → List ℕ
process_row b pid name = process_entry_bytes (process_entry b pid name) ++ name

abbrev module_row : Bool → ℕ → ℕ → ℕ → List ℕ → List ℕ
module_row b base part size name = module_entry_bytes (module_entry b base part size name) ++ name

process_row-append :
    (b : Bool) (pid : ℕ) (name rest : List ℕ)
    → length name < 256 ^ 4
    → process_row b pid name ++ rest
      ≡ process_head b pid ++ (le_bytes 4 (length name) ++ (name ++ rest))
unfolding process_entry_bytes
process_row-append b pid name rest fits = simp (append_assoc, small (length name) fits)

module_row-append :
    (b : Bool) (base part size : ℕ) (name rest : List ℕ)
    → length name < 256 ^ 4
    → module_row b base part size name ++ rest
      ≡ le_bytes 4 (flag b)
        ++ (module_head base part size ++ (le_bytes 4 (length name) ++ (name ++ rest)))
unfolding module_entry_bytes
module_row-append b base part size name rest fits = simp (append_assoc, small (length name) fits)

pub skip-process_row :
    (b : Bool) (pid : ℕ) (name rest : List ℕ)
    → length name < 256 ^ 4
    → skip_named 8 (process_row b pid name ++ rest) ≡ some rest
skip-process_row b pid name rest fits =
    ap (skip_named 8) (process_row-append b pid name rest fits)
    ∙ skip_named-append 8 (process_head b pid) name rest (length-process_head b pid) fits

pub skip-module_row :
    (b : Bool) (base part size : ℕ) (name rest : List ℕ)
    → length name < 256 ^ 4
    → skip_named 20 (module_row b base part size name ++ rest) ≡ some rest
skip-module_row b base part size name rest fits =
    let head = le_bytes 4 (flag b) ++ module_head base part size in
    ap (skip_named 20) (
      module_row-append b base part size name rest fits
      ∙ sym (append_assoc (le_bytes 4 (flag b)) (module_head base part size) _))
    ∙ skip_named-append 20 head name rest
        (omega (
          arith,
          length-append (le_bytes 4 (flag b)) (module_head base part size),
          length-le_bytes 4 (flag b),
          length-module_head base part size,
        ))
        fits

skip_modules-step :
    (fuel : ℕ) (b : Bool) (base part size : ℕ) (name rest : List ℕ)
    → length name < 256 ^ 4
    → skip_modules (suc fuel) (module_row b base part size name ++ rest)
      ≡ (if flag b == 0 then some rest else skip_modules fuel rest)
unfolding skip_modules
skip_modules-step fuel b base part size name rest fits =
    rw
      (
        module_row-append b base part size name rest fits,
        skip_modules,
        word-le_bytes 4 (flag b)
            (module_head base part size ++ (le_bytes 4 (length name) ++ (name ++ rest)))
            (ground arith),
        skip_named-append 16 (module_head base part size) name rest
            (length-module_head base part size) fits,
      )
      refl

abbrev pub IsShort : List ℕ → Type 0
IsShort name = length name < 256 ^ 4

abbrev pub AllShort {ℓ} : {A : Type ℓ} → (A → List ℕ) → List A → Type 0
AllShort = AllNamed IsShort

pub skip_modules-regions :
    (fuel : ℕ) (regions : List MemoryRegion) (rest : List ℕ)
    → AllShort (λ r. r.name) regions
    → length regions < fuel
    → skip_modules fuel ((concat_map region_reply regions ++ end_of_modules) ++ rest) ≡ some rest
skip_modules-regions zero regions rest short lt = absurd (omega arith)
skip_modules-regions (suc fuel) [] rest short lt =
    ap (λ bs. skip_modules (suc fuel) (bs ++ rest)) (sym (append-nil end_of_modules))
    ∙ skip_modules-step fuel false 0 0 0 [] rest (omega arith)
skip_modules-regions (suc fuel) (r ∷ rs) rest (first, short) lt =
    ap (skip_modules (suc fuel)) (
      ap (λ bs. bs ++ rest)
        (append_assoc (region_reply r) (concat_map region_reply rs) end_of_modules)
      ∙ append_assoc (region_reply r) (concat_map region_reply rs ++ end_of_modules) rest)
    ∙ skip_modules-step fuel true r.start_addr r.part r.region_size r.name _ first
    ∙ skip_modules-regions fuel rs rest short (omega arith)

region_reply-pos : (r : MemoryRegion) → 0 < length (region_reply r)
unfolding module_entry_bytes le_bytes
region_reply-pos r = omega arith

end_of_modules-pos : 0 < length end_of_modules
unfolding module_entry_bytes le_bytes
end_of_modules-pos = omega arith

count-le-bytes :
    (regions : List MemoryRegion) → length regions ≤ length (concat_map region_reply regions)
count-le-bytes [] = omega arith
count-le-bytes (r ∷ rs) = omega (
  arith,
  length-append (region_reply r) (concat_map region_reply rs),
  region_reply-pos r,
  count-le-bytes rs,
)

-- The rounds of the reader are enough.
pub regions-lt-bytes :
    (regions : List MemoryRegion) (rest : List ℕ)
    → length regions < length ((concat_map region_reply regions ++ end_of_modules) ++ rest)
regions-lt-bytes regions rest = omega (
  arith,
  length-append (concat_map region_reply regions ++ end_of_modules) rest,
  length-append (concat_map region_reply regions) end_of_modules,
  end_of_modules-pos,
  count-le-bytes regions,
)
