-- ===== src/Prelude/Bytes.antt =====
-- Words as the bytes that hold them in memory on a little-endian machine, and literals as bytes.
use Prim.Native.Nat.{ℕ, zero, suc, ◌+◌, ◌*◌, ◌/◌, ◌%◌, ◌^◌, ◌≤◌, ◌<◌}
use Prim.Native.Char.{code}
use Prim.Native.String.{String}
use mathlib.Core.Path.{◌≡◌, refl, ap}
use mathlib.Core.List.{List, [], ◌∷◌, ◌++◌}
use native.Mathlib.Omega.{arith}
use native.Mathlib.Nat.{pow-suc}
use ceserver_pcileech.Prelude.Lists.{length, take, drop, length-append}

-- The characters of a literal; all of them are ASCII in this program.
abbrev pub codes : String → List ℕ
codes String.[] = []
codes (String.◌∷◌ c s) = code c ∷ codes s

-- The `w` bytes that hold the value `v`.
unfoldable pub le_bytes : ℕ → ℕ → List ℕ
le_bytes zero v = []
le_bytes (suc w) v = (v % 256) ∷ le_bytes w (v / 256)

-- The value that some bytes hold. Bytes left at zero above them do not change it.
unfoldable pub of_le : List ℕ → ℕ
of_le [] = 0
of_le (b ∷ bs) = b + 256 * of_le bs

pub length-le_bytes : (w v : ℕ) → length (le_bytes w v) ≡ w
unfolding le_bytes
length-le_bytes zero v = refl
length-le_bytes (suc w) v = ap suc (length-le_bytes w (v / 256))

pub of_le-le_bytes : (w v : ℕ) → v < 256 ^ w → of_le (le_bytes w v) ≡ v
unfolding le_bytes of_le
of_le-le_bytes zero v h = omega (arith)
of_le-le_bytes (suc w) v h =
    omega (arith, of_le-le_bytes w (v / 256) (omega (arith, pow-suc 256 w)))

-- Reading a word off the front of a stream.
pub take-le_bytes : (w v : ℕ) (rest : List ℕ) → take w (le_bytes w v ++ rest) ≡ le_bytes w v
unfolding le_bytes
take-le_bytes zero v rest = refl
take-le_bytes (suc w) v rest = ap (λ r. (v % 256) ∷ r) (take-le_bytes w (v / 256) rest)

pub drop-le_bytes : (w v : ℕ) (rest : List ℕ) → drop w (le_bytes w v ++ rest) ≡ rest
unfolding le_bytes
drop-le_bytes zero v rest = refl
drop-le_bytes (suc w) v rest = drop-le_bytes w (v / 256) rest

pub le-length-le_bytes : (w v : ℕ) (rest : List ℕ) → w ≤ length (le_bytes w v ++ rest)
le-length-le_bytes w v rest = omega (arith, length-append (le_bytes w v) rest, length-le_bytes w v)

-- Every number of a list is a byte.
abbrev pub AllBytes : List ℕ → Type 0
AllBytes [] = Unit
AllBytes (b ∷ bs) = (b < 256) × AllBytes bs

pub AllBytes-append : (xs ys : List ℕ) → AllBytes xs → AllBytes ys → AllBytes (xs ++ ys)
AllBytes-append [] ys p q = q
AllBytes-append (x ∷ xs) ys (first, p) q = (first, AllBytes-append xs ys p q)

pub AllBytes-take : (n : ℕ) (xs : List ℕ) → AllBytes xs → AllBytes (take n xs)
AllBytes-take zero xs p = tt
AllBytes-take (suc n) [] p = tt
AllBytes-take (suc n) (x ∷ xs) (first, p) = (first, AllBytes-take n xs p)

pub AllBytes-le_bytes : (w v : ℕ) → AllBytes (le_bytes w v)
unfolding le_bytes
AllBytes-le_bytes zero v = tt
AllBytes-le_bytes (suc w) v = (omega arith, AllBytes-le_bytes w (v / 256))
