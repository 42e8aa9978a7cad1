-- ===== src/Prelude/Maps.antt =====
-- std::unordered_map with numbers for keys, as an association list: `m[k] = v`, `insert`, `erase`,
-- `contains`, and the lookup that they share. The laws have no side condition.
use Prim.Native.Nat.{ℕ}
use mathlib.Core.Path.{◌≡◌}
use mathlib.Core.Bool.{Bool, true, false}
use mathlib.Core.List.{List, [], ◌∷◌}
use mathlib.Core.Option.{Option, none, some}
use native.Mathlib.Omega.{arith}
use ceserver_pcileech.Prelude.Tests.{◌==◌, if◌then◌else◌}

abbrev pub Map {ℓ} : Type ℓ → Type ℓ
Map V = List (ℕ × V)

abbrev pub is_some {ℓ} : {A : Type ℓ} → Option A → Bool
is_some none = false
is_some (some _) = true

abbrev pub or_else {ℓ} : {A : Type ℓ} → Option A → A → A
or_else none d = d
or_else (some a) d = a

module _ {ℓ} {V : Type ℓ} where
  unfoldable pub lookup : ℕ → Map V → Option V
  lookup k [] = none
  lookup k ((j, v) ∷ m) = if k == j then some v else lookup k m

  -- `m[k] = v`
  unfoldable pub assign : ℕ → V → Map V → Map V
  assign k v [] = (k, v) ∷ []
  assign k v (e ∷ m) = if k == e.0 then (k, v) ∷ m else e ∷ assign k v m

  -- `m.erase(k)`
  unfoldable pub erase : ℕ → Map V → Map V
  erase k [] = []
  erase k (e ∷ m) = let rest = erase k m in if k == e.0 then rest else e ∷ rest

  -- `m.contains(k)`
  abbrev pub contains : ℕ → Map V → Bool
  contains k m = is_some (lookup k m)

  -- `m.insert({k, v})`, which does nothing where the key is present
  unfoldable pub insert : ℕ → V → Map V → Map V
  insert k v m = if contains k m then m else assign k v m

  pub lookup-assign :
      (j k : ℕ) (v : V) (m : Map V)
      → lookup j (assign k v m) ≡ (if k == j then some v else lookup j m)
  unfolding lookup assign
  lookup-assign j k v [] = ground arith
  lookup-assign j k v (e ∷ m) = ground (arith, lookup-assign j k v m)

  pub lookup-erase :
      (j k : ℕ) (m : Map V) → lookup j (erase k m) ≡ (if k == j then none else lookup j m)
  unfolding lookup erase
  lookup-erase j k [] = ground arith
  lookup-erase j k (e ∷ m) = ground (arith, lookup-erase j k m)

  pub lookup-insert :
      (j k : ℕ) (v : V) (m : Map V)
      → lookup j (insert k v m) ≡ (if k == j then some (or_else (lookup k m) v) else lookup j m)
  unfolding insert
  lookup-insert j k v m = ground (arith, lookup-assign j k v m)

pub ruleset map_laws = (arith, lookup-assign, lookup-erase, lookup-insert)
