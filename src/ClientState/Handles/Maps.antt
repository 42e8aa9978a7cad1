-- ===== src/ClientState/Handles/Maps.antt =====
-- The parts of the invariant that speak of one map or of two.
use ceserver_pcileech.Prelude.{ℕ, ◌+◌, ◌≤◌, ◌<◌, ◌≡◌, List, none, some, arith, length, ◌⊎◌}
use ceserver_pcileech.Prelude.Maps.{
  Map, lookup, assign, erase, insert, or_else, lookup-assign, lookup-insert, lookup-erase,
}
use ceserver_pcileech.ClientState.{next_in}

-- No key of a map is above `last`.
abbrev pub Below {ℓ} : {V : Type ℓ} → ℕ → Map V → Type ℓ
Below last m = (h : ℕ) → last < h → lookup h m ≡ none

-- Each place is at most the length of its snapshot.
abbrev pub Placed : {A : Type 0} → Map (List A) → Map ℕ → Type 0
Placed {A} snapshots iter =
    (h : ℕ) (xs : List A) → lookup h snapshots ≡ some xs → or_else (lookup h iter) 0 ≤ length xs

-- No key is in both maps.
abbrev pub Apart : {V W : Type 0} → Map V → Map W → Type 0
Apart m n = (h : ℕ) → (lookup h m ≡ none) ⊎ (lookup h n ≡ none)

module _ {ℓ} {V : Type ℓ} where
  pub Below-mono : (last next : ℕ) (m : Map V) → last ≤ next → Below last m → Below next m
  Below-mono last next m le b h p = b h (omega arith)

  pub Below-assign :
      (last k : ℕ) (v : V) (m : Map V) → k ≤ last → Below last m → Below last (assign k v m)
  Below-assign last k v m le b h p = ground (arith, lookup-assign h k v m, b h)

  pub Below-insert :
      (last k : ℕ) (v : V) (m : Map V) → k ≤ last → Below last m → Below last (insert k v m)
  Below-insert last k v m le b h p = ground (arith, lookup-insert h k v m, b h)

  pub Below-erase : (last k : ℕ) (m : Map V) → Below last m → Below last (erase k m)
  Below-erase last k m b h p = ground (arith, lookup-erase h k m, b h)

module _ {A : Type 0} where
  pub Placed-insert :
      (k : ℕ) (v : List A) (m : Map (List A)) (iter : Map ℕ)
      → Placed m iter
      → Placed (insert k v m) (assign k 0 iter)
  Placed-insert k v m iter p h xs e =
      ground (arith, lookup-insert h k v m, lookup-assign h k 0 iter, p h xs)

  pub Placed-erase :
      (k : ℕ) (m : Map (List A)) (iter : Map ℕ) → Placed m iter → Placed (erase k m) (erase k iter)
  Placed-erase k m iter p h xs e = ground (arith, lookup-erase h k m, lookup-erase h k iter, p h xs)

  pub Placed-reset :
      (k : ℕ) (m : Map (List A)) (iter : Map ℕ) → Placed m iter → Placed m (assign k 0 iter)
  Placed-reset k m iter p h xs e = ground (arith, lookup-assign h k 0 iter, p h xs)

  pub Placed-next_in :
      (k : ℕ) (m : Map (List A)) (iter : Map ℕ) → Placed m iter → Placed m (next_in k m iter).1
  unfolding next_in
  Placed-next_in k m iter p h xs e = ground (
    arith,
    lookup-insert h k 0 iter,
    lookup-assign h k (or_else (lookup k iter) 0 + 1) iter,
    p h xs,
  )

module _ {V W : Type 0} where
  pub Apart-insert_left :
      (k : ℕ) (v : V) (m : Map V) (n : Map W)
      → lookup k n ≡ none
      → Apart m n
      → Apart (insert k v m) n
  Apart-insert_left k v m n e a h = ground (arith, lookup-insert h k v m, a h)

  pub Apart-insert_right :
      (k : ℕ) (v : W) (m : Map V) (n : Map W)
      → lookup k m ≡ none
      → Apart m n
      → Apart m (insert k v n)
  Apart-insert_right k v m n e a h = ground (arith, lookup-insert h k v n, a h)

  pub Apart-assign_right :
      (k : ℕ) (v : W) (m : Map V) (n : Map W)
      → lookup k m ≡ none
      → Apart m n
      → Apart m (assign k v n)
  Apart-assign_right k v m n e a h = ground (arith, lookup-assign h k v n, a h)

  pub Apart-erase : (k : ℕ) (m : Map V) (n : Map W) → Apart m n → Apart (erase k m) (erase k n)
  Apart-erase k m n a h = ground (arith, lookup-erase h k m, lookup-erase h k n, a h)
