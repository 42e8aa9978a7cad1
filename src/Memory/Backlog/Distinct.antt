-- ===== src/Memory/Backlog/Distinct.antt =====
-- The keys of a backlog are distinct: the map holds an entry for each, whatever is put, erased or
-- taken into a batch.
use ceserver_pcileech.Prelude.{
  ℕ, zero, suc, ◌+◌, ◌%◌, ◌^◌, ◌≡◌, refl, [], ◌∷◌, true, ◌==◌, leb, if◌then◌else◌, none, some,
  arith, Bool-cases, inl, inr,
}
use ceserver_pcileech.Prelude.Maps.{is_some}
use ceserver_pcileech.Memory.Backlog.{
  BacklogItem, BacklogKey, Backlog, same_text, find, put, erase, erase_all, select, next_batch,
  dispatch_round, max_bytes_per_dispatch, max_dispatch_size,
}
use ceserver_pcileech.Memory.Backlog.Batch.{same_text_refl, same_text_sound}
use ceserver_pcileech.Memory.Backlog.Progress.{find-erase}

abbrev pub Found : BacklogKey → Backlog → Type 0
Found key b = is_some (find key b) ≡ true

abbrev pub Distinct : Backlog → Type 0
Distinct [] = Unit
Distinct (e ∷ b) = (find e.0 b ≡ none) × Distinct b

pub same_text_sym : (j k : BacklogKey) → same_text j k ≡ true → same_text k j ≡ true
same_text_sym j k e = rw (same_text_sound j k e) (same_text_refl k)

pub find-put_new :
    (place : ℕ) (j : BacklogKey) (e : BacklogKey × BacklogItem) (b : Backlog)
    → find e.0 b ≡ none
    → find j (put place e b) ≡ (if same_text j e.0 then some e.1 else find j b)
unfolding find
find-put_new zero j e b new = refl
find-put_new (suc place) j e [] new = refl
find-put_new (suc place) j e (d ∷ b) new = ground (
  arith,
  find-put_new place j e b,
  same_text_sound j d.0,
  same_text_sound j e.0,
  same_text_refl d.0,
)

pub Distinct-put :
    (place : ℕ) (e : BacklogKey × BacklogItem) (b : Backlog)
    → find e.0 b ≡ none
    → Distinct b
    → Distinct (put place e b)
unfolding find
Distinct-put zero e b new apart = (new, apart)
Distinct-put (suc place) e [] new apart = (refl, tt)
Distinct-put (suc place) e (d ∷ b) new (first, apart) = (
  ground (arith, find-put_new place d.0 e b, same_text_sym d.0 e.0),
  Distinct-put place e b (ground arith) apart,
)

Distinct-erase : (key : BacklogKey) (b : Backlog) → Distinct b → Distinct (erase key b)
unfolding erase
Distinct-erase key [] apart = tt
Distinct-erase key (e ∷ b) (first, apart) = elim (Bool-cases (same_text key e.0)) [
  | inl p ↦ rw p (Distinct-erase key b apart)
  | inr p ↦ rw p (ground (arith, find-erase e.0 key b), Distinct-erase key b apart)
]

Distinct-erase_all : (batch b : Backlog) → Distinct b → Distinct (erase_all batch b)
unfolding erase_all
Distinct-erase_all [] b apart = apart
Distinct-erase_all (e ∷ batch) b apart =
    Distinct-erase_all batch (erase e.0 b) (Distinct-erase e.0 b apart)

find-select :
    (j : BacklogKey) (pid requested count : ℕ) (b : Backlog)
    → find j b ≡ none
    → find j (select pid requested count b) ≡ none
unfolding select find
find-select j pid requested count [] absent = refl
find-select j pid requested count ((key, item) ∷ b) absent = ground (
  arith,
  find-select j pid requested count b,
  find-select j pid ((requested + item.size) % 2 ^ 64) (count + 1) b,
)

Distinct-select :
    (pid requested count : ℕ) (b : Backlog) → Distinct b → Distinct (select pid requested count b)
unfolding select find
Distinct-select pid requested count [] apart = tt
Distinct-select pid requested count ((key, item) ∷ b) (first, apart) =
    let total = (requested + item.size) % 2 ^ 64 in
    elim (Bool-cases (item.pid == pid)) [
      | inr e ↦ rw e (Distinct-select pid requested count b apart)
      | inl e ↦ elim (Bool-cases (leb max_bytes_per_dispatch total)) [
        | inl e' ↦ rw (e, e') tt
        | inr e' ↦ elim (Bool-cases (leb max_dispatch_size (count + 1))) [
          | inl e'' ↦ rw (e, e', e'') (refl, tt)
          | inr e'' ↦
              rw (e, e', e'')
                (
                  find-select key pid total (count + 1) b first,
                  Distinct-select pid total (count + 1) b apart,
                )
        ]
      ]
    ]

pub Distinct-dispatch_round :
    (b : Backlog) → Distinct b → Distinct (dispatch_round b).0 × Distinct (dispatch_round b).1
unfolding dispatch_round next_batch erase_all
Distinct-dispatch_round [] apart = (tt, tt)
Distinct-dispatch_round (e ∷ b) apart =
    let batch = select e.1.pid 0 0 (e ∷ b) in
    (Distinct-select e.1.pid 0 0 (e ∷ b) apart, Distinct-erase_all batch (e ∷ b) apart)

-- What a round takes was in the backlog.
pub Found-batch : (j : BacklogKey) (b : Backlog) → Found j (dispatch_round b).0 → Found j b
unfolding dispatch_round next_batch
Found-batch j [] found = found
Found-batch j (e ∷ b) found = ground (arith, find-select j e.1.pid 0 0 (e ∷ b))
