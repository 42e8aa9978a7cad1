-- ===== src/Memory/Traffic/Working.antt =====
-- The steps of the dispatcher keep the invariant.
use ceserver_pcileech.Prelude.{
  ℕ, ◌<◌, ◌≡◌, refl, sym, ap, subst, ◌∙◌, List, [], ◌∷◌, Bool, true, false, ◌==◌, ==_refl, ==_iff,
  if◌then◌else◌, arith, Bool-cases, inl, inr,
}
use ceserver_pcileech.Prelude.Maps.{is_some}
use ceserver_pcileech.Memory.Backlog.{BacklogKey, Backlog, same_text, find, dispatch_round}
use ceserver_pcileech.Memory.Traffic.{
  Traffic, pointers, start_dispatch, set_value, Works, dispatches, sets,
}
use ceserver_pcileech.Memory.Backlog.Batch.{same_text_refl, same_text_sound}
use ceserver_pcileech.Memory.Backlog.Progress.{find-dispatch_round}
use ceserver_pcileech.Memory.Backlog.Distinct.{
  Found, Distinct, Distinct-dispatch_round, Found-batch,
}
use ceserver_pcileech.Memory.Traffic.Invariant.{
  occurs, Once, Waits, is_set, in_batch, in_backlog, IsSound,
}

occurs-pointers :
    (pointer : BacklogKey → ℕ) (b : Backlog) (key : BacklogKey)
    → Found key b
    → occurs (pointer key) (pointers pointer b) ≡ true
unfolding find
occurs-pointers pointer [] key found = cc
occurs-pointers pointer (e ∷ b) key found = elim (Bool-cases (same_text key e.0)) [
  | inl p ↦
      let same : pointer key ≡ pointer e.0 = ap pointer (same_text_sound key e.0 p) in
      ground (arith, same)
  | inr p ↦ ground (arith, occurs-pointers pointer b key)
]

-- Each pointer of a batch is that of one of its keys.
pointers_from :
    (pointer : BacklogKey → ℕ) (b : Backlog) (n : ℕ)
    → occurs n (pointers pointer b) ≡ true
    → (key : BacklogKey) × Found key b × (pointer key ≡ n)
unfolding find
pointers_from pointer [] n o = cc
pointers_from pointer (e ∷ b) n o = elim (Bool-cases (n == pointer e.0)) [
  | inl p ↦ (e.0, rw (same_text_refl e.0) refl, sym ((==_iff n (pointer e.0)).0 p))
  | inr p ↦ let (key, found, q) = pointers_from pointer b n (ground arith) in (key, ground arith, q)
]

abbrev Injective : (BacklogKey → ℕ) → Backlog → Type 0
Injective pointer b =
    (j k : BacklogKey) → Found j b → Found k b → pointer j ≡ pointer k → same_text j k ≡ true

Once-pointers :
    (pointer : BacklogKey → ℕ) (b : Backlog)
    → Distinct b
    → Injective pointer b
    → Once (pointers pointer b)
unfolding find
Once-pointers pointer [] apart inj = tt
Once-pointers pointer (e ∷ b) (first, apart) inj = (
  elim (Bool-cases (occurs (pointer e.0) (pointers pointer b))) [
    | inr o ↦ o
    | inl o ↦
        let (key, found, q) = pointers_from pointer b (pointer e.0) o in
        let same = inj e.0 key (rw (same_text_refl e.0) refl) (ground arith) (sym q) in
        absurd (clash key found (same_text_sound e.0 key same))
  ],
  Once-pointers pointer b apart λ j k f g q. inj j k (ground arith) (ground arith) q,
)
  where
    clash : (key : BacklogKey) → Found key b → e.0 ≡ key → ⊥
    clash key found q = ground (arith, ap (λ k. is_some (find k b)) q)

module _ (t : Traffic) where
  module _ (s : IsSound t) where
    left_behind :
        (j : BacklogKey)
        → Found j (dispatch_round t.backlog).1
        → Found j t.backlog × (is_some (find j (dispatch_round t.backlog).0) ≡ false)
    left_behind j f = ground (arith, find-dispatch_round j t.backlog)

    pointer_of_batch :
        (n : ℕ)
        → occurs n (pointers t.pointer (dispatch_round t.backlog).0) ≡ true
        → (key : BacklogKey) × Found key t.backlog
          × Found key (dispatch_round t.backlog).0
          × (t.pointer key ≡ n)
    pointer_of_batch n o =
        let (key, f, q) = pointers_from t.pointer (dispatch_round t.backlog).0 n o in
        (key, Found-batch key t.backlog f, f, q)

    apart_from_batch :
        (key : BacklogKey)
        → Found key (dispatch_round t.backlog).1
        → occurs (t.pointer key) (pointers t.pointer (dispatch_round t.backlog).0) ≡ false
    apart_from_batch key f =
        elim (Bool-cases
          (occurs (t.pointer key) (pointers t.pointer (dispatch_round t.backlog).0))) [
            | inr o ↦ o
            | inl o ↦
                let (k, here, taken, q) = pointer_of_batch (t.pointer key) o in
                let (there, left) = left_behind key f in
                let same = same_text_sound k key (s.backlog_apart k key here there q) in
                absurd (clash k key same taken left)
          ]
      where
        clash :
            (k key : BacklogKey)
            → k ≡ key
            → Found k (dispatch_round t.backlog).0
            → is_some (find key (dispatch_round t.backlog).0) ≡ false
            → ⊥
        clash k key same taken left =
            ground (arith, ap (λ j. is_some (find j (dispatch_round t.backlog).0)) same)

    Waits-start_dispatch : (n : ℕ) → t.running ≡ [] → Waits t n → Waits (start_dispatch t) n
    unfolding start_dispatch
    Waits-start_dispatch n idle (is_set e) = is_set e
    Waits-start_dispatch n idle (in_batch e) = absurd (clash (ap (occurs n) idle) e)
      where
        clash : {b : Bool} → b ≡ false → b ≡ true → ⊥
        clash p q = cc
    Waits-start_dispatch n idle (in_backlog key f e) =
        elim (Bool-cases (is_some (find key (dispatch_round t.backlog).0))) [
          | inl p ↦ in_batch (
              ap (λ m. occurs m (pointers t.pointer (dispatch_round t.backlog).0)) (sym e)
              ∙ occurs-pointers t.pointer (dispatch_round t.backlog).0 key p)
          | inr p ↦ in_backlog key (ground (arith, find-dispatch_round key t.backlog)) e
        ]

    start_dispatch-IsSound : t.running ≡ [] → IsSound (start_dispatch t)
    unfolding start_dispatch
    start_dispatch-IsSound idle =
        let (apart, apart') = Distinct-dispatch_round t.backlog s.distinct in
        record {
          distinct = apart';
          backlog_below = λ j f. s.backlog_below j (left_behind j f).0;
          backlog_unset = λ j f. s.backlog_unset j (left_behind j f).0;
          backlog_apart =
              λ j k f g e. s.backlog_apart j k (left_behind j f).0 (left_behind k g).0 e;
          running_below = λ n o.
              let (key, f, g, q) = pointer_of_batch n o in
              subst (λ m. m < t.made) q (s.backlog_below key f);
          running_unset = λ n o.
              let (key, f, g, q) = pointer_of_batch n o in
              subst (λ m. t.has_value m ≡ false) q (s.backlog_unset key f);
          running_apart = apart_from_batch;
          running_once = Once-pointers t.pointer (dispatch_round t.backlog).0 apart λ j k f g e.
              s.backlog_apart j k (Found-batch j t.backlog f) (Found-batch k t.backlog g) e;
          set_below = s.set_below;
          unrejected = s.unrejected;
          waits = λ n o. Waits-start_dispatch n idle (s.waits n o);
        }

    module _ (n : ℕ) (running : List ℕ) (next : t.running ≡ n ∷ running) where
      occurs_now : (m : ℕ) → occurs m t.running ≡ (if m == n then true else occurs m running)
      occurs_now m = ap (occurs m) next

      next_apart : (occurs n running ≡ false) × Once running
      next_apart = subst Once next s.running_once

      Waits-set_value : (m : ℕ) → Waits t m → Waits (set_value n running t) m
      unfolding set_value
      Waits-set_value m (is_set e) = is_set (ground arith)
      Waits-set_value m (in_batch e) = elim (Bool-cases (m == n)) [
        | inl p ↦ is_set (rw p refl)
        | inr p ↦ in_batch (ground (arith, occurs_now m))
      ]
      Waits-set_value m (in_backlog key f e) = in_backlog key f e

      set_value-IsSound : IsSound (set_value n running t)
      unfolding set_value
      set_value-IsSound = record {
        distinct = s.distinct;
        backlog_below = s.backlog_below;
        backlog_unset = λ key f.
            ground
              (arith, s.backlog_unset key f, s.running_apart key f, occurs_now (t.pointer key));
        backlog_apart = s.backlog_apart;
        running_below = λ m o. s.running_below m (ground (arith, occurs_now m));
        running_unset =
            λ m o. ground (arith, occurs_now m, s.running_unset m, next_apart.0, ==_iff m n);
        running_apart = λ key f. ground (arith, s.running_apart key f, occurs_now (t.pointer key));
        running_once = next_apart.1;
        set_below = λ m e. ground (arith, s.set_below m, s.running_below m, occurs_now m);
        unrejected = ground (arith, s.running_unset n, occurs_now n, ==_refl n, s.unrejected);
        waits = λ m o. Waits-set_value m (s.waits m o);
      }

pub Works-IsSound : {t t' : Traffic} → Works t t' → IsSound t → IsSound t'
Works-IsSound (dispatches t idle) s = start_dispatch-IsSound t s idle
Works-IsSound (sets t n running next) s = set_value-IsSound t s n running next
