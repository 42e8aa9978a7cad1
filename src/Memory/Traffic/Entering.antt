-- ===== src/Memory/Traffic/Entering.antt =====
-- A call of `read` that enters its request keeps the invariant.
use ceserver_pcileech.Prelude.{
  ℕ, suc, ◌≡◌, refl, sym, ◌∷◌, true, false, ◌==◌, ==_iff, if◌then◌else◌, none, some, Option-cases,
  arith, Bool-cases, inl, inr,
}
use ceserver_pcileech.Memory.Backlog.{
  BacklogItem, BacklogKey, put, Printing, backlog_key, same_text, find, request,
}
use ceserver_pcileech.Memory.Traffic.{fill, Traffic, point_to, enter}
use ceserver_pcileech.Memory.Backlog.Batch.{same_text_refl, same_text_sound}
use ceserver_pcileech.Memory.Backlog.Distinct.{Found, Distinct-put, find-put_new}
use ceserver_pcileech.Memory.Traffic.Invariant.{Waits, is_set, in_batch, in_backlog, IsSound}

same_text_both :
    (i j k : BacklogKey) → same_text i k ≡ true → same_text j k ≡ true → same_text i j ≡ true
same_text_both i j k e f = rw (same_text_sound i k e, same_text_sound j k f) (same_text_refl k)

-- A caller joins the entry that is there, or adds one.
abbrev pub joined : BacklogKey → BacklogItem → Traffic → Traffic
joined key item t = record t { calls = (item, t.pointer key) ∷ t.calls }

abbrev pub added : ℕ → BacklogKey → BacklogItem → Traffic → Traffic
added place key item t = record t {
  backlog = put place (key, item) t.backlog;
  pointer = point_to key t.made t.pointer;
  made = suc t.made;
  contents = fill t.made item t.contents;
  calls = (item, t.made) ∷ t.calls;
}

joined-IsSound :
    (key : BacklogKey) (item : BacklogItem) (t : Traffic)
    → Found key t.backlog
    → IsSound t
    → IsSound (joined key item t)
joined-IsSound key item t found s = record {
  distinct = s.distinct;
  backlog_below = s.backlog_below;
  backlog_unset = s.backlog_unset;
  backlog_apart = s.backlog_apart;
  running_below = s.running_below;
  running_unset = s.running_unset;
  running_apart = s.running_apart;
  running_once = s.running_once;
  set_below = s.set_below;
  unrejected = s.unrejected;
  waits = λ n e. elim (Bool-cases (n == t.pointer key)) [
    | inl p ↦ in_backlog key found (sym ((==_iff n (t.pointer key)).0 p))
    | inr p ↦ still n (s.waits n (ground arith))
  ];
}
  where
    still : (n : ℕ) → Waits t n → Waits (joined key item t) n
    still n (is_set e) = is_set e
    still n (in_batch e) = in_batch e
    still n (in_backlog k f e) = in_backlog k f e

module _ (place : ℕ) (key : BacklogKey) (item : BacklogItem) (t : Traffic) where
  module _ (new : find key t.backlog ≡ none) where
    not_new : (j : BacklogKey) → Found j t.backlog → same_text j key ≡ false
    not_new j found = ground (arith, same_text_sound j key)

    find-added :
        (j : BacklogKey)
        → find j (put place (key, item) t.backlog)
          ≡ (if same_text j key then some item else find j t.backlog)
    find-added j = find-put_new place j (key, item) t.backlog new

    Waits-added : (n : ℕ) → Waits t n → Waits (added place key item t) n
    Waits-added n (is_set e) = is_set e
    Waits-added n (in_batch e) = in_batch e
    Waits-added n (in_backlog k f e) =
        in_backlog k (rw (find-added k, not_new k f) f) (rw (not_new k f) e)

    added-IsSound : IsSound t → IsSound (added place key item t)
    added-IsSound s = record {
      distinct = Distinct-put place (key, item) t.backlog new s.distinct;
      backlog_below = λ j f. ground (arith, find-added j, s.backlog_below j);
      backlog_unset = λ j f. ground (arith, find-added j, s.backlog_unset j, s.set_below t.made);
      backlog_apart = λ j k f g e. ground (
        arith,
        find-added j,
        find-added k,
        s.backlog_below j,
        s.backlog_below k,
        s.backlog_apart j k,
        same_text_both j k key,
      );
      running_below = λ n e. omega (arith, s.running_below n e);
      running_unset = s.running_unset;
      running_apart =
          λ j f. ground (arith, find-added j, s.running_apart j, s.running_below t.made);
      running_once = s.running_once;
      set_below = λ n e. omega (arith, s.set_below n e);
      unrejected = s.unrejected;
      waits = λ n e. elim (Bool-cases (n == t.made)) [
        | inl p ↦
            in_backlog key (rw (find-added key, same_text_refl key) refl)
              (rw (same_text_refl key) (sym ((==_iff n t.made).0 p)))
        | inr p ↦ Waits-added n (s.waits n (ground arith))
      ];
    }

pub enter-IsSound :
    (printing : Printing) (place : ℕ) (item : BacklogItem) (t : Traffic)
    → IsSound t
    → IsSound (enter printing place item t)
unfolding enter request
enter-IsSound printing place item t s =
    let key = backlog_key printing item in
    elim (Option-cases (find key t.backlog)) [
      | inl e ↦ rw (e, request) (added-IsSound place key item t e s)
      | inr (old, e) ↦ rw (e, request) (joined-IsSound key item t (rw e refl) s)
    ]
