-- ===== src/Client/Sound.antt =====
-- What every run of the handlers does, whatever arrives and whatever fails. `Leads n n' Q e` says of a
-- computation `e` that, where it ends without a fault, its result is `Q`, what it has sent is made of such
-- texts, and it has made of the shared state what some calls of ClientState make of it; `n` bounds how many of
-- them take a new handle before it, and `n'` behind it.
pub mod Steps
pub mod Replies
pub mod Snapshots
pub mod Process
pub mod Region
pub mod Architecture
pub mod Dispatch
use ceserver_pcileech.Prelude.{
  ℕ, zero, suc, ◌+◌, ◌≤◌, ◌≡◌, refl, sym, ap, ◌∙◌, List, [], ◌∷◌, ◌++◌, Bool, true, false,
  if◌then◌else◌, Option, none, some, arith, take,
}
use ceserver_pcileech.Prelude.Bytes.{le_bytes}
use ceserver_pcileech.ClientState.{ClientState, Op, apply, apply_all, is_store, stores_in}
use ceserver_pcileech.Machine.{Machine}
use ceserver_pcileech.Client.Monad.{
  M, Ctx, Outcome, Fault, ok, fault, ◌>>=◌, ◌>>◌, pure, raise, when, asks, updates, modifies, calls,
  waits, read_word, read_into, send, new_array, or_raise, for_each,
}
use ceserver_pcileech.Client.Snapshots.{version_string}
use ceserver_pcileech.Client.Names.{NamesAre, NameLaws, OpNamed, apply-NamesAre}

pub apply_all-append :
    (ops : List Op) (op : Op) (s : ClientState)
    → apply_all (ops ++ (op ∷ [])) s ≡ apply op (apply_all ops s)
unfolding apply_all
apply_all-append [] op s = refl
apply_all-append (o ∷ ops) op s = apply_all-append ops op (apply o s)

pub stores_in-append :
    (ops : List Op) (op : Op) → stores_in (ops ++ (op ∷ [])) ≡ stores_in ops + stores_in (op ∷ [])
stores_in-append [] op = omega arith
stores_in-append (o ∷ ops) op = ground (arith, stores_in-append ops op)

-- The names that the device gives, and the bytes that it reads, are such texts.
pub record DeviceTexts (IsText : List ℕ → Type 0) (m : Machine) : Type 0 where
  pub names : NameLaws IsText m
  pub read :
      (pid address size : ℕ) (d : m.Mem) (r : (ℕ × List ℕ) × m.Mem)
      → m.read pid address size d ≡ some r
      → IsText r.0.1

-- Calls that lead from one shared state to another, with a bound on how many take a new handle.
pub record Called (s : ClientState) (n : ℕ) (t : ClientState) : Type 0 where
  pub ops : List Op
  pub few : stores_in ops ≤ n
  pub state : t ≡ apply_all ops s

pub Called-apply :
    (s : ClientState) (n k : ℕ) (t : ClientState) (op : Op)
    → Called s n t
    → n + stores_in (op ∷ []) ≤ k
    → Called s k (apply op t)
Called-apply s n k t op c le = record {
  ops = c.ops ++ (op ∷ []);
  few = omega (arith, stores_in-append c.ops op, c.few);
  state = ap (apply op) c.state ∙ sym (apply_all-append c.ops op s);
}

-- What the handlers send is put together from words, the version, and parts of what the device gave.
pub record Texts (IsText : List ℕ → Type 0) : Type 0 where
  pub word : (w v : ℕ) → IsText (le_bytes w v)
  pub version : IsText version_string
  pub both : (xs ys : List ℕ) → IsText xs → IsText ys → IsText (xs ++ ys)
  pub part : (n : ℕ) (xs : List ℕ) → IsText xs → IsText (take n xs)

pub record Sound {m : Machine} (IsText : List ℕ → Type 0) (s : ClientState) (n : ℕ) (c : Ctx m)
    : Type 0 where
  pub sent : IsText c.sent
  pub names : NamesAre IsText c.state
  pub called : Called s n c.state

module _ {m : Machine} (IsText : List ℕ → Type 0) (s : ClientState) where
  abbrev pub Ends : {A : Type 0} → ℕ → (A → Type 0) → Outcome m A → Type 0
  Ends n Q (ok a c) = Q a × Sound IsText s n c
  Ends n Q (fault x) = Unit

  pub record Leads {A : Type 0} (n k : ℕ) (Q : A → Type 0) (e : M m A) : Type 0 where
    pub at : (c : Ctx m) → Sound IsText s n c → Ends k Q (e c)

-- A result of which nothing more is known.
abbrev pub Anything : {A : Type 0} → A → Type 0
Anything a = Unit

module _ {m : Machine} {IsText : List ℕ → Type 0} {s : ClientState} where
  pub pure-Leads :
      {A : Type 0} {Q : A → Type 0} {n : ℕ} (a : A) → Q a → Leads {m = m} IsText s n n Q (pure a)
  pure-Leads a q = record { at = λ c i. (q, i) }

  pub raise-Leads :
      {A : Type 0} {Q : A → Type 0} {n : ℕ} (x : Fault) → Leads {m = m} IsText s n n Q (raise x)
  raise-Leads x = record { at = λ c i. tt }

  Ends-bind :
      {A B : Type 0} {Q : A → Type 0} {R : B → Type 0} {n k : ℕ} (o : Outcome m A) (f : A → M m B)
      → Ends IsText s n Q o
      → ((a : A) → Q a → Leads IsText s n k R (f a))
      → Ends IsText s k R (elim o [ ok a c ↦ f a c | fault x ↦ fault x ])
  Ends-bind (ok a c) f (q, i) l = (l a q).at c i
  Ends-bind (fault x) f i l = tt

  pub bind-Leads :
      {A B : Type 0} {Q : A → Type 0} {R : B → Type 0} {i n k : ℕ} (e : M m A) (f : A → M m B)
      → Leads IsText s i n Q e
      → ((a : A) → Q a → Leads IsText s n k R (f a))
      → Leads IsText s i k R (e >>= f)
  bind-Leads e f l k = record { at = λ c i. Ends-bind (e c) f (l.at c i) k }

  -- Blocks of which the first step takes no new handle, and has a result of which nothing is known.
  pub bind_any-Leads :
      {A B : Type 0} {R : B → Type 0} {n k : ℕ} (e : M m A) (f : A → M m B)
      → Leads IsText s n n Anything e
      → ((a : A) → Leads IsText s n k R (f a))
      → Leads IsText s n k R (e >>= f)
  bind_any-Leads e f l k = bind-Leads e f l (λ a _. k a)

  pub then_any-Leads :
      {A B : Type 0} {R : B → Type 0} {n k : ℕ} (e : M m A) (f : M m B)
      → Leads IsText s n n Anything e
      → Leads IsText s n k R f
      → Leads IsText s n k R (e >> f)
  then_any-Leads e f l k = bind-Leads e (λ _. f) l (λ a _. k)

  pub if-Leads :
      {A : Type 0} {Q : A → Type 0} {n k : ℕ} (b : Bool) (e f : M m A)
      → Leads IsText s n k Q e
      → Leads IsText s n k Q f
      → Leads IsText s n k Q (if b then e else f)
  if-Leads true e f p q = p
  if-Leads false e f p q = q

  pub when-Leads :
      {n : ℕ} (b : Bool) (e : M m (Unit {0}))
      → Leads IsText s n n Anything e
      → Leads IsText s n n Anything (when b e)
  when-Leads true e p = p
  when-Leads false e p = pure-Leads tt tt

  pub asks-Leads :
      {A : Type 0} {n : ℕ} (f : ClientState → A) → Leads {m = m} IsText s n n Anything (asks f)
  asks-Leads f = record {
    at = λ c i. (tt, record { sent = i.sent; names = i.names; called = i.called });
  }

  pub read_word-Leads : {n : ℕ} (w : ℕ) → Leads {m = m} IsText s n n Anything (read_word w)
  unfolding read_word
  read_word-Leads w = record {
    at = λ c i. (tt, record { sent = i.sent; names = i.names; called = i.called });
  }

module _ {m : Machine} (IsText : List ℕ → Type 0) (s : ClientState) where
  -- The bound on the new handles may be higher.
  pub Sound-more : (n k : ℕ) (c : Ctx m) → n ≤ k → Sound IsText s n c → Sound IsText s k c
  Sound-more n k c le i = record {
    sent = i.sent;
    names = i.names;
    called = record {
      ops = i.called.ops;
      few = omega (arith, i.called.few);
      state = i.called.state;
    };
  }

  Ends-more :
      {A : Type 0} (Q : A → Type 0) (n : ℕ) (o : Outcome m A)
      → Ends IsText s n Q o
      → Ends IsText s (suc n) Q o
  Ends-more Q n (ok a c) (q, i) = (q, Sound-more n (suc n) c (omega arith) i)
  Ends-more Q n (fault x) i = tt

pub more-Leads :
    {m : Machine} {IsText : List ℕ → Type 0} {s : ClientState} {A : Type 0} {Q : A → Type 0} {n : ℕ}
    (e : M m A)
    → Leads IsText s n n Q e
    → Leads IsText s n (suc n) Q e
more-Leads {IsText = IsText} {s = s} {Q = Q} {n = n} e l = record {
  at = λ c i. Ends-more IsText s Q n (e c) (l.at c i);
}
