-- ===== src/Client/Facts/Blocks.antt =====
-- The rules for whole blocks: what only sends, a test, a word that is read and what follows.
use ceserver_pcileech.Prelude.{
  ℕ, ◌<◌, ◌^◌, ◌≡◌, refl, List, [], ◌∷◌, ◌++◌, Bool, true, false, append_assoc, append-nil,
  if◌then◌else◌,
}
use ceserver_pcileech.Prelude.Bytes.{le_bytes}
use ceserver_pcileech.Machine.{Machine, NetLaws}
use ceserver_pcileech.Client.Monad.{M, Ctx, ◌>>=◌, ◌>>◌, pure, read_word, for_each}
use ceserver_pcileech.Client.Facts.{
  Facts, concat_map, Does, bind-Does, facts, pure-Does, read_word-Does,
}

module _ {m : Machine} (laws : NetLaws m) where
  -- A computation that only sends.
  abbrev pub Replies : M m (Unit {0}) → List ℕ → Type 0
  Replies e bs =
      (c : Ctx m) (s : Facts m)
      → facts laws c ≡ s
      → Does laws e c tt (record s { sent = s.sent ++ bs })

  pub Replies-append :
      (e k : M m (Unit {0})) (xs ys : List ℕ)
      → Replies e xs
      → Replies k ys
      → Replies (e >> k) (xs ++ ys)
  Replies-append e k xs ys p q c s h =
      bind-Does laws e (λ _. k) c tt tt _ _ (p c s h) λ c' h'. rw (← append_assoc) (q c' _ h')

  pub Replies-pure : Replies (pure tt) []
  Replies-pure c s h = (c, refl, rw append-nil h)

  pub Replies-for_each :
      {A : Type 0} (f : A → M m (Unit {0})) (g : A → List ℕ) (xs : List A)
      → ((x : A) → Replies (f x) (g x))
      → Replies (for_each xs f) (concat_map g xs)
  unfolding for_each
  Replies-for_each f g [] p = Replies-pure
  Replies-for_each f g (x ∷ xs) p =
      Replies-append (f x) (for_each xs f) (g x) (concat_map g xs) (p x) (Replies-for_each f g xs p)

  -- A test that the specification makes too.
  pub if-Does :
      {A : Type 0} (b : Bool) (e k : M m A) (c : Ctx m) (x y : A × Facts m)
      → Does laws e c x.0 x.1
      → Does laws k c y.0 y.1
      → Does laws (if b then e else k) c (if b then x else y).0 (if b then x else y).1
  if-Does true e k c x y p q = p
  if-Does false e k c x y p q = q

  -- A computation followed by a result that is fixed.
  pub then_pure-Does :
      {A B : Type 0} (e : M m A) (b : B) (c : Ctx m) (a : A) (s : Facts m)
      → Does laws e c a s
      → Does laws (e >> pure b) c b s
  then_pure-Does e b c a s p =
      bind-Does laws e (λ _. pure b) c a b s s p (λ c' q. pure-Does laws b c' s q)

  -- The first step of a block, when it reads a word.
  pub read-Does :
      {B : Type 0} (n v : ℕ) (rest : List ℕ) (f : ℕ → M m B) (c : Ctx m) (s : Facts m) (b : B)
      (t : Facts m)
      → facts laws c ≡ s
      → s.pending ≡ le_bytes n v ++ rest
      → v < 256 ^ n
      → ((c' : Ctx m) → facts laws c' ≡ record s { pending = rest } → Does laws (f v) c' b t)
      → Does laws (read_word n >>= f) c b t
  read-Does n v rest f c s b t p q fits k =
      bind-Does laws (read_word n) f c v b _ t (read_word-Does laws n v rest c s p q fits) k

  -- A step with no result, and the rest.
  pub then-Does :
      {B : Type 0} (e : M m (Unit {0})) (k : M m B) (c : Ctx m) (b : B) (s t : Facts m)
      → Does laws e c tt s
      → ((c' : Ctx m) → facts laws c' ≡ s → Does laws k c' b t)
      → Does laws (e >> k) c b t
  then-Does e k c b s t p q = bind-Does laws e (λ _. k) c tt b s t p q

  -- A test between computations with no result.
  pub cond-Does :
      (b : Bool) (e k : M m (Unit {0})) (c : Ctx m) (x y : Facts m)
      → Does laws e c tt x
      → Does laws k c tt y
      → Does laws (if b then e else k) c tt (if b then x else y)
  cond-Does true e k c x y p q = p
  cond-Does false e k c x y p q = q

  -- A block of two replies that ends with a result.
  pub block-Does :
      {B : Type 0} (e k : M m (Unit {0})) (b : B) (xs ys : List ℕ)
      → Replies e xs
      → Replies k ys
      → (c : Ctx m) (s : Facts m) → facts laws c ≡ s
      → Does laws (e >> (k >> pure b)) c b (record s { sent = s.sent ++ (xs ++ ys) })
  block-Does e k b xs ys p q c s h =
      then-Does e (k >> pure b) c b _ _ (p c s h)
        λ c' h'. rw (← append_assoc) (then_pure-Does k b c' tt _ (q c' _ h'))
