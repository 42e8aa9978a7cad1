-- ===== src/Client/Facts.antt =====
-- How a handler is specified. The facts of a connection are what matters of it: the shared state,
-- the name, the device, what was sent, and what the peer has still to be read. A handler's theorem
-- says which facts it ends with; the lemmas below compose these along a `do` block.
pub mod Blocks
use ceserver_pcileech.Prelude.{
  ℕ, ◌≤◌, ◌<◌, ◌^◌, ◌≡◌, refl, ap, ◌∙◌, List, [], ◌∷◌, ◌++◌, Bool, true, false, Option, some, arith,
  length, take, drop, append_assoc, append-nil, if◌then◌else◌, length-append, take-append,
  drop-append, take_all, subst,
}
use ceserver_pcileech.Prelude.Bytes.{le_bytes, of_le, of_le-le_bytes, length-le_bytes}
use ceserver_pcileech.ClientState.{ClientState}
use ceserver_pcileech.Machine.{Machine, NetLaws, got}
use ceserver_pcileech.Client.Monad.{
  M, Ctx, ok, ◌>>=◌, ◌>>◌, pure, asks, updates, modifies, calls, waits, read_word, read_into, send,
  send_word, for_each, overlay, received, after_recv,
}

pub record Facts (m : Machine) : Type 0 where
  pub state : ClientState
  pub connection_name : List ℕ
  pub mem : m.Mem
  pub sent : List ℕ
  pub pending : List ℕ

-- The bytes that a loop sends, one entry after another.
abbrev pub concat_map : {A : Type 0} → (A → List ℕ) → List A → List ℕ
concat_map g [] = []
concat_map g (x ∷ xs) = g x ++ concat_map g xs

module _ {m : Machine} (laws : NetLaws m) where
  abbrev pub facts : Ctx m → Facts m
  facts c = record {
    state = c.state;
    connection_name = c.connection_name;
    mem = c.mem;
    sent = c.sent;
    pending = laws.pending c.world;
  }

  -- The computation ends without a fault, with this result and these facts.
  abbrev pub Does : {A : Type 0} → M m A → Ctx m → A → Facts m → Type 0
  Does e c a s = (c' : Ctx m) × (e c ≡ ok a c') × (facts c' ≡ s)

  pub pure-Does : {A : Type 0} (a : A) (c : Ctx m) (s : Facts m) → facts c ≡ s → Does (pure a) c a s
  pure-Does a c s p = (c, refl, p)

  pub bind-Does :
      {A B : Type 0} (e : M m A) (f : A → M m B) (c : Ctx m) (a : A) (b : B) (s t : Facts m)
      → Does e c a s
      → ((c' : Ctx m) → facts c' ≡ s → Does (f a) c' b t)
      → Does (e >>= f) c b t
  bind-Does e f c a b s t (c', p, q) k = let (c'', p', q') = k c' q in (c'', ground arith, q')

  -- The lemmas for the single steps.
  pub asks-Does :
      {A : Type 0} (f : ClientState → A) (c : Ctx m) (s : Facts m)
      → facts c ≡ s
      → Does (asks f) c (f s.state) s
  asks-Does f c s p = subst (λ t. Does (asks f) c (f t.state) t) p (c, refl, refl)

  pub updates-Does :
      {A : Type 0} (f : ClientState → A × ClientState) (c : Ctx m) (s : Facts m)
      → facts c ≡ s
      → Does (updates f) c (f s.state).0 (record s { state = (f s.state).1 })
  updates-Does f c s p =
      subst (λ t. Does (updates f) c (f t.state).0 (record t { state = (f t.state).1 })) p
        (record c { state = (f c.state).1 }, refl, refl)

  pub modifies-Does :
      (f : ClientState → ClientState) (c : Ctx m) (s : Facts m)
      → facts c ≡ s
      → Does (modifies f) c tt (record s { state = f s.state })
  modifies-Does f c s p =
      subst (λ t. Does (modifies f) c tt (record t { state = f t.state })) p
        (record c { state = f c.state }, refl, refl)

  pub calls-Does :
      {A : Type 0} (f : m.Mem → A × m.Mem) (c : Ctx m) (s : Facts m)
      → facts c ≡ s
      → Does (calls f) c (f s.mem).0 (record s { mem = (f s.mem).1 })
  calls-Does f c s p =
      subst (λ t. Does (calls f) c (f t.mem).0 (record t { mem = (f t.mem).1 })) p
        (record c { mem = (f c.mem).1 }, refl, refl)

  pub waits-Does :
      {A : Type 0} (f : m.Mem → Option (A × m.Mem)) (a : A) (d : m.Mem) (c : Ctx m) (s : Facts m)
      → facts c ≡ s
      → f s.mem ≡ some (a, d)
      → Does (waits f) c a (record s { mem = d })
  waits-Does f a d c s p q =
      subst (λ t. f t.mem ≡ some (a, d) → Does (waits f) c a (record t { mem = d })) p
        (λ q'. (record c { mem = d }, rw (q', waits) refl, refl)) q

  pub send-Does :
      (bs : List ℕ) (c : Ctx m) (s : Facts m)
      → facts c ≡ s
      → Does (send bs) c tt (record s { sent = s.sent ++ bs })
  unfolding send
  send-Does bs c s p =
      subst (λ t. Does (send bs) c tt (record t { sent = t.sent ++ bs })) p
        (
          record c { world = m.send c.world bs; sent = c.sent ++ bs },
          refl,
          ap
              (λ r. record {
                state = c.state;
                connection_name = c.connection_name;
                mem = c.mem;
                sent = c.sent ++ bs;
                pending = r;
              })
              (laws.pending-send c.world bs),
        )

  pub send_word-Does :
      (n v : ℕ) (c : Ctx m) (s : Facts m)
      → facts c ≡ s
      → Does (send_word n v) c tt (record s { sent = s.sent ++ le_bytes n v })
  unfolding send_word
  send_word-Does n v c s p = send-Does (le_bytes n v) c s p

  -- What one `recv` of bytes that are there does to the facts.
  pub after_recv-facts :
      (n : ℕ) (bs rest : List ℕ) (c : Ctx m)
      → length bs ≡ n
      → laws.pending c.world ≡ bs ++ rest
      → ((m.recv c.world n).0 ≡ got bs)
        × (facts (after_recv n c) ≡ record (facts c) { pending = rest })
  after_recv-facts n bs rest c e p =
      let enough : n ≤ length (laws.pending c.world) =
        omega (arith, ap length p, length-append bs rest) in
      let taken : take n (laws.pending c.world) ≡ bs = rw (p, ← e) (take-append bs rest) in
      let left : drop n (laws.pending c.world) ≡ rest = rw (p, ← e) (drop-append bs rest) in
      (
        laws.recv_all c.world n enough ∙ ap got taken,
        ap (λ r. record (facts c) { pending = r }) (laws.pending-recv c.world n enough ∙ left),
      )

  pub read_word-Does :
      (n v : ℕ) (rest : List ℕ) (c : Ctx m) (s : Facts m)
      → facts c ≡ s
      → s.pending ≡ le_bytes n v ++ rest
      → v < 256 ^ n
      → Does (read_word n) c v (record s { pending = rest })
  unfolding read_word
  read_word-Does n v rest c s p q fits =
      subst
        (λ t.
          t.pending ≡ le_bytes n v ++ rest → Does (read_word n) c v (record t { pending = rest }))
        p
        (λ q'.
          let r = after_recv-facts n (le_bytes n v) rest c (length-le_bytes n v) q' in
          (after_recv n c, ap (λ x. ok x (after_recv n c)) (value r.0), r.1))
        q
    where
      value :
          (m.recv c.world n).0 ≡ got (le_bytes n v) → of_le (received n (m.recv c.world n).0) ≡ v
      value e =
          ap (λ x. of_le (received n x)) e
          ∙ ap of_le (take_all n (le_bytes n v) (omega (arith, length-le_bytes n v)))
          ∙ of_le-le_bytes n v fits

  pub read_into-Does :
      (capacity n : ℕ) (bs rest : List ℕ) (c : Ctx m) (s : Facts m)
      → facts c ≡ s
      → s.pending ≡ bs ++ rest
      → length bs ≡ n
      → n ≤ capacity
      → Does
          (read_into capacity n)
          c
          (overlay bs (take capacity (m.junk capacity)))
          (record s { pending = rest })
  unfolding read_into
  read_into-Does capacity n bs rest c s p q len room =
      subst
        (λ t.
          t.pending ≡ bs ++ rest
          → Does (read_into capacity n) c (overlay bs (take capacity (m.junk capacity)))
              (record t { pending = rest }))
        p (λ q'. let r = after_recv-facts n bs rest c len q' in (after_recv n c, value r.0, r.1)) q
    where
      value :
          (m.recv c.world n).0 ≡ got bs
          → read_into capacity n c
            ≡ ok (overlay bs (take capacity (m.junk capacity))) (after_recv n c)
      value e = ground (arith, take_all n bs)
