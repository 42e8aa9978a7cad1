-- ===== src/Client/Faulting.antt =====
-- Rules for blocks that end with a fault: a step with a result hands it on to the rest, and a fault
-- ends the block.
use ceserver_pcileech.Prelude.{ℕ, ◌^◌, ◌<◌, ◌≡◌, List, ◌++◌, arith}
use ceserver_pcileech.Prelude.Bytes.{le_bytes}
use ceserver_pcileech.Machine.{Machine, NetLaws}
use ceserver_pcileech.Client.Monad.{M, Ctx, Fault, ok, fault, ◌>>=◌, read_word}
use ceserver_pcileech.Client.Facts.{Facts, facts, read_word-Does}

module _ {m : Machine} {A B : Type 0} (e : M m A) (f : A → M m B) (c : Ctx m) where
  pub bind-fault :
      (c' : Ctx m) (a : A) (x : Fault) → e c ≡ ok a c' → f a c' ≡ fault x → (e >>= f) c ≡ fault x
  bind-fault c' a x p q = ground arith

  pub bind-stops : (x : Fault) → e c ≡ fault x → (e >>= f) c ≡ fault x
  bind-stops x p = ground arith

module _ {m : Machine} (laws : NetLaws m) where
  pub read-fault :
      {B : Type 0} (n v : ℕ) (rest : List ℕ) (f : ℕ → M m B) (c : Ctx m) (s : Facts m) (x : Fault)
      → facts laws c ≡ s
      → s.pending ≡ le_bytes n v ++ rest
      → v < 256 ^ n
      → ((c' : Ctx m) → facts laws c' ≡ record s { pending = rest } → f v c' ≡ fault x)
      → (read_word n >>= f) c ≡ fault x
  read-fault n v rest f c s x p q fits k =
      let (c', e, p') = read_word-Does laws n v rest c s p q fits in
      bind-fault (read_word n) f c c' v x e (k c' p')
