-- ===== src/Sockets/Descriptors.antt =====
-- The numbers of the sockets: a connection that the loop of its thread has closed, and whose wrapper
-- is destroyed when the thread ends.
use ceserver_pcileech.Prelude.{ℕ, ◌<◌, ◌≡◌, Bool, true, false, ◌==◌, ==_refl, if◌then◌else◌, arith}
use ceserver_pcileech.Sockets.Linux.{Posix, LinuxSocketWrapper, accept, close, destroy, valid}

-- What POSIX documents of descriptors: `close` frees the number, and `accept`, unless it fails, takes
-- the lowest number that is free.
pub record DescriptorLaws (os : Posix) : Type 0 where
  pub is_open : os.World → ℕ → Bool
  pub is_open-close :
      (w : os.World) (n j : ℕ)
      → is_open (os.close n w).1 j ≡ (if j == n then false else is_open w j)
  pub was_free :
      (w : os.World) (listener : ℕ)
      → (os.accept listener w).0 < 2147483648
      → is_open w (os.accept listener w).0 ≡ false
  pub is_lowest :
      (w : os.World) (listener j : ℕ)
      → (os.accept listener w).0 < 2147483648
      → j < (os.accept listener w).0
      → is_open w j ≡ true

module _ (os : Posix) (laws : DescriptorLaws os) (s : LinuxSocketWrapper) where
  -- A wrapper that is destroyed after its `close` closes the next connection: where no number below
  -- its own is free, and the server accepts a connection between the two, the new wrapper has the same
  -- number, and is no longer open once the old one is destroyed. The number is not zero, and the call
  -- of accept succeeds.
  pub destroy-accept :
      (listener : LinuxSocketWrapper) (w : os.World)
      → let closed = (close os s w).1 in
        let (new, accepted) = accept os listener closed in
        (0 < s.socket_)
        → ((j : ℕ) → j < s.socket_ → laws.is_open w j ≡ true)
        → valid new ≡ true
        → (new.socket_ ≡ s.socket_) × (laws.is_open (destroy os s accepted) new.socket_ ≡ false)
  unfolding close accept destroy valid
  destroy-accept listener w some_n below ok =
      let w1 = (os.close s.socket_ w).1 in
      let n = (os.accept listener.socket_ w1).0 in
      let w2 = (os.accept listener.socket_ w1).1 in
      let small : n < 2147483648 = ground arith in
      let same : n ≡ s.socket_ = ground (
        arith,
        laws.is_open-close w s.socket_ n,
        laws.is_open-close w s.socket_ s.socket_,
        laws.was_free w1 listener.socket_ small,
        laws.is_lowest w1 listener.socket_ s.socket_ small,
        below n,
        ==_refl s.socket_,
      ) in
      (same, ground (arith, laws.is_open-close w2 s.socket_ n, same))
