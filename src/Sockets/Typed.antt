-- ===== src/Sockets/Typed.antt =====
-- The templates of SocketWrapper.h that receive or send one value, over the methods that every wrapper
-- has. A value of type T is its `sizeof(T)` bytes.
use ceserver_pcileech.Prelude.{
  ℕ, zero, suc, ◌-◌, ◌^◌, ◌≡◌, List, [], ◌++◌, length, replicate, ap, ◌∙◌, append-nil, refl, Option,
  drop,
}
use ceserver_pcileech.Prelude.Maps.{or_else}
use ceserver_pcileech.Machine.{Received, failed, got}
use ceserver_pcileech.Client.Monad.{overlay}

-- The `int` of `recv`, in a `size_t`.
abbrev received_size : Received → ℕ
received_size failed = 2 ^ 64 - 1
received_size (got bs) = length bs

abbrev value_of : ℕ → Received → List ℕ
value_of size failed = replicate size 0
value_of size (got bs) = overlay bs (replicate size 0)

drop-replicate : (n : ℕ) → drop {A = ℕ} n (replicate n 0) ≡ []
drop-replicate zero = refl
drop-replicate (suc n) = drop-replicate n

module _ {World : Type 0} where
  -- `recv<T>(&recvSize, flags)`: the value, which was all zero before, and `recvSize`.
  unfoldable pub recv_sized :
      (ℕ → ℕ → World → Received × World) → ℕ → ℕ → World → (List ℕ × ℕ) × World
  recv_sized receive size flags w =
      let (r, w') = receive size flags w in ((value_of size r, received_size r), w')

  -- `recv<T>(flags)` drops the size.
  unfoldable pub recv_value : (ℕ → ℕ → World → Received × World) → ℕ → ℕ → World → List ℕ × World
  unfolding recv_sized
  recv_value receive size flags w =
      let ((value, count), w') = recv_sized receive size flags w in (value, w')

  -- `send<T>(data, flags)`, with the `int` of `send` in a `size_t`.
  unfoldable pub send_value :
      (List ℕ → ℕ → World → Option ℕ × World) → List ℕ → ℕ → World → ℕ × World
  send_value transmit value flags w =
      let (count, w') = transmit value flags w in (or_else count (2 ^ 64 - 1), w')

  -- A value that arrives whole is what was sent.
  pub recv_value-whole :
      (receive : ℕ → ℕ → World → Received × World) (flags : ℕ) (bs : List ℕ) (w : World)
      → (receive (length bs) flags w).0 ≡ got bs
      → (recv_value receive (length bs) flags w).0 ≡ bs
  unfolding recv_value
  recv_value-whole receive flags bs w e =
      rw e (ap (λ t. bs ++ t) (drop-replicate (length bs)) ∙ append-nil bs)
