-- ===== src/Client/Answers/Transfers.antt =====
-- The handlers that read and write the memory of a process.
use ceserver_pcileech.Prelude.{
  ℕ, ◌≤◌, ◌<◌, ◌^◌, ◌≡◌, refl, List, ◌++◌, Bool, true, false, not, arith, if◌then◌else◌, length,
  take, leb, ltb, ◌==◌, inl, inr, Bool-cases,
}
use ceserver_pcileech.Prelude.Bytes.{le_bytes}
use ceserver_pcileech.ClientState.{contains_process_id_handle, get_process_id}
use ceserver_pcileech.Machine.{Machine, NetLaws, MemoryLaws}
use ceserver_pcileech.Client.Monad.{
  M, Ctx, ◌>>=◌, ◌>>◌, pure, asks, calls, waits, send, send_word, new_array, read_into,
}
use ceserver_pcileech.Client.Facts.{
  Facts, facts, Does, bind-Does, pure-Does, asks-Does, calls-Does, waits-Does, send-Does,
  send_word-Does,
}
use ceserver_pcileech.Client.Facts.Blocks.{
  read-Does, Replies-append, then-Does, if-Does, then_pure-Does,
}
use ceserver_pcileech.Client.Process.{
  send_memory_contents, read_memory, handle_command_read_process_memory, write_memory,
  handle_command_write_process_memory,
}
use ceserver_pcileech.Client.Spec.{
  answer, reads_memory, writes_memory, memory_reply, replying, read_replied,
}
use ceserver_pcileech.Client.Answers.Process.{read_all-Does, new_array-Does}

module _ {m : Machine} where
  -- The continuations of the handlers, as they stand in the blocks.
  abbrev write_reply : ℕ → ℕ → M m Bool
  write_reply size written =
      if ltb written 0
      then send_word 4 0 >> pure false
      else send_word 4 written >> pure (written == size)

  abbrev writes : ℕ → ℕ → List ℕ → ℕ → M m Bool
  writes h a bs pid = calls (m.write bs pid a (length bs)) >>= write_reply (length bs)

  abbrev reads : ℕ → ℕ → ℕ → ℕ → M m Bool
  reads h a n pid = waits (m.read pid a n) >>= (λ read. send_memory_contents n read.0 read.1)

  abbrev read_guards : ℕ → ℕ → ℕ → ℕ → Bool → M m Bool
  read_guards h a n z known =
      if not (z == 0)
      then pure false
      else if not known
      then pure false
      else if leb a 0
      then send_word 4 0 >> pure true
      else if leb n 0
      then send_word 4 0 >> pure true
      else read_memory h a n

  abbrev write_guards : ℕ → ℕ → ℕ → List ℕ → M m Bool
  write_guards h a n buffer =
      asks (contains_process_id_handle h)
      >>= (λ known. if not known then pure false else write_memory h a n buffer)

module _ {m : Machine} (laws : NetLaws m) where
  module _ (c : Ctx m) (s : Facts m) (p : facts laws c ≡ s) where
    send_memory_contents-Does :
        (size count : ℕ) (bs : List ℕ)
        → count ≤ size
        → Does laws
            (send_memory_contents size count bs)
            c
            true
            (replying (memory_reply (count, bs)) s)
    unfolding send_memory_contents
    send_memory_contents-Does size count bs le = elim (Bool-cases (leb count 0)) [
      | inl e ↦
          rw e (then_pure-Does laws (send_word 4 0) true c tt _ (send_word-Does laws 4 0 c s p))
      | inr e ↦
          rw (e, enough)
            (then_pure-Does laws (send_word 4 count >> send (take count bs)) true c tt _ (
              Replies-append laws (send_word 4 count) (send (take count bs)) _ _
                (send_word-Does laws 4 count) (send-Does laws (take count bs)) c s p))
    ]
      where
        enough : leb count size ≡ true
        enough = ground arith

    -- `written < 0` never holds of an unsigned number.
    write_reply-Does :
        (written size : ℕ)
        → Does laws
            (if ltb written 0
              then send_word 4 0 >> pure false
              else send_word 4 written >> pure (written == size))
            c
            (written == size)
            (replying (le_bytes 4 written) s)
    write_reply-Does written size = rw (never written) (
        then_pure-Does laws (send_word 4 written) (written == size) c tt _
          (send_word-Does laws 4 written c s p))
      where
        never : (n : ℕ) → ltb n 0 ≡ false
        never n = ground arith

  module _ (c : Ctx m) (s : Facts m) (p : facts laws c ≡ s) where
    write_memory-Does :
        (h a : ℕ) (bs : List ℕ)
        → let (written, mem) = m.write bs (get_process_id h s.state) a (length bs) s.mem in
          Does laws
            (write_memory h a (length bs) bs)
            c
            (written == length bs)
            (replying (le_bytes 4 written) (record s { mem = mem }))
    unfolding write_memory
    write_memory-Does h a bs =
        bind-Does laws (asks (get_process_id h)) (writes h a bs) c _ _ _ _
          (asks-Does laws (get_process_id h) c s p)
          λ c' p'.
            bind-Does laws (calls (m.write bs (get_process_id h s.state) a (length bs)))
              (write_reply (length bs)) c' _ _ _ _
              (calls-Does laws (m.write bs (get_process_id h s.state) a (length bs)) c' _ p')
              λ c'' p''. write_reply-Does c'' _ p'' _ _

    read_memory-Does :
        (device : MemoryLaws m) (h a n : ℕ)
        → n < 10 ^ 9
        → Does laws
            (read_memory h a n)
            c
            true
            (read_replied s (m.read (get_process_id h s.state) a n s.mem))
    unfolding read_memory
    read_memory-Does device h a n small =
        let (read, mem, e, le) = device.read_returns (get_process_id h s.state) a n s.mem small in
        rw (e, read_replied)
          (bind-Does laws (asks (get_process_id h)) (reads h a n) c _ _ _ _
            (asks-Does laws (get_process_id h) c s p)
            λ c' p'.
              bind-Does laws (waits (m.read (get_process_id h s.state) a n))
                (λ read. send_memory_contents n read.0 read.1) c' _ _ _ _
                (waits-Does laws (m.read (get_process_id h s.state) a n) read mem c' _ p' e)
                λ c'' p''. send_memory_contents-Does c'' _ p'' n _ _ le)

  module _ (rest : List ℕ) (c : Ctx m) (s : Facts m) (p : facts laws c ≡ s) where
    pub read_process_memory-Does :
        (device : MemoryLaws m) (h a n z : ℕ)
        → s.pending ≡ le_bytes 4 h ++ (le_bytes 8 a ++ (le_bytes 4 n ++ (le_bytes 1 z ++ rest)))
        → (h < 256 ^ 4) × (a < 256 ^ 8) × (n < 10 ^ 9) × (z < 256 ^ 1)
        → let r = answer (reads_memory h a n z) (record s { pending = rest }) in
          Does laws handle_command_read_process_memory c r.0 r.1
    unfolding handle_command_read_process_memory
    read_process_memory-Does device h a n z q fits =
        read-Does laws 4 h _ _ c s _ _ p q fits.0 λ c1 p1.
          read-Does laws 8 a _ _ c1 _ _ _ p1 refl fits.1 λ c2 p2.
            read-Does laws 4 n _ _ c2 _ _ _ p2 refl (omega (arith, fits.2)) λ c3 p3.
              read-Does laws 1 z rest _ c3 _ _ _ p3 refl fits.3 λ c4 p4.
                bind-Does laws (asks (contains_process_id_handle h)) (read_guards h a n z) c4 _ _ _
                  _ (asks-Does laws (contains_process_id_handle h) c4 _ p4)
                  λ c5 p5.
                    if-Does laws (not (z == 0)) _ _ c5 (false, _) _ (pure-Does laws false c5 _ p5)
                      (if-Does laws (not (contains_process_id_handle h s.state)) _ _ c5 (false, _) _
                        (pure-Does laws false c5 _ p5)
                        (if-Does laws (leb a 0) _ _ c5 (true, _) _
                          (then_pure-Does laws (send_word 4 0) true c5 tt _
                            (send_word-Does laws 4 0 c5 _ p5))
                          (if-Does laws (leb n 0) _ _ c5 (true, _) (true, _)
                            (then_pure-Does laws (send_word 4 0) true c5 tt _
                              (send_word-Does laws 4 0 c5 _ p5))
                            (read_memory-Does c5 _ p5 device h a n fits.2))))

    pub write_process_memory-Does :
        (h a : ℕ) (bs : List ℕ)
        → s.pending ≡ le_bytes 4 h ++ (le_bytes 8 a ++ (le_bytes 4 (length bs) ++ (bs ++ rest)))
        → (h < 256 ^ 4) × (a < 256 ^ 8) × (length bs < 2 ^ 31)
        → let r = answer (writes_memory h a bs) (record s { pending = rest }) in
          Does laws handle_command_write_process_memory c r.0 r.1
    unfolding handle_command_write_process_memory
    write_process_memory-Does h a bs q fits = read-Does laws 4 h _ _ c s _ _ p q fits.0 λ c1 p1.
        read-Does laws 8 a _ _ c1 _ _ _ p1 refl fits.1 λ c2 p2.
          read-Does laws 4 (length bs) _ _ c2 _ _ _ p2 refl (omega (arith, fits.2)) λ c3 p3.
            then-Does laws (new_array (length bs)) _ c3 _ _ _
              (new_array-Does laws (length bs) c3 _ p3 fits.2)
              λ c4 p4.
                bind-Does laws (read_into (length bs) (length bs)) (write_guards h a (length bs)) c4
                  bs _ _ _ (read_all-Does laws (length bs) bs rest c4 _ p4 refl refl)
                  λ c5 p5.
                    bind-Does laws (asks (contains_process_id_handle h))
                      (λ known. if not known then pure false else write_memory h a (length bs) bs)
                      c5 _ _ _ _ (asks-Does laws (contains_process_id_handle h) c5 _ p5)
                      λ c6 p6.
                        if-Does laws (not (contains_process_id_handle h s.state)) (pure false) _ c6
                          (false, _) _ (pure-Does laws false c6 _ p6)
                          (write_memory-Does c6 _ p6 h a bs)
