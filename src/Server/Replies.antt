-- ===== src/Server/Replies.antt =====
-- The replies on a whole connection, as the peer's reader takes them from the stream.
use ceserver_pcileech.Prelude.{
  ℕ, ◌≡◌, refl, sym, ap, ◌∙◌, subst, List, [], ◌∷◌, ◌++◌, Bool, true, false, Bool-cases, inl, inr,
  append_assoc, append-nil, length, replicate, arith,
}
use ceserver_pcileech.Machine.{Machine, NetLaws, MemoryLaws}
use ceserver_pcileech.Client.Monad.{Ctx}
use ceserver_pcileech.Client.Facts.{Facts, facts}
use ceserver_pcileech.Client.Spec.{Request, answer}
use ceserver_pcileech.Client.Framing.{skip_reply, skip_replies}
use ceserver_pcileech.Client.Framing.Names.{ShortNames, SizeLaws, answer-ShortNames}
use ceserver_pcileech.Client.Framing.Replies.{Extends, answer-Framed}
use ceserver_pcileech.Client.Framing.Takes.{AddressGiven}
use ceserver_pcileech.Server.{Exit, running, handle_client_connection}
use ceserver_pcileech.Server.Session.{
  encode_all, AllFit, answers, Serves, handle_client_connection-answers,
}

abbrev pub AllGiven : List Request → Type 0
AllGiven [] = Unit
AllGiven (r ∷ rs) = AddressGiven r × AllGiven rs

module _ {m : Machine} where
  Extends-then :
      (r : Request) (rs : List Request) (s t u : Facts m)
      → Extends (skip_reply r) s t
      → Extends (skip_replies rs) t u
      → Extends (skip_replies (r ∷ rs)) s u
  unfolding skip_replies
  Extends-then r rs s t u (bs, e, takes) (cs, e', takes') = (
    bs ++ cs,
    e' ∙ ap (λ l. l ++ cs) e ∙ append_assoc s.sent bs cs,
    λ rest. rw (append_assoc bs cs rest, takes (cs ++ rest), skip_replies) (takes' rest),
  )

module _ {m : Machine} (laws : NetLaws m) where
  -- A loop that has answered every request, and what it has sent to a reader of the replies.
  abbrev pub Replies : List Request → Ctx m → Exit m → Type 0
  Replies rs c e =
      (c' : Ctx m) × (e ≡ running c') × Extends (skip_replies rs) (facts laws c) (facts laws c')

module _ {m : Machine} (laws : NetLaws m) (device : MemoryLaws m) (sizes : SizeLaws m) where
  answers-Extends :
      (rs : List Request) (rest : List ℕ) (s : Facts m)
      → AllFit rs
      → AllGiven rs
      → ShortNames s.state
      → (answers rs rest s).0 ≡ true
      → Extends (skip_replies rs) s (answers rs rest s).1
  unfolding answers skip_replies
  answers-Extends [] rest s fits given n k = ([], sym (append-nil s.sent), λ more. refl)
  answers-Extends (r ∷ rs) rest s (fit, fits) (first, given) n k =
      let t = record s { pending = encode_all rs ++ rest } in
      elim (Bool-cases (answer r t).0) [
        | inr e ↦ absurd (ground arith)
        | inl e ↦
            let others = answers rs rest (answer r t).1 in
            let same : answers (r ∷ rs) rest s ≡ others = rw e in
            let reply = answer-Framed device sizes t r fit first n e in
            subst (λ x. Extends (skip_replies (r ∷ rs)) s x.1) (sym same)
              (Extends-then r rs s (answer r t).1 others.1 reply (
                answers-Extends rs rest (answer r t).1 fits given (answer-ShortNames sizes r t n)
                  (sym (ap (λ x. x.0) same) ∙ k)))
      ]

  Serves-Replies :
      (rs : List Request) (c : Ctx m) (e : Exit m) (b : Bool) (t : Facts m)
      → b ≡ true
      → Serves laws device e b t
      → Extends (skip_replies rs) (facts laws c) t
      → Replies laws rs c e
  Serves-Replies rs c e true t k (c', p, q) x =
      (c', p, subst (Extends (skip_replies rs) (facts laws c)) (sym q) x)
  Serves-Replies rs c e false t k p x = cc

  -- A client that sends well-formed requests, of which none closes the connection, can take the stream
  -- of replies apart by the lengths that stand in it: its reader, which knows the requests and nothing
  -- of the state of the server, finds one reply to each, in order, and ends exactly behind the last
  -- byte that was sent, whatever follows. A region's name is not asked for at address 0. The snapshots
  -- that are kept and the device's have names and counts that fit their fields, and the device reads
  -- as many bytes as it says, and not more than were asked for.
  pub handle_client_connection-Replies :
      (rs : List Request) (rest : List ℕ) (c : Ctx m)
      → laws.pending c.world ≡ encode_all rs ++ rest
      → AllFit rs
      → AllGiven rs
      → ShortNames c.state
      → (answers rs rest (facts laws c)).0 ≡ true
      → Replies laws rs c (handle_client_connection (replicate (length rs) false) c)
  handle_client_connection-Replies rs rest c q fits given n k =
      let a = answers rs rest (facts laws c) in
      Serves-Replies rs c (handle_client_connection (replicate (length rs) false) c) a.0 a.1 k
        (handle_client_connection-answers laws device rs rest c (facts laws c) refl q fits)
        (answers-Extends rs rest (facts laws c) fits given n k)
