-- ===== src/Server/Sound.antt =====
-- Every run of a connection's loop, on any bytes and with any failures of the socket.
pub mod Handles
use ceserver_pcileech.Prelude.{
  ℕ, zero, suc, ◌+◌, ◌≤◌, ◌<◌, ◌^◌, ◌≡◌, refl, sym, ap, ◌∙◌, subst, List, [], ◌∷◌, Bool, true,
  false, none, arith, length,
}
use ceserver_pcileech.Prelude.Bytes.{AllBytes, AllBytes-append, AllBytes-take, AllBytes-le_bytes}
use ceserver_pcileech.ClientState.{ClientState, apply_all}
use ceserver_pcileech.ClientState.Threads.{Threads, Steps, begin}
use ceserver_pcileech.ClientState.Threads.Runs.{Steps-append, apply_all-Reaches}
use ceserver_pcileech.Machine.{Machine, Received, failed, got}
use ceserver_pcileech.Client.Monad.{Ctx, Outcome, ok, fault, received, after_recv}
use ceserver_pcileech.Client.Dispatch.{dispatch_command}
use ceserver_pcileech.Client.Names.{NamesAre}
use ceserver_pcileech.Client.Sound.{Sound, Called, Texts, DeviceTexts, Ends, Anything, Sound-more}
use ceserver_pcileech.Client.Sound.Dispatch.{dispatch_command-Leads}
use ceserver_pcileech.Server.{
  Exit, recv_failed, dispatch_closed, stopped, crashed, running, handle_client_connection,
  after_dispatch, after_command, after_read,
}
use ceserver_pcileech.Server.Turns.{ReachedFrom}

-- However the loop has ended, unless it has ended the process.
abbrev pub Survives : {m : Machine} → (Ctx m → Type 0) → Exit m → Type 0
Survives P (recv_failed c) = P c
Survives P (dispatch_closed c) = P c
Survives P (stopped c) = P c
Survives P (running c) = P c
Survives P (crashed x) = Unit

pub Survives-map :
    {m : Machine} (P Q : Ctx m → Type 0) (e : Exit m)
    → ((c : Ctx m) → P c → Q c)
    → Survives P e
    → Survives Q e
Survives-map P Q (recv_failed c) f p = f c p
Survives-map P Q (dispatch_closed c) f p = f c p
Survives-map P Q (stopped c) f p = f c p
Survives-map P Q (running c) f p = f c p
Survives-map P Q (crashed x) f p = tt

module _ {m : Machine} {IsText : List ℕ → Type 0} (texts : Texts IsText)
    (device : DeviceTexts IsText m) (s : ClientState) where
  -- Another state of the connection.
  moved :
      (n : ℕ) (c : Ctx m) (w : m.World)
      → Sound IsText s n c
      → Sound IsText s n (record c { world = w })
  moved n c w i = record { sent = i.sent; names = i.names; called = i.called }

  after_dispatch-Survives :
      (k : Ctx m → Exit m) (n j : ℕ) (o : Outcome m Bool)
      → n ≤ j
      → ((c : Ctx m) → Sound IsText s n c → Survives (Sound IsText s j) (k c))
      → Ends IsText s n Anything o
      → Survives (Sound IsText s j) (after_dispatch k o)
  after_dispatch-Survives k n j (ok true c) le l (q, i) = l c i
  after_dispatch-Survives k n j (ok false c) le l (q, i) =
      moved j c (m.close c.world) (Sound-more IsText s n j c le i)
  after_dispatch-Survives k n j (fault x) le l i = tt

  after_command-Survives :
      (k : Ctx m → Exit m) (n j : ℕ) (c : Ctx m) (bs : List ℕ)
      → n < j
      → ((c : Ctx m) → Sound IsText s (suc n) c → Survives (Sound IsText s j) (k c))
      → Sound IsText s n c
      → Survives (Sound IsText s j) (after_command k c bs)
  after_command-Survives k n j c [] lt l i = l c (Sound-more IsText s n (suc n) c (omega arith) i)
  after_command-Survives k n j c (command ∷ _) lt l i =
      after_dispatch-Survives k (suc n) j (dispatch_command command c) (omega arith) l
        ((dispatch_command-Leads texts device command).at c i)

  after_read-Survives :
      (k : Ctx m → Exit m) (n j : ℕ) (c : Ctx m) (r : Received)
      → n < j
      → ((c : Ctx m) → Sound IsText s (suc n) c → Survives (Sound IsText s j) (k c))
      → Sound IsText s n c
      → Survives (Sound IsText s j) (after_read k c r)
  after_read-Survives k n j c failed lt l i =
      moved j c (m.close c.world) (Sound-more IsText s n j c (omega arith) i)
  after_read-Survives k n j c (got bs) lt l i =
      after_command-Survives k n j c (received 1 (got bs)) lt l i

  -- Each round takes one new handle at most.
  pub loop-Survives :
      (stops : List Bool) (n j : ℕ) (c : Ctx m)
      → n + length stops ≤ j
      → Sound IsText s n c
      → Survives (Sound IsText s j) (handle_client_connection stops c)
  unfolding handle_client_connection
  loop-Survives [] n j c le i = Sound-more IsText s n j c (omega arith) i
  loop-Survives (true ∷ stops) n j c le i = Sound-more IsText s n j c (omega arith) i
  loop-Survives (false ∷ stops) n j c le i =
      after_read-Survives (λ c'. handle_client_connection stops c') n j (after_recv 1 c)
        (m.recv c.world 1).0 (omega arith) (λ c'. loop-Survives stops (suc n) j c' (omega arith))
        (moved n c (m.recv c.world 1).1 i)

  pub begun :
      (c : Ctx m) → c.state ≡ s → IsText c.sent → NamesAre IsText c.state → Sound IsText s 0 c
  unfolding apply_all
  begun c e text named = record {
    sent = text;
    names = named;
    called = record { ops = []; few = omega arith; state = e };
  }

byte_texts : Texts AllBytes
byte_texts = record {
  word = AllBytes-le_bytes;
  version = omega arith;
  both = AllBytes-append;
  part = AllBytes-take;
}

abbrev pub SendsBytes : {m : Machine} → Exit m → Type 0
SendsBytes {m} = Survives {m = m} (λ c. AllBytes c.sent × NamesAre AllBytes c.state)

-- Whatever arrives on a connection, well-formed or not, whole or cut off, however its calls of the
-- socket end, and whenever the server is stopped: what the loop has sent are bytes, each below 256,
-- and so are the names that it leaves in the snapshots of the shared state, if both were so before and
-- what the device names and reads is. Nothing is said of a run that ends the process.
pub handle_client_connection-SendsBytes :
    {m : Machine} (device : DeviceTexts AllBytes m) (stops : List Bool) (c : Ctx m)
    → AllBytes c.sent
    → NamesAre AllBytes c.state
    → SendsBytes (handle_client_connection stops c)
handle_client_connection-SendsBytes device stops c bytes named =
    Survives-map _ _ (handle_client_connection stops c) (λ c' i. (i.sent, i.names))
      (loop-Survives byte_texts device c.state stops 0 (length stops) c (omega arith)
        (begun byte_texts device c.state c refl bytes named))
