-- ===== src/Server/Sound/Handles.antt =====
-- The shared handles behind a connection of which nothing is known.
use ceserver_pcileech.Prelude.{
  ℕ, ◌+◌, ◌≤◌, ◌<◌, ◌^◌, ◌≡◌, sym, ap, ◌∙◌, List, [], ◌∷◌, Bool, none, arith, length,
}
use ceserver_pcileech.ClientState.{ClientState}
use ceserver_pcileech.ClientState.Threads.{Threads}
use ceserver_pcileech.ClientState.Threads.Runs.{Reaches, apply_all-Reaches, apply_all-last}
use ceserver_pcileech.Machine.{Machine}
use ceserver_pcileech.Client.Monad.{Ctx}
use ceserver_pcileech.Client.Names.{AllNamed, NamesAre}
use ceserver_pcileech.Client.Sound.{Called, Texts, DeviceTexts}
use ceserver_pcileech.Server.{handle_client_connection}
use ceserver_pcileech.Server.Sound.{Survives, Survives-map, loop-Survives, begun}

abbrev AnyText : List ℕ → Type 0
AnyText bs = Unit

any_named : {A : Type 0} (name : A → List ℕ) (xs : List A) → AllNamed AnyText name xs
any_named name [] = tt
any_named name (x ∷ xs) = (tt, any_named name xs)

any_texts : Texts AnyText
any_texts = record { word = λ w v. tt; version = tt; both = λ xs ys p q. tt; part = λ n xs p. tt }

any_device : (m : Machine) → DeviceTexts AnyText m
any_device m = record {
  names = record {
    process_names = λ d. any_named (λ p. p.name) (m.get_process_snapshot d).0;
    region_names = λ pid d. any_named (λ r. r.name) (m.get_module_snapshot pid d).0;
  };
  read = λ pid address size d r e. tt;
}

any_names : (s : ClientState) → NamesAre AnyText s
any_names s = record {
  processes = λ h a e. any_named (λ p. p.name) a;
  regions = λ h a e. any_named (λ r. r.name) a;
}

-- The calls of a thread, as its steps: one new handle at most with each call counted.
abbrev pub Makes : ℕ → ℕ → Threads → ClientState → Type 0
Makes i n t s = Reaches i t s × (s.last_handle_id ≤ t.state.last_handle_id + n)

Called-Makes :
    (t : Threads) (i n : ℕ) (s : ClientState)
    → t.taken i ≡ none
    → t.state.last_handle_id + n < 2 ^ 31
    → Called t.state n s
    → Makes i n t s
Called-Makes t i n s free room c =
    let (u, run, state, taken) = apply_all-Reaches c.ops t i free (omega (arith, c.few)) in
    (
      (u, run, state ∙ sym c.state, taken),
      omega (
        arith,
        ap (λ x. x.last_handle_id) c.state,
        apply_all-last c.ops t.state (omega (arith, c.few)),
        c.few,
      ),
    )

-- Whatever arrives on a connection, on any machine, and whenever the server is stopped: the shared
-- handles that the loop leaves are the end of a run of steps of its own thread alone, from the state in
-- which the loop began, where other threads may stand between the two steps of a store; their handles are
-- still on their way, and the counter has moved by one with each round of the loop at most. The thread
-- itself is not within a store at first, and the counter has room below INT_MAX for one handle with each
-- round. The other threads take no steps meanwhile. Nothing is said of a run that ends the process.
pub handle_client_connection-Makes :
    {m : Machine} (stops : List Bool) (c : Ctx m) (t : Threads) (i : ℕ)
    → t.state ≡ c.state
    → t.taken i ≡ none
    → c.state.last_handle_id + length stops < 2 ^ 31
    → Survives (λ c'. Makes i (length stops) t c'.state) (handle_client_connection stops c)
handle_client_connection-Makes {m} stops c t i same free room =
    Survives-map _ _ (handle_client_connection stops c)
      (λ c' sound.
        Called-Makes t i (length stops) c'.state free
          (omega (arith, ap (λ s. s.last_handle_id) same)) sound.called)
      (loop-Survives any_texts (any_device m) t.state stops 0 (length stops) c (omega arith)
        (begun any_texts (any_device m) t.state c (sym same) tt (any_names c.state)))
