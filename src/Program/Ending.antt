-- ===== src/Program/Ending.antt =====
-- The end of main: `server.join()` and what is behind it.
use ceserver_pcileech.Prelude.{◌≡◌, refl, [], true, false}
use ceserver_pcileech.Memory.Device.{Device}
use ceserver_pcileech.Memory.Lifecycle.{destroy}
use ceserver_pcileech.Server.Joining.{Serving, ServerThread, present, deleted, Steps, Steps-joined}
use ceserver_pcileech.Program.Main.{Host, Headers, Start, exits, serves, is_serving}

module _ (host : Host) (headers : Headers) (d : Device) where
  -- Behind `join` the sockets of the system are cleaned up, and the Memory and then the socket are
  -- destroyed.
  after_join : ServerThread → Start host d → Start host d
  after_join present x = x
  after_join deleted (serves socket server memory w) =
      exits 0 (destroy d memory) (host.destroy_socket socket (host.cleanup w))
  after_join deleted x = x

  unfoldable pub finish : Serving → Start host d → Start host d
  unfolding after_join
  finish s x = after_join s.server_thread x

  after_join-is_serving :
      (t : ServerThread) (x : Start host d)
      → is_serving host headers d x ≡ true
      → is_serving host headers d (after_join t x) ≡ false
      → t ≡ deleted
  unfolding after_join
  after_join-is_serving present x p q = cc
  after_join-is_serving deleted x p q = refl

  -- A program that serves goes on to do so until `bStop` is set, which nothing in main does, and the
  -- threads of all connections have ended.
  pub finish-is_serving :
      (s : Serving) (x : Start host d)
      → Steps s
      → is_serving host headers d x ≡ true
      → is_serving host headers d (finish s x) ≡ false
      → (s.b_stop ≡ true) × (s.client_threads ≡ []) × (s.joined ≡ s.made)
  unfolding finish
  finish-is_serving s x run serving over =
      Steps-joined s run (after_join-is_serving s.server_thread x serving over)
