-- ===== src/Tests/Toy.antt =====
-- A small machine for the tests.
use ceserver_pcileech.Prelude.{
  ℕ, zero, suc, ◌≤◌, ◌+◌, ◌≡◌, refl, List, [], ◌∷◌, Bool, true, false, arith, Option, none, some,
  length, take, drop, replicate,
}
use ceserver_pcileech.Prelude.Maps.{Map}
use ceserver_pcileech.Memory.Region.{VadEntry, x64}
use ceserver_pcileech.ClientState.{ClientState}
use ceserver_pcileech.Machine.{
  Machine, Net, MemoryApi, NetLaws, MemoryLaws, ClockLaws, EndLaws, got,
}
use ceserver_pcileech.Client.Monad.{Ctx}
use ceserver_pcileech.Client.Facts.{Facts}
use ceserver_pcileech.Client.Framing.Names.{SizeLaws}

-- The connection is the bytes that are still to come and the clock.
abbrev pub toy_net : Net
toy_net = record {
  World = List ℕ × ℕ;
  recv = λ w n. (got (take n w.0), (drop n w.0, w.1));
  recv_non_blocking = λ w n.
      (record { count = some (length (take n w.0)); written = take n w.0 }, (drop n w.0, w.1));
  send = λ w bs. w;
  close = λ w. w;
  last_error = λ w. 11;
  ewouldblock = 11;
  now = λ w. (w.1, w);
  sleep = λ w n. (w.0, w.1 + n);
}

-- A device on which every byte is 7.
abbrev pub toy_memory : MemoryApi
toy_memory = record {
  Mem = Unit;
  get_process_snapshot = λ d. ([], d);
  get_module_snapshot = λ pid d. ([], d);
  get_thread_snapshot = λ pid d. ([], d);
  read = λ pid a n d. some ((n, replicate n 7), d);
  write = λ bs pid a n d. (n, d);
  get_memory_model = λ pid d. (x64, d);
}

pub first_entry : Map ℕ → Option (ℕ × ℕ)
first_entry [] = none
first_entry (e ∷ es) = some e

abbrev pub toy : Machine
toy = record {
  net = toy_net;
  memory = toy_memory;
  junk = λ n. replicate n 0;
  past_end = [];
  first = first_entry;
}

abbrev pub toy_laws : NetLaws toy
toy_laws = record {
  pending = λ w. w.0;
  recv_all = λ w n le. refl;
  pending-recv = λ w n le. refl;
  pending-send = λ w bs. refl;
}

abbrev pub toy_device : MemoryLaws toy
toy_device = record { read_returns = λ pid a n d small. ((n, replicate n 7), d, refl, omega arith) }

pub length-replicate : (n v : ℕ) → length (replicate n v) ≡ n
length-replicate zero v = omega arith
length-replicate (suc n) v = omega (arith, length-replicate n v)

pub whole :
    (n : ℕ) (d : Unit {0}) (r : ℕ × List ℕ)
    → ◌≡◌ {A = Option ((ℕ × List ℕ) × Unit {0})} (some ((n, replicate n 7), tt)) (some (r, d))
    → r.0 ≤ length r.1
whole n d (count, bs) e = ground (arith, length-replicate n 7)

abbrev pub toy_sizes : SizeLaws toy
toy_sizes = record {
  process_names = λ d. tt;
  region_names = λ pid d. tt;
  few_regions = λ pid d. omega arith;
  few_threads = λ pid d. omega arith;
  read_whole = λ pid a n d d' r small e. whole n d' r e;
}

abbrev pub toy_clock : ClockLaws toy
toy_clock = record {
  time = λ w. w.1;
  now_lem = λ w. refl;
  time-now = λ w. omega arith;
  time-poll = λ w n. omega arith;
  time-sleep = λ w n. omega arith;
}

abbrev pub is_empty : List ℕ → Bool
is_empty [] = true
is_empty (x ∷ xs) = false

pub take_end : (n : ℕ) (bs : List ℕ) → is_empty bs ≡ true → got (take n bs) ≡ got []
take_end zero [] e = refl
take_end (suc n) [] e = refl
take_end n (x ∷ xs) e = cc

pub drop_end : (n : ℕ) (bs : List ℕ) → is_empty bs ≡ true → is_empty (drop n bs) ≡ true
drop_end zero [] e = refl
drop_end (suc n) [] e = refl
drop_end n (x ∷ xs) e = cc

abbrev pub toy_end : EndLaws toy
toy_end = record {
  at_end = λ w. is_empty w.0;
  recv_end = λ w n e. take_end n w.0 e;
  at_end-recv = λ w n e. drop_end n w.0 e;
}

-- Process 77 is open at handle 1.
abbrev pub one_open : ClientState
one_open = record {
  last_handle_id = 1;
  process_iter = [];
  module_iter = [];
  process_snapshots = [];
  module_snapshots = [];
  process_ids = (1, 77) ∷ [];
}

abbrev pub connected : List ℕ → Ctx toy
connected bs = record {
  state = one_open;
  connection_name = [];
  world = (bs, 0);
  mem = tt;
  sent = [];
}

abbrev pub told : List ℕ → Facts toy
told bs = record { state = one_open; connection_name = []; mem = tt; sent = bs; pending = [] }

abbrev pub writable : VadEntry
writable = record {
  va_start = 4096;
  va_end = 8191;
  protection = 4;
  private_memory = true;
  vad_type = 0;
  usz_text = none;
  heap = false;
  stack = false;
  page_file = false;
  file = false;
  image = false;
  teb = false;
}
