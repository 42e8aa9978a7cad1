-- ===== src/Client/Framing/Names.antt =====
-- The names of the device, and of the snapshots that the shared state keeps, are short enough for their
-- lengths to fit the wire.
use ceserver_pcileech.Prelude.{ℕ, ◌^◌, ◌≤◌, ◌<◌, ◌≡◌, List, some, length}
use ceserver_pcileech.ClientState.{ClientState}
use ceserver_pcileech.Machine.{Machine}
use ceserver_pcileech.Client.Facts.{Facts}
use ceserver_pcileech.Client.Spec.{Request, answer}
use ceserver_pcileech.Client.Names.{NamesAre, NameLaws, answer-NamesAre}
use ceserver_pcileech.Client.Framing.Lengths.{IsShort, AllShort}

abbrev pub ShortNames : ClientState → Type 0
ShortNames = NamesAre IsShort

-- The names of a device fit the wire with their lengths, its lists with their counts, and what it
-- reads is as long as it says.
pub record SizeLaws (m : Machine) : Type 0 where
  pub process_names : (d : m.Mem) → AllShort (λ p. p.name) (m.get_process_snapshot d).0
  pub region_names : (pid : ℕ) (d : m.Mem) → AllShort (λ r. r.name) (m.get_module_snapshot pid d).0
  pub few_regions : (pid : ℕ) (d : m.Mem) → length (m.get_module_snapshot pid d).0 < 256 ^ 4
  pub few_threads : (pid : ℕ) (d : m.Mem) → length (m.get_thread_snapshot pid d).0 < 256 ^ 4
  pub read_whole :
      (pid address size : ℕ) (d d' : m.Mem) (r : ℕ × List ℕ)
      → size < 10 ^ 9
      → m.read pid address size d ≡ some (r, d')
      → r.0 ≤ length r.1

module _ {m : Machine} (sizes : SizeLaws m) where
  name_laws : NameLaws IsShort m
  name_laws = record { process_names = sizes.process_names; region_names = sizes.region_names }

  pub answer-ShortNames :
      (r : Request) (s : Facts m) → ShortNames s.state → ShortNames (answer r s).1.state
  answer-ShortNames = answer-NamesAre IsShort name_laws
