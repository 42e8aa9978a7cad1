-- ===== src/Program/Sizes.antt =====
-- What class Memory hands to a Client fits the wire, where what the device hands to class Memory does.
use ceserver_pcileech.Prelude.{
  ℕ, ◌≤◌, ◌<◌, ◌^◌, ◌≡◌, refl, List, [], ◌∷◌, some, Option-cases, inl, inr, length, take,
  length-take, arith, subst,
}
use ceserver_pcileech.Memory.Region.{ThreadInfo, VadEntry, default_name}
use ceserver_pcileech.Memory.Device.{Device, get_module_snapshot, get_thread_snapshot, regions_of}
use ceserver_pcileech.Memory.Device.Results.{DeviceLaws}
use ceserver_pcileech.Memory.Backlog.{BacklogItem}
use ceserver_pcileech.Memory.Alone.{found, length-found, read_alone_lem}
use ceserver_pcileech.Memory.Api.{read}
use ceserver_pcileech.Client.Framing.Lengths.{IsShort, AllShort}
use ceserver_pcileech.Client.Framing.Names.{SizeLaws}
use ceserver_pcileech.Sockets.Linux.{Posix, LinuxSocketWrapper}
use ceserver_pcileech.Program.Names.{
  DeviceNames, vad_text, process_snapshot-AllNamed, module_snapshot-AllNamed,
}
use ceserver_pcileech.Program.{Platform, memory, program}

pub record DeviceSizes (d : Device) : Type 0 where
  pub path_short :
      (pid : ℕ) (s : d.State) (name : List ℕ)
      → (d.user_image_path pid s).0 ≡ some name
      → length name < 256 ^ 4
  pub texts_short :
      (pid : ℕ) (s : d.State) (vads : List VadEntry)
      → (d.get_vad_u pid s).0 ≡ some vads
      → AllShort vad_text vads × (length vads < 256 ^ 4)
  pub few_threads :
      (pid : ℕ) (s : d.State) (threads : List ThreadInfo)
      → (d.get_thread pid s).0 ≡ some threads
      → length threads < 256 ^ 4
  pub read_fills :
      (pid address size : ℕ) (s : d.State) → length (d.mem_read_ex pid address size s).0.1 ≡ size

default_name-short : (v : VadEntry) → length (default_name v) < 256 ^ 4
unfolding default_name
default_name-short v = ground arith

length-regions_of : (vads : List VadEntry) → length (regions_of vads) ≡ length vads
length-regions_of [] = refl
length-regions_of (v ∷ vs) = omega (arith, length-regions_of vs)

module _ (d : Device) (sizes : DeviceSizes d) where
  name_rules : DeviceNames IsShort d
  name_rules = record {
    path = sizes.path_short;
    texts = λ pid s vads e. (sizes.texts_short pid s vads e).0;
    default = default_name-short;
  }

  module_snapshot-few : (pid : ℕ) (s : d.State) → length (get_module_snapshot d pid s).0 < 256 ^ 4
  unfolding get_module_snapshot
  module_snapshot-few pid s = elim (Option-cases (d.get_vad_u pid s).0) [
    | inl e ↦ subst (λ rs. length rs < 256 ^ 4) {x = []} (ground arith) (omega arith)
    | inr (vads, e) ↦
        subst (λ rs. length rs < 256 ^ 4) {x = regions_of vads} (ground arith)
          (omega (arith, (sizes.texts_short pid s vads e).1, length-regions_of vads))
  ]

  thread_snapshot-few : (pid : ℕ) (s : d.State) → length (get_thread_snapshot d pid s).0 < 256 ^ 4
  unfolding get_thread_snapshot
  thread_snapshot-few pid s = elim (Option-cases (d.get_thread pid s).0) [
    | inl e ↦ subst (λ ts. length ts < 256 ^ 4) {x = []} (ground arith) (omega arith)
    | inr (threads, e) ↦
        subst (λ ts. length ts < 256 ^ 4) {x = threads} (ground arith)
          (sizes.few_threads pid s threads e)
  ]

  read_whole_lem :
      (platform : Platform d) (pid address size : ℕ) (s s' : d.State) (r : ℕ × List ℕ)
      → DeviceLaws d
      → size < 10 ^ 9
      → (memory d platform).read pid address size s ≡ some (r, s')
      → r.0 ≤ length r.1
  unfolding read
  read_whole_lem platform pid address size s s' (count, bytes) laws small e =
      let item : BacklogItem = record { pid = pid; address = address; size = size } in
      let got = (d.mem_read_ex pid address size s).0 in
      let held = found (platform.freed item s) got.1 in
      ground (
        arith,
        read_alone_lem d platform.freed platform.printing platform.place platform.rounds item s
            small,
        length-take got.0 (take size held),
        length-take size held,
        length-found (platform.freed item s) got.1,
        laws.mem_read_ex-le pid address size s,
        sizes.read_fills pid address size s,
      )

  pub program_sizes :
      (os : Posix) (socket : LinuxSocketWrapper) (platform : Platform d)
      → DeviceLaws d
      → SizeLaws (program os socket d platform)
  program_sizes os socket platform laws = record {
    process_names = process_snapshot-AllNamed IsShort d name_rules;
    region_names = module_snapshot-AllNamed IsShort d name_rules;
    few_regions = module_snapshot-few;
    few_threads = thread_snapshot-few;
    read_whole = λ pid address size s s' r small e.
        read_whole_lem platform pid address size s s' r laws small e;
  }
