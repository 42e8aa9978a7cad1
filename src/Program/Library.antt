-- ===== src/Program/Library.antt =====
-- The whole program on POSIX and the VMM library, with what the library documents of its functions.
use ceserver_pcileech.Prelude.{
  ℕ, ◌≤◌, ◌<◌, ◌^◌, ◌≡◌, List, ◌++◌, true, false, Option, some, length, replicate, subst,
}
use ceserver_pcileech.Memory.Region.{VadEntry}
use ceserver_pcileech.Memory.Device.{Device}
use ceserver_pcileech.Memory.Device.Results.{DeviceLaws}
use ceserver_pcileech.PciLeech.{
  Vmm, vmmdll_mem_read_ex, vmmdll_scatter_read, vmmdll_map_get_vad_u, vmmdll_map_get_thread,
  vmmdll_process_get_information_string,
}
use ceserver_pcileech.PciLeech.Device.{VmmHeader, device, if_true-eq-some}
use ceserver_pcileech.Sockets.Linux.{Posix, PosixLaws, LinuxSocketWrapper, linux_laws}
use ceserver_pcileech.Client.Framing.Lengths.{AllShort}
use ceserver_pcileech.Client.Framing.Names.{ShortNames}
use ceserver_pcileech.Client.Monad.{Ctx}
use ceserver_pcileech.Client.Facts.{facts}
use ceserver_pcileech.Client.Spec.{Request}
use ceserver_pcileech.Server.{handle_client_connection}
use ceserver_pcileech.Server.Session.{encode_all, AllFit, answers}
use ceserver_pcileech.Server.Replies.{AllGiven, Replies, handle_client_connection-Replies}
use ceserver_pcileech.Program.{Platform, program, program_memory, program_net}
use ceserver_pcileech.Program.Names.{vad_text}
use ceserver_pcileech.Program.Sizes.{DeviceSizes, program_sizes}

abbrev pub IsSmallMap : List VadEntry → Type 0
IsSmallMap vads = AllShort vad_text vads × (length vads < 256 ^ 4)

-- A read reports no more bytes than were asked for, into a buffer of that size; a map counts its
-- entries in 32 bits, and a text of the library is shorter than 4 GB.
pub record VmmLaws (v : Vmm) : Type 0 where
  pub mem_read_ex :
      (h : Option v.Handle) (pid address cb flags : ℕ) (s : v.State)
      → let r = (v.mem_read_ex h pid address cb flags s).0.1 in (r.0 ≤ cb) × (length r.1 ≡ cb)
  pub scatter_read :
      (h : v.ScatterHandle) (address cb : ℕ) (s : v.State)
      → (v.scatter_read h address cb s).0.1.0 ≤ cb
  pub path :
      (h : Option v.Handle) (pid option : ℕ) (s : v.State) (text : List ℕ)
      → (v.process_get_information_string h pid option s).0 ≡ some text
      → length text < 256 ^ 4
  pub vads :
      (h : Option v.Handle) (pid identify : ℕ) (s : v.State)
      → IsSmallMap (v.map_get_vad_u h pid identify s).0.1
  pub threads :
      (h : Option v.Handle) (pid : ℕ) (s : v.State)
      → length (v.map_get_thread h pid s).0.1 < 256 ^ 4

module _ (v : Vmm) (header : VmmHeader) (mmap_path : List ℕ) (h_vmm : Option v.Handle)
    (laws : VmmLaws v) where
  abbrev pci : Device
  pci = device v header mmap_path h_vmm

  pub device_laws : DeviceLaws pci
  unfolding vmmdll_mem_read_ex vmmdll_scatter_read
  device_laws = record {
    mem_read_ex-le =
        λ pid address size s. (laws.mem_read_ex h_vmm pid address size header.scatter_flags s).0;
    scatter_read-le = λ h address size s. laws.scatter_read h address size s;
  }

  pub device_sizes : DeviceSizes pci
  unfolding vmmdll_mem_read_ex vmmdll_map_get_vad_u vmmdll_map_get_thread
      vmmdll_process_get_information_string
  device_sizes = record {
    path_short = λ pid s name e. laws.path h_vmm pid header.opt_string_path_user_image s name e;
    texts_short = λ pid s vads e.
        subst IsSmallMap (if_true-eq-some (vmmdll_map_get_vad_u v h_vmm pid 1 s) vads e)
          (laws.vads h_vmm pid 1 s);
    few_threads = λ pid s threads e.
        subst (λ ts. length ts < 256 ^ 4)
          (if_true-eq-some (vmmdll_map_get_thread v h_vmm pid s) threads e)
          (laws.threads h_vmm pid s);
    read_fills =
        λ pid address size s. (laws.mem_read_ex h_vmm pid address size header.scatter_flags s).1;
  }

  -- The whole program, down to the VMM library and POSIX, answers a stream of well-formed requests of
  -- which none closes the connection, and what it has sent can be taken apart by a client: its reader,
  -- which knows the requests alone, finds one reply to each, in order, and ends behind the last byte
  -- sent. The connection is healthy, the server is not stopped, a region's name is not asked for at
  -- address 0, the snapshots that are kept have short names, the library keeps to its documented
  -- counts, and the reads of other connections do not meet those of this one in the backlog.
  pub library-Replies :
      (os : Posix) (socket : LinuxSocketWrapper) (platform : Platform pci)
      (net : PosixLaws os socket) (rs : List Request) (rest : List ℕ)
      (c : Ctx (program os socket pci platform))
      → net.pending c.world ≡ encode_all rs ++ rest
      → AllFit rs
      → AllGiven rs
      → ShortNames c.state
      → (answers rs rest (facts (program_net os socket pci platform net) c)).0 ≡ true
      → Replies
          (program_net os socket pci platform net)
          rs
          c
          (handle_client_connection (replicate (length rs) false) c)
  unfolding linux_laws
  library-Replies os socket platform net rs rest c q fits given n k =
      handle_client_connection-Replies (program_net os socket pci platform net)
        (program_memory os socket pci platform device_laws)
        (program_sizes pci device_sizes os socket platform device_laws) rs rest c q fits given n k
