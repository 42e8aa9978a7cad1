-- ===== src/Tests/Library.antt =====
-- The theorem on the program down to the VMM library, at a library that reads zeros.
use ceserver_pcileech.Prelude.{
  ℕ, ◌≡◌, ◌<◌, ◌^◌, Option, refl, List, [], ◌∷◌, true, false, some, length, replicate, arith,
}
use ceserver_pcileech.Prelude.Bytes.{le_bytes, codes}
use ceserver_pcileech.Prelude.Maps.{lookup}
use ceserver_pcileech.ClientState.{init, contains_process_info_handle}
use ceserver_pcileech.Client.Monad.{Ctx}
use ceserver_pcileech.Client.Names.{init-NamesAre}
use ceserver_pcileech.Client.Spec.{Request, asks_abi, asks_process, starts_debug}
use ceserver_pcileech.Server.{handle_client_connection}
use ceserver_pcileech.Server.Session.{encode_all}
use ceserver_pcileech.Server.Replies.{Replies}
use ceserver_pcileech.PciLeech.{Vmm}
use ceserver_pcileech.PciLeech.Device.{VmmHeader, device}
use ceserver_pcileech.Program.{program, program_net}
use ceserver_pcileech.Program.Library.{VmmLaws, library-Replies}
use ceserver_pcileech.Tests.Toy.{writable, length-replicate}
use ceserver_pcileech.Tests.Programs.{posix, fourth, posix_laws, platform}

abbrev vmm : Vmm
vmm = record {
  State = Unit;
  Handle = Unit;
  ScatterHandle = Unit;
  ModuleMap = Unit;
  initialize = λ args s. (some tt, s);
  close = λ h s. s;
  map_get_phys_mem = λ h s. ((1, record { version = 1; parts = (4096, 4096) ∷ [] }), s);
  pid_list = λ h room s. ((1, (1, 7 ∷ [])), s);
  map_get_vad_u = λ h pid identify s. ((1, writable ∷ []), s);
  mem_read_ex = λ h pid a n flags s. ((1, (n, replicate n 0)), s);
  mem_write = λ h pid a bs n s. (1, s);
  process_get_information_string = λ h pid option s. (some (codes "a"), s);
  mem_free = λ s. s;
  map_get_module_u = λ h pid flags s. ((0, tt), s);
  map_get_thread = λ h pid s. ((1, record { tid = 5 } ∷ []), s);
  process_get_information = λ h pid info s. ((1, info), s);
  scatter_initialize = λ h pid flags s. (tt, s);
  scatter_prepare = λ h a n s. (1, s);
  scatter_execute = λ h s. (1, s);
  scatter_read = λ h a n s. ((1, (n, replicate n 0)), s);
  scatter_clear = λ h pid flags s. (1, s);
  scatter_close_handle = λ h s. s;
}

path_short :
    (text : List ℕ)
    → ◌≡◌ {A = Option (List ℕ)} (some (codes "a")) (some text)
    → length text < 256 ^ 4
path_short text e = ground arith

abbrev vmm_laws : VmmLaws vmm
vmm_laws = record {
  mem_read_ex = λ h pid a n flags s. (omega arith, length-replicate n 0);
  scatter_read = λ h a n s. omega arith;
  path = λ h pid option s text e. path_short text e;
  vads = λ h pid identify s. ((omega arith, tt), omega arith);
  threads = λ h pid s. omega arith;
}

abbrev header : VmmHeader
header = record {
  map_physmem_version = 1;
  process_information_magic = 1;
  process_information_version = 7;
  opt_string_path_user_image = 2;
  scatter_flags = 1;
  memorymodel_na = 0;
  memorymodel_x86pae = 2;
  memorymodel_arm64 = 4;
  memorymodel_x64 = 3;
  memorymodel_x86 = 1;
}

-- The last request finds no snapshot.
abbrev requests : List Request
requests = asks_abi ∷ starts_debug 3 ∷ asks_process true 1 ∷ []

abbrev at_start : Ctx (program posix fourth (device vmm header [] (some tt)) platform)
at_start = record {
  state = init;
  connection_name = [];
  world = (encode_all requests, 0);
  mem = tt;
  sent = [];
}

library-Replies_example :
    Replies
      (program_net posix fourth (device vmm header [] (some tt)) platform posix_laws)
      requests
      at_start
      (handle_client_connection (replicate 3 false) at_start)
unfolding le_bytes init lookup contains_process_info_handle ceserver_pcileech.Server.Session.answers
library-Replies_example =
    library-Replies vmm header [] (some tt) vmm_laws posix fourth platform posix_laws requests []
      at_start refl (tt, (omega arith, (omega arith, tt))) (tt, (tt, (tt, tt))) (init-NamesAre _)
      refl
