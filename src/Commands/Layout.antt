-- ===== src/Commands/Layout.antt =====
-- The structs of Commands.h. They are declared under `#pragma pack(1)`, so a struct is sent as the
-- bytes of its fields in order, with none between. Each field is a word, the bit pattern that the
-- C++ field holds; the machine is little-endian.
use ceserver_pcileech.Prelude.{ℕ, List, ◌++◌}
use ceserver_pcileech.Prelude.Bytes.{le_bytes}

pub record CeVersion : Type 0 where
  pub version : ℕ
  pub stringsize : ℕ

pub record CeProcessEntry : Type 0 where
  pub result : ℕ
  pub pid : ℕ
  pub processnamesize : ℕ

pub record CeModuleEntry : Type 0 where
  pub result : ℕ
  pub modulebase : ℕ
  pub modulepart : ℕ
  pub modulesize : ℕ
  pub modulenamesize : ℕ

pub record CeVirtualQueryExOutput : Type 0 where
  pub result : ℕ
  pub protection : ℕ
  pub type : ℕ
  pub baseaddress : ℕ
  pub size : ℕ

pub record CeRegionInfo : Type 0 where
  pub baseaddress : ℕ
  pub size : ℕ
  pub protection : ℕ
  pub type : ℕ

unfoldable pub version_bytes : CeVersion → List ℕ
version_bytes e = le_bytes 4 e.version ++ le_bytes 1 e.stringsize

unfoldable pub process_entry_bytes : CeProcessEntry → List ℕ
process_entry_bytes e = le_bytes 4 e.result ++ (le_bytes 4 e.pid ++ le_bytes 4 e.processnamesize)

unfoldable pub module_entry_bytes : CeModuleEntry → List ℕ
module_entry_bytes e =
    le_bytes 4 e.result
    ++ (le_bytes 8 e.modulebase
        ++ (le_bytes 4 e.modulepart ++ (le_bytes 4 e.modulesize ++ le_bytes 4 e.modulenamesize)))

unfoldable pub query_output_bytes : CeVirtualQueryExOutput → List ℕ
query_output_bytes e =
    le_bytes 1 e.result
    ++ (le_bytes 4 e.protection
        ++ (le_bytes 4 e.type ++ (le_bytes 8 e.baseaddress ++ le_bytes 8 e.size)))

unfoldable pub region_info_bytes : CeRegionInfo → List ℕ
region_info_bytes e =
    le_bytes 8 e.baseaddress
    ++ (le_bytes 8 e.size ++ (le_bytes 4 e.protection ++ le_bytes 4 e.type))
