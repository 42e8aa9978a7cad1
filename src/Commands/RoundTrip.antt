-- ===== src/Commands/RoundTrip.antt =====
-- What the other end makes of a struct of Commands.h: it reads the fields one after another.
use ceserver_pcileech.Prelude.{
  ℕ, List, ◌++◌, ◌≡◌, ◌^◌, ◌<◌, Option, none, some, arith, leb, if◌then◌else◌, length, take, drop,
  append_assoc,
}
use ceserver_pcileech.Prelude.Bytes.{
  le_bytes, of_le, of_le-le_bytes, take-le_bytes, drop-le_bytes, le-length-le_bytes,
}
use ceserver_pcileech.Commands.Layout.{
  CeProcessEntry, CeModuleEntry, CeVirtualQueryExOutput, CeRegionInfo, process_entry_bytes,
  module_entry_bytes, query_output_bytes, region_info_bytes,
}

-- A reader of `w` bytes: the word that they hold and the bytes behind it.
pub word : ℕ → List ℕ → Option (ℕ × List ℕ)
word w bs = if leb w (length bs) then some (of_le (take w bs), drop w bs) else none

infixl 5 ◌>>=◌
abbrev ◌>>=◌ {ℓ κ} : {A : Type ℓ} {B : Type κ} → Option A → (A → Option B) → Option B
none >>= f = none
some a >>= f = f a

pub word-le_bytes :
    (w v : ℕ) (rest : List ℕ) → v < 256 ^ w → word w (le_bytes w v ++ rest) ≡ some (v, rest)
unfolding word
word-le_bytes w v rest h = ground (
  arith,
  le-length-le_bytes w v rest,
  take-le_bytes w v rest,
  drop-le_bytes w v rest,
  of_le-le_bytes w v h,
)

pub parse_process_entry : List ℕ → Option (CeProcessEntry × List ℕ)
parse_process_entry bs = do
  (result, bs) ← word 4 bs
  (pid, bs) ← word 4 bs
  (processnamesize, bs) ← word 4 bs
  some (record { result = result; pid = pid; processnamesize = processnamesize }, bs)

pub parse_module_entry : List ℕ → Option (CeModuleEntry × List ℕ)
parse_module_entry bs = do
  (result, bs) ← word 4 bs
  (modulebase, bs) ← word 8 bs
  (modulepart, bs) ← word 4 bs
  (modulesize, bs) ← word 4 bs
  (modulenamesize, bs) ← word 4 bs
  some (
    record {
      result = result;
      modulebase = modulebase;
      modulepart = modulepart;
      modulesize = modulesize;
      modulenamesize = modulenamesize;
    },
    bs,
  )

pub parse_query_output : List ℕ → Option (CeVirtualQueryExOutput × List ℕ)
parse_query_output bs = do
  (result, bs) ← word 1 bs
  (protection, bs) ← word 4 bs
  (type, bs) ← word 4 bs
  (baseaddress, bs) ← word 8 bs
  (size, bs) ← word 8 bs
  some (
    record {
      result = result;
      protection = protection;
      type = type;
      baseaddress = baseaddress;
      size = size;
    },
    bs,
  )

pub parse_region_info : List ℕ → Option (CeRegionInfo × List ℕ)
parse_region_info bs = do
  (baseaddress, bs) ← word 8 bs
  (size, bs) ← word 8 bs
  (protection, bs) ← word 4 bs
  (type, bs) ← word 4 bs
  some (record { baseaddress = baseaddress; size = size; protection = protection; type = type }, bs)

-- The fields of a struct fit their C++ types.
pub record ProcessEntryFits (e : CeProcessEntry) : Type 0 where
  pub result : e.result < 256 ^ 4
  pub pid : e.pid < 256 ^ 4
  pub processnamesize : e.processnamesize < 256 ^ 4

pub record ModuleEntryFits (e : CeModuleEntry) : Type 0 where
  pub result : e.result < 256 ^ 4
  pub modulebase : e.modulebase < 256 ^ 8
  pub modulepart : e.modulepart < 256 ^ 4
  pub modulesize : e.modulesize < 256 ^ 4
  pub modulenamesize : e.modulenamesize < 256 ^ 4

pub record VirtualQueryExOutputFits (e : CeVirtualQueryExOutput) : Type 0 where
  pub result : e.result < 256 ^ 1
  pub protection : e.protection < 256 ^ 4
  pub type : e.type < 256 ^ 4
  pub baseaddress : e.baseaddress < 256 ^ 8
  pub size : e.size < 256 ^ 8

pub record RegionInfoFits (e : CeRegionInfo) : Type 0 where
  pub baseaddress : e.baseaddress < 256 ^ 8
  pub size : e.size < 256 ^ 8
  pub protection : e.protection < 256 ^ 4
  pub type : e.type < 256 ^ 4

-- A process entry whose fields fit is read back from its bytes, whatever follows them.
pub parse_process_entry-process_entry_bytes :
    (e : CeProcessEntry) (rest : List ℕ)
    → ProcessEntryFits e
    → parse_process_entry (process_entry_bytes e ++ rest) ≡ some (e, rest)
unfolding parse_process_entry process_entry_bytes
parse_process_entry-process_entry_bytes e rest f = simp (
  append_assoc,
  word-le_bytes 4 e.result _ f.result,
  word-le_bytes 4 e.pid _ f.pid,
  word-le_bytes 4 e.processnamesize _ f.processnamesize,
)

-- A module entry whose fields fit is read back from its bytes, whatever follows them.
pub parse_module_entry-module_entry_bytes :
    (e : CeModuleEntry) (rest : List ℕ)
    → ModuleEntryFits e
    → parse_module_entry (module_entry_bytes e ++ rest) ≡ some (e, rest)
unfolding parse_module_entry module_entry_bytes
parse_module_entry-module_entry_bytes e rest f = simp (
  append_assoc,
  word-le_bytes 4 e.result _ f.result,
  word-le_bytes 8 e.modulebase _ f.modulebase,
  word-le_bytes 4 e.modulepart _ f.modulepart,
  word-le_bytes 4 e.modulesize _ f.modulesize,
  word-le_bytes 4 e.modulenamesize _ f.modulenamesize,
)

-- The answer to a region query whose fields fit is read back from its bytes, whatever follows
-- them.
pub parse_query_output-query_output_bytes :
    (e : CeVirtualQueryExOutput) (rest : List ℕ)
    → VirtualQueryExOutputFits e
    → parse_query_output (query_output_bytes e ++ rest) ≡ some (e, rest)
unfolding parse_query_output query_output_bytes
parse_query_output-query_output_bytes e rest f = simp (
  append_assoc,
  word-le_bytes 1 e.result _ f.result,
  word-le_bytes 4 e.protection _ f.protection,
  word-le_bytes 4 e.type _ f.type,
  word-le_bytes 8 e.baseaddress _ f.baseaddress,
  word-le_bytes 8 e.size _ f.size,
)

-- An entry of the full list of regions whose fields fit is read back from its bytes, whatever
-- follows them.
pub parse_region_info-region_info_bytes :
    (e : CeRegionInfo) (rest : List ℕ)
    → RegionInfoFits e
    → parse_region_info (region_info_bytes e ++ rest) ≡ some (e, rest)
unfolding parse_region_info region_info_bytes
parse_region_info-region_info_bytes e rest f = simp (
  append_assoc,
  word-le_bytes 8 e.baseaddress _ f.baseaddress,
  word-le_bytes 8 e.size _ f.size,
  word-le_bytes 4 e.protection _ f.protection,
  word-le_bytes 4 e.type _ f.type,
)
