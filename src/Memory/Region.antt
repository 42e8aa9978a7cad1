-- ===== src/Memory/Region.antt =====
-- The plain data of Memory.h: ProcessInfo, ThreadInfo, MemoryRegion and MemoryModel. A word is
-- kept as its bit pattern, also where the C++ type is signed.
use ceserver_pcileech.Prelude.{
  ℕ, ◌+◌, ◌-◌, ◌%◌, ◌^◌, List, [], ◌∷◌, Bool, Option, none, some, if◌then◌else◌,
}
use ceserver_pcileech.Prelude.Bytes.{codes}

pub record ProcessInfo : Type 0 where
  pub name : List ℕ
  pub pid : ℕ

-- The fields of VMMDLL_MAP_VADENTRY that the program reads. `usz_text` is `none` for NULL.
pub record VadEntry : Type 0 where
  pub va_start : ℕ
  pub va_end : ℕ
  pub protection : ℕ
  pub private_memory : Bool
  pub vad_type : ℕ
  pub usz_text : Option (List ℕ)
  pub heap : Bool
  pub stack : Bool
  pub page_file : Bool
  pub file : Bool
  pub image : Bool
  pub teb : Bool

-- The field of VMMDLL_MAP_THREADENTRY that the program reads.
pub record ThreadInfo : Type 0 where
  pub tid : ℕ

pub record MemoryRegion : Type 0 where
  pub vad_entry : VadEntry
  pub start_addr : ℕ
  pub region_size : ℕ
  pub file_offset : ℕ
  pub part : ℕ
  pub protection : ℕ
  pub private_memory : Bool
  pub vad_type : ℕ
  pub name : List ℕ

-- The name of a region that has no text.
unfoldable pub default_name : VadEntry → List ℕ
default_name v =
    if v.heap
    then codes "<heap>"
    else if v.stack
    then codes "<stack>"
    else if v.page_file
    then codes "<pagefile>"
    else if v.file
    then codes "<file>"
    else if v.image
    then codes "<image>"
    else if v.teb
    then codes "<teb>"
    else codes "<unknown>"

abbrev pub text_of : Option (List ℕ) → List ℕ
text_of none = []
text_of (some t) = t

abbrev pub if_empty : List ℕ → List ℕ → List ℕ
if_empty [] d = d
if_empty (c ∷ cs) d = c ∷ cs

-- `int32_t regionSize = vaEnd - vaStart + 1`: 64-bit arithmetic, of which 32 bits are kept.
unfoldable pub region_size_of : ℕ → ℕ → ℕ
region_size_of va_start va_end = ((va_end + 2 ^ 64 - va_start) % 2 ^ 64 + 1) % 2 ^ 64 % 2 ^ 32

-- The constructor of MemoryRegion.
unfoldable pub memory_region : VadEntry → MemoryRegion
memory_region v = record {
  vad_entry = v;
  start_addr = v.va_start;
  region_size = region_size_of v.va_start v.va_end;
  file_offset = 0;
  part = 0;
  protection = v.protection;
  private_memory = v.private_memory;
  vad_type = v.vad_type;
  name = if_empty (text_of v.usz_text) (default_name v);
}

pub data MemoryModel : Type 0 where
  unknown na x86pae arm64 x64 x86 : MemoryModel
