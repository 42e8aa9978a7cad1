-- ===== src/Commands/Structs.antt =====
-- The packed structs of Commands.h as one type, with what goes over the wire for each.
use ceserver_pcileech.Prelude.{ℕ, List, ◌++◌, ◌≡◌, ◌^◌, ◌<◌, ap, Option, none, some, append_assoc}
use ceserver_pcileech.Commands.Layout.{
  CeVersion, CeProcessEntry, CeModuleEntry, CeVirtualQueryExOutput, CeRegionInfo, version_bytes,
  process_entry_bytes, module_entry_bytes, query_output_bytes, region_info_bytes,
}
use ceserver_pcileech.Commands.RoundTrip.{
  word, word-le_bytes, parse_process_entry, parse_module_entry, parse_query_output,
  parse_region_info, parse_process_entry-process_entry_bytes, parse_module_entry-module_entry_bytes,
  parse_query_output-query_output_bytes, parse_region_info-region_info_bytes, ProcessEntryFits,
  ModuleEntryFits, VirtualQueryExOutputFits, RegionInfoFits,
}

pub data Kind : Type 0 where
  of_version of_process of_module of_query of_region : Kind

pub data CeStruct : Type 0 where
  ce_version : CeVersion → CeStruct
  ce_process_entry : CeProcessEntry → CeStruct
  ce_module_entry : CeModuleEntry → CeStruct
  ce_virtual_query_ex_output : CeVirtualQueryExOutput → CeStruct
  ce_region_info : CeRegionInfo → CeStruct

abbrev pub kind : CeStruct → Kind
kind (ce_version e) = of_version
kind (ce_process_entry e) = of_process
kind (ce_module_entry e) = of_module
kind (ce_virtual_query_ex_output e) = of_query
kind (ce_region_info e) = of_region

abbrev pub struct_bytes : CeStruct → List ℕ
struct_bytes (ce_version e) = version_bytes e
struct_bytes (ce_process_entry e) = process_entry_bytes e
struct_bytes (ce_module_entry e) = module_entry_bytes e
struct_bytes (ce_virtual_query_ex_output e) = query_output_bytes e
struct_bytes (ce_region_info e) = region_info_bytes e

-- Each field fits its C++ type.
abbrev pub StructFits : CeStruct → Type 0
StructFits (ce_version e) = (e.version < 256 ^ 4) × (e.stringsize < 256 ^ 1)
StructFits (ce_process_entry e) = ProcessEntryFits e
StructFits (ce_module_entry e) = ModuleEntryFits e
StructFits (ce_virtual_query_ex_output e) = VirtualQueryExOutputFits e
StructFits (ce_region_info e) = RegionInfoFits e

infixl 5 ◌>>=◌
abbrev ◌>>=◌ {ℓ κ} : {A : Type ℓ} {B : Type κ} → Option A → (A → Option B) → Option B
none >>= f = none
some a >>= f = f a

parse_version : List ℕ → Option (CeVersion × List ℕ)
parse_version bs = do
  (version, bs) ← word 4 bs
  (stringsize, bs) ← word 1 bs
  some (record { version = version; stringsize = stringsize }, bs)

parse_version-version_bytes :
    (e : CeVersion) (rest : List ℕ)
    → e.version < 256 ^ 4
    → e.stringsize < 256 ^ 1
    → parse_version (version_bytes e ++ rest) ≡ some (e, rest)
unfolding parse_version version_bytes
parse_version-version_bytes e rest p q =
    simp (append_assoc, word-le_bytes 4 e.version _ p, word-le_bytes 1 e.stringsize _ q)

abbrev tagged : {A : Type 0} → (A → CeStruct) → Option (A × List ℕ) → Option (CeStruct × List ℕ)
tagged c none = none
tagged c (some (a, bs)) = some (c a, bs)

-- A reader of the fields of a struct, one after another.
pub parse : Kind → List ℕ → Option (CeStruct × List ℕ)
parse of_version bs = tagged ce_version (parse_version bs)
parse of_process bs = tagged ce_process_entry (parse_process_entry bs)
parse of_module bs = tagged ce_module_entry (parse_module_entry bs)
parse of_query bs = tagged ce_virtual_query_ex_output (parse_query_output bs)
parse of_region bs = tagged ce_region_info (parse_region_info bs)

-- A struct whose fields fit their types, of any of the five kinds, is read back from its packed
-- bytes, whatever follows them.
pub parse-struct_bytes :
    (e : CeStruct) (rest : List ℕ)
    → StructFits e
    → parse (kind e) (struct_bytes e ++ rest) ≡ some (e, rest)
unfolding parse
parse-struct_bytes (ce_version e) rest (p, q) =
    ap (tagged ce_version) (parse_version-version_bytes e rest p q)
parse-struct_bytes (ce_process_entry e) rest f =
    ap (tagged ce_process_entry) (parse_process_entry-process_entry_bytes e rest f)
parse-struct_bytes (ce_module_entry e) rest f =
    ap (tagged ce_module_entry) (parse_module_entry-module_entry_bytes e rest f)
parse-struct_bytes (ce_virtual_query_ex_output e) rest f =
    ap (tagged ce_virtual_query_ex_output) (parse_query_output-query_output_bytes e rest f)
parse-struct_bytes (ce_region_info e) rest f =
    ap (tagged ce_region_info) (parse_region_info-region_info_bytes e rest f)
