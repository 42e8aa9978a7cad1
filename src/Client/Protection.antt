-- ===== src/Client/Protection.antt =====
-- vadProtectionToHumanReadable, vadProtectionToWin32Protection, vadTypeToWin32Type and
-- getArchitectureFromMemoryModel of Client.cpp, with the constants of Client.h.
pub mod Laws
use ceserver_pcileech.Prelude.{
  ℕ, ◌/◌, ◌%◌, List, [], ◌∷◌, ◌++◌, Bool, true, false, ◌&&◌, ◌||◌, not, Option, none, some, ◌==◌,
  if◌then◌else◌, bit_and, get_elem?,
}
use ceserver_pcileech.Memory.Region.{VadEntry, MemoryModel, unknown, na, x86pae, arm64, x64, x86}

abbrev pub page_readonly : ℕ
page_readonly = 0x02

abbrev pub page_readwrite : ℕ
page_readwrite = 0x04

abbrev pub page_execute_read : ℕ
page_execute_read = 0x20

abbrev pub page_execute_readwrite : ℕ
page_execute_readwrite = 0x40

abbrev pub mem_private : ℕ
mem_private = 0x0002_0000

abbrev pub mem_mapped : ℕ
mem_mapped = 0x0004_0000

abbrev pub mem_image : ℕ
mem_image = 0x0100_0000

-- `x & mask` as a test.
abbrev pub has_bits : ℕ → ℕ → Bool
has_bits x mask = not (bit_and x mask == 0)

-- The six characters of `sz`.
unfoldable pub protection_chars : VadEntry → List ℕ
protection_chars v =
    let vh = v.protection % 256 / 8 in
    let vl = bit_and (v.protection % 256) 7 in
    let c0 = if v.private_memory then b'p' else b'-' in
    let c1 =
      if has_bits vh 2
      then if has_bits vh 1 then b'm' else b'g'
      else if has_bits vh 1
      then b'n'
      else b'-' in
    let c2 = if (vl == 1) || (vl == 3) || (vl == 4) || (vl == 6) then b'r' else b'-' in
    let c3 = if has_bits vl 4 then b'w' else b'-' in
    let c4 = if has_bits vl 2 then b'x' else b'-' in
    let c5 = if (vl == 5) || (vl == 7) then b'c' else b'-' in
    let guard_only =
      not (c1 == b'-') && (c2 == b'-') && (c3 == b'-') && (c4 == b'-') && (c5 == b'-') in
    c0 ∷ (if guard_only then b'-' else c1) ∷ c2 ∷ c3 ∷ c4 ∷ c5 ∷ []

-- `std::string(sz)`: `sz` holds six characters and no zero, so the string goes on with what lies
-- behind it, `past_end`.
unfoldable pub vad_protection_to_human_readable : List ℕ → VadEntry → List ℕ
unfolding protection_chars
vad_protection_to_human_readable past_end v = protection_chars v ++ past_end

-- `s.at(i) == ch`. Every position that is asked for is within the six characters.
abbrev pub at_is : List ℕ → ℕ → ℕ → Bool
at_is s i ch = elim (get_elem? s i) [ none ↦ false | some x ↦ x == ch ]

unfoldable pub vad_protection_to_win32_protection : List ℕ → VadEntry → ℕ
unfolding vad_protection_to_human_readable
vad_protection_to_win32_protection past_end v =
    let human_readable = vad_protection_to_human_readable past_end v in
    if at_is human_readable 4 b'x'
    then if at_is human_readable 3 b'w' then page_execute_readwrite else page_execute_read
    else if at_is human_readable 3 b'w'
    then page_readwrite
    else page_readonly

unfoldable pub vad_type_to_win32_type : VadEntry → ℕ
vad_type_to_win32_type v =
    if v.private_memory then mem_private else if v.vad_type == 2 then mem_image else mem_mapped

unfoldable pub get_architecture_from_memory_model : MemoryModel → ℕ
get_architecture_from_memory_model x86 = 0
get_architecture_from_memory_model x86pae = 0
get_architecture_from_memory_model x64 = 1
get_architecture_from_memory_model arm64 = 3
get_architecture_from_memory_model unknown = 0xff
get_architecture_from_memory_model na = 0xff
