-- ===== src/Tests/Layouts.antt =====
-- The theorems on commands, layouts and protections, at concrete values.
use ceserver_pcileech.Prelude.{◌↔◌, ◌+◌, ◌^◌, ◌<◌, ◌≡◌, ◌↔◌, [], ◌∷◌, ◌++◌, arith, some}
use ceserver_pcileech.Prelude.Bytes.{codes}
use ceserver_pcileech.Prelude.Maps.{contains, is_some}
use ceserver_pcileech.Memory.Region.{region_size_of}
use ceserver_pcileech.Commands.{command_of, readprocessmemory, command_code, command_to_string}
use ceserver_pcileech.Commands.Codes.{commands_agree}
use ceserver_pcileech.ClientState.{sign_extend}
use ceserver_pcileech.Commands.Layout.{CeModuleEntry, module_entry_bytes}
use ceserver_pcileech.Commands.Structs.{of_module, ce_module_entry, parse, parse-struct_bytes}
use ceserver_pcileech.Client.Protection.{vad_protection_to_win32_protection}
use ceserver_pcileech.Client.Protection.Laws.{win32_protection-bits, region_size_iff}
use ceserver_pcileech.Tests.Toy.{writable}

commands_agree_example :
    ((command_of 9 ≡ some readprocessmemory) ↔ (command_code readprocessmemory ≡ 9))
    × (contains 9 command_to_string ≡ is_some (command_of 9))
commands_agree_example = commands_agree 9 readprocessmemory

abbrev module_row : CeModuleEntry
module_row = record {
  result = 1;
  modulebase = 2 ^ 40;
  modulepart = 0;
  modulesize = 4096;
  modulenamesize = 6;
}

parse-struct_bytes_example :
    parse of_module (module_entry_bytes module_row ++ 9 ∷ [])
    ≡ some (ce_module_entry module_row, 9 ∷ [])
parse-struct_bytes_example = parse-struct_bytes (ce_module_entry module_row) (9 ∷ []) (record {
  result = omega arith;
  modulebase = omega arith;
  modulepart = omega arith;
  modulesize = omega arith;
  modulenamesize = omega arith;
})

win32_protection-bits_example : vad_protection_to_win32_protection (codes "x") writable ≡ 4
win32_protection-bits_example = win32_protection-bits (codes "x") writable

region_size_iff_example :
    (sign_extend (region_size_of 4096 (4095 + 2 ^ 31)) ≡ 2 ^ 31) ↔ (2 ^ 31 < 2 ^ 31)
region_size_iff_example = region_size_iff 4096 (4095 + 2 ^ 31) (omega arith) (omega arith)
