-- ===== src/PciLeech.antt =====
-- PCILeechWrapper.h: one method for each function of the VMM library that the program knows. The
-- library is the parameter Vmm. A BOOL of the library is a number; the wrapper returns a `bool`, so
-- that any number but 0 is true. What a call writes through a pointer is part of its result.
pub mod Device
use ceserver_pcileech.Prelude.{ℕ, List, Bool, not, ◌==◌, Option}
use ceserver_pcileech.Memory.Region.{VadEntry, ThreadInfo}
use ceserver_pcileech.Memory.Device.{PhysMemMap}

-- VMMDLL_PROCESS_INFORMATION, as far as the program reads or writes it.
pub record ProcessInformation : Type 0 where
  pub magic : ℕ
  pub w_version : ℕ
  pub tp_memory_model : ℕ

-- The functions of the library. A handle that is `none` is NULL.
pub record Vmm : Type 1 where
  pub State : Type 0
  pub Handle : Type 0
  pub ScatterHandle : Type 0
  pub ModuleMap : Type 0
  pub initialize : List (List ℕ) → State → Option Handle × State
  pub close : Option Handle → State → State
  pub map_get_phys_mem : Option Handle → State → (ℕ × PhysMemMap) × State
  -- The size of the buffer (`none` for NULL). The result has the count that is left and the buffer.
  pub pid_list : Option Handle → Option ℕ → State → (ℕ × (ℕ × List ℕ)) × State
  -- Handle, process and whether modules are identified.
  pub map_get_vad_u : Option Handle → ℕ → ℕ → State → (ℕ × List VadEntry) × State
  -- Handle, process, address, size and flags. The result has the count read and the buffer.
  pub mem_read_ex : Option Handle → ℕ → ℕ → ℕ → ℕ → State → (ℕ × (ℕ × List ℕ)) × State
  pub mem_write : Option Handle → ℕ → ℕ → List ℕ → ℕ → State → ℕ × State
  -- Handle, process and which string.
  pub process_get_information_string : Option Handle → ℕ → ℕ → State → Option (List ℕ) × State
  pub mem_free : State → State
  pub map_get_module_u : Option Handle → ℕ → ℕ → State → (ℕ × ModuleMap) × State
  pub map_get_thread : Option Handle → ℕ → State → (ℕ × List ThreadInfo) × State
  pub process_get_information :
      Option Handle → ℕ → ProcessInformation → State → (ℕ × ProcessInformation) × State
  pub scatter_initialize : Option Handle → ℕ → ℕ → State → ScatterHandle × State
  pub scatter_prepare : ScatterHandle → ℕ → ℕ → State → ℕ × State
  pub scatter_execute : ScatterHandle → State → ℕ × State
  pub scatter_read : ScatterHandle → ℕ → ℕ → State → (ℕ × (ℕ × List ℕ)) × State
  pub scatter_clear : ScatterHandle → ℕ → ℕ → State → ℕ × State
  pub scatter_close_handle : ScatterHandle → State → State

abbrev as_bool : ℕ → Bool
as_bool n = not (n == 0)

-- `return ::VMMDLL_...(...)` where the method returns a `bool`.
abbrev returning : {A S : Type 0} → (ℕ × A) × S → (Bool × A) × S
returning ((n, a), s) = ((as_bool n, a), s)

abbrev returning_bool : {S : Type 0} → ℕ × S → Bool × S
returning_bool (n, s) = (as_bool n, s)

module _ (v : Vmm) where
  unfoldable pub vmmdll_close : Option v.Handle → v.State → v.State
  vmmdll_close h s = v.close h s

  unfoldable pub vmmdll_initialize : List (List ℕ) → v.State → Option v.Handle × v.State
  vmmdll_initialize argv s = v.initialize argv s

  unfoldable pub vmmdll_map_get_phys_mem : Option v.Handle → v.State → (Bool × PhysMemMap) × v.State
  vmmdll_map_get_phys_mem h s = returning (v.map_get_phys_mem h s)

  unfoldable pub vmmdll_pid_list :
      Option v.Handle → Option ℕ → v.State → (Bool × (ℕ × List ℕ)) × v.State
  vmmdll_pid_list h room s = returning (v.pid_list h room s)

  unfoldable pub vmmdll_map_get_vad_u :
      Option v.Handle → ℕ → ℕ → v.State → (Bool × List VadEntry) × v.State
  vmmdll_map_get_vad_u h pid identify s = returning (v.map_get_vad_u h pid identify s)

  unfoldable pub vmmdll_mem_read_ex :
      Option v.Handle → ℕ → ℕ → ℕ → ℕ → v.State → (Bool × (ℕ × List ℕ)) × v.State
  vmmdll_mem_read_ex h pid address cb flags s = returning (v.mem_read_ex h pid address cb flags s)

  unfoldable pub vmmdll_mem_write : Option v.Handle → ℕ → ℕ → List ℕ → ℕ → v.State → Bool × v.State
  vmmdll_mem_write h pid address pb cb s = returning_bool (v.mem_write h pid address pb cb s)

  unfoldable pub vmmdll_process_get_information_string :
      Option v.Handle → ℕ → ℕ → v.State → Option (List ℕ) × v.State
  vmmdll_process_get_information_string h pid option s =
      v.process_get_information_string h pid option s

  unfoldable pub vmmdll_mem_free : v.State → v.State
  vmmdll_mem_free s = v.mem_free s

  unfoldable pub vmmdll_map_get_module_u :
      Option v.Handle → ℕ → ℕ → v.State → (Bool × v.ModuleMap) × v.State
  vmmdll_map_get_module_u h pid flags s = returning (v.map_get_module_u h pid flags s)

  unfoldable pub vmmdll_map_get_thread :
      Option v.Handle → ℕ → v.State → (Bool × List ThreadInfo) × v.State
  vmmdll_map_get_thread h pid s = returning (v.map_get_thread h pid s)

  unfoldable pub vmmdll_process_get_information :
      Option v.Handle → ℕ → ProcessInformation → v.State → (Bool × ProcessInformation) × v.State
  vmmdll_process_get_information h pid info s = returning (v.process_get_information h pid info s)

  unfoldable pub vmmdll_scatter_initialize :
      Option v.Handle → ℕ → ℕ → v.State → v.ScatterHandle × v.State
  vmmdll_scatter_initialize h pid flags s = v.scatter_initialize h pid flags s

  unfoldable pub vmmdll_scatter_prepare : v.ScatterHandle → ℕ → ℕ → v.State → Bool × v.State
  vmmdll_scatter_prepare h va cb s = returning_bool (v.scatter_prepare h va cb s)

  unfoldable pub vmmdll_scatter_execute : v.ScatterHandle → v.State → Bool × v.State
  vmmdll_scatter_execute h s = returning_bool (v.scatter_execute h s)

  unfoldable pub vmmdll_scatter_read :
      v.ScatterHandle → ℕ → ℕ → v.State → (Bool × (ℕ × List ℕ)) × v.State
  vmmdll_scatter_read h va cb s = returning (v.scatter_read h va cb s)

  unfoldable pub vmmdll_scatter_clear : v.ScatterHandle → ℕ → ℕ → v.State → Bool × v.State
  vmmdll_scatter_clear h pid flags s = returning_bool (v.scatter_clear h pid flags s)

  unfoldable pub vmmdll_scatter_close_handle : v.ScatterHandle → v.State → v.State
  vmmdll_scatter_close_handle h s = v.scatter_close_handle h s
