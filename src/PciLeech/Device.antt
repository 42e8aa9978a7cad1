-- ===== src/PciLeech/Device.antt =====
-- The device of the program: class Memory's calls through the wrapper, with the arguments that
-- Memory.cpp gives.
use ceserver_pcileech.Prelude.{
  ℕ, ◌≡◌, List, Bool, true, false, if◌then◌else◌, Option, none, some, take,
}
use ceserver_pcileech.Memory.Device.{Device}
use ceserver_pcileech.PciLeech.{
  Vmm, ProcessInformation, vmmdll_close, vmmdll_initialize, vmmdll_map_get_phys_mem,
  vmmdll_pid_list, vmmdll_map_get_vad_u, vmmdll_mem_read_ex, vmmdll_mem_write,
  vmmdll_process_get_information_string, vmmdll_mem_free, vmmdll_map_get_thread,
  vmmdll_process_get_information, vmmdll_scatter_initialize, vmmdll_scatter_prepare,
  vmmdll_scatter_execute, vmmdll_scatter_read, vmmdll_scatter_close_handle,
}

-- The numbers of vmmdll.h that class Memory uses.
pub record VmmHeader : Type 0 where
  pub map_physmem_version : ℕ
  pub process_information_magic : ℕ
  pub process_information_version : ℕ
  pub opt_string_path_user_image : ℕ
  -- NOCACHE, NOCACHEPUT and ZEROPAD_ON_FAIL.
  pub scatter_flags : ℕ
  pub memorymodel_na : ℕ
  pub memorymodel_x86pae : ℕ
  pub memorymodel_arm64 : ℕ
  pub memorymodel_x64 : ℕ
  pub memorymodel_x86 : ℕ

-- `if (!pcileech->...) return` in front of a use of what the call wrote.
abbrev pub if_true : {A B S : Type 0} → (A → B) → (Bool × A) × S → Option B × S
if_true f ((ok, a), s) = (if ok then some (f a) else none, s)

pub if_true-eq-some :
    {A S : Type 0} (r : (Bool × A) × S) (a : A) → (if_true (λ x. x) r).0 ≡ some a → r.0.1 ≡ a
if_true-eq-some ((true, b), s) a e = cc
if_true-eq-some ((false, b), s) a e = cc

-- What a read that may fail left: the failure is only logged.
abbrev either_way : {A S : Type 0} → (Bool × A) × S → A × S
either_way ((ok, a), s) = (a, s)

module _ (v : Vmm) (header : VmmHeader) (path : List ℕ) where
  -- `memset(&procInfo, 0, …)` with the two fields that are set.
  abbrev asked : ProcessInformation
  asked = record {
    magic = header.process_information_magic;
    w_version = header.process_information_version;
    tp_memory_model = 0;
  }

  -- Class Memory with this value of `hVMM`.
  abbrev pub device : Option v.Handle → Device
  device h_vmm = record {
    State = v.State;
    Handle = v.Handle;
    ScatterHandle = v.ScatterHandle;
    mmap_path = path;
    initialize = vmmdll_initialize v;
    close = λ h s. vmmdll_close v (some h) s;
    get_phys_mem = λ h s. if_true (λ map. map) (vmmdll_map_get_phys_mem v (some h) s);
    mem_free = vmmdll_mem_free v;
    physmem_version = header.map_physmem_version;
    pid_count = λ s. if_true (λ r. r.0) (vmmdll_pid_list v h_vmm none s);
    pid_list = λ n s. if_true (λ r. take r.0 r.1) (vmmdll_pid_list v h_vmm (some n) s);
    user_image_path = λ pid s.
        vmmdll_process_get_information_string v h_vmm pid header.opt_string_path_user_image s;
    get_vad_u = λ pid s. if_true (λ map. map) (vmmdll_map_get_vad_u v h_vmm pid 1 s);
    get_thread = λ pid s. if_true (λ map. map) (vmmdll_map_get_thread v h_vmm pid s);
    mem_read_ex =
        λ pid a n s. either_way (vmmdll_mem_read_ex v h_vmm pid a n header.scatter_flags s);
    mem_write = λ bs pid a n s. vmmdll_mem_write v h_vmm pid a bs n s;
    scatter_initialize = λ pid s. vmmdll_scatter_initialize v h_vmm pid header.scatter_flags s;
    scatter_prepare = vmmdll_scatter_prepare v;
    scatter_execute = vmmdll_scatter_execute v;
    scatter_read = λ h a n s. either_way (vmmdll_scatter_read v h a n s);
    scatter_close_handle = vmmdll_scatter_close_handle v;
    memory_model_of = λ pid s.
        if_true (λ info. info.tp_memory_model) (vmmdll_process_get_information v h_vmm pid asked s);
    memorymodel_na = header.memorymodel_na;
    memorymodel_x86pae = header.memorymodel_x86pae;
    memorymodel_arm64 = header.memorymodel_arm64;
    memorymodel_x64 = header.memorymodel_x64;
    memorymodel_x86 = header.memorymodel_x86;
  }
