-- ===== src/Fault/State.antt =====
-- What the fault handler works on, and the parts of the kernel that it calls.
use userspace_bypass.Prelude.{ℕ, suc, ◌-◌, ◌/◌, ◌%◌, ◌^◌, Bool, true, Option, List, ◌∷◌, ◌==◌}
use userspace_bypass.Regs.{Regs}

-- The X86_PF_* bits of the error code; `rest` tells whether any other bit is set.
pub record ErrorCode : Type 0 where
  pub prot : Bool
  pub write : Bool
  pub user : Bool
  pub rsvd : Bool
  pub instr : Bool
  pub pk : Bool
  pub rest : Bool

pub data Signal : Type 0 where
  sig_zero sigsegv sigbus sigkill : Signal

pub data SiCode : Type 0 where
  code_zero segv_maperr segv_accerr segv_pkuerr bus_adrerr bus_mceerr_ar : SiCode

-- The symbols that the file and ub/zz_lkm/error_handler.h name.
pub data Symbol : Type 0 where
  ub_fault_address_space ub_sfi_error_handler ub_error_handler : Symbol

-- An entry of a page table.
pub record Pte : Type 0 where
  pub is_none : Bool
  pub present : Bool
  pub large : Bool
  pub writable : Bool
  pub exec : Bool
  pub pfn : ℕ

pub record Vma : Type 0 where
  pub vm_start : ℕ
  pub vm_read : Bool
  pub vm_write : Bool
  pub vm_exec : Bool
  pub vm_growsdown : Bool
  pub pkey : ℕ

-- The FAULT_FLAG_* that the handler passes on; FAULT_FLAG_KILLABLE is always set.
pub record FaultFlags : Type 0 where
  pub allow_retry : Bool
  pub tried : Bool
  pub for_user : Bool
  pub for_write : Bool
  pub for_instruction : Bool

-- The VM_FAULT_* of handle_mm_fault; `fallback` completes VM_FAULT_ERROR.
pub record VmFault : Type 0 where
  pub retry : Bool
  pub major : Bool
  pub oom : Bool
  pub sigbus : Bool
  pub sigsegv : Bool
  pub hwpoison : Bool
  pub hwpoison_large : Bool
  pub fallback : Bool
  pub hindex_shift : ℕ

-- What happens: `oops` and `bug` are the ends of the kernel's patience, `mm_fault` is a call of
-- handle_mm_fault; `out_of_fuel` stands for a retry that the model has no fuel for.
pub data Event : Type 0 where
  force_sig_fault : Signal → SiCode → ℕ → Event
  force_sig_pkuerr : ℕ → ℕ → Event
  force_sig_mceerr : SiCode → ℕ → ℕ → Event
  oops : Signal → Event
  bug stack_overflow out_of_memory show_signal_msg : Event
  efi_recover : ℕ → Event
  mm_fault : FaultFlags → Event
  out_of_fuel : Event

-- The thread's fault information, that set_signal_archinfo writes.
pub record ArchInfo : Type 0 where
  pub trap_nr : ℕ
  pub error_code : ErrorCode
  pub cr2 : ℕ

-- `held` counts the read locks of mmap_sem that the handler holds; `trace` is the latest first.
pub record St (W : Type 0) : Type 0 where
  pub regs : Regs
  pub world : W
  pub irqs : Bool
  pub held : ℕ
  pub info : ArchInfo
  pub maj_flt : ℕ
  pub min_flt : ℕ
  pub trace : List Event

-- The rest of the kernel, over a world W. A function that may change the world returns it.
pub record Kernel (W : Type 0) : Type 0 where
  pub user_mode : Regs → Bool
  pub user_64bit_mode : Regs → Bool
  pub task_size_max : ℕ
  pub vsyscall_addr : ℕ
  pub probe : ℕ → W → Option ℕ
  pub convert_ip_to_linear : Regs → W → ℕ
  pub is_kmmio_active : W → Bool
  pub kmmio_handler : Regs → ℕ → W → ℕ × W
  pub vmalloc_start : ℕ
  pub vmalloc_end : ℕ
  pub l5_enabled : Bool
  pub pgd : ℕ → W → Pte
  pub pgd_k : ℕ → W → Pte
  pub p4d : ℕ → W → Pte
  pub p4d_k : ℕ → W → Pte
  pub pud : ℕ → W → Pte
  pub pmd : ℕ → W → Pte
  pub pte : ℕ → W → Pte
  pub set_pgd : ℕ → Pte → W → W
  pub set_p4d : ℕ → Pte → W → W
  pub ref_pgd : ℕ → W → Pte
  pub ref_p4d : ℕ → W → Pte
  pub ref_pud : ℕ → W → Pte
  pub ref_pmd : ℕ → W → Pte
  pub ref_pte : ℕ → W → Pte
  pub is_k8 : Bool
  pub stext : ℕ
  pub etext : ℕ
  pub modules_vaddr : ℕ
  pub modules_end : ℕ
  pub user32_cs : ℕ
  pub fixup_exception : Regs → ErrorCode → ℕ → W → Option Regs
  pub in_interrupt : W → Bool
  pub sig_on_uaccess_err : W → Bool
  pub kallsyms : Symbol → Option (List ℕ → ℕ)
  pub task_stack : W → ℕ
  pub thread_size : ℕ
  pub die : ErrorCode → W → Bool
  pub show_unhandled_signals : W → Bool
  pub ospke : Bool
  pub smap : Bool
  pub access_permitted : Vma → Bool → Bool → W → Bool
  pub fatal_signal_pending : W → Bool
  pub kprobe_page_fault : Regs → W → Bool
  pub faulthandler_disabled : W → Bool
  pub has_mm : W → Bool
  pub emulate_vsyscall : ErrorCode → Regs → ℕ → W → Bool × Regs × W
  pub trylock : W → Bool
  pub search_exception_tables : ℕ → W → Bool
  pub find_vma : ℕ → W → Option Vma
  pub expand_stack : Vma → ℕ → W → Bool × W
  pub handle_mm_fault : Vma → ℕ → FaultFlags → W → VmFault × W

-- Bit n of a number.
abbrev pub has_bit : ℕ → ℕ → Bool
has_bit n x = x / 2 ^ n % 2 == 1

module _ {W : Type 0} where
  abbrev pub note : Event → St W → St W
  note e s = record s { trace = e ∷ s.trace }

  abbrev pub set_world : W → St W → St W
  set_world w s = record s { world = w }

  unfoldable pub down_read : St W → St W
  down_read s = record s { held = suc s.held }

  unfoldable pub up_read : St W → St W
  up_read s = record s { held = s.held - 1 }

  unfoldable pub irq_enable : St W → St W
  irq_enable s = record s { irqs = true }
