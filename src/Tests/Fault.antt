-- ===== src/Tests/Fault.antt =====
-- Page faults: a write of user code to a page that its VMA allows, and faults of the kernel.
use userspace_bypass.Prelude.{
  ℕ, ◌≤◌, ◌<◌, ◌≡◌, refl, ◌↔◌, none, some, true, false, [], ◌&&◌, leb, ◌==◌, if◌then◌else◌,
}
use userspace_bypass.Fault.State.{ErrorCode, sigsegv, segv_maperr, Pte, Vma, VmFault, Kernel, St}
use userspace_bypass.Fault.Prefetch.{PrefetchAt, is_prefetch, is_prefetch_iff}
use userspace_bypass.Fault.Tables.{
  Stores, IsSynced, Allows, Maps, vmalloc_fault, walk_down, sync_p4d, sync_pgd,
  vmalloc_fault-IsSynced, may_be_spurious, spurious_kernel_fault, spurious_kernel_fault_check,
  spurious_fault-Maps,
}
use userspace_bypass.Fault.Context.{exports, no_context, last_chances, no_context_unhooked}
use userspace_bypass.Fault.Handler.{do_page_fault}
use userspace_bypass.Fault.Handler.Balance.{do_page_fault-IsBalanced}
use userspace_bypass.Fault.Area.Balance.{IsBalanced}
use userspace_bypass.Fault.Handler.User.{oopses, do_page_fault-oopses}
use userspace_bypass.Tests.Data.{zero_regs}

abbrev user_write : ErrorCode
user_write = record {
  prot = false;
  write = true;
  user = true;
  rsvd = false;
  instr = false;
  pk = false;
  rest = false;
}

abbrev kernel_write : ErrorCode
kernel_write = record user_write { prot = true; user = false }

abbrev entry : Pte
entry = record {
  is_none = false;
  present = true;
  large = false;
  writable = true;
  exec = false;
  pfn = 9;
}

abbrev stack_vma : Vma
stack_vma = record {
  vm_start = 0x1000;
  vm_read = true;
  vm_write = true;
  vm_exec = false;
  vm_growsdown = true;
  pkey = 0;
}

abbrev retried : VmFault
retried = record {
  retry = true;
  major = true;
  oom = false;
  sigbus = false;
  sigsegv = false;
  hwpoison = false;
  hwpoison_large = false;
  fallback = false;
  hindex_shift = 21;
}

-- handle_mm_fault asks for a retry once; two prefetch bytes stand at 0x400 behind a prefix.
abbrev kernel : Kernel ℕ
kernel = record {
  user_mode = λ r. r.cs == 51;
  user_64bit_mode = λ r. true;
  task_size_max = 0x7ffffffff000;
  vsyscall_addr = 0xffffffffff600000;
  probe = λ a w.
      if a == 0x400
      then some 0xf2
      else if a == 0x401
      then some 15
      else if a == 0x402
      then some 0x18
      else none;
  convert_ip_to_linear = λ r w. r.ip;
  is_kmmio_active = λ w. false;
  kmmio_handler = λ r a w. (0, w);
  vmalloc_start = 0xffffc90000000000;
  vmalloc_end = 0xffffe8ffffffffff;
  l5_enabled = false;
  pgd = λ a w. entry;
  pgd_k = λ a w. entry;
  p4d = λ a w. record entry { is_none = w == 0 };
  p4d_k = λ a w. entry;
  pud = λ a w. entry;
  pmd = λ a w. entry;
  pte = λ a w. entry;
  set_pgd = λ a e w. w;
  set_p4d = λ a e w. 1;
  ref_pgd = λ a w. entry;
  ref_p4d = λ a w. entry;
  ref_pud = λ a w. record entry { large = true };
  ref_pmd = λ a w. entry;
  ref_pte = λ a w. entry;
  is_k8 = false;
  stext = 0;
  etext = 0;
  modules_vaddr = 0;
  modules_end = 0;
  user32_cs = 35;
  fixup_exception = λ r e a w. none;
  in_interrupt = λ w. false;
  sig_on_uaccess_err = λ w. false;
  kallsyms = exports 0x900 0x910;
  task_stack = λ w. 0;
  thread_size = 16384;
  die = λ e w. false;
  show_unhandled_signals = λ w. true;
  ospke = false;
  smap = true;
  access_permitted = λ vma b i w. true;
  fatal_signal_pending = λ w. false;
  kprobe_page_fault = λ r w. false;
  faulthandler_disabled = λ w. false;
  has_mm = λ w. true;
  emulate_vsyscall = λ e r a w. (false, r, w);
  trylock = λ w. true;
  search_exception_tables = λ a w. false;
  find_vma = λ a w. some stack_vma;
  expand_stack = λ vma a w. (false, w);
  handle_mm_fault = λ vma a f w. (record retried { retry = w == 0 }, 1);
}

abbrev faulting : St ℕ
faulting = record {
  regs = record zero_regs { cs = 51 };
  world = 0;
  irqs = false;
  held = 0;
  info = record { trap_nr = 0; error_code = user_write; cr2 = 0 };
  maj_flt = 0;
  min_flt = 0;
  trace = [];
}

do_page_fault-IsBalanced_example :
    IsBalanced 2 faulting (do_page_fault kernel user_write 0xff8 faulting)
do_page_fault-IsBalanced_example = do_page_fault-IsBalanced kernel user_write 0xff8 faulting

do_page_fault-oopses_example : oopses (do_page_fault kernel user_write 0xff8 faulting).trace ≡ 0
do_page_fault-oopses_example =
    do_page_fault-oopses kernel user_write 0xff8 faulting refl refl (λ e r a w u. u)
      (λ vma a f w. refl) refl

is_prefetch_iff_example :
    (is_prefetch kernel zero_regs user_write 0 ≡ true)
    ↔ (false ≡ false)
      × ((false && leb 0x7ffffffff000 0x400) ≡ false)
      × (j : ℕ) × (j < 15)
      × PrefetchAt kernel zero_regs 0 j 0x400
is_prefetch_iff_example = is_prefetch_iff kernel zero_regs user_write 0

spurious_fault-Maps_example :
    (true ≡ true)
    × (false ≡ false)
    × (false ≡ false)
    × (pte : Pte) × Maps kernel 0xffffc90000000000 0 pte
    × Allows kernel_write pte
unfolding spurious_kernel_fault may_be_spurious spurious_kernel_fault_check
spurious_fault-Maps_example = spurious_fault-Maps kernel kernel_write 0xffffc90000000000 0 refl

kernel-Stores : Stores kernel 0xffffc90000001000
kernel-Stores = record { pgd = λ w. (refl, refl); p4d = λ w. (refl, refl) }

vmalloc_fault-IsSynced_example :
    (0xffffc90000000000 ≤ 0xffffc90000001000)
    × (0xffffc90000001000 < 0xffffe8ffffffffff)
    × IsSynced kernel 0xffffc90000001000 1
unfolding vmalloc_fault walk_down sync_p4d sync_pgd
vmalloc_fault-IsSynced_example =
    vmalloc_fault-IsSynced kernel 0xffffc90000001000 kernel-Stores 0 1 refl

no_context_unhooked_example :
    no_context kernel kernel_write 0x10 sigsegv segv_maperr (record faulting { regs = zero_regs })
    ≡ last_chances kernel kernel_write 0x10 (record faulting { regs = zero_regs })
no_context_unhooked_example =
    no_context_unhooked kernel kernel_write 0x10 0x900 0x910 sigsegv segv_maperr
      (record faulting { regs = zero_regs }) refl refl
