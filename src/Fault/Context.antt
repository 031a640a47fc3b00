-- ===== src/Fault/Context.antt =====
-- no_context with the module's hook, the exports of ub/zz_lkm/error_handler.h, and set_signal_archinfo:
-- what becomes of a fault that nobody may repair.
use userspace_bypass.Prelude.{
  ℕ, ◌+◌, ◌≡◌, refl, Bool, true, false, ◌||◌, ◌&&◌, Option, none, some, List, [], ◌∷◌, ltb, leb,
  ◌==◌, if◌then◌else◌, sub64, neg32,
}
use userspace_bypass.Regs.{Regs}
use userspace_bypass.Fault.State.{
  ErrorCode, Signal, sig_zero, sigkill, SiCode, Symbol, ub_fault_address_space,
  ub_sfi_error_handler, ub_error_handler, force_sig_fault, oops, stack_overflow, efi_recover,
  Kernel, St, note,
}
use userspace_bypass.Fault.Prefetch.{is_prefetch}
use userspace_bypass.Fault.Tables.{is_errata93}

-- UB_ERROR_MEMORY_ACCESS, an `int`.
abbrev pub ub_error_memory_access : ℕ
ub_error_memory_access = neg32 0x200

-- UB_error_handler, by the addresses of its two labels.
unfoldable pub error_handler : ℕ → ℕ → ℕ → ℕ
error_handler memory_access_label default_label error_type =
    if error_type == ub_error_memory_access then memory_access_label else default_label

-- UB_fault_address_space, without its messages.
unfoldable pub fault_address_space : ℕ → ℕ
fault_address_space address = 1

-- The symbols that the module exports.
unfoldable pub exports : ℕ → ℕ → Symbol → Option (List ℕ → ℕ)
exports memory_access_label default_label ub_fault_address_space =
    some (λ args. elim args [ [] ↦ fault_address_space 0 | a ∷ _ ↦ fault_address_space a ])
exports memory_access_label default_label ub_sfi_error_handler = none
exports memory_access_label default_label ub_error_handler = some (λ args. elim args [
  | [] ↦ default_label
  | e ∷ _ ↦ error_handler memory_access_label default_label e
])

abbrev pub page_size : ℕ
page_size = 4096

-- X86_TRAP_PF.
abbrev pub trap_pf : ℕ
trap_pf = 14

-- `if(signal)`.
unfoldable pub is_signal : Signal → Bool
is_signal sig_zero = false
is_signal _ = true

module _ {W : Type 0} (k : Kernel W) (e : ErrorCode) (address : ℕ) where
  unfoldable pub set_signal_archinfo : St W → St W
  set_signal_archinfo s = record s {
    info = record {
      trap_nr = trap_pf;
      error_code = record e { prot = e.prot || leb k.task_size_max address; user = true };
      cr2 = address;
    };
  }

  -- What the file does at its label `oops`, but for the texts.
  unfoldable pub oops_now : St W → St W
  oops_now s = note (oops (if k.die e s.world then sig_zero else sigkill)) s

  -- is_vmalloc_addr, and a page below or above the task's stack.
  unfoldable pub hits_guard : St W → Bool
  hits_guard s =
      let stack = k.task_stack s.world in
      leb k.vmalloc_start address
      && (ltb address k.vmalloc_end
          && (ltb (sub64 (sub64 stack 1) address) page_size
              || ltb (sub64 address (stack + k.thread_size)) page_size))

  -- Behind the hook.
  unfoldable pub last_chances : St W → St W
  unfolding oops_now hits_guard
  last_chances s =
      let (fixed, r) = is_errata93 k address s.regs in
      if hits_guard s
      then note stack_overflow s
      else if is_prefetch k s.regs e s.world
      then s
      else if fixed
      then record s { regs = r }
      else oops_now (note (efi_recover address) s)

  -- The handler that UB_SFI_error_handler would give.
  unfoldable pub jump_to_handler : Option (List ℕ → ℕ) → St W → St W
  jump_to_handler none s = last_chances s
  jump_to_handler (some handler) s = record s {
    regs = record (s.regs) { ip = handler (ub_error_memory_access ∷ []) };
  }

  -- The hook: UB_fault_address_space and UB_SFI_error_handler, if the module exports them.
  unfoldable pub ask_module : Option (List ℕ → ℕ) → St W → St W
  ask_module none s = last_chances s
  ask_module (some in_address_space) s =
      if in_address_space (address ∷ s.regs.r13 ∷ []) == 1
      then jump_to_handler (k.kallsyms ub_sfi_error_handler) s
      else last_chances s

  -- A fault with a fixup.
  unfoldable pub after_fixup : Signal → SiCode → Bool → St W → St W
  unfolding set_signal_archinfo
  after_fixup signal si_code has_signal s =
      if k.in_interrupt s.world
      then s
      else if k.sig_on_uaccess_err s.world && has_signal
      then note (force_sig_fault signal si_code address) (set_signal_archinfo s)
      else s

  unfoldable pub try_fixup : Signal → SiCode → Bool → Option Regs → St W → St W
  unfolding ask_module
  try_fixup signal si_code has_signal none s = ask_module (k.kallsyms ub_fault_address_space) s
  try_fixup signal si_code has_signal (some r) s =
      after_fixup signal si_code has_signal (record s { regs = r })

  unfoldable pub no_context : Signal → SiCode → St W → St W
  unfolding try_fixup
  no_context signal si_code s =
      if k.user_mode s.regs
      then oops_now s
      else try_fixup signal si_code (is_signal signal) (k.fixup_exception s.regs e address s.world)
          s

-- With the symbols that the module exports, the hook of no_context comes to nothing: a fault without a
-- fixup ends as with no module.
pub no_context_unhooked :
    {W : Type 0} (k : Kernel W) (e : ErrorCode) (address memory_access_label default_label : ℕ)
    (signal : Signal) (si_code : SiCode) (s : St W)
    → k.kallsyms ≡ exports memory_access_label default_label
    → k.fixup_exception s.regs e address s.world ≡ none
    → no_context k e address signal si_code s
      ≡ (if k.user_mode s.regs then oops_now k e address s else last_chances k e address s)
unfolding no_context try_fixup ask_module jump_to_handler exports fault_address_space
no_context_unhooked k e address m d signal si_code s x f = rw (f, x) refl
