-- ===== src/Pages/Change.antt =====
-- Changing attributes page by page: __change_page_attr, cpa_process_alias, __change_page_attr_set_clr.
-- `none` is a BUG_ON, a walk through an entry that is no table, or the end of the fuel.
pub mod Step
pub mod Rounds
pub mod Range
pub mod Loop
pub mod Failure
pub mod Total
use userspace_bypass.Prelude.{
  ℕ, zero, suc, ◌+◌, ◌*◌, ◌-◌, ◌/◌, ◌^◌, ◌%◌, Bool, true, false, ◌&&◌, ◌||◌, not, Option, none,
  some, ltb, leb, ◌==◌, if◌then◌else◌, u64, sub64, update,
}
use userspace_bypass.Pages.{
  Prot, Level, level_4k, Leaf, Tables, static_protections, within, vpn, set_leaf, prot_eq,
  pgprot_clear_protnone_bits, masked,
}
use userspace_bypass.Pages.Cpa.{
  Cpa, Pgd, no_pgd, init_mm_pgd, other_pgd, Mem, Platform, Out, Errno, success, efault, einval,
  enomem, cpa_addr, tables_of, put_tables, lookup_address_cpa, cpa_pfn_in_highmap,
}
use userspace_bypass.Pages.Split.{
  Decision, must_split, keep_page, invalid, Checked, should_split_large_page, split_large_page,
}
use userspace_bypass.Pages.Populate.{populate_pgd}

unfoldable pub process_kernel_fault : Platform → ℕ → Bool → Cpa → Mem → Out
unfolding within
process_kernel_fault p vaddr primary c m =
    if not primary
    then record { ret = success; cpa = record c { numpages = 1 }; mem = m }
    else if within vaddr p.page_offset (u64 (p.page_offset + p.max_pfn_mapped * 4096))
    then record { ret = success; cpa = record c { numpages = 1; pfn = p.pa vaddr / 4096 }; mem = m }
    else record { ret = efault; cpa = c; mem = m }

-- __cpa_process_fault; the two branches for -EFAULT differ in a warning.
unfoldable pub cpa_process_fault : Platform → Pgd → ℕ → Bool → Cpa → Mem → Option Out
unfolding process_kernel_fault populate_pgd
cpa_process_fault p no_pgd vaddr primary c m = some (process_kernel_fault p vaddr primary c m)
cpa_process_fault p _ vaddr primary c m = populate_pgd p vaddr c m

-- The protection that a pte gets.
unfoldable pub pte_prot : Platform → Tables → ℕ → Cpa → Leaf → Prot
unfolding pgprot_clear_protnone_bits static_protections masked
pte_prot p init address c old =
    pgprot_clear_protnone_bits
      (static_protections p.layout init (masked c.mask_clr c.mask_set old.prot) address old.pfn 1 0)

-- The change of a pte.
unfoldable pub change_pte : Platform → ℕ → Leaf → Cpa → Mem → Out
unfolding pte_prot prot_eq tables_of put_tables set_leaf vpn
change_pte p address old c m =
    let new = pte_prot p m.tables address c old in
    let d = record c { pfn = old.pfn; numpages = 1 } in
    if prot_eq old.prot new then record { ret = success; cpa = d; mem = m } else record {
      ret = success;
      cpa = record d { flush_tlb = true };
      mem =
          put_tables c.pgd
            (set_leaf level_4k (vpn address) (record { pfn = old.pfn; prot = new })
              (tables_of c.pgd m))
            m;
    }

-- `goto repeat` after a split, or its error.
unfoldable pub after_split : (Cpa → Mem → Option Out) → Cpa → Errno × Mem → Option Out
after_split repeat c (success, m) = repeat c m
after_split repeat c (e, m) = some (record { ret = e; cpa = c; mem = m })

unfoldable pub after_check :
    Platform → (Cpa → Mem → Option Out) → Level → ℕ → Decision → Cpa → Mem → Option Out
unfolding after_split split_large_page
after_check p repeat kpte address keep_page c m = some (record { ret = success; cpa = c; mem = m })
after_check p repeat kpte address invalid c m = some (record { ret = einval; cpa = c; mem = m })
after_check p repeat kpte address must_split c m =
    after_split repeat c (split_large_page p kpte address c m)

unfoldable pub change_large_page :
    Platform → (Cpa → Mem → Option Out) → Level → ℕ → Cpa → Mem → Option Out
unfolding should_split_large_page after_check
change_large_page p repeat kpte address c m =
    let s = should_split_large_page p kpte address c m in
    after_check p repeat kpte address s.decision s.cpa s.mem

unfoldable pub change_entry :
    Platform → (Cpa → Mem → Option Out) → Option Leaf × Level → ℕ → Bool → Cpa → Mem → Option Out
unfolding cpa_process_fault change_pte change_large_page
change_entry p repeat (none, level) address primary c m =
    cpa_process_fault p c.pgd address primary c m
change_entry p repeat (some old, level_4k) address primary c m = some (change_pte p address old c m)
change_entry p repeat (some old, level) address primary c m =
    change_large_page p repeat level address c m

-- From `repeat` on; the fuel counts the rounds.
unfoldable pub change_page_at : Platform → ℕ → ℕ → Bool → Cpa → Mem → Option Out
unfolding change_entry lookup_address_cpa
change_page_at p zero address primary c m = none
change_page_at p (suc n) address primary c m =
    change_entry p (change_page_at p n address primary) (lookup_address_cpa c m address) address
      primary c m

-- __change_page_attr: two splits, from 1G to 4k, and a last round.
unfoldable pub change_page_attr : Platform → Bool → Cpa → Mem → Option Out
unfolding change_page_at cpa_addr
change_page_attr p primary c m = change_page_at p 3 (cpa_addr c c.curpage) primary c m

-- BUG_ON, and the step on by the pages that are done.
unfoldable pub advance : (ℕ → Cpa → Mem → Option Out) → ℕ → Cpa → Mem → Option Out
advance rest rempages c m =
    if ltb rempages c.numpages || c.numpages == 0
    then none
    else rest (rempages - c.numpages) (record c { curpage = u64 (c.curpage + c.numpages) }) m

-- After cpa_process_alias.
unfoldable pub after_alias : (ℕ → Cpa → Mem → Option Out) → ℕ → Option Out → Option Out
unfolding advance
after_alias rest rempages none = none
after_alias rest rempages (some o) = elim o.ret [
  | success ↦ advance rest rempages o.cpa o.mem
  | _ ↦ some o
]

-- After __change_page_attr.
unfoldable pub after_change :
    (Cpa → Mem → Option Out) → (ℕ → Cpa → Mem → Option Out) → ℕ → Option Out → Option Out
unfolding after_alias
after_change alias rest rempages none = none
after_change alias rest rempages (some o) = elim o.ret [
  | success ↦ after_alias rest rempages (alias o.cpa o.mem)
  | _ ↦ some o
]

-- cpa->numpages for the next step.
unfoldable pub offered : ℕ → Cpa → Cpa
offered rempages c = record c { numpages = if c.array || c.pages_array then 1 else rempages }

-- The memory once cpa_lock is taken for a round.
unfoldable pub others : Platform → ℕ → Mem → Mem
others p r m = record m { tables = p.between r m.tables }

-- The loop; `alias` is what checkalias does after each step. The fuel is the number of pages.
unfoldable pub change_pages :
    Platform → Bool → (Cpa → Mem → Option Out) → ℕ → ℕ → Cpa → Mem → Option Out
unfolding after_change change_page_attr offered others
change_pages p primary alias n zero c m = some (record { ret = success; cpa = c; mem = m })
change_pages p primary alias zero (suc r) c m = none
change_pages p primary alias (suc n) (suc r) c m =
    after_change alias (change_pages p primary alias n) (suc r)
      (change_page_attr p primary (offered (suc r) c) (others p (suc r) m))

-- `out:`.
unfoldable pub restore_numpages : ℕ → Option Out → Option Out
restore_numpages n none = none
restore_numpages n (some o) = some (record o { cpa = record (o.cpa) { numpages = n } })

unfoldable pub no_alias : Cpa → Mem → Option Out
no_alias c m = some (record { ret = success; cpa = c; mem = m })

-- __change_page_attr_set_clr with checkalias = 0.
unfoldable pub change_page_attr_set_clr_0 : Platform → Cpa → Mem → Option Out
unfolding restore_numpages change_pages no_alias
change_page_attr_set_clr_0 p c m =
    restore_numpages c.numpages (change_pages p false no_alias c.numpages c.numpages c m)

-- The alias_cpa for one address.
unfoldable pub alias_cpa : ℕ → Cpa → Cpa
alias_cpa laddr c = record c { vaddr = λ i. laddr; pages_array = false; array = false; curpage = 0 }

unfoldable pub forced_flush : Cpa → Cpa
forced_flush c = record c { force_flush_all = true }

-- The high mapping's alias, whose result is ignored.
unfoldable pub ignore_result : Cpa → Option Out → Option Out
ignore_result c none = none
ignore_result c (some o) = some (record { ret = success; cpa = c; mem = o.mem })

unfoldable pub process_high_alias : Platform → ℕ → Cpa → Mem → Option Out
unfolding within cpa_pfn_in_highmap alias_cpa ignore_result change_page_attr_set_clr_0 forced_flush
process_high_alias p vaddr c m =
    let temp = u64 (sub64 (u64 (c.pfn * 4096 + p.start_kernel_map)) p.phys_base) in
    if not (within vaddr p.layout.text p.brk_end) && cpa_pfn_in_highmap p c.pfn
    then ignore_result (forced_flush c) (change_page_attr_set_clr_0 p (alias_cpa temp c) m)
    else some (record { ret = success; cpa = c; mem = m })

unfoldable pub after_direct_alias : Platform → ℕ → Cpa → Option Out → Option Out
unfolding process_high_alias
after_direct_alias p vaddr c none = none
after_direct_alias p vaddr c (some o) = elim o.ret [
  | success ↦ process_high_alias p vaddr c o.mem
  | _ ↦ some (record { ret = o.ret; cpa = c; mem = o.mem })
]

unfoldable pub cpa_process_alias : Platform → Cpa → Mem → Option Out
unfolding cpa_addr within alias_cpa change_page_attr_set_clr_0 after_direct_alias process_high_alias
cpa_process_alias p c m =
    let laddr = p.va (u64 (c.pfn * 4096)) in
    let vaddr = cpa_addr c c.curpage in
    if not (p.pfn_range_is_mapped c.pfn (u64 (c.pfn + 1)))
    then some (record { ret = success; cpa = c; mem = m })
    else if not (within vaddr p.page_offset (u64 (p.page_offset + p.max_pfn_mapped * 4096)))
    then after_direct_alias p vaddr (forced_flush c)
        (change_page_attr_set_clr_0 p (alias_cpa laddr c) m)
    else process_high_alias p vaddr c m

-- __change_page_attr_set_clr.
unfoldable pub change_page_attr_set_clr : Platform → Bool → Cpa → Mem → Option Out
unfolding restore_numpages change_pages cpa_process_alias change_page_attr_set_clr_0
change_page_attr_set_clr p checkalias c m =
    if checkalias
    then restore_numpages c.numpages
        (change_pages p true (cpa_process_alias p) c.numpages c.numpages c m)
    else change_page_attr_set_clr_0 p c m
