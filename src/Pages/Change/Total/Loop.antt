-- ===== src/Pages/Change/Total/Loop.antt =====
-- The size of the direct mapping over __change_page_attr_set_clr and its aliases.
use userspace_bypass.Prelude.{
  ℕ, zero, suc, ◌+◌, ◌*◌, ◌-◌, ◌≡◌, Bool, true, false, Option, none, some, u64, ltb, sub64, ◌==◌,
  ◌&&◌, ◌||◌, not, if◌then◌else◌,
}
use userspace_bypass.Pages.{within}
use userspace_bypass.Pages.Cpa.{
  Cpa, no_pgd, Mem, Platform, Out, Errno, success, eperm, enomem, efault, einval, cpa_addr,
  cpa_pfn_in_highmap,
}
use userspace_bypass.Pages.Change.{
  change_page_attr, advance, after_alias, others, after_change, offered, change_pages,
  restore_numpages, no_alias, change_page_attr_set_clr_0, alias_cpa, forced_flush, ignore_result,
  process_high_alias, after_direct_alias, cpa_process_alias, change_page_attr_set_clr,
}
use userspace_bypass.Pages.Change.Total.{Kept, IsKept}
use userspace_bypass.Pages.Change.Total.Rounds.{Repeats, change_page_attr-IsKept}

-- The rest of the loop keeps the size.
abbrev Continues : ℕ → (ℕ → Cpa → Mem → Option Out) → Type 0
Continues n rest = (r : ℕ) → Repeats n (rest r)

none-IsKept : (n : ℕ) → IsKept n none
unfolding IsKept
none-IsKept n = tt

either-IsKept :
    (n : ℕ) (b : Bool) (x y : Option Out) → IsKept n x → IsKept n y → IsKept n (if b then x else y)
either-IsKept n true x y h l = h
either-IsKept n false x y h l = l

advance-IsKept :
    (n : ℕ) (rest : ℕ → Cpa → Mem → Option Out) (r : ℕ) (c : Cpa) (m : Mem)
    → Continues n rest
    → Kept n c m
    → IsKept n (advance rest r c m)
unfolding advance
advance-IsKept n rest r c m next h =
    either-IsKept n (ltb r c.numpages || c.numpages == 0) none
      (rest (r - c.numpages) (record c { curpage = u64 (c.curpage + c.numpages) }) m)
      (none-IsKept n)
      (next (r - c.numpages) (record c { curpage = u64 (c.curpage + c.numpages) }) m h)

-- What comes after success, and what after an error.
by_result-IsKept :
    (n : ℕ) (e : Errno) (x y : Option Out)
    → IsKept n x
    → IsKept n y
    → IsKept n (elim e [ success ↦ x | _ ↦ y ])
by_result-IsKept n success x y h l = h
by_result-IsKept n eperm x y h l = l
by_result-IsKept n enomem x y h l = l
by_result-IsKept n efault x y h l = l
by_result-IsKept n einval x y h l = l

after_alias-IsKept :
    (n : ℕ) (rest : ℕ → Cpa → Mem → Option Out) (r : ℕ) (x : Option Out)
    → Continues n rest
    → IsKept n x
    → IsKept n (after_alias rest r x)
unfolding after_alias IsKept
after_alias-IsKept n rest r none next h = tt
after_alias-IsKept n rest r (some o) next h =
    by_result-IsKept n o.ret (advance rest r o.cpa o.mem) (some o)
      (advance-IsKept n rest r o.cpa o.mem next h) h

after_change-IsKept :
    (n : ℕ) (alias : Cpa → Mem → Option Out) (rest : ℕ → Cpa → Mem → Option Out) (r : ℕ)
    (x : Option Out)
    → Repeats n alias
    → Continues n rest
    → IsKept n x
    → IsKept n (after_change alias rest r x)
unfolding after_change IsKept
after_change-IsKept n alias rest r none others next h = tt
after_change-IsKept n alias rest r (some o) others next h =
    by_result-IsKept n o.ret (after_alias rest r (alias o.cpa o.mem)) (some o)
      (after_alias-IsKept n rest r (alias o.cpa o.mem) next (others o.cpa o.mem h)) h

change_pages-IsKept :
    (n : ℕ) (p : Platform) (primary : Bool) (alias : Cpa → Mem → Option Out)
    → Repeats n alias
    → (fuel : ℕ) → Continues n (change_pages p primary alias fuel)
unfolding change_pages IsKept offered others
change_pages-IsKept n p primary alias kept zero zero c m h = h
change_pages-IsKept n p primary alias kept (suc fuel) zero c m h = h
change_pages-IsKept n p primary alias kept zero (suc r) c m h = tt
change_pages-IsKept n p primary alias kept (suc fuel) (suc r) c m h =
    let d = offered (suc r) c in
    after_change-IsKept n alias (change_pages p primary alias fuel) (suc r)
      (change_page_attr p primary d (others p (suc r) m)) kept
      (change_pages-IsKept n p primary alias kept fuel)
      (change_page_attr-IsKept n p primary d (others p (suc r) m) h)

restore_numpages-IsKept : (n k : ℕ) (x : Option Out) → IsKept n x → IsKept n (restore_numpages k x)
unfolding restore_numpages IsKept
restore_numpages-IsKept n k none h = tt
restore_numpages-IsKept n k (some o) h = h

change_page_attr_set_clr_0-IsKept :
    (n : ℕ) (p : Platform) → Repeats n (change_page_attr_set_clr_0 p)
unfolding change_page_attr_set_clr_0 no_alias IsKept
change_page_attr_set_clr_0-IsKept n p c m h =
    restore_numpages-IsKept n c.numpages (change_pages p false no_alias c.numpages c.numpages c m)
      (change_pages-IsKept n p false no_alias (λ d x l. l) c.numpages c.numpages c m h)

-- The caller's cpa, with the memory of the alias.
ignore_result-IsKept :
    (n : ℕ) (c : Cpa) (x : Option Out) → c.pgd ≡ no_pgd → IsKept n x → IsKept n (ignore_result c x)
unfolding ignore_result IsKept
ignore_result-IsKept n c none g h = tt
ignore_result-IsKept n c (some o) g h = (g, h.1)

process_high_alias-IsKept :
    (n : ℕ) (p : Platform) (vaddr : ℕ) → Repeats n (process_high_alias p vaddr)
unfolding process_high_alias alias_cpa forced_flush IsKept
process_high_alias-IsKept n p vaddr c m h =
    let temp = u64 (sub64 (u64 (c.pfn * 4096 + p.start_kernel_map)) p.phys_base) in
    either-IsKept n (not (within vaddr p.layout.text p.brk_end) && cpa_pfn_in_highmap p c.pfn)
      (ignore_result (forced_flush c) (change_page_attr_set_clr_0 p (alias_cpa temp c) m))
      (some (record { ret = success; cpa = c; mem = m }))
      (ignore_result-IsKept n (forced_flush c) (change_page_attr_set_clr_0 p (alias_cpa temp c) m)
        h.0 (change_page_attr_set_clr_0-IsKept n p (alias_cpa temp c) m h))
      h

after_direct_alias-IsKept :
    (n : ℕ) (p : Platform) (vaddr : ℕ) (c : Cpa) (x : Option Out)
    → c.pgd ≡ no_pgd
    → IsKept n x
    → IsKept n (after_direct_alias p vaddr c x)
unfolding after_direct_alias IsKept
after_direct_alias-IsKept n p vaddr c none g h = tt
after_direct_alias-IsKept n p vaddr c (some o) g h =
    by_result-IsKept n o.ret (process_high_alias p vaddr c o.mem)
      (some (record { ret = o.ret; cpa = c; mem = o.mem }))
      (process_high_alias-IsKept n p vaddr c o.mem (g, h.1)) (g, h.1)

cpa_process_alias-IsKept : (n : ℕ) (p : Platform) → Repeats n (cpa_process_alias p)
unfolding cpa_process_alias alias_cpa forced_flush IsKept
cpa_process_alias-IsKept n p c m h =
    let laddr = p.va (u64 (c.pfn * 4096)) in
    let vaddr = cpa_addr c c.curpage in
    let direct =
      after_direct_alias p vaddr (forced_flush c)
        (change_page_attr_set_clr_0 p (alias_cpa laddr c) m) in
    let high = process_high_alias p vaddr c m in
    let outside =
      not (within vaddr p.page_offset (u64 (p.page_offset + p.max_pfn_mapped * 4096))) in
    either-IsKept n (not (p.pfn_range_is_mapped c.pfn (u64 (c.pfn + 1))))
      (some (record { ret = success; cpa = c; mem = m })) (if outside then direct else high) h
      (either-IsKept n outside direct high
        (after_direct_alias-IsKept n p vaddr (forced_flush c)
          (change_page_attr_set_clr_0 p (alias_cpa laddr c) m) h.0
          (change_page_attr_set_clr_0-IsKept n p (alias_cpa laddr c) m h))
        (process_high_alias-IsKept n p vaddr c m h))

pub change_page_attr_set_clr-IsKept :
    (n : ℕ) (p : Platform) (checkalias : Bool) → Repeats n (change_page_attr_set_clr p checkalias)
unfolding change_page_attr_set_clr
change_page_attr_set_clr-IsKept n p true c m h =
    restore_numpages-IsKept n c.numpages
      (change_pages p true (cpa_process_alias p) c.numpages c.numpages c m)
      (change_pages-IsKept n p true (cpa_process_alias p) (cpa_process_alias-IsKept n p) c.numpages
        c.numpages c m h)
change_page_attr_set_clr-IsKept n p false c m h = change_page_attr_set_clr_0-IsKept n p c m h
