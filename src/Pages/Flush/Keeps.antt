-- ===== src/Pages/Flush/Keeps.antt =====
-- A flush changes the list of flushes alone: the tables and the counts stay as they are.
use userspace_bypass.Prelude.{
  ℕ, zero, suc, ◌+◌, ◌≡◌, refl, ◌∙◌, true, false, Bool, ◌&&◌, ◌||◌, not, if◌then◌else◌, ltb,
}
use userspace_bypass.Pages.Cpa.{
  Cpa, Mem, Platform, Out, Errno, Flush, success, eperm, enomem, efault, einval, tlb_all, tlb_one,
  caches_all, cache_page, cpa_addr,
}
use userspace_bypass.Pages.Requests.{flush_after, flush_by_result}
use userspace_bypass.Pages.{Prot, fix_addr, lookup_address_in_pgd}
use userspace_bypass.Pages.Flush.{
  add_flush, cpa_flush_all, cpa_flush_tlb, cpa_flush_caches, cpa_flush, is_present,
}

module _ {A : Type 0} (view : Mem → A)
    (blind : (x : Flush) (m : Mem) → view (add_flush x m) ≡ view m) where
  either-kept :
      (b : Bool) (x y m : Mem)
      → view x ≡ view m
      → view y ≡ view m
      → view (if b then x else y) ≡ view m
  either-kept true x y m h l = h
  either-kept false x y m h l = l

  cpa_flush_all-kept :
      (p : Platform) (cache : Bool) (m : Mem) → view (cpa_flush_all p cache m) ≡ view m
  unfolding cpa_flush_all
  cpa_flush_all-kept p cache m =
      let n = add_flush tlb_all m in
      either-kept (cache && p.has_wbinvd) (add_flush caches_all n) n m
        (blind caches_all n ∙ blind tlb_all m) (blind tlb_all m)

  cpa_flush_tlb-kept : (c : Cpa) (i n : ℕ) (m : Mem) → view (cpa_flush_tlb c i n m) ≡ view m
  unfolding cpa_flush_tlb
  cpa_flush_tlb-kept c i zero m = refl
  cpa_flush_tlb-kept c i (suc n) m =
      let first = tlb_one (fix_addr (cpa_addr c i)) in
      cpa_flush_tlb-kept c (i + 1) n (add_flush first m) ∙ blind first m

  cpa_flush_caches-kept : (c : Cpa) (i n : ℕ) (m : Mem) → view (cpa_flush_caches c i n m) ≡ view m
  unfolding cpa_flush_caches
  cpa_flush_caches-kept c i zero m = refl
  cpa_flush_caches-kept c i (suc n) m =
      let addr = cpa_addr c i in
      let b = is_present (lookup_address_in_pgd m.tables addr) in
      let flushed = add_flush (cache_page (fix_addr addr)) m in
      cpa_flush_caches-kept c (i + 1) n (if b then flushed else m)
      ∙ either-kept b flushed m m (blind (cache_page (fix_addr addr)) m) refl

  cpa_flush-kept :
      (p : Platform) (c : Cpa) (cache : Bool) (m : Mem) → view (cpa_flush p c cache m) ≡ view m
  unfolding cpa_flush
  cpa_flush-kept p c cache m =
      let b = c.force_flush_all || ltb p.tlb_single_page_flush_ceiling c.numpages in
      let each = cpa_flush_tlb c 0 c.numpages m in
      let n = if b then add_flush tlb_all m else each in
      let tlbs =
        either-kept b (add_flush tlb_all m) each m (blind tlb_all m)
          (cpa_flush_tlb-kept c 0 c.numpages m) in
      let some_caches = cpa_flush_caches c 0 c.numpages n in
      either-kept (cache && not p.has_clflush) (cpa_flush_all p cache m)
        (if cache then some_caches else n) m (cpa_flush_all-kept p cache m)
        (either-kept cache some_caches n m (cpa_flush_caches-kept c 0 c.numpages n ∙ tlbs) tlbs)

  flush_by_result-kept :
      (p : Platform) (cache : Bool) (e : Errno) (o : Out)
      → view (flush_by_result p cache e o).mem ≡ view o.mem
  unfolding flush_by_result
  flush_by_result-kept p cache success o = cpa_flush-kept p o.cpa cache o.mem
  flush_by_result-kept p cache eperm o = cpa_flush_all-kept p cache o.mem
  flush_by_result-kept p cache enomem o = cpa_flush_all-kept p cache o.mem
  flush_by_result-kept p cache efault o = cpa_flush_all-kept p cache o.mem
  flush_by_result-kept p cache einval o = cpa_flush_all-kept p cache o.mem

  pick-kept :
      (b : Bool) (x y o : Out)
      → view x.mem ≡ view o.mem
      → view y.mem ≡ view o.mem
      → view (if b then x else y).mem ≡ view o.mem
  pick-kept true x y o h l = h
  pick-kept false x y o h l = l

  -- What a request does after the change.
  pub flush_after-kept :
      (p : Platform) (caches : Prot → Bool) (mask_set : Prot) (o : Out)
      → view (flush_after p caches mask_set o).mem ≡ view o.mem
  unfolding flush_after
  flush_after-kept p caches mask_set o =
      pick-kept (not o.cpa.flush_tlb) o (flush_by_result p (caches mask_set) o.ret o) o refl
        (flush_by_result-kept p (caches mask_set) o.ret o)

pub flush_after-tables :
    (p : Platform) (caches : Prot → Bool) (mask_set : Prot) (o : Out)
    → (flush_after p caches mask_set o).mem.tables ≡ o.mem.tables
unfolding add_flush
flush_after-tables p caches mask_set o =
    flush_after-kept (λ m. m.tables) (λ x m. refl) p caches mask_set o

pub flush_after-counts :
    (p : Platform) (caches : Prot → Bool) (mask_set : Prot) (o : Out)
    → (flush_after p caches mask_set o).mem.counts ≡ o.mem.counts
unfolding add_flush
flush_after-counts p caches mask_set o =
    flush_after-kept (λ m. m.counts) (λ x m. refl) p caches mask_set o
