-- ===== src/Pages/Flush.antt =====
-- Flushing the TLBs and the caches after a change, and what else looks an address up: lookup_pmd_address,
-- slow_virt_to_phys, kernel_page_present.
use Prim.Native.Nat.{bit_or}
pub mod Keeps
pub mod Covers
use userspace_bypass.Prelude.{
  ℕ, zero, suc, ◌+◌, ◌*◌, ◌-◌, ◌/◌, ◌^◌, ◌%◌, Bool, true, false, ◌&&◌, ◌||◌, not, Option, none,
  some, ltb, leb, ◌==◌, if◌then◌else◌, u64, sub64, update, List, [], ◌∷◌, ◌++◌,
}
use userspace_bypass.Pages.{
  Level, level_4k, level_2m, level_1g, Leaf, Entry, e_table, Tables, lookup_address_in_pgd,
  fix_addr, vpn,
}
use userspace_bypass.Pages.Cpa.{
  Cpa, Page, Mem, Platform, Flush, tlb_all, tlb_here, caches_all, tlb_one, cache_page, cpa_addr,
}

unfoldable pub add_flush : Flush → Mem → Mem
add_flush f m = record m { flushes = f ∷ m.flushes }

-- cpa_flush_all, __cpa_flush_all.
unfoldable pub cpa_flush_all : Platform → Bool → Mem → Mem
unfolding add_flush
cpa_flush_all p cache m =
    let n = add_flush tlb_all m in if cache && p.has_wbinvd then add_flush caches_all n else n

-- __cpa_flush_tlb from page i on.
unfoldable pub cpa_flush_tlb : Cpa → ℕ → ℕ → Mem → Mem
unfolding add_flush fix_addr cpa_addr
cpa_flush_tlb c i zero m = m
cpa_flush_tlb c i (suc n) m =
    cpa_flush_tlb c (i + 1) n (add_flush (tlb_one (fix_addr (cpa_addr c i))) m)

unfoldable pub is_present : Option Leaf × Level → Bool
is_present (none, level) = false
is_present (some l, level) = l.prot.present

-- The cache lines of the pages from i on; the mapping that lookup_address finds has to be present.
unfoldable pub cpa_flush_caches : Cpa → ℕ → ℕ → Mem → Mem
unfolding add_flush fix_addr cpa_addr is_present lookup_address_in_pgd
cpa_flush_caches c i zero m = m
cpa_flush_caches c i (suc n) m =
    let addr = cpa_addr c i in
    cpa_flush_caches c (i + 1) n (
      if is_present (lookup_address_in_pgd m.tables addr)
      then add_flush (cache_page (fix_addr addr)) m
      else m)

unfoldable pub cpa_flush : Platform → Cpa → Bool → Mem → Mem
unfolding cpa_flush_all add_flush cpa_flush_tlb cpa_flush_caches
cpa_flush p c cache m =
    let all = c.force_flush_all || ltb p.tlb_single_page_flush_ceiling c.numpages in
    let n = if all then add_flush tlb_all m else cpa_flush_tlb c 0 c.numpages m in
    if cache && not p.has_clflush
    then cpa_flush_all p cache m
    else if cache
    then cpa_flush_caches c 0 c.numpages n
    else n

-- clflush_cache_range_opt: the addresses that are flushed, one per cache line, from the line of the
-- first on; `n` bounds their number.
unfoldable pub clflush_from : ℕ → ℕ → ℕ → ℕ → List ℕ
clflush_from zero size a end = []
clflush_from (suc n) size a end = if ltb a end then a ∷ clflush_from n size (a + size) end else []

unfoldable pub clflush_cache_range_opt : ℕ → ℕ → ℕ → List ℕ
unfolding clflush_from
clflush_cache_range_opt clflush_size vaddr size =
    clflush_from (size + 1) clflush_size (vaddr / clflush_size * clflush_size) (vaddr + size)

unfoldable pub passes : Entry → Bool
passes e_table = true
passes _ = false

-- Whether there is a pmd entry for the address.
unfoldable pub lookup_pmd_address : Tables → ℕ → Option Entry
unfolding vpn passes
lookup_pmd_address t address =
    let v = vpn address in
    if passes (t.p4d (v / 2 ^ 27)) && passes (t.pud (v / 2 ^ 18))
    then some (t.pmd (v / 2 ^ 9))
    else none

-- The frame at the entry's start, with the address's offset in the entry or-ed in below it; `none` is
-- the BUG_ON. Of an entry at 512G only the offset in a page is taken.
unfoldable pub phys_of : ℕ → Option Leaf × Level → Option ℕ
phys_of virt_addr (none, level_4k) = some (virt_addr % 4096)
phys_of virt_addr (none, level) = none
phys_of virt_addr (some l, level_1g) = some (bit_or (u64 (l.pfn * 4096)) (virt_addr % 2 ^ 30))
phys_of virt_addr (some l, level_2m) = some (bit_or (u64 (l.pfn * 4096)) (virt_addr % 2 ^ 21))
phys_of virt_addr (some l, level) = some (bit_or (u64 (l.pfn * 4096)) (virt_addr % 4096))

unfoldable pub slow_virt_to_phys : Tables → ℕ → Option ℕ
unfolding phys_of lookup_address_in_pgd
slow_virt_to_phys t virt_addr = phys_of virt_addr (lookup_address_in_pgd t virt_addr)

-- A missing table is read through a null pointer, `none`.
unfoldable pub present_of : Option Leaf × Level → Option Bool
present_of (some l, level) = some l.prot.present
present_of (none, level_4k) = some false
present_of (none, level) = none

unfoldable pub kernel_page_present : Tables → Page → Option Bool
unfolding present_of lookup_address_in_pgd
kernel_page_present t page =
    if page.highmem then some false else present_of (lookup_address_in_pgd t page.address)
