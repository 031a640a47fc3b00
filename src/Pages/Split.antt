-- ===== src/Pages/Split.antt =====
-- Splitting a large page: should_split_large_page, split_large_page and what they call.
pub mod Keeps
pub mod Large
pub mod Fit
pub mod Check
use userspace_bypass.Prelude.{
  ℕ, ◌+◌, ◌*◌, ◌-◌, ◌/◌, ◌^◌, ◌%◌, Bool, true, false, ◌&&◌, ◌||◌, not, Option, none, some, List,
  ◌∷◌, ltb, leb, ◌==◌, if◌then◌else◌, u64, sub64, update,
}
use userspace_bypass.Pages.{
  Prot, Level, level_4k, level_2m, level_1g, Leaf, Entry, e_leaf, e_table, Tables, Layout,
  static_protections, vpn, pages_of, set_leaf, level_eq, prot_eq, without_pse,
  pgprot_clear_protnone_bits, masked,
}
use userspace_bypass.Pages.Cpa.{
  Cpa, Mem, Platform, Errno, success, enomem, split_page_count, tables_of, put_tables,
  lookup_address_cpa, tlb_all,
}

-- 1, 0 and -EINVAL of should_split_large_page.
pub data Decision : Type 0 where
  must_split keep_page invalid : Decision

pub record Checked : Type 0 where
  pub decision : Decision
  pub cpa : Cpa
  pub mem : Mem

-- The protection that the change asks for on a large page.
unfoldable pub req_prot : Cpa → Prot → Prot
unfolding without_pse masked pgprot_clear_protnone_bits
req_prot c old =
    let q =
      pgprot_clear_protnone_bits (without_pse (masked c.mask_clr c.mask_set (without_pse old))) in
    record q { pse = q.present }

-- The pages from an address to the end of its entry.
unfoldable pub pages_left : Level → ℕ → ℕ
unfolding pages_of
pages_left level address =
    let psize = pages_of level * 4096 in
    sub64 (u64 (address + psize) / psize * psize) address / 4096

-- cpa->numpages and cpa->pfn, once the entry is known.
unfoldable pub fit : Level → ℕ → ℕ → Cpa → Cpa
unfolding pages_of pages_left
fit level address old_pfn c = record c {
  numpages =
      if ltb (pages_left level address) c.numpages then pages_left level address else c.numpages;
  pfn = u64 (old_pfn + address % (pages_of level * 4096) / 4096);
}

-- The page's first address.
unfoldable pub align : Level → ℕ → ℕ
unfolding pages_of
align level address = address / (pages_of level * 4096) * (pages_of level * 4096)

unfoldable pub try_large_page : Platform → Leaf → Level → ℕ → Cpa → Mem → Checked
unfolding req_prot fit align pages_of prot_eq static_protections set_leaf vpn tables_of put_tables
try_large_page p l level address cpa m =
    let c = fit level address l.pfn cpa in
    let req = req_prot c l.prot in
    let lpaddr = align level address in
    let numpages = pages_of level in
    let psize = numpages * 4096 in
    let chk = static_protections p.layout m.tables l.prot lpaddr l.pfn numpages psize in
    let new = static_protections p.layout m.tables req lpaddr l.pfn numpages psize in
    if not (prot_eq chk l.prot)
    then record { decision = must_split; cpa = record c { force_static_prot = true }; mem = m }
    else if prot_eq req l.prot
    then record { decision = keep_page; cpa = c; mem = m }
    else if not (address == lpaddr) || not (c.numpages == numpages)
    then record { decision = must_split; cpa = c; mem = m }
    else if not (prot_eq req new)
    then record { decision = must_split; cpa = c; mem = m }
    else record {
      decision = keep_page;
      cpa = record c { flush_tlb = true };
      mem =
          put_tables c.pgd
            (set_leaf level (vpn address) (record { pfn = l.pfn; prot = new }) (tables_of c.pgd m))
            m;
    }

unfoldable pub check_large_page : Platform → Option Leaf × Level → ℕ → Cpa → Mem → Checked
unfolding try_large_page
check_large_page p (some l, level_2m) address c m = try_large_page p l level_2m address c m
check_large_page p (some l, level_1g) address c m = try_large_page p l level_1g address c m
check_large_page p _ address c m = record { decision = invalid; cpa = c; mem = m }

-- __should_split_large_page. At one address, two entries are the same exactly if their levels are.
unfoldable pub should_split_again : Platform → Level → ℕ → Cpa → Mem → Checked
unfolding lookup_address_cpa level_eq check_large_page
should_split_again p kpte address c m =
    let tmp = lookup_address_cpa c m address in
    if not (level_eq tmp.1 kpte)
    then record { decision = must_split; cpa = c; mem = m }
    else check_large_page p tmp address c m

unfoldable pub should_split_large_page : Platform → Level → ℕ → Cpa → Mem → Checked
unfolding should_split_again
should_split_large_page p kpte address c m =
    if c.force_split
    then record { decision = must_split; cpa = c; mem = m }
    else should_split_again p kpte address c m

-- The entry that split_set_pte writes at the level of the smaller pages.
unfoldable pub split_set_pte : Platform → Tables → Cpa → ℕ → Prot → ℕ → Level → Leaf
unfolding static_protections pages_of prot_eq level_eq
split_set_pte p t c pfn ref_prot address size =
    let prot = static_protections p.layout t ref_prot address pfn (pages_of size) 0 in
    record {
      pfn = pfn;
      prot =
          if c.force_static_prot && (not (prot_eq prot ref_prot) && level_eq size level_4k)
          then prot
          else ref_prot;
    }

-- The new table for the large page `l` around an address, filled and installed; `init` are init_mm's
-- tables, which static_protections looks into.
unfoldable pub split_2m : Platform → Tables → Cpa → Leaf → ℕ → Tables → Tables
unfolding split_set_pte vpn align without_pse pgprot_clear_protnone_bits
split_2m p init c l address t =
    let v = vpn address in
    let ref_prot = pgprot_clear_protnone_bits (without_pse l.prot) in
    record t {
      pte = λ w.
          if w / 2 ^ 9 == v / 2 ^ 9
          then some (
              split_set_pte p init c (l.pfn + w % 2 ^ 9) ref_prot
                (u64 (align level_2m address + w % 2 ^ 9 * 4096)) level_4k)
          else t.pte w;
      pmd = update t.pmd (v / 2 ^ 9) e_table;
    }

unfoldable pub split_1g : Platform → Tables → Cpa → Leaf → ℕ → Tables → Tables
unfolding split_set_pte vpn align pgprot_clear_protnone_bits
split_1g p init c l address t =
    let v = vpn address in
    let ref_prot =
      pgprot_clear_protnone_bits (record (l.prot) { pse = l.prot.pse && l.prot.present }) in
    record t {
      pmd = λ d.
          if d / 2 ^ 9 == v / 2 ^ 18
          then e_leaf (
              split_set_pte p init c (l.pfn + d % 2 ^ 9 * 2 ^ 9) ref_prot
                (u64 (align level_1g address + d % 2 ^ 9 * 2 ^ 21)) level_2m)
          else t.pmd d;
      pud = update t.pud (v / 2 ^ 18) e_table;
    }

-- What __split_large_page does with the table: installed, with the split counted.
unfoldable pub install : Platform → Level → ℕ → Cpa → Tables → Mem → Mem
unfolding put_tables split_page_count
install p level address c t m =
    let pfn = p.pa address / 4096 in
    let n = put_tables c.pgd t m in
    record n {
      counts =
          if p.virt_addr_valid address && p.pfn_range_is_mapped pfn (u64 (pfn + 1))
          then split_page_count level m.counts
          else m.counts;
      flushes = tlb_all ∷ m.flushes;
    }

-- A table that the caller frees, as it was not used.
unfoldable pub give_back : Mem → Mem
give_back m = record m { freed = m.freed + 1 }

unfoldable pub split_entry : Platform → Option Leaf × Level → ℕ → Cpa → Mem → Mem
unfolding split_2m split_1g install give_back tables_of
split_entry p (some l, level_2m) address c m =
    install p level_2m address c (split_2m p m.tables c l address (tables_of c.pgd m)) m
split_entry p (some l, level_1g) address c m =
    install p level_1g address c (split_1g p m.tables c l address (tables_of c.pgd m)) m
split_entry p _ address c m = give_back m

-- __split_large_page, with the __free_page for its failure.
unfoldable pub split_again : Platform → Level → ℕ → Cpa → Mem → Mem
unfolding lookup_address_cpa level_eq split_entry give_back
split_again p kpte address c m =
    let tmp = lookup_address_cpa c m address in
    if not (level_eq tmp.1 kpte) then give_back m else split_entry p tmp address c m

-- The allocation, with cpa_lock dropped around it.
unfoldable pub alloc_pages : Platform → Mem → Mem
alloc_pages p m = record m { asked = m.asked + 1; tables = p.meanwhile m.asked m.tables }

unfoldable pub split_large_page : Platform → Level → ℕ → Cpa → Mem → Errno × Mem
unfolding alloc_pages split_again
split_large_page p kpte address c m =
    if p.alloc m.asked
    then (success, split_again p kpte address c (alloc_pages p m))
    else (enomem, alloc_pages p m)
