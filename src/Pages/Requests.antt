-- ===== src/Pages/Requests.antt =====
-- The requests: change_page_attr_set_clr and the set_memory functions, set_pages and the mappings of
-- another pgd.
use userspace_bypass.Prelude.{
  ℕ, ◌*◌, ◌/◌, Bool, true, false, ◌&&◌, not, Option, some, ltb, if◌then◌else◌,
}
use userspace_bypass.Pages.{Prot, prot_eq, masked}
use userspace_bypass.Pages.Cpa.{Cpa, Page, Pgd, no_pgd, Mem, Platform, Out, Errno, success}
use userspace_bypass.Pages.Unmap.{◌>>=◌}
use userspace_bypass.Pages.Change.{change_page_attr_set_clr}
use userspace_bypass.Pages.Flush.{cpa_flush, cpa_flush_all}

abbrev pub no_bits : Prot
no_bits = record {
  present = false;
  rw = false;
  pwt = false;
  pcd = false;
  pse = false;
  global = false;
  pat = false;
  enc = false;
  nx = false;
  other = 0;
}

abbrev pub page_nx : Prot
page_nx = record no_bits { nx = true }

abbrev pub page_rw : Prot
page_rw = record no_bits { rw = true }

abbrev pub page_present : Prot
page_present = record no_bits { present = true }

abbrev pub page_present_rw : Prot
page_present_rw = record no_bits { present = true; rw = true }

abbrev pub page_global : Prot
page_global = record no_bits { global = true }

abbrev pub page_enc : Prot
page_enc = record no_bits { enc = true }

-- _PAGE_CACHE_MASK.
abbrev pub page_cache_mask : Prot
page_cache_mask = record no_bits { pwt = true; pcd = true; pat = true }

abbrev pub no_pages : ℕ → Page
no_pages i = record { pfn = 0; address = 0; highmem = false }

-- A struct cpa_data for numpages pages from one address on.
unfoldable pub cpa_at : Pgd → ℕ → ℕ → Prot → Prot → Cpa
cpa_at pgd addr numpages mask_set mask_clr = record {
  vaddr = λ i. addr;
  pgd = pgd;
  mask_set = mask_set;
  mask_clr = mask_clr;
  numpages = numpages;
  curpage = 0;
  pfn = 0;
  flush_tlb = false;
  array = false;
  pages_array = false;
  force_split = false;
  force_static_prot = false;
  force_flush_all = false;
  pages = no_pages;
}

-- What is asked for: one address, an array of them, or an array of pages, and CPA_NO_CHECK_ALIAS.
-- numpages is an int in the source, so for the code it is a number below 2 ^ 31.
pub record Request : Type 0 where
  pub addr : ℕ → ℕ
  pub numpages : ℕ
  pub mask_set : Prot
  pub mask_clr : Prot
  pub force_split : Bool
  pub array : Bool
  pub pages_array : Bool
  pub no_check_alias : Bool
  pub pages : ℕ → Page

unfoldable pub page_mask : ℕ → ℕ
page_mask a = a / 4096 * 4096

-- An address is cut down to its page; the array of a caller is changed in place.
unfoldable pub aligned : Request → ℕ → ℕ
unfolding page_mask
aligned r i =
    if r.array
    then if ltb i r.numpages then page_mask (r.addr i) else r.addr i
    else if r.pages_array
    then r.addr i
    else page_mask (r.addr 0)

unfoldable pub cpa_of : Request → Prot → Cpa
unfolding aligned cpa_at
cpa_of r mask_set = record (cpa_at no_pgd 0 r.numpages mask_set r.mask_clr) {
  vaddr = aligned r;
  pages = r.pages;
  array = r.array;
  pages_array = r.pages_array;
  force_split = r.force_split;
}

-- No alias is looked for when NX alone changes, or the caller says so.
unfoldable pub checks_alias : Request → Prot → Bool
unfolding prot_eq masked
checks_alias r mask_set =
    not (prot_eq (masked no_bits mask_set r.mask_clr) page_nx) && not r.no_check_alias

-- The flush after a change: after an error, of everything.
unfoldable pub flush_by_result : Platform → Bool → Errno → Out → Out
unfolding cpa_flush_all cpa_flush
flush_by_result p cache success o = record o { mem = cpa_flush p o.cpa cache o.mem }
flush_by_result p cache e o = record o { mem = cpa_flush_all p cache o.mem }

unfoldable pub flush_after : Platform → (Prot → Bool) → Prot → Out → Out
unfolding flush_by_result
flush_after p caches mask_set o =
    if not o.cpa.flush_tlb then o else flush_by_result p (caches mask_set) o.ret o

-- change_page_attr_set_clr; `caches` tells pgprot2cachemode from write-back.
unfoldable pub request : Platform → (Prot → Bool) → Request → Mem → Option (Errno × Mem)
unfolding prot_eq cpa_of checks_alias flush_after change_page_attr_set_clr
request p caches r m =
    let mask_set = p.canon_pgprot r.mask_set in
    if prot_eq mask_set no_bits && (prot_eq r.mask_clr no_bits && not r.force_split)
    then some (success, m)
    else do
      o ← change_page_attr_set_clr p (checks_alias r mask_set) (cpa_of r mask_set) m
      some (o.ret, (flush_after p caches mask_set o).mem)
