-- ===== src/Pages/Cpa.antt =====
-- What a change of attributes works on: struct cpa_data, the memory, and the rest of the kernel.
use userspace_bypass.Prelude.{
  ℕ, ◌+◌, ◌*◌, ◌-◌, ◌/◌, ◌^◌, Bool, Option, List, ◌==◌, if◌then◌else◌, u64, sub64,
}
use userspace_bypass.Pages.{
  Prot, Level, level_4k, level_2m, level_1g, Leaf, Tables, Layout, lookup_address_in_pgd,
  within_inclusive,
}

-- A struct page: its frame, page_address() of it, and PageHighMem.
pub record Page : Type 0 where
  pub pfn : ℕ
  pub address : ℕ
  pub highmem : Bool

pub data Pgd : Type 0 where
  no_pgd init_mm_pgd other_pgd : Pgd

-- struct cpa_data; `flush_tlb`, `array` and `pages_array` are CPA_FLUSHTLB, CPA_ARRAY and
-- CPA_PAGES_ARRAY of its flags.
pub record Cpa : Type 0 where
  pub vaddr : ℕ → ℕ
  pub pgd : Pgd
  pub mask_set : Prot
  pub mask_clr : Prot
  pub numpages : ℕ
  pub curpage : ℕ
  pub pfn : ℕ
  pub flush_tlb : Bool
  pub array : Bool
  pub pages_array : Bool
  pub force_split : Bool
  pub force_static_prot : Bool
  pub force_flush_all : Bool
  pub pages : ℕ → Page

-- direct_pages_count, in entries of each size.
pub record Counts : Type 0 where
  pub count_4k : ℕ
  pub count_2m : ℕ
  pub count_1g : ℕ

-- The flushes: of the TLB on all processors, on this one, of one page on all; wbinvd on all; a page of
-- the cache.
pub data Flush : Type 0 where
  tlb_all tlb_here caches_all : Flush
  tlb_one cache_page : ℕ → Flush

-- Whether a function failed, and how.
pub data Errno : Type 0 where
  success eperm enomem efault einval : Errno

-- `tables` hang below init_mm's pgd, `other` below the one that a caller brings. `asked` counts the
-- calls of the page allocator, `freed` the tables given back; `flushes` is the latest first.
pub record Mem : Type 0 where
  pub tables : Tables
  pub other : Tables
  pub counts : Counts
  pub asked : ℕ
  pub freed : ℕ
  pub flushes : List Flush

-- The rest of the kernel. `alloc n` tells whether the nth call of the allocator gives a page, and
-- `meanwhile n` is what other processors do to init_mm's tables while split_large_page waits for it
-- without cpa_lock; `between r` is what they do before a loop takes cpa_lock for a round
-- with r pages left. DEBUG_PAGEALLOC is off.
pub record Platform : Type 0 where
  pub layout : Layout
  pub page_offset : ℕ
  pub max_pfn_mapped : ℕ
  pub phys_base : ℕ
  pub start_kernel_map : ℕ
  pub brk_end : ℕ
  pub pa : ℕ → ℕ
  pub va : ℕ → ℕ
  pub pa_symbol : ℕ → ℕ
  pub virt_addr_valid : ℕ → Bool
  pub pfn_range_is_mapped : ℕ → ℕ → Bool
  pub alloc : ℕ → Bool
  pub meanwhile : ℕ → Tables → Tables
  pub between : ℕ → Tables → Tables
  pub canon_pgprot : Prot → Prot
  pub kernpg_table : Prot
  pub has_gbpages : Bool
  pub has_clflush : Bool
  pub has_wbinvd : Bool
  pub tlb_single_page_flush_ceiling : ℕ

-- What a function returns, with the data and the memory that it leaves.
pub record Out : Type 0 where
  pub ret : Errno
  pub cpa : Cpa
  pub mem : Mem

unfoldable pub cpa_addr : Cpa → ℕ → ℕ
cpa_addr c idx =
    if c.pages_array
    then if (c.pages idx).highmem then 0 else (c.pages idx).address
    else if c.array
    then c.vaddr idx
    else u64 (c.vaddr 0 + idx * 4096)

-- The counts of the other sizes are not reported.
unfoldable pub update_page_count : Level → ℕ → Counts → Counts
update_page_count level_2m n d = record d { count_2m = u64 (d.count_2m + n) }
update_page_count level_1g n d = record d { count_1g = u64 (d.count_1g + n) }
update_page_count level_4k n d = record d { count_4k = u64 (d.count_4k + n) }
update_page_count _ n d = d

unfoldable pub split_page_count : Level → Counts → Counts
split_page_count level_2m d =
    if d.count_2m == 0
    then d
    else record d { count_2m = d.count_2m - 1; count_4k = u64 (d.count_4k + 512) }
split_page_count level_1g d =
    if d.count_1g == 0
    then d
    else record d { count_1g = d.count_1g - 1; count_2m = u64 (d.count_2m + 512) }
split_page_count _ d = d

-- The three numbers of /proc/meminfo, in kB; the last is shown only with 1G pages.
unfoldable pub arch_report_meminfo : Counts → ℕ × ℕ × ℕ
arch_report_meminfo d =
    (u64 (d.count_4k * 2 ^ 2), u64 (d.count_2m * 2 ^ 11), u64 (d.count_1g * 2 ^ 20))

unfoldable pub tables_of : Pgd → Mem → Tables
tables_of other_pgd m = m.other
tables_of _ m = m.tables

unfoldable pub put_tables : Pgd → Tables → Mem → Mem
put_tables other_pgd t m = record m { other = t }
put_tables _ t m = record m { tables = t }

unfoldable pub lookup_address_cpa : Cpa → Mem → ℕ → Option Leaf × Level
unfolding tables_of lookup_address_in_pgd
lookup_address_cpa c m address = lookup_address_in_pgd (tables_of c.pgd m) address

unfoldable pub highmap_start_pfn : Platform → ℕ
highmap_start_pfn p = p.pa_symbol p.layout.text / 4096

unfoldable pub highmap_end_pfn : Platform → ℕ
highmap_end_pfn p = p.pa_symbol (sub64 (u64 (p.brk_end + (2 ^ 21 - 1)) / 2 ^ 21 * 2 ^ 21) 1) / 4096

unfoldable pub cpa_pfn_in_highmap : Platform → ℕ → Bool
unfolding within_inclusive highmap_start_pfn highmap_end_pfn
cpa_pfn_in_highmap p pfn = within_inclusive pfn (highmap_start_pfn p) (highmap_end_pfn p)
