-- ===== src/Tests/Attributes.antt =====
-- A direct mapping of 1G pages, some pages of which become executable.
use userspace_bypass.Prelude.{
  ◌==◌, ◌-◌, ◌&&◌, leb, ltb, if◌then◌else◌, inl, [], ℕ, ◌+◌, ◌*◌, ◌^◌, ◌<◌, ◌≡◌, refl, arith, true,
  false, Option, ◌⊎◌, none, some,
}
use userspace_bypass.Pages.{Prot, Leaf, e_none, e_leaf, e_table, Tables, level_1g, walk, vpn}
use userspace_bypass.Pages.Cpa.{
  Page, Cpa, Mem, Platform, Out, Errno, success, enomem, no_pgd, other_pgd, cpa_addr,
}
use userspace_bypass.Pages.Spec.{page_at, IsQuiet, IsStep, same, rank, asked}
use userspace_bypass.Pages.Spec.Follows.{IsStep-refl}
use userspace_bypass.Pages.Split.{split_large_page}
use userspace_bypass.Pages.Split.Large.{IsLarge, split_large_page_lem}
use userspace_bypass.Pages.Change.{change_page_attr, change_page_attr_set_clr_0}
use userspace_bypass.Pages.Change.Range.{HasNoHuge, IsRange, IsDoneUpTo}
use userspace_bypass.Pages.Change.Rounds.{Returns, change_page_attr-Returns}
use userspace_bypass.Pages.Change.Loop.{change_page_attr_set_clr_0-IsDoneUpTo}
use userspace_bypass.Pages.Requests.{Request, request, no_bits, page_present_rw, flush_after}
use userspace_bypass.Pages.Change.Total.{total}
use userspace_bypass.Pages.Change.Total.Requested.{reported, request-total}
use userspace_bypass.Pages.Flush.Covers.{Covers, flush_after-Covers}
use userspace_bypass.Pages.Arrays.{change_array, set_pages_array}
use userspace_bypass.Pages.Arrays.Balance.{IsCounted, IsBalanced, set_pages_array-IsBalanced}
use userspace_bypass.Pages.Populate.{populate_pgd}
use userspace_bypass.Pages.Populate.Failure.{IsShort}
use userspace_bypass.Pages.Change.Failure.{change_page_attr_set_clr_0_stops}
use userspace_bypass.Pages.Memory.{cache_wc, Memtypes, set_memory_x}
use userspace_bypass.Pages.Memory.Executable.{IsMadeExecutable, set_memory_x-IsMadeExecutable}
use userspace_bypass.Tests.Pages.{layout}

abbrev data_prot : Prot
data_prot = record no_bits { present = true; rw = true; pse = true; global = true; nx = true }

abbrev tables : Tables
tables = record {
  p4d = λ q. e_table;
  pud = λ u. e_leaf (record { pfn = u * 2 ^ 18; prot = data_prot });
  pmd = λ d. e_none;
  pte = λ w. none;
}

abbrev memory : Mem
memory = record {
  tables = tables;
  other = tables;
  counts = record { count_4k = 0; count_2m = 0; count_1g = 4 };
  asked = 0;
  freed = 0;
  flushes = [];
}

abbrev platform : Platform
platform = record {
  layout = layout;
  page_offset = 0;
  max_pfn_mapped = 2 ^ 20;
  phys_base = 0;
  start_kernel_map = 2 ^ 63;
  brk_end = 0x80000;
  pa = λ a. a;
  va = λ a. a;
  pa_symbol = λ a. a;
  virt_addr_valid = λ a. true;
  pfn_range_is_mapped = λ a b. true;
  alloc = λ n. true;
  meanwhile = λ n t. t;
  between = λ r t. t;
  canon_pgprot = λ q. q;
  kernpg_table = data_prot;
  has_gbpages = true;
  has_clflush = true;
  has_wbinvd = true;
  tlb_single_page_flush_ceiling = 33;
}

abbrev memtypes : Memtypes ℕ
memtypes = record {
  cachemode2pgprot = λ mode. no_bits;
  caches = λ q. false;
  reserve_memtype = λ a b mode w. (success, w + 1);
  free_memtype = λ a b w. w;
  mem_encrypt_active = false;
  supports_nx = true;
}

platform-IsQuiet : IsQuiet platform
platform-IsQuiet = record {
  meanwhile = λ n t w. IsStep-refl layout w t;
  between = λ r t w. IsStep-refl layout w t;
}

tables-HasNoHuge : HasNoHuge tables
unfolding walk rank
tables-HasNoHuge w = omega arith

set_memory_x-IsMadeExecutable_example :
    (r : Errno × Mem) × (set_memory_x platform memtypes 0x40000000 3 memory ≡ some r)
    × IsMadeExecutable layout (vpn 0x40000000) 3 tables r
unfolding vpn
set_memory_x-IsMadeExecutable_example =
    set_memory_x-IsMadeExecutable platform platform-IsQuiet memtypes 0x40000000 3 memory refl refl
      (omega arith) tables-HasNoHuge

-- Two pages in the middle of the mapping become executable; they are split from a page of 1G.
abbrev two_executable : Request
two_executable = record {
  addr = λ i. 0x40000000;
  numpages = 2;
  mask_set = no_bits;
  mask_clr = record no_bits { nx = true };
  force_split = false;
  array = false;
  pages_array = false;
  no_check_alias = false;
  pages = λ i. record { pfn = 0; address = 0; highmem = false };
}

abbrev result_or : Errno × Mem → Option (Errno × Mem) → Errno × Mem
result_or d none = d
result_or d (some r) = r

abbrev split_up : Errno × Mem
split_up = result_or (enomem, memory) (request platform (λ q. false) two_executable memory)

split_up_counts : split_up.1.counts ≡ record { count_4k = 512; count_2m = 511; count_1g = 3 }
unfolding request
split_up_counts = refl

request-total_example :
    (total split_up.1.counts ≡ total memory.counts)
    × (reported split_up.1.counts ≡ reported memory.counts)
unfolding request
request-total_example = request-total platform (λ q. false) two_executable memory split_up refl

abbrev unmap_two : Cpa
unmap_two = record {
  vaddr = λ i. 0x200000;
  pgd = no_pgd;
  mask_set = no_bits;
  mask_clr = page_present_rw;
  numpages = 2;
  curpage = 0;
  pfn = 0;
  flush_tlb = false;
  array = false;
  pages_array = false;
  force_split = false;
  force_static_prot = false;
  force_flush_all = false;
  pages = λ i. record { pfn = 0; address = 0; highmem = false };
}

abbrev IsTwoPages : Type 0
IsTwoPages = IsRange unmap_two 0x200000 2

two_pages : IsTwoPages
unfolding vpn
two_pages = record {
  vaddr = refl;
  aligned = refl;
  below = omega arith;
  pgd = refl;
  array = refl;
  pages_array = refl;
}

change_page_attr_set_clr_0-IsDoneUpTo_example :
    (o : Out) × (change_page_attr_set_clr_0 platform unmap_two memory ≡ some o)
    × IsDoneUpTo layout (asked unmap_two) (vpn 0x200000) 2 tables o
change_page_attr_set_clr_0-IsDoneUpTo_example =
    change_page_attr_set_clr_0-IsDoneUpTo platform platform-IsQuiet 0x200000 unmap_two memory
      two_pages refl tables-HasNoHuge

change_page_attr-Returns_example :
    Returns layout unmap_two
      (vpn (cpa_addr unmap_two 0))
      tables
      (change_page_attr platform true unmap_two memory)
unfolding cpa_addr
change_page_attr-Returns_example =
    change_page_attr-Returns platform platform-IsQuiet true unmap_two memory (omega arith) refl
      (omega arith) refl (tables-HasNoHuge (vpn (cpa_addr unmap_two 0)))

-- The two pages are unmapped, and not yet flushed.
abbrev unmapped : Out
unmapped = record { ret = success; cpa = record unmap_two { flush_tlb = true }; mem = memory }

flush_after-Covers_example :
    Covers unmapped.cpa 0 2 memory (flush_after platform (λ q. false) no_bits unmapped).mem
flush_after-Covers_example = flush_after-Covers platform (λ q. false) no_bits unmapped refl

-- The walks after set_memory_x of two pages in the middle of the mapping.
abbrev after_x : Option (Errno × Mem) → ℕ → Option Leaf
after_x none w = none
after_x (some r) w = page_at r.1.tables w

two_pages_x :
    after_x (set_memory_x platform memtypes 0x40000000 2 memory) (vpn 0x40001000)
    ≡ some (record { pfn = 0x40001; prot = record data_prot { pse = false; nx = false } })
unfolding set_memory_x page_at vpn
two_pages_x = refl

next_page :
    after_x (set_memory_x platform memtypes 0x40000000 2 memory) (vpn 0x40002000)
    ≡ some (record { pfn = 0x40002; prot = record data_prot { pse = false } })
unfolding set_memory_x page_at vpn
next_page = refl

split_large_page_lem_example :
    let r = split_large_page platform level_1g 0x40001000 unmap_two memory in
    ((w : ℕ) → IsStep layout same w tables r.1.tables)
    × ((r.0 ≡ enomem)
        ⊎ ((r.0 ≡ success)
            × (rank (walk r.1.tables (vpn 0x40001000)) < rank (walk tables (vpn 0x40001000)))))
unfolding vpn walk IsLarge
split_large_page_lem_example =
    split_large_page_lem platform platform-IsQuiet level_1g 0x40001000 unmap_two memory
      (record { pfn = 1 * 2 ^ 18; prot = data_prot }) refl tt refl

-- The reservations of each address, counted.
abbrev counting : Memtypes (ℕ → ℕ)
counting = record {
  cachemode2pgprot = λ mode. no_bits;
  caches = λ q. false;
  reserve_memtype = λ a b mode w. (success, λ x. w x + (if leb a x && ltb x b then 1 else 0));
  free_memtype = λ a b w x. w x - (if leb a x && ltb x b then 1 else 0);
  mem_encrypt_active = false;
  supports_nx = true;
}

counting-IsCounted : IsCounted counting (λ w. w)
counting-IsCounted = record {
  reserved = λ a b mode w. inl (refl, λ x. refl);
  freed = λ a b w x. refl;
}

abbrev array_pages : ℕ → Page
array_pages i = record { pfn = i + 8; address = (i + 8) * 4096; highmem = false }

abbrev none_reserved : ℕ → ℕ
none_reserved x = 0

-- There is no memory for the split that the second step needs.
abbrev no_memory : Platform
no_memory = record platform { alloc = λ n. false }

set_pages_array-IsBalanced_example :
    (o : Errno × (Mem × (ℕ → ℕ))) × (set_pages_array no_memory counting cache_wc array_pages 2
        memory none_reserved
      ≡ some o)
    × IsBalanced no_memory counting (λ w. w) counting-IsCounted array_pages 2 none_reserved o
unfolding change_array
set_pages_array-IsBalanced_example =
    set_pages_array-IsBalanced no_memory counting (λ w. w) counting-IsCounted cache_wc array_pages 2
      memory none_reserved (enomem, record memory { asked = 1 }) refl

-- Three pages into a pgd with a table of puds only, when there is memory for one more table.
abbrev short : Mem
short = record memory {
  other = record { p4d = λ q. e_table; pud = λ u. e_none; pmd = λ d. e_none; pte = λ w. none };
}

abbrev one_table : Platform
one_table = record platform { alloc = λ n. n == 0 }

abbrev map_three : Cpa
map_three = record unmap_two {
  vaddr = λ i. 0x40000000;
  pgd = other_pgd;
  mask_set = data_prot;
  mask_clr = no_bits;
  numpages = 3;
}

three_pages : IsShort one_table 0x40000000 map_three short
three_pages = record {
  pgd = refl;
  aligned = refl;
  some_pages = omega arith;
  few_pages = omega arith;
  p4d = refl;
  pud = refl;
  given = refl;
  refused = refl;
}

change_page_attr_set_clr_0_stops_example :
    ((o : Out) × (change_page_attr one_table false map_three short ≡ some o)
      × (o.ret ≡ success)
      × (o.cpa.numpages ≡ 0))
    × (change_page_attr_set_clr_0 one_table map_three short ≡ none)
unfolding cpa_addr
change_page_attr_set_clr_0_stops_example =
    change_page_attr_set_clr_0_stops one_table map_three short refl refl three_pages

-- From a boundary of 2M the mapping fails, and is undone through an entry that is no table.
undone_through_nothing : populate_pgd one_table 0x40200000 map_three short ≡ none
unfolding populate_pgd
undone_through_nothing = refl
