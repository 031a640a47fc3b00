-- ===== src/Pages/Memory.antt =====
-- The set_memory functions, and set_pages_ro and its kin.
pub mod Executable
use userspace_bypass.Prelude.{
  ℕ, zero, suc, ◌+◌, ◌*◌, ◌-◌, ◌/◌, ◌^◌, ◌%◌, Bool, true, false, ◌&&◌, ◌||◌, not, Option, none,
  some, ltb, leb, ◌==◌, if◌then◌else◌, u64, sub64, update, List, [], ◌∷◌, ◌++◌,
}
use userspace_bypass.Pages.{Prot, prot_eq, masked}
use userspace_bypass.Pages.Cpa.{
  Cpa, Page, Pgd, no_pgd, init_mm_pgd, other_pgd, Mem, Platform, Out, Errno, success, einval, Flush,
  tlb_here,
}
use userspace_bypass.Pages.Unmap.{◌>>=◌}
use userspace_bypass.Pages.Change.{change_page_attr_set_clr, change_page_attr_set_clr_0}
use userspace_bypass.Pages.Flush.{cpa_flush, add_flush}
use userspace_bypass.Pages.Requests.{
  Request, request, cpa_at, no_bits, no_pages, page_nx, page_rw, page_present, page_present_rw,
  page_global, page_enc, page_cache_mask, page_mask,
}

pub data CacheMode : Type 0 where
  cache_wb cache_uc_minus cache_wc cache_wt : CacheMode

-- The memory types that are reserved, over a state W, and the page attribute table.
pub record Memtypes (W : Type 0) : Type 0 where
  pub cachemode2pgprot : CacheMode → Prot
  pub caches : Prot → Bool
  pub reserve_memtype : ℕ → ℕ → CacheMode → W → Errno × W
  pub free_memtype : ℕ → ℕ → W → W
  pub mem_encrypt_active : Bool
  pub supports_nx : Bool

-- A request for one range.
unfoldable pub range : ℕ → ℕ → Prot → Prot → Request
range addr numpages mask_set mask_clr = record {
  addr = λ i. addr;
  numpages = numpages;
  mask_set = mask_set;
  mask_clr = mask_clr;
  force_split = false;
  array = false;
  pages_array = false;
  no_check_alias = false;
  pages = no_pages;
}

module _ {W : Type 0} (p : Platform) (t : Memtypes W) where
  unfoldable pub change_page_attr_set : ℕ → ℕ → Prot → Mem → Option (Errno × Mem)
  unfolding request range
  change_page_attr_set addr numpages mask m =
      request p t.caches (range addr numpages mask no_bits) m

  unfoldable pub change_page_attr_clear : ℕ → ℕ → Prot → Mem → Option (Errno × Mem)
  unfolding request range
  change_page_attr_clear addr numpages mask m =
      request p t.caches (range addr numpages no_bits mask) m

  -- _set_memory_uc, _set_memory_wt.
  unfoldable pub set_memory_mode : CacheMode → ℕ → ℕ → Mem → Option (Errno × Mem)
  unfolding change_page_attr_set
  set_memory_mode mode addr numpages m =
      change_page_attr_set addr numpages (t.cachemode2pgprot mode) m

  unfoldable pub after_uc : ℕ → ℕ → Errno × Mem → Option (Errno × Mem)
  unfolding request range
  after_uc addr numpages (success, m) =
      request p t.caches (range addr numpages (t.cachemode2pgprot cache_wc) page_cache_mask) m
  after_uc addr numpages (e, m) = some (e, m)

  -- _set_memory_wc: UC- first.
  unfoldable pub set_memory_wc_only : ℕ → ℕ → Mem → Option (Errno × Mem)
  unfolding set_memory_mode after_uc
  set_memory_wc_only addr numpages m = do
    r ← set_memory_mode cache_uc_minus addr numpages m
    after_uc addr numpages r

  -- _set_memory_wb.
  unfoldable pub set_memory_wb_only : ℕ → ℕ → Mem → Option (Errno × Mem)
  unfolding change_page_attr_clear
  set_memory_wb_only addr numpages m = change_page_attr_clear addr numpages page_cache_mask m

  unfoldable pub free_range : ℕ → ℕ → W → W
  free_range addr numpages w = t.free_memtype (p.pa addr) (u64 (p.pa addr + numpages * 4096)) w

  -- The memory type is freed if the change failed.
  unfoldable pub keep_if_ok : ℕ → ℕ → W → Errno × Mem → Errno × (Mem × W)
  unfolding free_range
  keep_if_ok addr numpages w (success, m) = (success, (m, w))
  keep_if_ok addr numpages w (e, m) = (e, (m, free_range addr numpages w))

  unfoldable pub after_reserve :
      (Mem → Option (Errno × Mem)) → ℕ → ℕ → Mem → Errno × W → Option (Errno × (Mem × W))
  unfolding keep_if_ok
  after_reserve change addr numpages m (success, w) = do
    r ← change m
    some (keep_if_ok addr numpages w r)
  after_reserve change addr numpages m (e, w) = some (e, (m, w))

  unfoldable pub reserve_and :
      CacheMode → (Mem → Option (Errno × Mem)) → ℕ → ℕ → Mem → W → Option (Errno × (Mem × W))
  unfolding after_reserve
  reserve_and mode change addr numpages m w =
      after_reserve change addr numpages m
        (t.reserve_memtype (p.pa addr) (u64 (p.pa addr + numpages * 4096)) mode w)

  unfoldable pub set_memory_uc : ℕ → ℕ → Mem → W → Option (Errno × (Mem × W))
  unfolding reserve_and set_memory_mode
  set_memory_uc addr numpages =
      reserve_and cache_uc_minus (set_memory_mode cache_uc_minus addr numpages) addr numpages

  unfoldable pub set_memory_wc : ℕ → ℕ → Mem → W → Option (Errno × (Mem × W))
  unfolding reserve_and set_memory_wc_only
  set_memory_wc addr numpages =
      reserve_and cache_wc (set_memory_wc_only addr numpages) addr numpages

  -- The memory type is freed unless the change failed.
  unfoldable pub free_if_ok : ℕ → ℕ → W → Errno × Mem → Errno × (Mem × W)
  unfolding free_range
  free_if_ok addr numpages w (success, m) = (success, (m, free_range addr numpages w))
  free_if_ok addr numpages w (e, m) = (e, (m, w))

  unfoldable pub set_memory_wb : ℕ → ℕ → Mem → W → Option (Errno × (Mem × W))
  unfolding set_memory_wb_only free_if_ok
  set_memory_wb addr numpages m w = do
    r ← set_memory_wb_only addr numpages m
    some (free_if_ok addr numpages w r)

  unfoldable pub set_memory_x : ℕ → ℕ → Mem → Option (Errno × Mem)
  unfolding change_page_attr_clear
  set_memory_x addr numpages m =
      if not t.supports_nx
      then some (success, m)
      else change_page_attr_clear addr numpages page_nx m

  unfoldable pub set_memory_nx : ℕ → ℕ → Mem → Option (Errno × Mem)
  unfolding change_page_attr_set
  set_memory_nx addr numpages m =
      if not t.supports_nx then some (success, m) else change_page_attr_set addr numpages page_nx m

  unfoldable pub set_memory_ro : ℕ → ℕ → Mem → Option (Errno × Mem)
  unfolding change_page_attr_clear
  set_memory_ro addr numpages = change_page_attr_clear addr numpages page_rw

  unfoldable pub set_memory_rw : ℕ → ℕ → Mem → Option (Errno × Mem)
  unfolding change_page_attr_set
  set_memory_rw addr numpages = change_page_attr_set addr numpages page_rw

  unfoldable pub set_memory_np : ℕ → ℕ → Mem → Option (Errno × Mem)
  unfolding change_page_attr_clear
  set_memory_np addr numpages = change_page_attr_clear addr numpages page_present

  unfoldable pub set_memory_np_noalias : ℕ → ℕ → Mem → Option (Errno × Mem)
  unfolding request range
  set_memory_np_noalias addr numpages =
      request p t.caches
        (record (range addr numpages no_bits page_present) { no_check_alias = true })

  unfoldable pub set_memory_4k : ℕ → ℕ → Mem → Option (Errno × Mem)
  unfolding request range
  set_memory_4k addr numpages =
      request p t.caches (record (range addr numpages no_bits no_bits) { force_split = true })

  unfoldable pub set_memory_nonglobal : ℕ → ℕ → Mem → Option (Errno × Mem)
  unfolding change_page_attr_clear
  set_memory_nonglobal addr numpages = change_page_attr_clear addr numpages page_global

  unfoldable pub set_memory_global : ℕ → ℕ → Mem → Option (Errno × Mem)
  unfolding change_page_attr_set
  set_memory_global addr numpages = change_page_attr_set addr numpages page_global

  -- set_memory_encrypted and set_memory_decrypted: __set_memory_enc_dec, for `enc` or not.
  unfoldable pub set_memory_enc_dec : Bool → ℕ → ℕ → Mem → Option (Errno × Mem)
  unfolding cpa_at page_mask cpa_flush change_page_attr_set_clr
  set_memory_enc_dec enc addr numpages m =
      let c =
        cpa_at init_mm_pgd (page_mask addr) numpages (if enc then page_enc else no_bits)
          (if enc then no_bits else page_enc) in
      if not t.mem_encrypt_active then some (success, m) else do
        o ← change_page_attr_set_clr p true c (cpa_flush p c true m)
        some (o.ret, cpa_flush p o.cpa false o.mem)

  unfoldable pub set_pages_ro : Page → ℕ → Mem → Option (Errno × Mem)
  unfolding set_memory_ro
  set_pages_ro page = set_memory_ro page.address

  unfoldable pub set_pages_rw : Page → ℕ → Mem → Option (Errno × Mem)
  unfolding set_memory_rw
  set_pages_rw page = set_memory_rw page.address

  unfoldable pub set_pages_uc : Page → ℕ → Mem → W → Option (Errno × (Mem × W))
  unfolding set_memory_uc
  set_pages_uc page = set_memory_uc page.address

  unfoldable pub set_pages_wb : Page → ℕ → Mem → W → Option (Errno × (Mem × W))
  unfolding set_memory_wb
  set_pages_wb page = set_memory_wb page.address
