-- ===== src/Pages/Arrays.antt =====
-- Arrays of pages: _set_pages_array, set_pages_array_wb and their callers.
pub mod Balance
use userspace_bypass.Prelude.{
  ℕ, zero, suc, ◌+◌, ◌*◌, Bool, true, false, Option, some, if◌then◌else◌, u64,
}
use userspace_bypass.Pages.{Prot}
use userspace_bypass.Pages.Cpa.{Page, Mem, Platform, Errno, success, einval}
use userspace_bypass.Pages.Unmap.{◌>>=◌}
use userspace_bypass.Pages.Requests.{Request, request, no_bits, page_cache_mask}
use userspace_bypass.Pages.Memory.{CacheMode, cache_uc_minus, cache_wc, cache_wt, Memtypes}

-- A request for an array of pages.
unfoldable pub page_array : (ℕ → Page) → ℕ → Prot → Prot → Request
page_array pages numpages mask_set mask_clr = record {
  addr = λ i. 0;
  numpages = numpages;
  mask_set = mask_set;
  mask_clr = mask_clr;
  force_split = false;
  array = false;
  pages_array = true;
  no_check_alias = false;
  pages = pages;
}

-- The first step of a change to a mode: WC goes by way of UC-.
unfoldable pub first_mode : CacheMode → CacheMode
first_mode cache_wc = cache_uc_minus
first_mode mode = mode

module _ {W : Type 0} (p : Platform) (t : Memtypes W) where
  unfoldable pub reserve_page : CacheMode → Page → W → Errno × W
  reserve_page mode page w =
      t.reserve_memtype (u64 (page.pfn * 4096)) (u64 (u64 (page.pfn * 4096) + 4096)) mode w

  unfoldable pub free_page_type : Page → W → W
  free_page_type page w =
      if page.highmem
      then w
      else t.free_memtype (u64 (page.pfn * 4096)) (u64 (u64 (page.pfn * 4096) + 4096)) w

  -- The pages from i on are freed.
  unfoldable pub free_pages : (ℕ → Page) → ℕ → ℕ → W → W
  unfolding free_page_type
  free_pages pages i zero w = w
  free_pages pages i (suc n) w = free_pages pages (i + 1) n (free_page_type (pages i) w)

  -- The flag tells whether all pages from i on could be reserved; the number is the index reached.
  unfoldable pub after_page : (ℕ → W → Bool × (ℕ × W)) → ℕ → Errno × W → Bool × (ℕ × W)
  after_page rest i (success, w) = rest (i + 1) w
  after_page rest i (e, w) = (false, (i, w))

  unfoldable pub reserve_pages : CacheMode → (ℕ → Page) → ℕ → ℕ → W → Bool × (ℕ × W)
  unfolding reserve_page after_page
  reserve_pages mode pages zero i w = (true, (i, w))
  reserve_pages mode pages (suc n) i w =
      after_page (reserve_pages mode pages n) i
        (if (pages i).highmem then (success, w) else reserve_page mode (pages i) w)

  -- The second step, for WC.
  unfoldable pub then_wc : CacheMode → (ℕ → Page) → ℕ → Errno × Mem → Option (Errno × Mem)
  unfolding request page_array
  then_wc cache_wc pages numpages (success, m) =
      request p t.caches (page_array pages numpages (t.cachemode2pgprot cache_wc) page_cache_mask) m
  then_wc mode pages numpages r = some r

  -- The change of the attributes alone.
  unfoldable pub change_array : CacheMode → (ℕ → Page) → ℕ → Mem → Option (Errno × Mem)
  unfolding request page_array first_mode then_wc
  change_array mode pages numpages m = do
    r ←
        request p t.caches
          (page_array pages numpages (t.cachemode2pgprot (first_mode mode)) no_bits) m
    then_wc mode pages numpages r

  -- `err_out:`, from the index that the reservations reached.
  unfoldable pub err_out : (ℕ → Page) → ℕ → Mem → W → Errno × (Mem × W)
  unfolding free_pages
  err_out pages free_idx m w = (einval, (m, free_pages pages 0 free_idx w))

  unfoldable pub finish : (ℕ → Page) → ℕ → W → Errno × Mem → Errno × (Mem × W)
  unfolding err_out
  finish pages i w (success, m) = (success, (m, w))
  finish pages i w (e, m) = err_out pages i m w

  unfoldable pub after_pages :
      CacheMode → (ℕ → Page) → ℕ → Mem → Bool × (ℕ × W) → Option (Errno × (Mem × W))
  unfolding change_array finish err_out
  after_pages mode pages numpages m (true, (i, w)) = do
    r ← change_array mode pages numpages m
    some (finish pages i w r)
  after_pages mode pages numpages m (false, (i, w)) = some (err_out pages i m w)

  -- _set_pages_array.
  unfoldable pub set_pages_array : CacheMode → (ℕ → Page) → ℕ → Mem → W → Option (Errno × (Mem × W))
  unfolding reserve_pages after_pages
  set_pages_array mode pages numpages m w =
      after_pages mode pages numpages m (reserve_pages mode pages numpages 0 w)

  unfoldable pub set_pages_array_uc : (ℕ → Page) → ℕ → Mem → W → Option (Errno × (Mem × W))
  unfolding set_pages_array
  set_pages_array_uc = set_pages_array cache_uc_minus

  unfoldable pub set_pages_array_wc : (ℕ → Page) → ℕ → Mem → W → Option (Errno × (Mem × W))
  unfolding set_pages_array
  set_pages_array_wc = set_pages_array cache_wc

  unfoldable pub set_pages_array_wt : (ℕ → Page) → ℕ → Mem → W → Option (Errno × (Mem × W))
  unfolding set_pages_array
  set_pages_array_wt = set_pages_array cache_wt

  unfoldable pub free_array_if_ok : (ℕ → Page) → ℕ → W → Errno × Mem → Errno × (Mem × W)
  unfolding free_pages
  free_array_if_ok pages n w (success, m) = (success, (m, free_pages pages 0 n w))
  free_array_if_ok pages n w (e, m) = (e, (m, w))

  unfoldable pub set_pages_array_wb : (ℕ → Page) → ℕ → Mem → W → Option (Errno × (Mem × W))
  unfolding request page_array free_array_if_ok
  set_pages_array_wb pages numpages m w = do
    r ← request p t.caches (page_array pages numpages no_bits page_cache_mask) m
    some (free_array_if_ok pages numpages w r)
