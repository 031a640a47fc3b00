-- ===== src/Pages/Arrays/Balance.antt =====
-- The memory types that _set_pages_array reserves, against those that it frees.
use userspace_bypass.Prelude.{
  ℕ, zero, suc, ◌+◌, ◌-◌, ◌*◌, ◌≡◌, ◌≢◌, refl, ◌⊎◌, inl, inr, true, false, Bool, Bool-cases, some,
  arith, u64, if◌then◌else◌, leb, ltb, ◌&&◌,
}
use userspace_bypass.Pages.Cpa.{Page, Mem, Platform, Errno, success, eperm, enomem, efault, einval}
use userspace_bypass.Pages.Memory.{CacheMode, Memtypes}
use userspace_bypass.Pages.Arrays.{
  reserve_page, free_page_type, free_pages, after_page, reserve_pages, change_array, err_out,
  finish, after_pages, set_pages_array,
}

-- How often the range from a to b covers an address.
abbrev covers : ℕ → ℕ → ℕ → ℕ
covers a b x = if leb a x && ltb x b then 1 else 0

-- reserve_memtype and free_memtype as they are documented: a reservation covers its range once more,
-- unless it fails, and freeing takes one reservation of the range away; `count` says how many
-- reservations of w cover an address.
pub record IsCounted {W : Type 0} (t : Memtypes W) (count : W → ℕ → ℕ) : Type 0 where
  pub reserved :
      (a b : ℕ) (mode : CacheMode) (w : W)
      → (((t.reserve_memtype a b mode w).0 ≡ success)
          × ((x : ℕ) → count (t.reserve_memtype a b mode w).1 x ≡ count w x + covers a b x))
        ⊎ (((t.reserve_memtype a b mode w).0 ≢ success)
            × ((x : ℕ) → count (t.reserve_memtype a b mode w).1 x ≡ count w x))
  pub freed : (a b : ℕ) (w : W) (x : ℕ) → count (t.free_memtype a b w) x ≡ count w x - covers a b x

-- How often a page's memory, and that of n pages from i on, covers an address.
abbrev page_covers : Page → ℕ → ℕ
page_covers page x =
    if page.highmem
    then 0
    else covers (u64 (page.pfn * 4096)) (u64 (u64 (page.pfn * 4096) + 4096)) x

abbrev pub all_cover : (ℕ → Page) → ℕ → ℕ → ℕ → ℕ
all_cover pages i zero x = 0
all_cover pages i (suc n) x = page_covers (pages i) x + all_cover pages (i + 1) n x

module _ {W : Type 0} (p : Platform) (t : Memtypes W) (count : W → ℕ → ℕ)
    (ok : IsCounted t count) where
  free_page_type-count :
      (page : Page) (w : W) (x : ℕ)
      → count (free_page_type p t page w) x ≡ count w x - page_covers page x
  unfolding free_page_type
  free_page_type-count page w x =
      let start = u64 (page.pfn * 4096) in
      elim (Bool-cases page.highmem) [
        | inl e ↦ rw e (omega arith)
        | inr e ↦ rw e (ok.freed start (u64 (start + 4096)) w x)
      ]

  free_pages-count :
      (pages : ℕ → Page) (i n : ℕ) (w : W) (x : ℕ)
      → count (free_pages p t pages i n w) x ≡ count w x - all_cover pages i n x
  unfolding free_pages
  free_pages-count pages i zero w x = omega arith
  free_pages-count pages i (suc n) w x =
      let first = free_page_type-count (pages i) w x in
      let rest = free_pages-count pages (i + 1) n (free_page_type p t (pages i) w) x in
      omega (arith, first, rest)

  -- The pages from i on, up to the one that fails, are covered once more each.
  abbrev IsReserved : (ℕ → Page) → ℕ → ℕ → W → Bool × (ℕ × W) → Type 0
  IsReserved pages i n w r =
      (j : ℕ) × (r.1.0 ≡ i + j)
      × ((x : ℕ) → count r.1.1 x ≡ count w x + all_cover pages i j x)
      × (((r.0 ≡ true) × (j ≡ n)) ⊎ (r.0 ≡ false))

  abbrev IsPageReserved : Page → W → Errno × W → Type 0
  IsPageReserved page w r =
      ((r.0 ≡ success) × ((x : ℕ) → count r.1 x ≡ count w x + page_covers page x))
      ⊎ ((r.0 ≢ success) × ((x : ℕ) → count r.1 x ≡ count w x))

  reserve_page-IsPageReserved :
      (mode : CacheMode) (page : Page) (w : W)
      → IsPageReserved page w (if page.highmem then (success, w) else reserve_page p t mode page w)
  unfolding reserve_page
  reserve_page-IsPageReserved mode page w =
      let start = u64 (page.pfn * 4096) in
      elim (Bool-cases page.highmem) [
        | inl e ↦ rw e (inl (refl, λ x. omega arith))
        | inr e ↦ rw e (ok.reserved start (u64 (start + 4096)) mode w)
      ]

  after_page-failed :
      (rest : ℕ → W → Bool × (ℕ × W)) (i : ℕ) (e : Errno) (v : W)
      → e ≢ success
      → after_page p t rest i (e, v) ≡ (false, (i, v))
  unfolding after_page
  after_page-failed rest i success v h = absurd (h refl)
  after_page-failed rest i eperm v h = refl
  after_page-failed rest i enomem v h = refl
  after_page-failed rest i efault v h = refl
  after_page-failed rest i einval v h = refl

  after_page-IsReserved :
      (rest : ℕ → W → Bool × (ℕ × W)) (pages : ℕ → Page) (i n : ℕ) (w : W) (r : Errno × W)
      → IsPageReserved (pages i) w r
      → ((v : W) → IsReserved pages (i + 1) n v (rest (i + 1) v))
      → IsReserved pages i (suc n) w (after_page p t rest i r)
  unfolding after_page
  after_page-IsReserved rest pages i n w r (inl (e, counted)) ih =
      let (j, reached, more, end) = ih r.1 in
      rw e (
        suc j,
        omega (arith, reached),
        λ x. omega (arith, counted x, more x),
        elim end [ inl (done, all) ↦ inl (done, omega (arith, all)) | inr stopped ↦ inr stopped ],
      )
  after_page-IsReserved rest pages i n w r (inr (failed, counted)) ih =
      rw (after_page-failed rest i r.0 r.1 failed)
        (0, omega arith, λ x. omega (arith, counted x), inr refl)

  reserve_pages-IsReserved :
      (mode : CacheMode) (pages : ℕ → Page) (n i : ℕ) (w : W)
      → IsReserved pages i n w (reserve_pages p t mode pages n i w)
  unfolding reserve_pages
  reserve_pages-IsReserved mode pages zero i w =
      (0, omega arith, λ x. omega arith, inl (refl, refl))
  reserve_pages-IsReserved mode pages (suc n) i w =
      after_page-IsReserved (reserve_pages p t mode pages n) pages i n w
        (if (pages i).highmem then (success, w) else reserve_page p t mode (pages i) w)
        (reserve_page-IsPageReserved mode (pages i) w)
        (reserve_pages-IsReserved mode pages n (i + 1))

  -- How _set_pages_array ends: with each page covered once more, or with -EINVAL and every address
  -- covered as often as before.
  abbrev pub IsBalanced : (ℕ → Page) → ℕ → W → Errno × (Mem × W) → Type 0
  IsBalanced pages n w r =
      ((r.0 ≡ success) × ((x : ℕ) → count r.1.1 x ≡ count w x + all_cover pages 0 n x))
      ⊎ ((r.0 ≡ einval) × ((x : ℕ) → count r.1.1 x ≡ count w x))

  err_out-IsBalanced :
      (pages : ℕ → Page) (n j : ℕ) (m : Mem) (w v : W)
      → ((x : ℕ) → count v x ≡ count w x + all_cover pages 0 j x)
      → IsBalanced pages n w (err_out p t pages j m v)
  unfolding err_out
  err_out-IsBalanced pages n j m w v h =
      inr (refl, λ x. let freed = free_pages-count pages 0 j v x in omega (arith, freed, h x))

  finish-IsBalanced :
      (pages : ℕ → Page) (n : ℕ) (w v : W) (q : Errno × Mem)
      → ((x : ℕ) → count v x ≡ count w x + all_cover pages 0 n x)
      → IsBalanced pages n w (finish p t pages n v q)
  unfolding finish
  finish-IsBalanced pages n w v (success, m) h = inl (refl, h)
  finish-IsBalanced pages n w v (eperm, m) h = err_out-IsBalanced pages n n m w v h
  finish-IsBalanced pages n w v (enomem, m) h = err_out-IsBalanced pages n n m w v h
  finish-IsBalanced pages n w v (efault, m) h = err_out-IsBalanced pages n n m w v h
  finish-IsBalanced pages n w v (einval, m) h = err_out-IsBalanced pages n n m w v h

  after_pages-IsBalanced :
      (mode : CacheMode) (pages : ℕ → Page) (n : ℕ) (m : Mem) (w : W) (r : Bool × (ℕ × W))
      (q : Errno × Mem)
      → change_array p t mode pages n m ≡ some q
      → IsReserved pages 0 n w r
      → (o : Errno × (Mem × W)) × (after_pages p t mode pages n m r ≡ some o)
        × IsBalanced pages n w o
  unfolding after_pages
  after_pages-IsBalanced mode pages n m w r q e (j, reached, counted, inl (all, last)) =
      let here : r.1.0 ≡ n = omega (arith, reached, last) in
      (
        finish p t pages r.1.0 r.1.1 q,
        rw (all, e) refl,
        rw here (finish-IsBalanced pages n w r.1.1 q (rw last at counted)),
      )
  after_pages-IsBalanced mode pages n m w r q e (j, reached, counted, inr stopped) = (
    err_out p t pages r.1.0 m r.1.1,
    rw stopped refl,
    let here : r.1.0 ≡ j = omega (arith, reached) in
        rw here (err_out-IsBalanced pages n j m w r.1.1 counted),
  )

  -- If reserve_memtype covers its range once more unless it fails, and free_memtype takes one
  -- reservation of its range away, _set_pages_array comes back where its change of attributes does:
  -- with success, and every address covered once more for each of the pages that it lies in, or with
  -- -EINVAL, and every address covered as often as before.
  pub set_pages_array-IsBalanced :
      (mode : CacheMode) (pages : ℕ → Page) (n : ℕ) (m : Mem) (w : W) (q : Errno × Mem)
      → change_array p t mode pages n m ≡ some q
      → (o : Errno × (Mem × W)) × (set_pages_array p t mode pages n m w ≡ some o)
        × IsBalanced pages n w o
  unfolding set_pages_array
  set_pages_array-IsBalanced mode pages n m w q e =
      after_pages-IsBalanced mode pages n m w (reserve_pages p t mode pages n 0 w) q e
        (reserve_pages-IsReserved mode pages n 0 w)
