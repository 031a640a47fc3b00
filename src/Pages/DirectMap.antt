-- ===== src/Pages/DirectMap.antt =====
-- Changes without aliases or a request: set_pages_p and set_pages_np of the direct map,
-- __kernel_map_pages, and the mappings of another pgd.
use userspace_bypass.Prelude.{ℕ, Bool, true, not, Option, some, if◌then◌else◌}
use userspace_bypass.Pages.{Prot}
use userspace_bypass.Pages.Cpa.{
  Cpa, Page, no_pgd, other_pgd, Mem, Platform, Errno, einval, tlb_here,
}
use userspace_bypass.Pages.Unmap.{◌>>=◌}
use userspace_bypass.Pages.Change.{change_page_attr_set_clr_0}
use userspace_bypass.Pages.Flush.{add_flush}
use userspace_bypass.Pages.Requests.{cpa_at, no_bits, page_present_rw}

-- A change without flushes or aliases.
unfoldable pub change_only : Platform → Cpa → Mem → Option (Errno × Mem)
unfolding change_page_attr_set_clr_0
change_only p c m = do o ← change_page_attr_set_clr_0 p c m; some (o.ret, o.mem)

-- __set_pages_p, set_direct_map_default_noflush for one page.
unfoldable pub set_pages_p : Platform → Page → ℕ → Mem → Option (Errno × Mem)
unfolding change_only cpa_at
set_pages_p p page numpages =
    change_only p (cpa_at no_pgd page.address numpages page_present_rw no_bits)

-- __set_pages_np, set_direct_map_invalid_noflush for one page.
unfoldable pub set_pages_np : Platform → Page → ℕ → Mem → Option (Errno × Mem)
unfolding change_only cpa_at
set_pages_np p page numpages =
    change_only p (cpa_at no_pgd page.address numpages no_bits page_present_rw)

-- __kernel_map_pages, which ignores the result.
unfoldable pub kernel_map_pages : Platform → Page → ℕ → Bool → Mem → Option Mem
unfolding set_pages_p set_pages_np add_flush
kernel_map_pages p page numpages enable m = if page.highmem then some m else do
  r ← if enable then set_pages_p p page numpages m else set_pages_np p page numpages m
  some (add_flush tlb_here r.1)

unfoldable pub flushed_here : Errno × Mem → Errno × Mem
unfolding add_flush
flushed_here r = (r.0, add_flush tlb_here r.1)

-- `~page_flags & (_PAGE_NX | _PAGE_RW)`, and what pgprot_encrypted adds without _PAGE_ENC.
unfoldable pub mask_without : Prot → Prot
mask_without flags = record no_bits { nx = not flags.nx; rw = not flags.rw; enc = not flags.enc }

unfoldable pub kernel_map_pages_in_pgd :
    Platform → Bool → ℕ → ℕ → ℕ → Prot → Mem → Option (Errno × Mem)
unfolding change_only cpa_at mask_without flushed_here
kernel_map_pages_in_pgd p supports_nx pfn address numpages flags m =
    let c =
      record (cpa_at other_pgd address numpages (record flags { present = true })
        (mask_without flags)) { pfn = pfn } in
    if not supports_nx then some (einval, m) else do r ← change_only p c m; some (flushed_here r)

unfoldable pub kernel_unmap_pages_in_pgd : Platform → ℕ → ℕ → Mem → Option (Errno × Mem)
unfolding change_only cpa_at flushed_here
kernel_unmap_pages_in_pgd p address numpages m = do
  r ← change_only p (cpa_at other_pgd address numpages no_bits page_present_rw) m
  some (flushed_here r)
