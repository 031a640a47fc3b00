-- ===== src/Pages/Change/Total/Requested.antt =====
-- The size of the direct mapping over a request, from the change to the flush.
use userspace_bypass.Prelude.{
  ap, ◌≡◌, refl, ◌∙◌, Bool, true, false, Option, none, some, ℕ, if◌then◌else◌, ◌&&◌, not, u64, sym,
  arith, ◌+◌, ◌*◌,
}
use userspace_bypass.Pages.{Prot, prot_eq}
use userspace_bypass.Pages.Cpa.{Counts, arch_report_meminfo, Errno, success, Mem, Platform, Out}
use userspace_bypass.Pages.Unmap.{◌>>=◌}
use userspace_bypass.Pages.Requests.{
  cpa_at, Request, no_bits, cpa_of, checks_alias, flush_after, request,
}
use userspace_bypass.Pages.Change.{change_page_attr_set_clr}
use userspace_bypass.Pages.Flush.Keeps.{flush_after-counts}
use userspace_bypass.Pages.Change.Total.{total, IsKept}
use userspace_bypass.Pages.Change.Total.Loop.{change_page_attr_set_clr-IsKept}

-- What a request returns, if it does, has the size n.
unfoldable IsSized : ℕ → Option (Errno × Mem) → Type 0
IsSized n none = Unit
IsSized n (some r) = total r.1.counts ≡ n

either-IsSized :
    (n : ℕ) (b : Bool) (x y : Option (Errno × Mem))
    → IsSized n x
    → IsSized n y
    → IsSized n (if b then x else y)
either-IsSized n true x y h l = h
either-IsSized n false x y h l = l

flushed-IsSized :
    (n : ℕ) (p : Platform) (caches : Prot → Bool) (mask_set : Prot) (x : Option Out)
    → IsKept n x
    → IsSized n (do o ← x; some (o.ret, (flush_after p caches mask_set o).mem))
unfolding IsSized IsKept
flushed-IsSized n p caches mask_set none h = tt
flushed-IsSized n p caches mask_set (some o) h =
    ap total (flush_after-counts p caches mask_set o) ∙ h.1

request-IsSized :
    (p : Platform) (caches : Prot → Bool) (r : Request) (m : Mem)
    → IsSized (total m.counts) (request p caches r m)
unfolding request IsSized cpa_of cpa_at
request-IsSized p caches r m =
    let n = total m.counts in
    let mask_set = p.canon_pgprot r.mask_set in
    let x = change_page_attr_set_clr p (checks_alias r mask_set) (cpa_of r mask_set) m in
    either-IsSized n (prot_eq mask_set no_bits && (prot_eq r.mask_clr no_bits && not r.force_split))
      (some (success, m)) (do o ← x; some (o.ret, (flush_after p caches mask_set o).mem)) refl
      (flushed-IsSized n p caches mask_set x (
        change_page_attr_set_clr-IsKept n p (checks_alias r mask_set) (cpa_of r mask_set) m
          (refl, refl)))

sized_total :
    (n : ℕ) (x : Option (Errno × Mem)) (r : Errno × Mem)
    → IsSized n x
    → x ≡ some r
    → total r.1.counts ≡ n
unfolding IsSized
sized_total n x r h e = rw e at h

-- The three figures of /proc/meminfo, added up, in kB.
unfoldable pub reported : Counts → ℕ
unfolding arch_report_meminfo
reported d = let (small, large, huge) = arch_report_meminfo d in u64 (small + large + huge)

reported-total : (d : Counts) → reported d ≡ u64 (4 * total d)
unfolding reported total arch_report_meminfo
reported-total d = omega arith

-- A request that returns, whatever it asks for, where it fails and whichever aliases it follows,
-- leaves the size of the direct mapping, the counts of its entries weighted by their sizes, and the
-- sum of the three figures for it in /proc/meminfo as they were, up to wrap-around.
pub request-total :
    (p : Platform) (caches : Prot → Bool) (r : Request) (m : Mem) (o : Errno × Mem)
    → request p caches r m ≡ some o
    → (total o.1.counts ≡ total m.counts) × (reported o.1.counts ≡ reported m.counts)
request-total p caches r m o e =
    let same =
      sized_total (total m.counts) (request p caches r m) o (request-IsSized p caches r m) e in
    (same, reported-total o.1.counts ∙ ap (λ n. u64 (4 * n)) same ∙ sym (reported-total m.counts))
