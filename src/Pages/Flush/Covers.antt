-- ===== src/Pages/Flush/Covers.antt =====
-- After a change every page of the request is flushed from the TLBs.
use mathlib.Core.List.{append_assoc}
use userspace_bypass.Prelude.{
  ℕ, zero, suc, ◌+◌, ◌≡◌, ◌≤◌, ◌<◌, refl, sym, ap, ◌∙◌, ◌⊎◌, inl, inr, true, false, Bool, List, [],
  ◌∷◌, ◌++◌, arith, ◌&&◌, ◌||◌, not, if◌then◌else◌, ltb,
}
use userspace_bypass.Pages.{Prot, fix_addr, lookup_address_in_pgd}
use userspace_bypass.Pages.Cpa.{
  Cpa, Mem, Platform, Flush, Out, Errno, success, eperm, enomem, efault, einval, tlb_all,
  caches_all, tlb_one, cache_page, cpa_addr,
}
use userspace_bypass.Pages.Requests.{flush_after, flush_by_result}
use userspace_bypass.Pages.Flush.{
  add_flush, cpa_flush_all, cpa_flush_tlb, cpa_flush_caches, cpa_flush, is_present,
}

-- Whether an address is flushed from all TLBs by one of the flushes.
unfoldable pub IsFlushed : ℕ → List Flush → Type 0
IsFlushed a [] = ⊥
IsFlushed a (f ∷ fs) = (f ≡ tlb_all) ⊎ (f ≡ tlb_one a) ⊎ IsFlushed a fs

IsFlushed-left : (a : ℕ) (fs gs : List Flush) → IsFlushed a fs → IsFlushed a (fs ++ gs)
unfolding IsFlushed
IsFlushed-left a [] gs h = absurd h
IsFlushed-left a (f ∷ fs) gs (inl h) = inl h
IsFlushed-left a (f ∷ fs) gs (inr (inl h)) = inr (inl h)
IsFlushed-left a (f ∷ fs) gs (inr (inr h)) = inr (inr (IsFlushed-left a fs gs h))

IsFlushed-right : (a : ℕ) (fs gs : List Flush) → IsFlushed a gs → IsFlushed a (fs ++ gs)
unfolding IsFlushed
IsFlushed-right a [] gs h = h
IsFlushed-right a (f ∷ fs) gs h = inr (inr (IsFlushed-right a fs gs h))

-- The flushes from m to n.
abbrev pub Since : Mem → Mem → Type 0
Since m n = (new : List Flush) × (n.flushes ≡ new ++ m.flushes)

-- The pages from i on are flushed from m to n.
abbrev pub Covers : Cpa → ℕ → ℕ → Mem → Mem → Type 0
Covers c i k m n =
    (new : List Flush) × (n.flushes ≡ new ++ m.flushes)
    × ((j : ℕ) → i ≤ j → j < i + k → IsFlushed (fix_addr (cpa_addr c j)) new)

all-Covers : (c : Cpa) (i k : ℕ) (m : Mem) → Covers c i k m (add_flush tlb_all m)
unfolding add_flush IsFlushed
all-Covers c i k m = (tlb_all ∷ [], refl, λ j a b. inl refl)

-- More flushes do no harm.
Covers-Since : (c : Cpa) (i k : ℕ) (m n o : Mem) → Covers c i k m n → Since n o → Covers c i k m o
Covers-Since c i k m n o (new, e, h) (more, l) = (
  more ++ new,
  l ∙ rw e (sym (append_assoc more new m.flushes)),
  λ j a b. IsFlushed-right (fix_addr (cpa_addr c j)) more new (h j a b),
)

-- The page flushed first, and the others after it.
first-or_later :
    (c : Cpa) (i k : ℕ) (new : List Flush)
    → ((j : ℕ) → i + 1 ≤ j → j < i + 1 + k → IsFlushed (fix_addr (cpa_addr c j)) new)
    → (j : ℕ) → i ≤ j
    → j < i + suc k
    → IsFlushed (fix_addr (cpa_addr c j)) (new ++ (tlb_one (fix_addr (cpa_addr c i)) ∷ []))
unfolding IsFlushed
first-or_later c i k new h j s t =
    let a = fix_addr (cpa_addr c j) in
    let last = tlb_one (fix_addr (cpa_addr c i)) ∷ [] in
    let split : (i ≡ j) ⊎ (i + 1 ≤ j) = omega arith in
    elim split [
      | inl e ↦
          IsFlushed-right a new last (inr (inl (ap (λ n. tlb_one (fix_addr (cpa_addr c n))) e)))
      | inr l ↦ IsFlushed-left a new last (h j l (omega arith))
    ]

cpa_flush_tlb-Covers : (c : Cpa) (i k : ℕ) (m : Mem) → Covers c i k m (cpa_flush_tlb c i k m)
unfolding cpa_flush_tlb add_flush
cpa_flush_tlb-Covers c i zero m = ([], refl, λ j a b. absurd (omega arith))
cpa_flush_tlb-Covers c i (suc k) m =
    let a = fix_addr (cpa_addr c i) in
    let (new, e, h) = cpa_flush_tlb-Covers c (i + 1) k (add_flush (tlb_one a) m) in
    (
      new ++ (tlb_one a ∷ []),
      e ∙ sym (append_assoc new (tlb_one a ∷ []) m.flushes),
      first-or_later c i k new h,
    )

either-Covers :
    (b : Bool) (c : Cpa) (i k : ℕ) (m x y : Mem)
    → Covers c i k m x
    → Covers c i k m y
    → Covers c i k m (if b then x else y)
either-Covers true c i k m x y h l = h
either-Covers false c i k m x y h l = l

either-Since : (b : Bool) (m x y : Mem) → Since m x → Since m y → Since m (if b then x else y)
either-Since true m x y h l = h
either-Since false m x y h l = l

Since-trans : (m n o : Mem) → Since m n → Since n o → Since m o
Since-trans m n o (new, e) (more, l) =
    (more ++ new, l ∙ rw e (sym (append_assoc more new m.flushes)))

cpa_flush_caches-Since : (c : Cpa) (i k : ℕ) (m : Mem) → Since m (cpa_flush_caches c i k m)
unfolding cpa_flush_caches add_flush
cpa_flush_caches-Since c i zero m = ([], refl)
cpa_flush_caches-Since c i (suc k) m =
    let addr = cpa_addr c i in
    let b = is_present (lookup_address_in_pgd m.tables addr) in
    let flushed = add_flush (cache_page (fix_addr addr)) m in
    let n = if b then flushed else m in
    Since-trans m n (cpa_flush_caches c (i + 1) k n)
      (either-Since b m flushed m (cache_page (fix_addr addr) ∷ [], refl) ([], refl))
      (cpa_flush_caches-Since c (i + 1) k n)

cpa_flush_all-Covers :
    (p : Platform) (cache : Bool) (c : Cpa) (i k : ℕ) (m : Mem)
    → Covers c i k m (cpa_flush_all p cache m)
unfolding cpa_flush_all add_flush
cpa_flush_all-Covers p cache c i k m =
    let n = add_flush tlb_all m in
    let all = all-Covers c i k m in
    either-Covers (cache && p.has_wbinvd) c i k m (add_flush caches_all n) n
      (Covers-Since c i k m n (add_flush caches_all n) all (caches_all ∷ [], refl)) all

cpa_flush-Covers :
    (p : Platform) (c : Cpa) (cache : Bool) (m : Mem)
    → Covers c 0 c.numpages m (cpa_flush p c cache m)
unfolding cpa_flush
cpa_flush-Covers p c cache m =
    let k = c.numpages in
    let b = c.force_flush_all || ltb p.tlb_single_page_flush_ceiling k in
    let each = cpa_flush_tlb c 0 k m in
    let n = if b then add_flush tlb_all m else each in
    let tlbs =
      either-Covers b c 0 k m (add_flush tlb_all m) each (all-Covers c 0 k m)
        (cpa_flush_tlb-Covers c 0 k m) in
    let lines = cpa_flush_caches c 0 k n in
    either-Covers (cache && not p.has_clflush) c 0 k m (cpa_flush_all p cache m)
      (if cache then lines else n) (cpa_flush_all-Covers p cache c 0 k m)
      (either-Covers cache c 0 k m lines n
        (Covers-Since c 0 k m n lines tlbs (cpa_flush_caches-Since c 0 k n)) tlbs)

flush_by_result-Covers :
    (p : Platform) (cache : Bool) (e : Errno) (o : Out)
    → Covers o.cpa 0 o.cpa.numpages o.mem (flush_by_result p cache e o).mem
unfolding flush_by_result
flush_by_result-Covers p cache success o = cpa_flush-Covers p o.cpa cache o.mem
flush_by_result-Covers p cache eperm o = cpa_flush_all-Covers p cache o.cpa 0 o.cpa.numpages o.mem
flush_by_result-Covers p cache enomem o = cpa_flush_all-Covers p cache o.cpa 0 o.cpa.numpages o.mem
flush_by_result-Covers p cache efault o = cpa_flush_all-Covers p cache o.cpa 0 o.cpa.numpages o.mem
flush_by_result-Covers p cache einval o = cpa_flush_all-Covers p cache o.cpa 0 o.cpa.numpages o.mem

-- If a change asked for a flush, every page of the request is flushed from the TLBs after it, by its
-- address or with everything, whether or not the change failed, however many the pages are and
-- whatever becomes of the caches.
pub flush_after-Covers :
    (p : Platform) (caches : Prot → Bool) (mask_set : Prot) (o : Out)
    → o.cpa.flush_tlb ≡ true
    → Covers o.cpa 0 o.cpa.numpages o.mem (flush_after p caches mask_set o).mem
unfolding flush_after
flush_after-Covers p caches mask_set o h =
    simp h (flush_by_result-Covers p (caches mask_set) o.ret o)
