-- ===== src/Pages/Change/Rounds.antt =====
-- The rounds of __change_page_attr: it returns, with what a step promises.
use userspace_bypass.Prelude.{
  ℕ, zero, suc, ◌%◌, ◌^◌, ◌≡◌, ◌≤◌, ◌<◌, refl, ◌∙◌, ◌⊎◌, inl, inr, Bool, Option, none, some, arith,
}
use userspace_bypass.Pages.{
  Layout, Level, level_none, level_4k, level_2m, level_1g, level_512g, Leaf, Tables, walk, vpn,
}
use userspace_bypass.Pages.Cpa.{
  Cpa, Mem, Platform, Pgd, no_pgd, Out, Errno, success, enomem, cpa_addr,
}
use userspace_bypass.Pages.Split.{should_split_large_page, split_large_page}
use userspace_bypass.Pages.Split.Large.{IsLarge, lookup_cpa-walk, split_large_page_lem}
use userspace_bypass.Pages.Split.Check.{should_split_large_page-IsChecked}
use userspace_bypass.Pages.Spec.Walks.{walk-level_none}
use userspace_bypass.Pages.Spec.{same, IsStep, IsQuiet, IsFor, rank}
use userspace_bypass.Pages.Change.{
  process_kernel_fault, change_pte, cpa_process_fault, after_split, after_check, change_large_page,
  change_entry, change_page_at, change_page_attr,
}
use userspace_bypass.Pages.Change.Step.{
  IsDone, IsDone-before, process_kernel_fault-IsDone, change_pte-IsDone,
}

-- It returns, and does what a step promises.
abbrev pub Returns : Layout → Cpa → ℕ → Tables → Option Out → Type 0
Returns lay c v t x = (o : Out) × (x ≡ some o) × IsDone lay c v t o

-- The rest of the rounds, from a lower walk on.
abbrev Repeats : Layout → ℕ → ℕ → (Cpa → Mem → Option Out) → Type 0
Repeats lay n v repeat =
    (d : Cpa) (x : Mem)
    → 1 ≤ d.numpages
    → d.pgd ≡ no_pgd
    → rank (walk x.tables v) < n
    → Returns lay d v x.tables (repeat d x)

after_split-Returns :
    (lay : Layout)
    → (n v : ℕ) (repeat : Cpa → Mem → Option Out) (c d : Cpa) (t : Tables) (r : Errno × Mem)
    → Repeats lay n v repeat
    → IsFor c d
    → 1 ≤ d.numpages
    → d.numpages ≤ c.numpages
    → d.pgd ≡ no_pgd
    → ((w : ℕ) → IsStep lay same w t r.1.tables)
    → ((r.0 ≡ enomem) ⊎ ((r.0 ≡ success) × (rank (walk r.1.tables v) < n)))
    → Returns lay c v t (after_split repeat d r)
unfolding after_split
after_split-Returns lay n v repeat c d t r ih frame some_pages no_more g near (inl e) =
    rw e (record { ret = enomem; cpa = d; mem = r.1 }, refl, (frame, inr (inl refl, near)))
after_split-Returns lay n v repeat c d t r ih frame some_pages no_more g near (inr (e, low)) =
    let (o, returns, done) = ih d r.1 some_pages g low in
    rw e (o, returns, IsDone-before lay c d v t r.1.tables o frame no_more near done)

lower_walk :
    (n v : ℕ) (t : Tables) (r : Errno × Mem)
    → rank (walk t v) ≤ n
    → ((r.0 ≡ enomem) ⊎ ((r.0 ≡ success) × (rank (walk r.1.tables v) < rank (walk t v))))
    → ((r.0 ≡ enomem) ⊎ ((r.0 ≡ success) × (rank (walk r.1.tables v) < n)))
lower_walk n v t r h (inl e) = inl e
lower_walk n v t r h (inr (e, low)) = inr (e, omega (arith, low, h))

must_split-Returns :
    (p : Platform)
    → IsQuiet p
    → (n : ℕ) (repeat : Cpa → Mem → Option Out) (level : Level) (l : Leaf) (a : ℕ) (c d : Cpa)
      (m : Mem)
    → Repeats p.layout n (vpn a) repeat
    → IsLarge level
    → IsFor c d
    → 1 ≤ d.numpages
    → d.numpages ≤ c.numpages
    → d.pgd ≡ no_pgd
    → rank (walk m.tables (vpn a)) ≤ n
    → walk m.tables (vpn a) ≡ (some l, level)
    → Returns p.layout c (vpn a) m.tables (after_split repeat d (split_large_page p level a d m))
must_split-Returns p quiet n repeat level l a c d m ih i frame pages no_more g bound h =
    let r = split_large_page p level a d m in
    let split = split_large_page_lem p quiet level a d m l g i h in
    after_split-Returns p.layout n (vpn a) repeat c d m.tables r ih frame pages no_more g split.0
      (lower_walk n (vpn a) m.tables r bound split.1)

change_large_page-Returns :
    (p : Platform)
    → IsQuiet p
    → (n : ℕ) (repeat : Cpa → Mem → Option Out) (level : Level) (l : Leaf) (a : ℕ) (c : Cpa)
      (m : Mem)
    → Repeats p.layout n (vpn a) repeat
    → IsLarge level
    → a < 2 ^ 64
    → a % 4096 ≡ 0
    → 1 ≤ c.numpages
    → c.pgd ≡ no_pgd
    → rank (walk m.tables (vpn a)) ≤ n
    → walk m.tables (vpn a) ≡ (some l, level)
    → Returns p.layout c (vpn a) m.tables (change_large_page p repeat level a c m)
unfolding change_large_page after_check
change_large_page-Returns p quiet n repeat level l a c m ih i low line pages g bound h =
    let s = should_split_large_page p level a c m in
    let (frame, some_pages, no_more, verdict) =
      should_split_large_page-IsChecked p l level a c m i low line pages g h in
    elim verdict [
      | inl (e, unchanged) ↦
          rw (e, unchanged)
            (must_split-Returns p quiet n repeat level l a c s.cpa m ih i frame some_pages no_more
              (frame.pgd ∙ g) bound h)
      | inr (e, change) ↦ rw e (
        record { ret = success; cpa = s.cpa; mem = s.mem },
        refl,
        (frame, inl (refl, some_pages, no_more, change)),
      )
    ]

fault-no_pgd :
    (p : Platform) (g : Pgd) (a : ℕ) (primary : Bool) (c : Cpa) (m : Mem)
    → g ≡ no_pgd
    → cpa_process_fault p g a primary c m ≡ some (process_kernel_fault p a primary c m)
unfolding cpa_process_fault
fault-no_pgd p g a primary c m h = rw h

abbrev Found :
    Platform → ℕ → (Cpa → Mem → Option Out) → Option Leaf × Level → ℕ → Bool → Cpa → Mem → Type 0
Found p n repeat r a primary c m =
    Repeats p.layout n (vpn a) repeat
    → a < 2 ^ 64
    → a % 4096 ≡ 0
    → 1 ≤ c.numpages
    → c.pgd ≡ no_pgd
    → rank (walk m.tables (vpn a)) ≤ n
    → rank (walk m.tables (vpn a)) ≤ 2
    → walk m.tables (vpn a) ≡ r
    → Returns p.layout c (vpn a) m.tables (change_entry p repeat r a primary c m)

change_entry-Returns :
    (p : Platform)
    → IsQuiet p
    → (n : ℕ) (repeat : Cpa → Mem → Option Out) (r : Option Leaf × Level) (a : ℕ) (primary : Bool)
      (c : Cpa) (m : Mem)
    → Found p n repeat r a primary c m
unfolding change_entry rank IsLarge
change_entry-Returns p quiet n repeat (none, level) a primary c m ih low line pages g bound two h =
    let done = process_kernel_fault-IsDone p a primary c m (vpn a) level pages h in
    (process_kernel_fault p a primary c m, fault-no_pgd p c.pgd a primary c m g, done)
change_entry-Returns p quiet n repeat (some l, level_4k) a primary c m ih low line pages g bound two
      h =
    (change_pte p a l c m, refl, change_pte-IsDone p a l c m pages g h)
change_entry-Returns p quiet n repeat (some l, level_2m) a primary c m ih low line pages g bound two
      h =
    change_large_page-Returns p quiet n repeat level_2m l a c m ih tt low line pages g bound h
change_entry-Returns p quiet n repeat (some l, level_1g) a primary c m ih low line pages g bound two
      h =
    change_large_page-Returns p quiet n repeat level_1g l a c m ih tt low line pages g bound h
change_entry-Returns p quiet n repeat (some l, level_none) a primary c m ih low line pages g bound
      two h =
    absurd (walk-level_none m.tables (vpn a) l h)
change_entry-Returns p quiet n repeat (some l, level_512g) a primary c m ih low line pages g bound
      two h =
    let three : rank (walk m.tables (vpn a)) ≡ 3 = rw h in absurd (omega (arith, three, two))

-- With fuel for each level that the walk may come down, and one round more.
change_page_at-Returns :
    (p : Platform)
    → IsQuiet p
    → (n a : ℕ) (primary : Bool) (c : Cpa) (m : Mem) → a < 2 ^ 64
    → a % 4096 ≡ 0
    → 1 ≤ c.numpages
    → c.pgd ≡ no_pgd
    → rank (walk m.tables (vpn a)) < n
    → n ≤ 3
    → Returns p.layout c (vpn a) m.tables (change_page_at p n a primary c m)
unfolding change_page_at
change_page_at-Returns p quiet zero a primary c m low line pages g bound few = absurd (omega arith)
change_page_at-Returns p quiet (suc n) a primary c m low line pages g bound few =
    let rest : Repeats p.layout n (vpn a) (change_page_at p n a primary) =
      λ d x some_pages pgd lower.
        change_page_at-Returns p quiet n a primary d x low line some_pages pgd lower
          (omega (arith, few)) in
    rw (lookup_cpa-walk c m a g) (
      change_entry-Returns p quiet n (change_page_at p n a primary) (walk m.tables (vpn a)) a
        primary c m rest low line pages g (omega (arith, bound)) (omega (arith, bound, few)) refl)

-- Where other processors only split entries and take write access away, or NX from the kernel's text,
-- __change_page_attr for a page-aligned address that no entry at 512G maps, of init_mm, returns within
-- three rounds: at least one and at most cpa->numpages pages map to the frames they did, with the
-- protections that the masks ask for, or it fails with no page changed, in both cases but for write
-- access, which may be taken away, NX, which may be cleared in the kernel's text only, and the global
-- bit.
pub change_page_attr-Returns :
    (p : Platform)
    → IsQuiet p
    → (primary : Bool) (c : Cpa) (m : Mem) → cpa_addr c c.curpage < 2 ^ 64
    → cpa_addr c c.curpage % 4096 ≡ 0
    → 1 ≤ c.numpages
    → c.pgd ≡ no_pgd
    → rank (walk m.tables (vpn (cpa_addr c c.curpage))) ≤ 2
    → Returns p.layout c (vpn (cpa_addr c c.curpage)) m.tables (change_page_attr p primary c m)
unfolding change_page_attr
change_page_attr-Returns p quiet primary c m low line pages g bound =
    change_page_at-Returns p quiet 3 (cpa_addr c c.curpage) primary c m low line pages g
      (omega (arith, bound)) (omega arith)
