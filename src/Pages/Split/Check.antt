-- ===== src/Pages/Split/Check.antt =====
-- should_split_large_page: what it decides, and what it changes where the page is kept.
use userspace_bypass.Prelude.{
  ℕ, ◌*◌, ◌%◌, ◌^◌, ◌≡◌, ◌≤◌, ◌<◌, refl, ◌⊎◌, inl, inr, true, false, Bool, some, arith, ◌==◌,
  if◌then◌else◌, Bool-cases, ==_iff,
}
use userspace_bypass.Pages.{
  Layout, Level, level_none, level_4k, level_2m, level_1g, level_512g, Leaf, walk, vpn, level_eq,
  pages_of, prot_eq, set_leaf, static_protections,
}
use userspace_bypass.Pages.Cpa.{Cpa, Mem, Platform, no_pgd, tables_of}
use userspace_bypass.Pages.Split.{
  Checked, must_split, keep_page, fit, align, req_prot, try_large_page, check_large_page,
  should_split_again, should_split_large_page,
}
use userspace_bypass.Pages.Split.Large.{
  IsLarge, tables_of-no_pgd, put_tables-no_pgd, lookup_cpa-walk,
}
use userspace_bypass.Pages.Spec.Prots.{prot_eq→≡}
use userspace_bypass.Pages.Spec.{IsChange, IsFor, asked}
use userspace_bypass.Pages.Split.Fit.{
  fit-IsFit, start_of_entry, kept-IsChange, changed-IsChange, req_prot-IsMilder,
}

-- What should_split_large_page promises: to split, with nothing changed, or that as many pages as
-- cpa->numpages then says are as asked for.
abbrev pub IsChecked : Layout → Cpa → ℕ → Mem → Checked → Type 0
IsChecked lay c v m s =
    IsFor c s.cpa
    × (1 ≤ s.cpa.numpages)
    × (s.cpa.numpages ≤ c.numpages)
    × (((s.decision ≡ must_split) × (s.mem ≡ m))
        ⊎ ((s.decision ≡ keep_page)
            × IsChange lay (asked c) v s.cpa.numpages m.tables s.mem.tables))

IsFor-flags :
    (c d : Cpa) (a b : Bool)
    → IsFor c d
    → IsFor c (record d { force_static_prot = a; flush_tlb = b })
IsFor-flags c d a b h = record {
  vaddr = h.vaddr;
  pgd = h.pgd;
  mask_set = h.mask_set;
  mask_clr = h.mask_clr;
  curpage = h.curpage;
  array = h.array;
  pages_array = h.pages_array;
  pages = h.pages;
}

try_large_page-IsChecked :
    (p : Platform) (l : Leaf) (level : Level) (a : ℕ) (c : Cpa) (m : Mem)
    → IsLarge level
    → a < 2 ^ 64
    → a % 4096 ≡ 0
    → 1 ≤ c.numpages
    → c.pgd ≡ no_pgd
    → walk m.tables (vpn a) ≡ (some l, level)
    → IsChecked p.layout c (vpn a) m (try_large_page p l level a c m)
unfolding try_large_page
try_large_page-IsChecked p l level a c m i low line n g h =
    let d = fit level a l.pfn c in
    let (same_request, some_pages, no_more, fits) = fit-IsFit level a l.pfn c i low line n in
    let psize = pages_of level * 4096 in
    let chk =
      static_protections p.layout m.tables l.prot (align level a) l.pfn (pages_of level) psize in
    let req = req_prot d l.prot in
    let new =
      static_protections p.layout m.tables req (align level a) l.pfn (pages_of level) psize in
    let from = tables_of c.pgd m in
    let k : Leaf = record { pfn = l.pfn; prot = new } in
    let where_from = tables_of-no_pgd c.pgd m g in
    let where_put = put_tables-no_pgd c.pgd (set_leaf level (vpn a) k from) m g in
    let changed : prot_eq req new ≡ true
        → (d.numpages == pages_of level) ≡ true
        → (a == align level a) ≡ true
        → IsChange p.layout (asked d) (vpn a) d.numpages m.tables
            (set_leaf level (vpn a) k m.tables) =
      λ y z q.
        changed-IsChange p.layout level (asked d) l k m.tables (vpn a) d.numpages i h
          ((==_iff _ _).0 z) (start_of_entry level a i ((==_iff _ _).0 q)) refl
          (λ w. rw⁻¹ (prot_eq→≡ req new y) (req_prot-IsMilder d l.prot)) in
    elim (Bool-cases (prot_eq chk l.prot)) [
      | inr e ↦
          rw e
            (IsFor-flags c d true d.flush_tlb same_request, some_pages, no_more, inl (refl, refl))
      | inl e ↦ elim (Bool-cases (prot_eq req l.prot)) [
        | inl r ↦
            rw (e, r)
              (
                same_request,
                some_pages,
                no_more,
                inr (
                  refl,
                  kept-IsChange p.layout level d l m.tables (vpn a) d.numpages i h fits
                      (prot_eq→≡ req l.prot r),
                ),
              )
        | inr r ↦ elim (Bool-cases (a == align level a)) [
          | inr q ↦ rw (e, r, q) (same_request, some_pages, no_more, inl (refl, refl))
          | inl q ↦ elim (Bool-cases (d.numpages == pages_of level)) [
            | inr z ↦ rw (e, r, q, z) (same_request, some_pages, no_more, inl (refl, refl))
            | inl z ↦ elim (Bool-cases (prot_eq req new)) [
              | inr y ↦ rw (e, r, q, z, y) (same_request, some_pages, no_more, inl (refl, refl))
              | inl y ↦
                  rw (e, r, q, z, y)
                    (
                      IsFor-flags c d d.force_static_prot true same_request,
                      some_pages,
                      no_more,
                      inr (refl, rw (where_put, where_from) (changed y z q)),
                    )
            ]
          ]
        ]
      ]
    ]

level_eq_refl : (level : Level) → level_eq level level ≡ true
unfolding level_eq
level_eq_refl level = ground arith

check_large_page-try :
    (p : Platform) (l : Leaf) (level : Level) (a : ℕ) (c : Cpa) (m : Mem)
    → IsLarge level
    → check_large_page p (some l, level) a c m ≡ try_large_page p l level a c m
unfolding IsLarge check_large_page
check_large_page-try p l level_2m a c m i = refl
check_large_page-try p l level_1g a c m i = refl
check_large_page-try p l level_none a c m i = absurd i
check_large_page-try p l level_4k a c m i = absurd i
check_large_page-try p l level_512g a c m i = absurd i

pub IsFor-refl : (c : Cpa) → IsFor c c
IsFor-refl c = record {
  vaddr = refl;
  pgd = refl;
  mask_set = refl;
  mask_clr = refl;
  curpage = refl;
  array = refl;
  pages_array = refl;
  pages = refl;
}

forced-IsChecked :
    (lay : Layout)
    → (b : Bool) (c : Cpa) (v : ℕ) (m : Mem) (s : Checked) → 1 ≤ c.numpages
    → IsChecked lay c v m s
    → IsChecked lay c v m (if b then record { decision = must_split; cpa = c; mem = m } else s)
forced-IsChecked lay true c v m s n h = (IsFor-refl c, n, omega arith, inl (refl, refl))
forced-IsChecked lay false c v m s n h = h

-- For the entry of a large page, as it was looked up.
pub should_split_large_page-IsChecked :
    (p : Platform) (l : Leaf) (level : Level) (a : ℕ) (c : Cpa) (m : Mem)
    → IsLarge level
    → a < 2 ^ 64
    → a % 4096 ≡ 0
    → 1 ≤ c.numpages
    → c.pgd ≡ no_pgd
    → walk m.tables (vpn a) ≡ (some l, level)
    → IsChecked p.layout c (vpn a) m (should_split_large_page p level a c m)
unfolding should_split_large_page should_split_again
should_split_large_page-IsChecked p l level a c m i low line n g h =
    forced-IsChecked p.layout c.force_split c (vpn a) m (should_split_again p level a c m) n (
      rw (lookup_cpa-walk c m a g, h, level_eq_refl level, check_large_page-try p l level a c m i)
        (try_large_page-IsChecked p l level a c m i low line n g h))
