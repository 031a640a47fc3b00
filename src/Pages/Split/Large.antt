-- ===== src/Pages/Split/Large.antt =====
-- split_large_page: what other processors and the split itself do to the pages.
use userspace_bypass.Prelude.{
  ℕ, ◌≡◌, ◌≤◌, ◌<◌, refl, ◌∙◌, ◌⊎◌, inl, inr, true, false, Option, none, some, arith, Bool-cases,
}
use userspace_bypass.Pages.{
  Level, level_none, level_4k, level_2m, level_1g, level_512g, Leaf, Tables, walk, vpn, level_eq,
  lookup_address_in_pgd,
}
use userspace_bypass.Pages.Cpa.{
  Cpa, Mem, Platform, success, enomem, Pgd, no_pgd, tables_of, put_tables, lookup_address_cpa,
}
use userspace_bypass.Pages.Split.{
  split_2m, split_1g, split_entry, split_again, split_large_page, give_back, install, alloc_pages,
}
use userspace_bypass.Pages.Split.Keeps.{
  split_2m-IsStep, split_1g-IsStep, split_2m-rank, split_1g-rank,
}
use userspace_bypass.Pages.Spec.{same, IsStep, IsQuiet, rank}
use userspace_bypass.Pages.Spec.Follows.{IsStep-refl, IsStep-after}

install-tables :
    (p : Platform) (level : Level) (address : ℕ) (c : Cpa) (t : Tables) (m : Mem)
    → c.pgd ≡ no_pgd
    → (install p level address c t m).tables ≡ t
unfolding install put_tables
install-tables p level address c t m g = rw g

pub put_tables-no_pgd :
    (g : Pgd) (t : Tables) (m : Mem) → g ≡ no_pgd → (put_tables g t m).tables ≡ t
unfolding put_tables
put_tables-no_pgd g t m h = rw h

pub tables_of-no_pgd : (g : Pgd) (m : Mem) → g ≡ no_pgd → tables_of g m ≡ m.tables
unfolding tables_of
tables_of-no_pgd g m h = rw h

-- The levels that are split.
unfoldable pub IsLarge : Level → Type 0
IsLarge level_2m = Unit
IsLarge level_1g = Unit
IsLarge _ = ⊥

split_entry_lem :
    (p : Platform) (r : Option Leaf × Level) (address : ℕ) (c : Cpa) (m : Mem)
    → c.pgd ≡ no_pgd
    → walk m.tables (vpn address) ≡ r
    → ((w : ℕ) → IsStep p.layout same w m.tables (split_entry p r address c m).tables)
      × (IsLarge r.1
          → (rank (walk (split_entry p r address c m).tables (vpn address)) ≡ 0)
            ⊎ (rank (walk (split_entry p r address c m).tables (vpn address)) < rank r))
unfolding split_entry give_back IsLarge rank
split_entry_lem p (some l, level_2m) address c m g h =
    let u = split_2m p m.tables c l address (tables_of c.pgd m) in
    let e : (install p level_2m address c u m).tables ≡ split_2m p m.tables c l address m.tables =
      install-tables p level_2m address c u m g ∙ rw (tables_of-no_pgd c.pgd m g) in
    let low = split_2m-rank p m.tables c l address m.tables h in
    rw e (split_2m-IsStep p m.tables c l address m.tables h, λ i. inl low)
split_entry_lem p (some l, level_1g) address c m g h =
    let u = split_1g p m.tables c l address (tables_of c.pgd m) in
    let e : (install p level_1g address c u m).tables ≡ split_1g p m.tables c l address m.tables =
      install-tables p level_1g address c u m g ∙ rw (tables_of-no_pgd c.pgd m g) in
    let low = split_1g-rank p m.tables c l address m.tables h in
    rw e (split_1g-IsStep p m.tables c l address m.tables h, λ i. inr (omega (arith, low)))
split_entry_lem p (some l, level_none) address c m g h =
    (λ w. IsStep-refl p.layout w m.tables, λ i. absurd i)
split_entry_lem p (some l, level_4k) address c m g h =
    (λ w. IsStep-refl p.layout w m.tables, λ i. absurd i)
split_entry_lem p (some l, level_512g) address c m g h =
    (λ w. IsStep-refl p.layout w m.tables, λ i. absurd i)
split_entry_lem p (none, level) address c m g h =
    (λ w. IsStep-refl p.layout w m.tables, λ i. inl (rw h))

-- A walk that ends at another level, no higher than a large page's, ends lower.
rank_differs :
    (r : Option Leaf × Level) (kpte : Level) (l : Leaf)
    → IsLarge kpte
    → level_eq r.1 kpte ≡ false
    → rank r ≤ rank (some l, kpte)
    → rank r < rank (some l, kpte)
unfolding IsLarge level_eq rank
rank_differs r level_none l i e h = absurd i
rank_differs r level_4k l i e h = absurd i
rank_differs r level_512g l i e h = absurd i
rank_differs (none, a) level_2m l i e h = omega arith
rank_differs (none, a) level_1g l i e h = omega arith
rank_differs (some k, level_none) level_2m l i e h = omega arith
rank_differs (some k, level_4k) level_2m l i e h = omega arith
rank_differs (some k, level_2m) level_2m l i e h = absurd (ground arith)
rank_differs (some k, level_1g) level_2m l i e h = absurd (omega arith)
rank_differs (some k, level_512g) level_2m l i e h = absurd (omega arith)
rank_differs (some k, level_none) level_1g l i e h = omega arith
rank_differs (some k, level_4k) level_1g l i e h = omega arith
rank_differs (some k, level_2m) level_1g l i e h = omega arith
rank_differs (some k, level_1g) level_1g l i e h = absurd (ground arith)
rank_differs (some k, level_512g) level_1g l i e h = absurd (omega arith)

level_eq→≡ : (a b : Level) → level_eq a b ≡ true → a ≡ b
unfolding level_eq
level_eq→≡ a b h = ground arith

pub lookup_cpa-walk :
    (c : Cpa) (m : Mem) (address : ℕ)
    → c.pgd ≡ no_pgd
    → lookup_address_cpa c m address ≡ walk m.tables (vpn address)
unfolding lookup_address_cpa lookup_address_in_pgd
lookup_cpa-walk c m address g = rw (tables_of-no_pgd c.pgd m g)

rank-IsLarge : (kpte : Level) (l : Leaf) → IsLarge kpte → 1 ≤ rank (some l, kpte)
unfolding IsLarge rank
rank-IsLarge level_2m l i = omega arith
rank-IsLarge level_1g l i = omega arith
rank-IsLarge level_none l i = absurd i
rank-IsLarge level_4k l i = absurd i
rank-IsLarge level_512g l i = absurd i

split_again_lem :
    (p : Platform) (kpte : Level) (address : ℕ) (c : Cpa) (m : Mem) (l : Leaf)
    → c.pgd ≡ no_pgd
    → IsLarge kpte
    → rank (walk m.tables (vpn address)) ≤ rank (some l, kpte)
    → ((w : ℕ) → IsStep p.layout same w m.tables (split_again p kpte address c m).tables)
      × (rank (walk (split_again p kpte address c m).tables (vpn address)) < rank (some l, kpte))
unfolding split_again give_back
split_again_lem p kpte address c m l g i h =
    let r = walk m.tables (vpn address) in
    let done = split_entry_lem p r address c m g refl in
    let lower : IsLarge r.1
        → rank (walk (split_entry p r address c m).tables (vpn address)) < rank (some l, kpte) =
      λ q. elim (done.1 q) [
        | inl z ↦ omega (arith, z, rank-IsLarge kpte l i)
        | inr z ↦ omega (arith, z, h)
      ] in
    rw (lookup_cpa-walk c m address g) (elim (Bool-cases (level_eq r.1 kpte)) [
      | inl e ↦ rw e (done.0, lower (rw (level_eq→≡ r.1 kpte e) i))
      | inr e ↦ rw e (λ w. IsStep-refl p.layout w m.tables, rank_differs r kpte l i e h)
    ])

-- Where other processors only split entries and take write access away, or NX from the kernel's text,
-- split_large_page for a page of 2M or 1G of init_mm leaves every page at the frame it maps to, with
-- its protection but for write access, which may be taken away, NX, which may be cleared in the
-- kernel's text only, and the global bit, below an entry no larger than before; and unless there is no
-- memory for the table, the walk to the address ends a level lower than it did.
pub split_large_page_lem :
    (p : Platform)
    → IsQuiet p
    → (kpte : Level) (address : ℕ) (c : Cpa) (m : Mem) (l : Leaf) → c.pgd ≡ no_pgd
    → IsLarge kpte
    → walk m.tables (vpn address) ≡ (some l, kpte)
    → let r = split_large_page p kpte address c m in
      ((w : ℕ) → IsStep p.layout same w m.tables r.1.tables)
      × ((r.0 ≡ enomem)
          ⊎ ((r.0 ≡ success)
              × (rank (walk r.1.tables (vpn address)) < rank (walk m.tables (vpn address)))))
unfolding split_large_page alloc_pages IsStep
split_large_page_lem p quiet kpte address c m l g i h =
    let n = alloc_pages p m in
    let near = quiet.meanwhile m.asked m.tables in
    let bound : rank (walk n.tables (vpn address)) ≤ rank (some l, kpte) =
      rw h at (near (vpn address)).1 in
    let split = split_again_lem p kpte address c n l g i bound in
    let joined : (w : ℕ) → IsStep p.layout same w m.tables (split_again p kpte address c n).tables =
      λ w.
        IsStep-after p.layout same w m.tables n.tables (split_again p kpte address c n).tables
          (near w) (split.0 w) in
    elim (Bool-cases (p.alloc m.asked)) [
      | inl e ↦ rw (e, h) (joined, inr (refl, split.1))
      | inr e ↦ rw e (near, inl refl)
    ]
