-- ===== src/Pages/Spec/Walks.antt =====
-- What a walk tells of the entries on its way.
use userspace_bypass.Prelude.{ℕ, ◌/◌, ◌^◌, ◌≡◌, arith, Option, some}
use userspace_bypass.Pages.{
  level_none, level_4k, level_2m, level_1g, Leaf, Entry, e_none, e_leaf, e_table, Tables, walk,
  lookup_p4d, lookup_pud, lookup_pmd, lookup_pte,
}

lookup_p4d-2m :
    (e u d : Entry) (o : Option Leaf) (l : Leaf)
    → lookup_p4d e u d o ≡ (some l, level_2m)
    → (e ≡ e_table) × (u ≡ e_table) × (d ≡ e_leaf l)
unfolding lookup_p4d lookup_pud lookup_pmd lookup_pte
lookup_p4d-2m e_table e_table (e_leaf k) o l h = ground arith
lookup_p4d-2m e_table e_table e_none o l h = absurd (ground arith)
lookup_p4d-2m e_table e_table e_table o l h = absurd (ground arith)
lookup_p4d-2m e_table e_none d o l h = absurd (ground arith)
lookup_p4d-2m e_table (e_leaf k) d o l h = absurd (ground arith)
lookup_p4d-2m e_none u d o l h = absurd (ground arith)
lookup_p4d-2m (e_leaf k) u d o l h = absurd (ground arith)

lookup_p4d-1g :
    (e u d : Entry) (o : Option Leaf) (l : Leaf)
    → lookup_p4d e u d o ≡ (some l, level_1g)
    → (e ≡ e_table) × (u ≡ e_leaf l)
unfolding lookup_p4d lookup_pud lookup_pmd lookup_pte
lookup_p4d-1g e_table (e_leaf k) d o l h = ground arith
lookup_p4d-1g e_table e_none d o l h = absurd (ground arith)
lookup_p4d-1g e_table e_table e_none o l h = absurd (ground arith)
lookup_p4d-1g e_table e_table (e_leaf k) o l h = absurd (ground arith)
lookup_p4d-1g e_table e_table e_table o l h = absurd (ground arith)
lookup_p4d-1g e_none u d o l h = absurd (ground arith)
lookup_p4d-1g (e_leaf k) u d o l h = absurd (ground arith)

lookup_p4d-4k :
    (e u d : Entry) (o : Option Leaf) (l : Leaf)
    → lookup_p4d e u d o ≡ (some l, level_4k)
    → (e ≡ e_table) × (u ≡ e_table) × (d ≡ e_table) × (o ≡ some l)
unfolding lookup_p4d lookup_pud lookup_pmd lookup_pte
lookup_p4d-4k e_table e_table e_table o l h = ground arith
lookup_p4d-4k e_table e_table e_none o l h = absurd (ground arith)
lookup_p4d-4k e_table e_table (e_leaf k) o l h = absurd (ground arith)
lookup_p4d-4k e_table e_none d o l h = absurd (ground arith)
lookup_p4d-4k e_table (e_leaf k) d o l h = absurd (ground arith)
lookup_p4d-4k e_none u d o l h = absurd (ground arith)
lookup_p4d-4k (e_leaf k) u d o l h = absurd (ground arith)

pub walk-2m :
    (t : Tables) (v : ℕ) (l : Leaf)
    → walk t v ≡ (some l, level_2m)
    → (t.p4d (v / 2 ^ 27) ≡ e_table)
      × (t.pud (v / 2 ^ 18) ≡ e_table)
      × (t.pmd (v / 2 ^ 9) ≡ e_leaf l)
unfolding walk
walk-2m t v l h =
    lookup_p4d-2m (t.p4d (v / 2 ^ 27)) (t.pud (v / 2 ^ 18)) (t.pmd (v / 2 ^ 9)) (t.pte v) l h

pub walk-1g :
    (t : Tables) (v : ℕ) (l : Leaf)
    → walk t v ≡ (some l, level_1g)
    → (t.p4d (v / 2 ^ 27) ≡ e_table) × (t.pud (v / 2 ^ 18) ≡ e_leaf l)
unfolding walk
walk-1g t v l h =
    lookup_p4d-1g (t.p4d (v / 2 ^ 27)) (t.pud (v / 2 ^ 18)) (t.pmd (v / 2 ^ 9)) (t.pte v) l h

pub walk-4k :
    (t : Tables) (v : ℕ) (l : Leaf)
    → walk t v ≡ (some l, level_4k)
    → (t.p4d (v / 2 ^ 27) ≡ e_table)
      × (t.pud (v / 2 ^ 18) ≡ e_table)
      × (t.pmd (v / 2 ^ 9) ≡ e_table)
      × (t.pte v ≡ some l)
unfolding walk
walk-4k t v l h =
    lookup_p4d-4k (t.p4d (v / 2 ^ 27)) (t.pud (v / 2 ^ 18)) (t.pmd (v / 2 ^ 9)) (t.pte v) l h

pub walk_to_4k :
    (t : Tables) (v : ℕ) (o : Option Leaf)
    → t.p4d (v / 2 ^ 27) ≡ e_table
    → t.pud (v / 2 ^ 18) ≡ e_table
    → t.pmd (v / 2 ^ 9) ≡ e_table
    → t.pte v ≡ o
    → walk t v ≡ (o, level_4k)
unfolding walk lookup_p4d lookup_pud lookup_pmd lookup_pte
walk_to_4k t v o a b c d = rw (a, b, c, d)

pub walk_to_2m :
    (t : Tables) (v : ℕ) (l : Leaf)
    → t.p4d (v / 2 ^ 27) ≡ e_table
    → t.pud (v / 2 ^ 18) ≡ e_table
    → t.pmd (v / 2 ^ 9) ≡ e_leaf l
    → walk t v ≡ (some l, level_2m)
unfolding walk lookup_p4d lookup_pud lookup_pmd
walk_to_2m t v l a b c = rw (a, b, c)

pub walk_to_1g :
    (t : Tables) (v : ℕ) (l : Leaf)
    → t.p4d (v / 2 ^ 27) ≡ e_table
    → t.pud (v / 2 ^ 18) ≡ e_leaf l
    → walk t v ≡ (some l, level_1g)
unfolding walk lookup_p4d lookup_pud
walk_to_1g t v l a b = rw (a, b)

-- Two tables with the same entries for a page.
pub walk-ext :
    (t u : Tables) (v : ℕ)
    → t.p4d (v / 2 ^ 27) ≡ u.p4d (v / 2 ^ 27)
    → t.pud (v / 2 ^ 18) ≡ u.pud (v / 2 ^ 18)
    → t.pmd (v / 2 ^ 9) ≡ u.pmd (v / 2 ^ 9)
    → t.pte v ≡ u.pte v
    → walk t v ≡ walk u v
unfolding walk
walk-ext t u v a b c d = rw (a, b, c, d)

lookup_p4d-level_none :
    (e u d : Entry) (o : Option Leaf) (l : Leaf) → lookup_p4d e u d o ≡ (some l, level_none) → ⊥
unfolding lookup_p4d lookup_pud lookup_pmd lookup_pte
lookup_p4d-level_none e_none u d o l h = ground arith
lookup_p4d-level_none (e_leaf k) u d o l h = ground arith
lookup_p4d-level_none e_table e_none d o l h = ground arith
lookup_p4d-level_none e_table (e_leaf k) d o l h = ground arith
lookup_p4d-level_none e_table e_table e_none o l h = ground arith
lookup_p4d-level_none e_table e_table (e_leaf k) o l h = ground arith
lookup_p4d-level_none e_table e_table e_table o l h = ground arith

-- A walk that ends at an entry names its level.
pub walk-level_none : (t : Tables) (v : ℕ) (l : Leaf) → walk t v ≡ (some l, level_none) → ⊥
unfolding walk
walk-level_none t v l h =
    lookup_p4d-level_none (t.p4d (v / 2 ^ 27)) (t.pud (v / 2 ^ 18)) (t.pmd (v / 2 ^ 9)) (t.pte v) l
      h
