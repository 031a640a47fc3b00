-- ===== src/Pages/Spec.antt =====
-- What a page is mapped to, whatever the size of the entry that maps it, and how it may change.
pub mod Prots
pub mod Follows
pub mod Walks
pub mod Leaves
use userspace_bypass.Prelude.{
  ℕ, ◌+◌, ◌%◌, ◌≤◌, ◌<◌, ◌≡◌, ◌⊎◌, sub64, true, false, Bool, Option, none, some,
}
use userspace_bypass.Pages.{
  Layout, overlaps, end_of, vpn, Prot, Level, level_4k, level_2m, level_1g, level_512g, Leaf,
  Tables, walk, pages_of, without_pse, masked,
}
use userspace_bypass.Pages.Cpa.{Cpa, Platform}

-- The frame and the protection of a page, from the entry of its walk.
unfoldable pub page_of : ℕ → Option Leaf × Level → Option Leaf
unfolding pages_of without_pse
page_of v (none, level) = none
page_of v (some l, level) =
    some (record { pfn = l.pfn + v % pages_of level; prot = without_pse l.prot })

unfoldable pub page_at : Tables → ℕ → Option Leaf
unfolding page_of walk
page_at t v = page_of v (walk t v)

-- How many splits a walk is away from its end.
unfoldable pub rank : Option Leaf × Level → ℕ
rank (none, level) = 0
rank (some l, level_2m) = 1
rank (some l, level_1g) = 2
rank (some l, level_512g) = 3
rank (some l, level) = 0

-- A bit that may have been taken away.
abbrev pub IsTaken : Bool → Bool → Type 0
IsTaken a b = (a ≡ false) ⊎ (b ≡ true)

-- A page of the kernel's text, by one of its addresses; it has to stay executable.
pub record InText (lay : Layout) (w : ℕ) : Type 0 where
  pub address : ℕ
  pub page : vpn address ≡ w
  pub text : overlaps address (end_of address 1) lay.text (sub64 lay.etext 1) ≡ true

-- p is q for the page w, but for write access, which may be gone, for `global`, and for NX, which may be
-- gone in the kernel's text only.
pub record IsMilder (lay : Layout) (w : ℕ) (p q : Prot) : Type 0 where
  pub present : p.present ≡ q.present
  pub rw : IsTaken p.rw q.rw
  pub pwt : p.pwt ≡ q.pwt
  pub pcd : p.pcd ≡ q.pcd
  pub pat : p.pat ≡ q.pat
  pub enc : p.enc ≡ q.enc
  pub nx : (p.nx ≡ q.nx) ⊎ (p.nx ≡ false) × InText lay w
  pub other : p.other ≡ q.other

-- A page that maps to the frame it did, with the protection that f makes of it or a milder one.
unfoldable pub Follows : Layout → ℕ → (Prot → Prot) → Option Leaf → Option Leaf → Type 0
Follows lay w f none none = Unit
Follows lay w f (some l) (some k) = (k.pfn ≡ l.pfn) × IsMilder lay w k.prot (f l.prot)
Follows lay w f _ _ = ⊥

abbrev pub same : Prot → Prot
same p = p

-- Tables that map a page like others, by no larger an entry.
unfoldable pub IsStep : Layout → (Prot → Prot) → ℕ → Tables → Tables → Type 0
unfolding Follows page_at rank walk
IsStep lay f w t u =
    Follows lay w f (page_at t w) (page_at u w) × (rank (walk u w) ≤ rank (walk t w))

-- The other processors only split entries and take write access away.
pub record IsQuiet (p : Platform) : Type 0 where
  pub meanwhile : (n : ℕ) (t : Tables) (w : ℕ) → IsStep p.layout same w t (p.meanwhile n t)
  pub between : (r : ℕ) (t : Tables) (w : ℕ) → IsStep p.layout same w t (p.between r t)

-- f is put on the n pages from v on, and no other page changes.
abbrev pub IsChange : Layout → (Prot → Prot) → ℕ → ℕ → Tables → Tables → Type 0
IsChange lay f v n t u =
    (w : ℕ)
    → ((v ≤ w) → (w < v + n) → IsStep lay f w t u)
      × (((w < v) ⊎ (v + n ≤ w)) → IsStep lay same w t u)

-- The struct cpa_data of the same request.
pub record IsFor (c d : Cpa) : Type 0 where
  pub vaddr : d.vaddr ≡ c.vaddr
  pub pgd : d.pgd ≡ c.pgd
  pub mask_set : d.mask_set ≡ c.mask_set
  pub mask_clr : d.mask_clr ≡ c.mask_clr
  pub curpage : d.curpage ≡ c.curpage
  pub array : d.array ≡ c.array
  pub pages_array : d.pages_array ≡ c.pages_array
  pub pages : d.pages ≡ c.pages

-- The masks of a request, on a protection.
abbrev pub asked : Cpa → Prot → Prot
asked c = masked c.mask_clr c.mask_set
