-- ===== src/Pages/Spec/Follows.antt =====
-- Composition of changes.
use userspace_bypass.Prelude.{
  ℕ, ◌+◌, ◌%◌, ◌≤◌, ◌≡◌, refl, ◌∙◌, inl, inr, Option, none, some, arith, ltb, Bool-cases,
}
use userspace_bypass.Pages.{Layout, Prot, Level, Leaf, Tables, walk, pages_of, without_pse}
use userspace_bypass.Pages.Spec.{IsMilder, Follows, same, IsStep, IsChange, page_at, page_of, rank}
use userspace_bypass.Pages.Spec.Prots.{IsMilder-refl, IsMilder-trans, without_pse-IsMilder}

-- A function on protections that keeps the order.
abbrev pub IsMonotone : Layout → (Prot → Prot) → Type 0
IsMonotone lay f = (w : ℕ) (p q : Prot) → IsMilder lay w p q → IsMilder lay w (f p) (f q)

pub Follows-refl : (lay : Layout) (w : ℕ) → (o : Option Leaf) → Follows lay w same o o
unfolding Follows
Follows-refl lay w none = tt
Follows-refl lay w (some l) = (refl, IsMilder-refl l.prot)

Follows-after :
    (lay : Layout) (w : ℕ)
    → (f : Prot → Prot) (a b c : Option Leaf) → Follows lay w f a b
    → Follows lay w same b c
    → Follows lay w f a c
unfolding Follows
Follows-after lay w f none none none h l = tt
Follows-after lay w f (some x) (some y) (some z) h l =
    (l.0 ∙ h.0, IsMilder-trans z.prot y.prot (f x.prot) l.1 h.1)
Follows-after lay w f none none (some z) h l = absurd l
Follows-after lay w f none (some y) c h l = absurd h
Follows-after lay w f (some x) none c h l = absurd h
Follows-after lay w f (some x) (some y) none h l = absurd l

Follows-before :
    (lay : Layout) (w : ℕ)
    → (f : Prot → Prot) → IsMonotone lay f
    → (a b c : Option Leaf) → Follows lay w same a b
    → Follows lay w f b c
    → Follows lay w f a c
unfolding Follows
Follows-before lay w f mono none none none h l = tt
Follows-before lay w f mono (some x) (some y) (some z) h l =
    (l.0 ∙ h.0, IsMilder-trans z.prot (f y.prot) (f x.prot) l.1 (mono _ y.prot x.prot h.1))
Follows-before lay w f mono none none (some z) h l = absurd l
Follows-before lay w f mono none (some y) c h l = absurd h
Follows-before lay w f mono (some x) none c h l = absurd h
Follows-before lay w f mono (some x) (some y) none h l = absurd l

pub IsStep-refl : (lay : Layout) → (w : ℕ) (t : Tables) → IsStep lay same w t t
unfolding IsStep
IsStep-refl lay w t = (Follows-refl lay w (page_at t w), omega arith)

pub IsStep-after :
    (lay : Layout)
    → (f : Prot → Prot) (w : ℕ) (t u x : Tables) → IsStep lay f w t u
    → IsStep lay same w u x
    → IsStep lay f w t x
unfolding IsStep
IsStep-after lay f w t u x h l = (
  Follows-after lay w f (page_at t w) (page_at u w) (page_at x w) h.0 l.0,
  omega (arith, h.1, l.1),
)

pub IsStep-before :
    (lay : Layout)
    → (f : Prot → Prot) → IsMonotone lay f
    → (w : ℕ) (t u x : Tables) → IsStep lay same w t u
    → IsStep lay f w u x
    → IsStep lay f w t x
unfolding IsStep
IsStep-before lay f mono w t u x h l = (
  Follows-before lay w f mono (page_at t w) (page_at u w) (page_at x w) h.0 l.0,
  omega (arith, h.1, l.1),
)

-- A step from one entry to another.
pub IsStep-to :
    (lay : Layout)
    → (f : Prot → Prot) (w : ℕ) (t u : Tables) (l k : Leaf) (a b : Level) → walk t w ≡ (some l, a)
    → walk u w ≡ (some k, b)
    → k.pfn + w % pages_of b ≡ l.pfn + w % pages_of a
    → IsMilder lay w k.prot (f (without_pse l.prot))
    → rank (some k, b) ≤ rank (some l, a)
    → IsStep lay f w t u
unfolding IsStep page_at Follows page_of
IsStep-to lay f w t u l k a b h g e m r =
    rw (h, g) ((e, without_pse-IsMilder k.prot (f (without_pse l.prot)) m), r)

-- The same entry.
pub IsStep-stay :
    (lay : Layout) → (w : ℕ) (t u : Tables) → walk u w ≡ walk t w → IsStep lay same w t u
unfolding IsStep page_at
IsStep-stay lay w t u h = rw h (Follows-refl lay w (page_of w (walk t w)), omega arith)

-- What only splits may come before.
pub IsChange-before :
    (lay : Layout)
    → (f : Prot → Prot) → IsMonotone lay f
    → (v n : ℕ) (t u x : Tables) → ((w : ℕ) → IsStep lay same w t u)
    → IsChange lay f v n u x
    → IsChange lay f v n t x
IsChange-before lay f mono v n t u x h l = λ w. (
  λ a b. IsStep-before lay f mono w t u x (h w) ((l w).0 a b),
  λ a. IsStep-after lay same w t u x (h w) ((l w).1 a),
)

-- No page at all.
pub IsChange-none : (lay : Layout) → (f : Prot → Prot) (v : ℕ) (t : Tables) → IsChange lay f v 0 t t
IsChange-none lay f v t = λ w. (λ a b. absurd (omega arith), λ a. IsStep-refl lay w t)

-- Two stretches, one behind the other.
pub IsChange-append :
    (lay : Layout)
    → (f : Prot → Prot) → IsMonotone lay f
    → (v n k : ℕ) (t u x : Tables) → IsChange lay f v n t u
    → IsChange lay f (v + n) k u x
    → IsChange lay f v (n + k) t x
IsChange-append lay f mono v n k t u x h l = λ w. (
  λ a b. elim (Bool-cases (ltb w (v + n))) [
    | inl c ↦ IsStep-after lay f w t u x ((h w).0 a (ground arith)) ((l w).1 (inl (ground arith)))
    | inr c ↦
        IsStep-before lay f mono w t u x ((h w).1 (inr (ground arith)))
          ((l w).0 (ground arith) (omega arith))
  ],
  λ a. IsStep-after lay same w t u x ((h w).1 (ground arith)) ((l w).1 (ground arith)),
)
