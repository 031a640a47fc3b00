-- ===== src/Pages/Split/Keeps.antt =====
-- A split keeps what every page maps to.
use userspace_bypass.Prelude.{
  ℕ, ◌+◌, ◌*◌, ◌/◌, ◌%◌, ◌^◌, ◌≡◌, refl, inl, inr, true, false, Bool, Option, none, some, arith,
  u64, ◌==◌, if◌then◌else◌, Bool-cases, ==_iff, not, ◌&&◌,
}
use userspace_bypass.Pages.{
  Layout, Prot, level_4k, level_2m, level_1g, Leaf, Tables, walk, vpn, pages_of, without_pse,
  pgprot_clear_protnone_bits, level_eq, prot_eq,
}
use userspace_bypass.Pages.Cpa.{Cpa, Platform}
use userspace_bypass.Pages.Split.{split_set_pte, split_2m, split_1g, align}
use userspace_bypass.Pages.Spec.{IsMilder, same, IsStep, rank}
use userspace_bypass.Pages.Spec.Prots.{
  IsTaken-refl, IsMilder-refl, IsMilder-trans, static_protections-IsMilder, clear_protnone-IsMilder,
}
use userspace_bypass.Pages.Spec.Follows.{IsStep-to, IsStep-stay}
use userspace_bypass.Pages.Spec.Walks.{
  walk-2m, walk-1g, walk_to_4k, walk_to_2m, walk_to_1g, walk-ext,
}

-- The entries that a split writes are no stronger than asked for.
with_pse-IsMilder :
    {lay : Layout} {w : ℕ}
    → (p : Prot) (b : Bool) → IsMilder lay w (record p { pse = b }) (without_pse p)
unfolding without_pse
with_pse-IsMilder p b = record {
  present = refl;
  rw = IsTaken-refl p.rw;
  pwt = refl;
  pcd = refl;
  pat = refl;
  enc = refl;
  nx = inl refl;
  other = refl;
}

split_set_pte-2m :
    (p : Platform) (t : Tables) (c : Cpa) (pfn : ℕ) (ref : Prot) (address : ℕ)
    → (split_set_pte p t c pfn ref address level_2m).prot ≡ ref
unfolding split_set_pte level_eq
split_set_pte-2m p t c pfn ref address = ground arith

split_set_pte-IsMilder :
    (p : Platform) (t : Tables) (c : Cpa) (pfn : ℕ) (ref : Prot) (address w : ℕ)
    → vpn address ≡ w
    → IsMilder p.layout w (split_set_pte p t c pfn ref address level_4k).prot ref
unfolding split_set_pte pages_of
split_set_pte-IsMilder p t c pfn ref address w e =
    pick (c.force_static_prot && (not (prot_eq _ ref) && level_eq level_4k level_4k)) _
      (static_protections-IsMilder p.layout t ref address pfn 0 w e)
  where
    pick :
        (b : Bool) (q : Prot)
        → IsMilder p.layout w q ref
        → IsMilder p.layout w (if b then q else ref) ref
    pick true q h = h
    pick false q h = IsMilder-refl ref

split_2m-inside :
    (p : Platform) (init : Tables) (c : Cpa) (l : Leaf) (address : ℕ) (t : Tables)
    → walk t (vpn address) ≡ (some l, level_2m)
    → (w : ℕ) → w / 2 ^ 9 ≡ vpn address / 2 ^ 9
    → IsStep p.layout same w t (split_2m p init c l address t)
unfolding split_2m rank pages_of
split_2m-inside p init c l address t h w e =
    let on = walk-2m t (vpn address) l h in
    let e1 : w / 2 ^ 18 ≡ vpn address / 2 ^ 18 = omega arith in
    let e2 : w / 2 ^ 27 ≡ vpn address / 2 ^ 27 = omega arith in
    let r1 : (w / 2 ^ 9 == vpn address / 2 ^ 9) ≡ true = ground arith in
    let r2 : (vpn address / 2 ^ 9 == w / 2 ^ 9) ≡ true = ground arith in
    let ref = pgprot_clear_protnone_bits (without_pse l.prot) in
    let a = u64 (align level_2m address + w % 2 ^ 9 * 4096) in
    let k = split_set_pte p init c (l.pfn + w % 2 ^ 9) ref a level_4k in
    let page : vpn a ≡ w = unfold vpn align in omega arith in
    let milder = split_set_pte-IsMilder p init c (l.pfn + w % 2 ^ 9) ref a w page in
    let kept = clear_protnone-IsMilder _ _ (IsMilder-refl (without_pse l.prot)) in
    let u = split_2m p init c l address t in
    IsStep-to p.layout same w t u l k level_2m level_4k
      (walk_to_2m t w l (rw e2 on.0) (rw e1 on.1) (rw e on.2))
      (walk_to_4k u w (some k) (rw e2 on.0) (rw e1 on.1) (rw r2) (rw r1)) (omega arith)
      (IsMilder-trans k.prot ref (without_pse l.prot) milder kept) (omega arith)

split_2m-outside :
    (p : Platform) (init : Tables) (c : Cpa) (l : Leaf) (address : ℕ) (t : Tables) (w : ℕ)
    → (w / 2 ^ 9 == vpn address / 2 ^ 9) ≡ false
    → IsStep p.layout same w t (split_2m p init c l address t)
unfolding split_2m
split_2m-outside p init c l address t w e =
    let r : (vpn address / 2 ^ 9 == w / 2 ^ 9) ≡ false = ground arith in
    let u = split_2m p init c l address t in
    IsStep-stay p.layout w t u (walk-ext u t w refl refl (rw r) (rw e))

-- Splitting a page of 2M.
pub split_2m-IsStep :
    (p : Platform) (init : Tables) (c : Cpa) (l : Leaf) (address : ℕ) (t : Tables)
    → walk t (vpn address) ≡ (some l, level_2m)
    → (w : ℕ) → IsStep p.layout same w t (split_2m p init c l address t)
split_2m-IsStep p init c l address t h w = elim (Bool-cases (w / 2 ^ 9 == vpn address / 2 ^ 9)) [
  | inl e ↦ split_2m-inside p init c l address t h w ((==_iff _ _).0 e)
  | inr e ↦ split_2m-outside p init c l address t w e
]

split_1g-inside :
    (p : Platform) (init : Tables) (c : Cpa) (l : Leaf) (address : ℕ) (t : Tables)
    → walk t (vpn address) ≡ (some l, level_1g)
    → (w : ℕ) → w / 2 ^ 18 ≡ vpn address / 2 ^ 18
    → IsStep p.layout same w t (split_1g p init c l address t)
unfolding split_1g rank pages_of
split_1g-inside p init c l address t h w e =
    let on = walk-1g t (vpn address) l h in
    let e2 : w / 2 ^ 27 ≡ vpn address / 2 ^ 27 = omega arith in
    let r1 : (w / 2 ^ 9 / 2 ^ 9 == vpn address / 2 ^ 18) ≡ true = ground arith in
    let r2 : (vpn address / 2 ^ 18 == w / 2 ^ 18) ≡ true = ground arith in
    let clear = record (l.prot) { pse = l.prot.pse && l.prot.present } in
    let ref = pgprot_clear_protnone_bits clear in
    let d = w / 2 ^ 9 in
    let a = u64 (align level_1g address + d % 2 ^ 9 * 2 ^ 21) in
    let k = split_set_pte p init c (l.pfn + d % 2 ^ 9 * 2 ^ 9) ref a level_2m in
    let asis = split_set_pte-2m p init c (l.pfn + d % 2 ^ 9 * 2 ^ 9) ref a in
    let kept =
      clear_protnone-IsMilder clear _ (with_pse-IsMilder l.prot (l.prot.pse && l.prot.present)) in
    let u = split_1g p init c l address t in
    IsStep-to p.layout same w t u l k level_1g level_2m (walk_to_1g t w l (rw e2 on.0) (rw e on.1))
      (walk_to_2m u w k (rw e2 on.0) (rw r2) (rw r1)) (omega arith) (rw asis kept) (omega arith)

split_1g-outside :
    (p : Platform) (init : Tables) (c : Cpa) (l : Leaf) (address : ℕ) (t : Tables) (w : ℕ)
    → (w / 2 ^ 18 == vpn address / 2 ^ 18) ≡ false
    → IsStep p.layout same w t (split_1g p init c l address t)
unfolding split_1g
split_1g-outside p init c l address t w e =
    let r : (vpn address / 2 ^ 18 == w / 2 ^ 18) ≡ false = ground arith in
    let q : (w / 2 ^ 9 / 2 ^ 9 == vpn address / 2 ^ 18) ≡ false = ground arith in
    let u = split_1g p init c l address t in
    IsStep-stay p.layout w t u (walk-ext u t w refl (rw r) (rw q) refl)

-- Splitting a page of 1G.
pub split_1g-IsStep :
    (p : Platform) (init : Tables) (c : Cpa) (l : Leaf) (address : ℕ) (t : Tables)
    → walk t (vpn address) ≡ (some l, level_1g)
    → (w : ℕ) → IsStep p.layout same w t (split_1g p init c l address t)
split_1g-IsStep p init c l address t h w = elim (Bool-cases (w / 2 ^ 18 == vpn address / 2 ^ 18)) [
  | inl e ↦ split_1g-inside p init c l address t h w ((==_iff _ _).0 e)
  | inr e ↦ split_1g-outside p init c l address t w e
]

rank-4k : (o : Option Leaf) → rank (o, level_4k) ≡ 0
unfolding rank
rank-4k none = refl
rank-4k (some l) = refl

-- A split brings the walk a level down.
pub split_2m-rank :
    (p : Platform) (init : Tables) (c : Cpa) (l : Leaf) (address : ℕ) (t : Tables)
    → walk t (vpn address) ≡ (some l, level_2m)
    → rank (walk (split_2m p init c l address t) (vpn address)) ≡ 0
unfolding split_2m
split_2m-rank p init c l address t h =
    let v = vpn address in
    let on = walk-2m t v l h in
    let r : (v / 2 ^ 9 == v / 2 ^ 9) ≡ true = ground arith in
    let u = split_2m p init c l address t in
    let low = walk_to_4k u v (u.pte v) on.0 on.1 (rw r) refl in rw low (rank-4k (u.pte v))

pub split_1g-rank :
    (p : Platform) (init : Tables) (c : Cpa) (l : Leaf) (address : ℕ) (t : Tables)
    → walk t (vpn address) ≡ (some l, level_1g)
    → rank (walk (split_1g p init c l address t) (vpn address)) ≡ 1
unfolding split_1g rank
split_1g-rank p init c l address t h =
    let v = vpn address in
    let on = walk-1g t v l h in
    let r1 : (v / 2 ^ 9 / 2 ^ 9 == v / 2 ^ 18) ≡ true = ground arith in
    let r2 : (v / 2 ^ 18 == v / 2 ^ 18) ≡ true = ground arith in
    let clear = record (l.prot) { pse = l.prot.pse && l.prot.present } in
    let d = v / 2 ^ 9 in
    let k =
      split_set_pte p init c (l.pfn + d % 2 ^ 9 * 2 ^ 9) (pgprot_clear_protnone_bits clear)
        (u64 (align level_1g address + d % 2 ^ 9 * 2 ^ 21)) level_2m in
    let u = split_1g p init c l address t in
    let low = walk_to_2m u v k on.0 (rw r2) (rw r1) in rw low
