-- ===== src/Pages/Spec/Leaves.antt =====
-- The pages of one entry, and what writing the entry does to them and to others.
use userspace_bypass.Prelude.{ℕ, ◌/◌, ◌^◌, ◌≡◌, refl, arith, some, true, false, ◌==◌}
use userspace_bypass.Pages.{
  Level, level_none, level_4k, level_2m, level_1g, level_512g, Leaf, Tables, walk, pages_of,
  set_leaf,
}
use userspace_bypass.Pages.Spec.Walks.{
  walk-2m, walk-1g, walk-4k, walk_to_4k, walk_to_2m, walk_to_1g, walk-ext,
}

-- The levels at which memory is mapped.
unfoldable pub IsEntry : Level → Type 0
IsEntry level_none = ⊥
IsEntry level_512g = ⊥
IsEntry _ = Unit

-- All pages of an entry walk to it.
pub walk_near :
    (level : Level)
    → IsEntry level
    → (t : Tables) (v w : ℕ) (l : Leaf) → walk t v ≡ (some l, level)
    → w / pages_of level ≡ v / pages_of level
    → walk t w ≡ (some l, level)
unfolding IsEntry pages_of
walk_near level_none i t v w l h e = absurd i
walk_near level_512g i t v w l h e = absurd i
walk_near level_4k i t v w l h e = let same_page : w ≡ v = omega arith in rw same_page h
walk_near level_2m i t v w l h e =
    let on = walk-2m t v l h in
    let e1 : w / 2 ^ 18 ≡ v / 2 ^ 18 = omega arith in
    let e2 : w / 2 ^ 27 ≡ v / 2 ^ 27 = omega arith in
    walk_to_2m t w l (rw e2 on.0) (rw e1 on.1) (rw e on.2)
walk_near level_1g i t v w l h e =
    let on = walk-1g t v l h in
    let e2 : w / 2 ^ 27 ≡ v / 2 ^ 27 = omega arith in walk_to_1g t w l (rw e2 on.0) (rw e on.1)

-- Writing the entry of a page.
pub walk-set_leaf_near :
    (level : Level)
    → IsEntry level
    → (t : Tables) (v w : ℕ) (l k : Leaf) → walk t v ≡ (some l, level)
    → w / pages_of level ≡ v / pages_of level
    → walk (set_leaf level v k t) w ≡ (some k, level)
unfolding IsEntry pages_of set_leaf
walk-set_leaf_near level_none i t v w l k h e = absurd i
walk-set_leaf_near level_512g i t v w l k h e = absurd i
walk-set_leaf_near level_4k i t v w l k h e =
    let on = walk-4k t v l h in
    let same_page : w ≡ v = omega arith in
    let r : (v == v) ≡ true = ground arith in
    rw same_page (walk_to_4k (set_leaf level_4k v k t) v (some k) on.0 on.1 on.2 (rw r))
walk-set_leaf_near level_2m i t v w l k h e =
    let on = walk-2m t v l h in
    let e1 : w / 2 ^ 18 ≡ v / 2 ^ 18 = omega arith in
    let e2 : w / 2 ^ 27 ≡ v / 2 ^ 27 = omega arith in
    let r : (v / 2 ^ 9 == w / 2 ^ 9) ≡ true = ground arith in
    walk_to_2m (set_leaf level_2m v k t) w k (rw e2 on.0) (rw e1 on.1) (rw r)
walk-set_leaf_near level_1g i t v w l k h e =
    let on = walk-1g t v l h in
    let e2 : w / 2 ^ 27 ≡ v / 2 ^ 27 = omega arith in
    let r : (v / 2 ^ 18 == w / 2 ^ 18) ≡ true = ground arith in
    walk_to_1g (set_leaf level_1g v k t) w k (rw e2 on.0) (rw r)

pub walk-set_leaf_far :
    (level : Level)
    → IsEntry level
    → (t : Tables) (v w : ℕ) (k : Leaf) → (v / pages_of level == w / pages_of level) ≡ false
    → walk (set_leaf level v k t) w ≡ walk t w
unfolding IsEntry pages_of set_leaf
walk-set_leaf_far level_none i t v w k e = absurd i
walk-set_leaf_far level_512g i t v w k e = absurd i
walk-set_leaf_far level_4k i t v w k e =
    let r : (v == w) ≡ false = ground arith in
    walk-ext (set_leaf level_4k v k t) t w refl refl refl (rw r)
walk-set_leaf_far level_2m i t v w k e =
    walk-ext (set_leaf level_2m v k t) t w refl refl (rw e) refl
walk-set_leaf_far level_1g i t v w k e =
    walk-ext (set_leaf level_1g v k t) t w refl (rw e) refl refl
