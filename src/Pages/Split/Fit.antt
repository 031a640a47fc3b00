-- ===== src/Pages/Split/Fit.antt =====
-- The pages that cpa->numpages is cut down to, and a large page that is kept or changed as a whole.
use userspace_bypass.Prelude.{
  ℕ, ◌+◌, ◌/◌, ◌%◌, ◌^◌, ◌≡◌, ◌≤◌, ◌<◌, refl, ◌⊎◌, false, some, arith, ◌==◌,
}
use userspace_bypass.Pages.{
  Layout, Prot, Level, level_none, level_4k, level_2m, level_1g, level_512g, Leaf, Tables, walk,
  vpn, pages_of, without_pse, pgprot_clear_protnone_bits, set_leaf,
}
use userspace_bypass.Pages.Cpa.{Cpa}
use userspace_bypass.Pages.Split.{fit, pages_left, align, req_prot}
use userspace_bypass.Pages.Split.Large.{IsLarge}
use userspace_bypass.Pages.Spec.Prots.{IsMilder-refl, without_pse-IsMilder, clear_protnone-IsMilder}
use userspace_bypass.Pages.Spec.Follows.{IsStep-refl, IsStep-to, IsStep-stay}
use userspace_bypass.Pages.Spec.Leaves.{IsEntry, walk_near, walk-set_leaf_near, walk-set_leaf_far}
use userspace_bypass.Pages.Spec.{rank, IsMilder, IsChange, IsFor, asked}

pages_left-IsLarge :
    (level : Level) (a : ℕ)
    → IsLarge level
    → a < 2 ^ 64
    → a % 4096 ≡ 0
    → pages_left level a + vpn a % pages_of level ≡ pages_of level
unfolding IsLarge pages_left pages_of vpn
pages_left-IsLarge level_2m a i h l = omega arith
pages_left-IsLarge level_1g a i h l = omega arith
pages_left-IsLarge level_none a i h l = absurd i
pages_left-IsLarge level_4k a i h l = absurd i
pages_left-IsLarge level_512g a i h l = absurd i

near_pages :
    (level : Level) (v n w : ℕ)
    → IsLarge level
    → v % pages_of level + n ≤ pages_of level
    → v ≤ w
    → w < v + n
    → w / pages_of level ≡ v / pages_of level
unfolding IsLarge pages_of
near_pages level_2m v n w i h a b = omega arith
near_pages level_1g v n w i h a b = omega arith
near_pages level_none v n w i h a b = absurd i
near_pages level_4k v n w i h a b = absurd i
near_pages level_512g v n w i h a b = absurd i

far_pages :
    (level : Level) (v n w : ℕ)
    → IsLarge level
    → n ≡ pages_of level
    → v % pages_of level ≡ 0
    → ((w < v) ⊎ (v + n ≤ w))
    → (v / pages_of level == w / pages_of level) ≡ false
unfolding IsLarge pages_of
far_pages level_2m v n w i h e a = ground arith
far_pages level_1g v n w i h e a = ground arith
far_pages level_none v n w i h e a = absurd i
far_pages level_4k v n w i h e a = absurd i
far_pages level_512g v n w i h e a = absurd i

within_entry : (level : Level) (v : ℕ) → IsLarge level → v % pages_of level < pages_of level
unfolding IsLarge pages_of
within_entry level_2m v i = omega arith
within_entry level_1g v i = omega arith
within_entry level_none v i = absurd i
within_entry level_4k v i = absurd i
within_entry level_512g v i = absurd i

IsLarge-IsEntry : (level : Level) → IsLarge level → IsEntry level
unfolding IsLarge IsEntry
IsLarge-IsEntry level_2m i = i
IsLarge-IsEntry level_1g i = i
IsLarge-IsEntry level_none i = i
IsLarge-IsEntry level_4k i = absurd i
IsLarge-IsEntry level_512g i = i

-- The pages that are left to do fit in the entry.
abbrev pub IsFit : Level → ℕ → Cpa → Cpa → Type 0
IsFit level a c d =
    IsFor c d
    × (1 ≤ d.numpages)
    × (d.numpages ≤ c.numpages)
    × (vpn a % pages_of level + d.numpages ≤ pages_of level)

pub fit-IsFit :
    (level : Level) (a pfn : ℕ) (c : Cpa)
    → IsLarge level
    → a < 2 ^ 64
    → a % 4096 ≡ 0
    → 1 ≤ c.numpages
    → IsFit level a c (fit level a pfn c)
unfolding fit
fit-IsFit level a pfn c i h l n =
    let left = pages_left-IsLarge level a i h l in
    let size = within_entry level (vpn a) i in
    (
      record {
        vaddr = refl;
        pgd = refl;
        mask_set = refl;
        mask_clr = refl;
        curpage = refl;
        array = refl;
        pages_array = refl;
        pages = refl;
      },
      ground arith,
      ground arith,
      ground arith,
    )

-- The protection asked for, as a large page has it.
pub req_prot-IsMilder :
    {lay : Layout} {w : ℕ}
    → (c : Cpa) (old : Prot) → IsMilder lay w (req_prot c old) (asked c (without_pse old))
unfolding req_prot
req_prot-IsMilder c old =
    let m = asked c (without_pse old) in
    let q = pgprot_clear_protnone_bits (without_pse m) in
    let h =
      clear_protnone-IsMilder (without_pse m) m (without_pse-IsMilder m m (IsMilder-refl m)) in
    record {
      present = h.present;
      rw = h.rw;
      pwt = h.pwt;
      pcd = h.pcd;
      pat = h.pat;
      enc = h.enc;
      nx = h.nx;
      other = h.other;
    }

pub start_of_entry :
    (level : Level) (a : ℕ) → IsLarge level → a ≡ align level a → vpn a % pages_of level ≡ 0
unfolding IsLarge align pages_of vpn
start_of_entry level_2m a i e = omega arith
start_of_entry level_1g a i e = omega arith
start_of_entry level_none a i e = absurd i
start_of_entry level_4k a i e = absurd i
start_of_entry level_512g a i e = absurd i

-- A page that stays as it is because it has what is asked for.
pub kept-IsChange :
    (lay : Layout)
    → (level : Level) (c : Cpa) (l : Leaf) (t : Tables) (v n : ℕ) → IsLarge level
    → walk t v ≡ (some l, level)
    → v % pages_of level + n ≤ pages_of level
    → req_prot c l.prot ≡ l.prot
    → IsChange lay (asked c) v n t t
kept-IsChange lay level c l t v n i h fits e = λ w. (
  λ a b.
      let on =
        walk_near level (IsLarge-IsEntry level i) t v w l h (near_pages level v n w i fits a b) in
      let milder = rw e at (req_prot-IsMilder {lay = lay} {w = w} c l.prot) in
      IsStep-to lay (asked c) w t t l l level level on on refl milder (omega arith),
  λ a. IsStep-refl lay w t,
)

-- A page that is changed as a whole.
pub changed-IsChange :
    (lay : Layout)
    → (level : Level) (f : Prot → Prot) (l k : Leaf) (t : Tables) (v n : ℕ) → IsLarge level
    → walk t v ≡ (some l, level)
    → n ≡ pages_of level
    → v % pages_of level ≡ 0
    → k.pfn ≡ l.pfn
    → ((w : ℕ) → IsMilder lay w k.prot (f (without_pse l.prot)))
    → IsChange lay f v n t (set_leaf level v k t)
unfolding rank
changed-IsChange lay level f l k t v n i h size start e milder = λ w. (
  λ a b.
      let near = near_pages level v n w i (omega (arith, size, start)) a b in
      let entry = IsLarge-IsEntry level i in
      let was = walk_near level entry t v w l h near in
      let is = walk-set_leaf_near level entry t v w l k h near in
      IsStep-to lay f w t (set_leaf level v k t) l k level level was is (rw e) (milder w)
        (omega arith),
  λ a. IsStep-stay lay w t (set_leaf level v k t) (
      walk-set_leaf_far level (IsLarge-IsEntry level i) t v w k
        (far_pages level v n w i size start a)),
)
