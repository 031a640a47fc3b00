-- ===== src/Pages/Change/Step.antt =====
-- One step of a change: __change_page_attr returns within three rounds, and does what is asked for to
-- the pages that it reports.
use userspace_bypass.Prelude.{
  ℕ, ◌+◌, ◌*◌, ◌/◌, ◌≡◌, ◌≤◌, refl, ◌∙◌, ◌⊎◌, inl, inr, true, false, Bool, none, some, arith, u64,
  Bool-cases,
}
use userspace_bypass.Pages.{
  Layout, Prot, Level, level_4k, Leaf, Tables, walk, vpn, pages_of, prot_eq, without_pse, set_leaf,
  static_protections, within,
}
use userspace_bypass.Pages.Cpa.{Cpa, Mem, Platform, no_pgd, tables_of, Out, success, enomem, efault}
use userspace_bypass.Pages.Split.Large.{tables_of-no_pgd, put_tables-no_pgd}
use userspace_bypass.Pages.Split.Check.{IsFor-refl}
use userspace_bypass.Pages.Spec.Prots.{
  IsMilder-without_pse, IsMilder-trans, clear_protnone-IsMilder, static_protections-IsMilder,
  prot_eq→≡, masked-IsMilder,
}
use userspace_bypass.Pages.Spec.Follows.{
  IsStep-refl, IsStep-to, IsStep-stay, IsStep-after, IsChange-before,
}
use userspace_bypass.Pages.Spec.Leaves.{IsEntry, walk_near, walk-set_leaf_near, walk-set_leaf_far}
use userspace_bypass.Pages.Spec.{
  IsMilder, same, IsStep, IsChange, IsFor, asked, rank, page_at, page_of, Follows,
}
use userspace_bypass.Pages.Change.{process_kernel_fault, pte_prot, change_pte}

-- What a step promises: as many pages as cpa->numpages then says are as asked for and no other has
-- changed, or it fails with no page changed.
abbrev pub IsDone : Layout → Cpa → ℕ → Tables → Out → Type 0
IsDone lay c v t o =
    IsFor c o.cpa
    × (((o.ret ≡ success)
          × (1 ≤ o.cpa.numpages)
          × (o.cpa.numpages ≤ c.numpages)
          × IsChange lay (asked c) v o.cpa.numpages t o.mem.tables)
        ⊎ (((o.ret ≡ enomem) ⊎ (o.ret ≡ efault)) × ((w : ℕ) → IsStep lay same w t o.mem.tables)))

IsFor-trans : (c d e : Cpa) → IsFor c d → IsFor d e → IsFor c e
IsFor-trans c d e h l = record {
  vaddr = l.vaddr ∙ h.vaddr;
  pgd = l.pgd ∙ h.pgd;
  mask_set = l.mask_set ∙ h.mask_set;
  mask_clr = l.mask_clr ∙ h.mask_clr;
  curpage = l.curpage ∙ h.curpage;
  array = l.array ∙ h.array;
  pages_array = l.pages_array ∙ h.pages_array;
  pages = l.pages ∙ h.pages;
}

pub asked-IsFor : (c d : Cpa) → IsFor c d → asked d ≡ asked c
asked-IsFor c d h = rw (h.mask_clr, h.mask_set)

-- Splits may come before.
pub IsDone-before :
    (lay : Layout)
    → (c d : Cpa) (v : ℕ) (t u : Tables) (o : Out) → IsFor c d
    → d.numpages ≤ c.numpages
    → ((w : ℕ) → IsStep lay same w t u)
    → IsDone lay d v u o
    → IsDone lay c v t o
IsDone-before lay c d v t u o h n near (frame, inl (r, a, b, change)) = (
  IsFor-trans c d o.cpa h frame,
  inl (
    r,
    a,
    omega (arith, b, n),
    IsChange-before lay (asked c) (masked-IsMilder c.mask_clr c.mask_set) v o.cpa.numpages t u
        o.mem.tables near (rw (asked-IsFor c d h) at change),
  ),
)
IsDone-before lay c d v t u o h n near (frame, inr (r, change)) = (
  IsFor-trans c d o.cpa h frame,
  inr (r, λ w. IsStep-after lay same w t u o.mem.tables (near w) (change w)),
)

IsFor-numpages :
    (c : Cpa) (n pfn : ℕ) (b : Bool) → IsFor c (record c { numpages = n; pfn = pfn; flush_tlb = b })
IsFor-numpages c n pfn b = record {
  vaddr = refl;
  pgd = refl;
  mask_set = refl;
  mask_clr = refl;
  curpage = refl;
  array = refl;
  pages_array = refl;
  pages = refl;
}

-- A page that is not mapped stays so.
unmapped-IsChange :
    (lay : Layout)
    → (f : Prot → Prot) (t : Tables) (v : ℕ) (level : Level) → walk t v ≡ (none, level)
    → IsChange lay f v 1 t t
unfolding IsStep page_at page_of Follows
unmapped-IsChange lay f t v level h = λ w.
    (λ a b. let e : w ≡ v = omega arith in rw (e, h) (tt, omega arith), λ a. IsStep-refl lay w t)

pub process_kernel_fault-IsDone :
    (p : Platform) (a : ℕ) (primary : Bool) (c : Cpa) (m : Mem) (v : ℕ) (level : Level)
    → 1 ≤ c.numpages
    → walk m.tables v ≡ (none, level)
    → IsDone p.layout c v m.tables (process_kernel_fault p a primary c m)
unfolding process_kernel_fault
process_kernel_fault-IsDone p a false c m v level n h = (
  IsFor-numpages c 1 c.pfn c.flush_tlb,
  inl (refl, omega arith, n, unmapped-IsChange p.layout (asked c) m.tables v level h),
)
process_kernel_fault-IsDone p a true c m v level n h =
    elim (Bool-cases (within a p.page_offset (u64 (p.page_offset + p.max_pfn_mapped * 4096)))) [
      | inl e ↦ rw e (
        IsFor-numpages c 1 (p.pa a / 4096) c.flush_tlb,
        inl (refl, omega arith, n, unmapped-IsChange p.layout (asked c) m.tables v level h),
      )
      | inr e ↦ rw e (IsFor-refl c, inr (inr refl, λ w. IsStep-refl p.layout w m.tables))
    ]

-- A pte that has what is asked for, and one that is written.
kept_pte-IsChange :
    (lay : Layout)
    → (f : Prot → Prot) (l : Leaf) (t : Tables) (v : ℕ) → walk t v ≡ (some l, level_4k)
    → IsMilder lay v l.prot (f (without_pse l.prot))
    → IsChange lay f v 1 t t
kept_pte-IsChange lay f l t v h milder = λ w. (
  λ a b.
      let e : w ≡ v = omega arith in
      IsStep-to lay f w t t l l level_4k level_4k (rw e h) (rw e h) refl (rw e milder)
        (omega arith),
  λ a. IsStep-refl lay w t,
)

written_pte-IsChange :
    (lay : Layout)
    → (f : Prot → Prot) (l k : Leaf) (t : Tables) (v : ℕ) → walk t v ≡ (some l, level_4k)
    → k.pfn ≡ l.pfn
    → IsMilder lay v k.prot (f (without_pse l.prot))
    → IsChange lay f v 1 t (set_leaf level_4k v k t)
unfolding rank pages_of IsEntry
written_pte-IsChange lay f l k t v h e milder = λ w. (
  λ a b.
      let is = walk-set_leaf_near level_4k tt t v w l k h (omega arith) in
      let was = walk_near level_4k tt t v w l h (omega arith) in
      let here : w ≡ v = omega arith in
      IsStep-to lay f w t (set_leaf level_4k v k t) l k level_4k level_4k was is (rw e)
        (rw here milder) (omega arith),
  λ a.
      IsStep-stay lay w t (set_leaf level_4k v k t)
        (walk-set_leaf_far level_4k tt t v w k (ground arith)),
)

pte_prot-IsMilder :
    (p : Platform) (t : Tables) (a : ℕ) (c : Cpa) (l : Leaf)
    → IsMilder p.layout (vpn a) (pte_prot p t a c l) (asked c (without_pse l.prot))
unfolding pte_prot without_pse
pte_prot-IsMilder p t a c l =
    let m = asked c l.prot in
    let stat = static_protections p.layout t m a l.pfn 1 0 in
    let milder = static_protections-IsMilder p.layout t m a l.pfn 0 (vpn a) refl in
    let same_mask =
      masked-IsMilder c.mask_clr c.mask_set (vpn a) l.prot (without_pse l.prot)
        (IsMilder-without_pse l.prot) in
    IsMilder-trans _ m _ (clear_protnone-IsMilder stat m milder) same_mask

pub change_pte-IsDone :
    (p : Platform) (a : ℕ) (l : Leaf) (c : Cpa) (m : Mem)
    → 1 ≤ c.numpages
    → c.pgd ≡ no_pgd
    → walk m.tables (vpn a) ≡ (some l, level_4k)
    → IsDone p.layout c (vpn a) m.tables (change_pte p a l c m)
unfolding change_pte
change_pte-IsDone p a l c m n g h =
    let new = pte_prot p m.tables a c l in
    let k : Leaf = record { pfn = l.pfn; prot = new } in
    let from = tables_of c.pgd m in
    let where_from = tables_of-no_pgd c.pgd m g in
    let where_put = put_tables-no_pgd c.pgd (set_leaf level_4k (vpn a) k from) m g in
    let milder = pte_prot-IsMilder p m.tables a c l in
    elim (Bool-cases (prot_eq l.prot new)) [
      | inl e ↦
          let kept = rw (← prot_eq→≡ l.prot new e) at milder in
          rw e (
            IsFor-numpages c 1 l.pfn c.flush_tlb,
            inl (
              refl,
              omega arith,
              n,
              kept_pte-IsChange p.layout (asked c) l m.tables (vpn a) h kept,
            ),
          )
      | inr e ↦ rw e (
        IsFor-numpages c 1 l.pfn true,
        inl (
          refl,
          omega arith,
          n,
          rw (where_put, where_from)
              (written_pte-IsChange p.layout (asked c) l k m.tables (vpn a) h refl milder),
        ),
      )
    ]
