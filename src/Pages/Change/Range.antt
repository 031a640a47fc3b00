-- ===== src/Pages/Change/Range.antt =====
-- The range of addresses that a change goes through, and one round of the loop in it.
use userspace_bypass.Prelude.{
  ℕ, suc, ◌+◌, ◌-◌, ◌*◌, ◌%◌, ◌^◌, ◌≡◌, ◌≤◌, ◌<◌, ap, ◌∙◌, if◌then◌else◌, ◌⊎◌, inl, inr, true,
  false, Bool, Bool-cases, ltb→lt, arith, u64, ltb, ◌||◌,
}
use userspace_bypass.Pages.{Layout, Prot, Tables, walk, vpn}
use userspace_bypass.Pages.Cpa.{Cpa, Mem, Platform, no_pgd, Out, success, enomem, efault, cpa_addr}
use userspace_bypass.Pages.Spec.{same, IsStep, IsChange, IsQuiet, IsFor, rank}
use userspace_bypass.Pages.Change.{change_page_attr, offered}
use userspace_bypass.Pages.Change.Rounds.{Returns, change_page_attr-Returns}

-- The range of a request: page-aligned, within the addresses of 48 bits, from `base` on.
pub record IsRange (c : Cpa) (base n : ℕ) : Type 0 where
  pub vaddr : c.vaddr 0 ≡ base
  pub aligned : base % 4096 ≡ 0
  pub below : vpn base + n ≤ 2 ^ 36
  pub pgd : c.pgd ≡ no_pgd
  pub array : c.array ≡ false
  pub pages_array : c.pages_array ≡ false

-- Nothing is mapped by an entry at 512G, which no processor knows.
abbrev pub HasNoHuge : Tables → Type 0
HasNoHuge t = (w : ℕ) → rank (walk t w) ≤ 2

-- The first d pages from s on are as asked for, and no other page has changed; all r of them, if the
-- function did not fail.
abbrev pub IsDoneUpTo : Layout → (Prot → Prot) → ℕ → ℕ → Tables → Out → Type 0
IsDoneUpTo lay f s r t o =
    (d : ℕ) × (d ≤ r)
    × IsChange lay f s d t o.mem.tables
    × (((o.ret ≡ success) × (d ≡ r)) ⊎ ((o.ret ≡ enomem) ⊎ (o.ret ≡ efault)))

cpa_addr-IsRange :
    (c : Cpa) (base n : ℕ) → IsRange c base n → cpa_addr c c.curpage ≡ u64 (base + c.curpage * 4096)
unfolding cpa_addr
cpa_addr-IsRange c base n h = rw (h.pages_array, h.array, h.vaddr)

vpn-range :
    (base k : ℕ)
    → base % 4096 ≡ 0
    → vpn base + k < 2 ^ 36
    → vpn (u64 (base + k * 4096)) ≡ vpn base + k
unfolding vpn
vpn-range base k h l = omega arith

pub HasNoHuge-IsChange :
    (lay : Layout)
    → (f : Prot → Prot) (v n : ℕ) (t u : Tables) → HasNoHuge t
    → IsChange lay f v n t u
    → HasNoHuge u
unfolding IsStep
HasNoHuge-IsChange lay f v n t u h l = λ w. elim (Bool-cases (ltb w v)) [
  | inl a ↦ let lower = ((l w).1 (inl (ltb→lt w v a))).1 in omega (arith, lower, h w)
  | inr a ↦ elim (Bool-cases (ltb w (v + n))) [
    | inl b ↦
        let lower = ((l w).0 (ground arith) (ltb→lt w (v + n) b)).1 in omega (arith, lower, h w)
    | inr b ↦ let lower = ((l w).1 (inr (ground arith))).1 in omega (arith, lower, h w)
  ]
]

pub HasNoHuge-near :
    (lay : Layout) (t u : Tables) → HasNoHuge t → ((w : ℕ) → IsStep lay same w t u) → HasNoHuge u
unfolding IsStep
HasNoHuge-near lay t u h near = λ w. let lower = (near w).1 in omega (arith, lower, h w)

pub IsRange-offered : (c : Cpa) (base n r : ℕ) → IsRange c base n → IsRange (offered r c) base n
unfolding offered
IsRange-offered c base n r h = record {
  vaddr = h.vaddr;
  aligned = h.aligned;
  below = h.below;
  pgd = h.pgd;
  array = h.array;
  pages_array = h.pages_array;
}

pub offered-numpages :
    (c : Cpa) (r : ℕ) → (1 ≤ (offered (suc r) c).numpages) × ((offered (suc r) c).numpages ≤ suc r)
unfolding offered
offered-numpages c r = pick (c.array || c.pages_array)
  where
    pick : (b : Bool) → (1 ≤ (if b then 1 else suc r)) × ((if b then 1 else suc r) ≤ suc r)
    pick true = (omega arith, omega arith)
    pick false = (omega arith, omega arith)

-- One round of the loop.
pub round-Returns :
    (p : Platform)
    → IsQuiet p
    → (base r : ℕ) (c : Cpa) (m : Mem) → IsRange c base (c.curpage + suc r)
    → HasNoHuge m.tables
    → Returns p.layout
        (offered (suc r) c)
        (vpn base + c.curpage)
        m.tables
        (change_page_attr p false (offered (suc r) c) m)
unfolding offered
round-Returns p quiet base r c m range huge =
    let d = offered (suc r) c in
    let at_page =
      cpa_addr-IsRange d base (c.curpage + suc r) (IsRange-offered c base _ (suc r) range) in
    let page = vpn-range base c.curpage range.aligned (omega (arith, range.below)) in
    let low : cpa_addr d d.curpage < 2 ^ 64 = rw at_page (omega arith) in
    let line : cpa_addr d d.curpage % 4096 ≡ 0 = rw at_page (omega (arith, range.aligned)) in
    rw (at_page, page) at
      (change_page_attr-Returns p quiet false d m low line (offered-numpages c r).0 range.pgd
        (huge (vpn (cpa_addr d d.curpage))))

-- What is left of the range after some of its pages.
pub IsRange-rest :
    (c d : Cpa) (base r k : ℕ)
    → IsFor c d
    → IsRange c base (c.curpage + r)
    → k ≤ r
    → (u64 (d.curpage + k) ≡ c.curpage + k)
      × IsRange (record d { curpage = u64 (d.curpage + k) }) base (u64 (d.curpage + k) + (r - k))
IsRange-rest c d base r k frame range fits =
    let same_page = frame.curpage in
    let e : u64 (d.curpage + k) ≡ c.curpage + k = omega (arith, same_page, range.below) in
    (
      e,
      record {
        vaddr = ap (λ f. f 0) frame.vaddr ∙ range.vaddr;
        aligned = range.aligned;
        below = omega (arith, e, range.below);
        pgd = frame.pgd ∙ range.pgd;
        array = frame.array ∙ range.array;
        pages_array = frame.pages_array ∙ range.pages_array;
      },
    )
