-- ===== src/Fault/Tables.antt =====
-- vmalloc_fault, spurious_kernel_fault and the errata checks: walks of the page tables. An entry of a
-- level is a function of the address and the world; `pgd` and `p4d` are the task's, `pgd_k` and `p4d_k`
-- those of the reference table, and the `ref_` levels lie below init_mm's.
use userspace_bypass.Prelude.{
  ap, sym, ◌∙◌, ==_iff, ℕ, ◌+◌, ◌/◌, ◌^◌, ◌-◌, ◌≤◌, ◌<◌, ◌≡◌, arith, ◌⊎◌, inl, inr, Bool-cases,
  Bool, true, false, ◌||◌, ◌&&◌, not, ltb, leb, ◌==◌, if◌then◌else◌,
}
use userspace_bypass.Regs.{Regs}
use userspace_bypass.Fault.State.{ErrorCode, Pte, Kernel, has_bit}

-- The result of vmalloc_fault: 0, -1, or a BUG_ON.
pub data Verdict (W : Type 0) : Type 0 where
  handled : W → Verdict W
  refused : W → Verdict W
  crashed : W → Verdict W

module _ {W : Type 0} (k : Kernel W) (address : ℕ) where
  -- From the PUD down.
  unfoldable pub walk_down : W → Verdict W
  walk_down w =
      let pud = k.pud address w in
      let pmd = k.pmd address w in
      if pud.is_none
      then refused w
      else if pud.large
      then handled w
      else if pmd.is_none
      then refused w
      else if pmd.large
      then handled w
      else if (k.pte address w).present
      then handled w
      else refused w

  -- The P4D level, where copying happens with four levels.
  unfoldable pub sync_p4d : W → Verdict W
  sync_p4d w =
      let p4d = k.p4d address w in
      let p4d_k = k.p4d_k address w in
      if p4d_k.is_none
      then refused w
      else if p4d.is_none && not k.l5_enabled
      then walk_down (k.set_p4d address p4d_k w)
      else if p4d.pfn == p4d_k.pfn
      then walk_down w
      else crashed w

  unfoldable pub sync_pgd : W → Verdict W
  sync_pgd w =
      let pgd = k.pgd address w in
      let pgd_k = k.pgd_k address w in
      if pgd_k.is_none
      then refused w
      else if k.l5_enabled
      then if pgd.is_none
        then sync_p4d (k.set_pgd address pgd_k w)
        else if pgd.pfn == pgd_k.pfn
        then sync_p4d w
        else crashed w
      else sync_p4d w

  unfoldable pub vmalloc_fault : W → Verdict W
  unfolding walk_down sync_p4d sync_pgd
  vmalloc_fault w =
      if leb k.vmalloc_start address && ltb address k.vmalloc_end then sync_pgd w else refused w

unfoldable pub spurious_kernel_fault_check : ErrorCode → Pte → Bool
spurious_kernel_fault_check e pte =
    if e.write && not pte.writable then false else not (e.instr && not pte.exec)

-- error_code is X86_PF_WRITE | X86_PF_PROT or X86_PF_INSTR | X86_PF_PROT.
unfoldable pub may_be_spurious : ErrorCode → Bool
may_be_spurious e =
    e.prot
    && not (e.user || e.rsvd || e.pk || e.rest)
    && (e.write && not e.instr || e.instr && not e.write)

unfoldable pub spurious_kernel_fault : {W : Type 0} → Kernel W → ErrorCode → ℕ → W → Bool
unfolding spurious_kernel_fault_check may_be_spurious
spurious_kernel_fault k e address w =
    let p4d = k.ref_p4d address w in
    let pud = k.ref_pud address w in
    let pmd = k.ref_pmd address w in
    let pte = k.ref_pte address w in
    if not (may_be_spurious e)
    then false
    else if not (k.ref_pgd address w).present
    then false
    else if not p4d.present
    then false
    else if p4d.large
    then spurious_kernel_fault_check e p4d
    else if not pud.present
    then false
    else if pud.large
    then spurious_kernel_fault_check e pud
    else if not pmd.present
    then false
    else if pmd.large
    then spurious_kernel_fault_check e pmd
    else if not pte.present
    then false
    else if spurious_kernel_fault_check e pte
    then spurious_kernel_fault_check e pmd
    else false

-- The registers with the upper half of the address put back, and whether it was.
unfoldable pub is_errata93 : {W : Type 0} → Kernel W → ℕ → Regs → Bool × Regs
is_errata93 k address r =
    let full = address + (2 ^ 64 - 2 ^ 32) in
    if not k.is_k8
    then (false, r)
    else if not (address == r.ip)
    then (false, r)
    else if not (address / 2 ^ 32 == 0)
    then (false, r)
    else if leb k.stext full && leb full k.etext
        || leb k.modules_vaddr full && leb full k.modules_end
    then (true, record r { ip = full })
    else (false, r)

unfoldable pub is_errata100 : {W : Type 0} → Kernel W → ℕ → Regs → Bool
is_errata100 k address r = (r.cs == k.user32_cs || has_bit 2 r.cs) && not (address / 2 ^ 32 == 0)

-- `Maps k address w e`: e is the leaf that the reference table has for the address, each entry on the way
-- down to it present and a table.
abbrev IsTable : Pte → Type 0
IsTable e = (e.present ≡ true) × (e.large ≡ false)

abbrev IsLeaf : Pte → Type 0
IsLeaf e = (e.present ≡ true) × (e.large ≡ true)

pub data Maps {W : Type 0} (k : Kernel W) (address : ℕ) (w : W) : Pte → Type 0 where
  by_p4d :
      (k.ref_pgd address w).present ≡ true
      → IsLeaf (k.ref_p4d address w)
      → Maps k address w (k.ref_p4d address w)
  by_pud :
      (k.ref_pgd address w).present ≡ true
      → IsTable (k.ref_p4d address w)
      → IsLeaf (k.ref_pud address w)
      → Maps k address w (k.ref_pud address w)
  by_pmd :
      (k.ref_pgd address w).present ≡ true
      → IsTable (k.ref_p4d address w)
      → IsTable (k.ref_pud address w)
      → IsLeaf (k.ref_pmd address w)
      → Maps k address w (k.ref_pmd address w)
  by_pte :
      (k.ref_pgd address w).present ≡ true
      → IsTable (k.ref_p4d address w)
      → IsTable (k.ref_pud address w)
      → IsTable (k.ref_pmd address w)
      → (k.ref_pte address w).present ≡ true
      → Maps k address w (k.ref_pte address w)

-- A write to a writable entry, or a fetch from an executable one, and not both.
abbrev pub Allows : ErrorCode → Pte → Type 0
Allows e pte =
    ((e.write ≡ true) × (e.instr ≡ false) × (pte.writable ≡ true))
    ⊎ ((e.write ≡ false) × (e.instr ≡ true) × (pte.exec ≡ true))

spurious-Allows :
    (e : ErrorCode) (pte : Pte)
    → may_be_spurious e ≡ true
    → spurious_kernel_fault_check e pte ≡ true
    → Allows e pte
unfolding may_be_spurious spurious_kernel_fault_check
spurious-Allows e pte h l = ground arith

spurious-found :
    {W : Type 0} (k : Kernel W) (e : ErrorCode) (address : ℕ) (w : W)
    → spurious_kernel_fault k e address w ≡ true
    → (may_be_spurious e ≡ true)
      × (pte : Pte) × Maps k address w pte
      × (spurious_kernel_fault_check e pte ≡ true)
unfolding spurious_kernel_fault
spurious-found k e address w h = elim (Bool-cases (k.ref_p4d address w).large) [
  | inl a ↦
      (ground arith, k.ref_p4d address w, by_p4d (ground arith) (ground arith, a), ground arith)
  | inr a ↦ elim (Bool-cases (k.ref_pud address w).large) [
    | inl b ↦ (
      ground arith,
      k.ref_pud address w,
      by_pud (ground arith) (ground arith, a) (ground arith, b),
      ground arith,
    )
    | inr b ↦ elim (Bool-cases (k.ref_pmd address w).large) [
      | inl c ↦ (
        ground arith,
        k.ref_pmd address w,
        by_pmd (ground arith) (ground arith, a) (ground arith, b) (ground arith, c),
        ground arith,
      )
      | inr c ↦ (
        ground arith,
        k.ref_pte address w,
        by_pte (ground arith) (ground arith, a) (ground arith, b) (ground arith, c) (ground arith),
        ground arith,
      )
    ]
  ]
]

-- A fault is taken as spurious only if it is a kernel's that met a protection, and the reference table
-- has a leaf for the address, present as all entries above it are, that is writable for a write and
-- executable for an instruction fetch.
pub spurious_fault-Maps :
    {W : Type 0} (k : Kernel W) (e : ErrorCode) (address : ℕ) (w : W)
    → spurious_kernel_fault k e address w ≡ true
    → (e.prot ≡ true)
      × (e.user ≡ false)
      × (e.rsvd ≡ false)
      × (pte : Pte) × Maps k address w pte
      × Allows e pte
unfolding may_be_spurious
spurious_fault-Maps k e address w h =
    let (kind, pte, maps, check) = spurious-found k e address w h in
    (ground arith, ground arith, ground arith, pte, maps, spurious-Allows e pte kind check)

-- set_pgd and set_p4d write the reference's entry into the task's table, and leave the reference's as it is.
pub record Stores {W : Type 0} (k : Kernel W) (address : ℕ) : Type 0 where
  pub pgd :
      (w : W)
      → let x = k.pgd_k address w in
        let u = k.set_pgd address x w in (k.pgd address u ≡ x) × (k.pgd_k address u ≡ x)
  pub p4d :
      (w : W)
      → let x = k.p4d_k address w in
        let u = k.set_p4d address x w in (k.p4d address u ≡ x) × (k.p4d_k address u ≡ x)

-- The task's tables map the address in w, through the tables of the reference.
pub record IsSynced {W : Type 0} (k : Kernel W) (address : ℕ) (w : W) : Type 0 where
  pub p4d : (k.p4d address w).pfn ≡ (k.p4d_k address w).pfn
  pub p4d_k : (k.p4d_k address w).is_none ≡ false
  pub pgd : (k.l5_enabled ≡ false) ⊎ ((k.pgd address w).pfn ≡ (k.pgd_k address w).pfn)
  pub pud : (k.pud address w).is_none ≡ false
  pub pmd : ((k.pud address w).large ≡ true) ⊎ ((k.pmd address w).is_none ≡ false)
  pub pte :
      ((k.pud address w).large ≡ true)
      ⊎ ((k.pmd address w).large ≡ true)
      ⊎ ((k.pte address w).present ≡ true)

module _ {W : Type 0} (k : Kernel W) (address : ℕ) (stores : Stores k address) where
  walk_down-handled :
      (w w' : W)
      → walk_down k address w ≡ handled w'
      → (w ≡ w')
        × ((k.pud address w).is_none ≡ false)
        × (((k.pud address w).large ≡ true) ⊎ ((k.pmd address w).is_none ≡ false))
        × (((k.pud address w).large ≡ true)
            ⊎ ((k.pmd address w).large ≡ true)
            ⊎ ((k.pte address w).present ≡ true))
  unfolding walk_down
  walk_down-handled w w' h = ground arith

  walk_down-IsSynced :
      (w w' : W)
      → (k.p4d address w).pfn ≡ (k.p4d_k address w).pfn
      → (k.p4d_k address w).is_none ≡ false
      → ((k.l5_enabled ≡ false) ⊎ ((k.pgd address w).pfn ≡ (k.pgd_k address w).pfn))
      → walk_down k address w ≡ handled w'
      → IsSynced k address w'
  walk_down-IsSynced w w' p pk g h =
      let (same, a, b, c) = walk_down-handled w w' h in
      rw (← same) (record { p4d = p; p4d_k = pk; pgd = g; pud = a; pmd = b; pte = c })

  sync_p4d-IsSynced :
      (w w' : W)
      → ((k.l5_enabled ≡ false) ⊎ ((k.pgd address w).pfn ≡ (k.pgd_k address w).pfn))
      → sync_p4d k address w ≡ handled w'
      → IsSynced k address w'
  unfolding sync_p4d
  sync_p4d-IsSynced w w' g h = elim (Bool-cases (k.p4d_k address w).is_none) [
    | inl none_there ↦ absurd (ground arith)
    | inr there ↦ elim (Bool-cases ((k.p4d address w).is_none && not k.l5_enabled)) [
      | inl copied ↦
          let x = k.p4d_k address w in
          let u = k.set_p4d address x w in
          walk_down-IsSynced u w'
            (ap (λ (e : Pte). e.pfn) ((stores.p4d w).0 ∙ sym (stores.p4d w).1))
            (ap (λ (e : Pte). e.is_none) (stores.p4d w).1 ∙ there) (inl (ground arith))
            (ground arith)
      | inr kept ↦ elim (Bool-cases ((k.p4d address w).pfn == (k.p4d_k address w).pfn)) [
        | inl e ↦ walk_down-IsSynced w w' ((==_iff _ _).0 e) there g (ground arith)
        | inr e ↦ absurd (ground arith)
      ]
    ]
  ]

  sync_pgd-IsSynced : (w w' : W) → sync_pgd k address w ≡ handled w' → IsSynced k address w'
  unfolding sync_pgd
  sync_pgd-IsSynced w w' h = elim (Bool-cases (k.pgd_k address w).is_none) [
    | inl none_there ↦ absurd (ground arith)
    | inr there ↦ elim (Bool-cases k.l5_enabled) [
      | inr four ↦ sync_p4d-IsSynced w w' (inl four) (ground arith)
      | inl five ↦ elim (Bool-cases (k.pgd address w).is_none) [
        | inl copied ↦
            let x = k.pgd_k address w in
            let u = k.set_pgd address x w in
            sync_p4d-IsSynced u w'
              (inr (ap (λ (e : Pte). e.pfn) ((stores.pgd w).0 ∙ sym (stores.pgd w).1)))
              (ground arith)
        | inr kept ↦ elim (Bool-cases ((k.pgd address w).pfn == (k.pgd_k address w).pfn)) [
          | inl e ↦ sync_p4d-IsSynced w w' (inr ((==_iff _ _).0 e)) (ground arith)
          | inr e ↦ absurd (ground arith)
        ]
      ]
    ]
  ]

  -- If set_pgd and set_p4d store the reference's entry, vmalloc_fault claims a fault only inside the
  -- vmalloc area, and afterwards the task's P4D entry, and with five levels its PGD entry, leads to
  -- the table that the reference's leads to, and below it the address is mapped.
  pub vmalloc_fault-IsSynced :
      (w w' : W)
      → vmalloc_fault k address w ≡ handled w'
      → (k.vmalloc_start ≤ address) × (address < k.vmalloc_end) × IsSynced k address w'
  unfolding vmalloc_fault
  vmalloc_fault-IsSynced w w' h =
      (ground arith, ground arith, sync_pgd-IsSynced w w' (ground arith))
