-- ===== src/Fault/Prefetch.antt =====
-- check_prefetch_opcode and is_prefetch: is the instruction at the fault a prefetch?
use userspace_bypass.Prelude.{
  ℕ, zero, suc, ◌+◌, ◌-◌, ◌/◌, ◌%◌, ◌<◌, ◌≤◌, ◌≡◌, arith, refl, Bool, true, false, ◌||◌, ◌&&◌, not,
  Option, none, some, leb, ◌==◌, if◌then◌else◌, u64, ◌↔◌, ◌⊎◌, sym, ap, ◌∙◌, Option-cases, inl, inr,
}
use userspace_bypass.Regs.{Regs}
use userspace_bypass.Fault.State.{ErrorCode, Kernel}

-- The bytes that check_prefetch_opcode lets pass as prefixes. An opcode is below 256.
unfoldable pub is_prefix : {W : Type 0} → Kernel W → Regs → ℕ → Bool
is_prefix k r opcode =
    let hi = opcode / 16 in
    let lo = opcode % 16 in
    if hi == 2 || hi == 3
    then lo % 8 == 6
    else if hi == 4
    then not (k.user_mode r) || k.user_64bit_mode r
    else if hi == 6
    then lo / 4 == 1
    else if hi == 15
    then lo == 0 || lo / 2 == 1
    else false

-- The last opcode byte of a prefetch.
unfoldable pub is_prefetch_byte : ℕ → Bool
is_prefetch_byte opcode = opcode == 0x0d || opcode == 0x18

-- The case 0x00, for the byte behind it.
unfoldable pub second_byte : ℕ → Option ℕ → Bool
second_byte lo none = false
second_byte lo (some opcode) = lo == 15 && is_prefetch_byte opcode

unfoldable pub after_byte : Bool × Bool → Bool → Bool
after_byte (goes_on, prefetch) rest = if goes_on then rest else prefetch

module _ {W : Type 0} where
  -- Whether the loop of is_prefetch goes on behind a byte, and `prefetch`.
  unfoldable pub check_prefetch_opcode : Kernel W → Regs → ℕ → ℕ → W → Bool × Bool
  check_prefetch_opcode k r instr opcode w =
      if opcode / 16 == 0
      then (false, second_byte (opcode % 16) (k.probe instr w))
      else (is_prefix k r opcode, false)

  -- The loop, with n bytes left before max_instr.
  unfoldable pub scan : Kernel W → Regs → ℕ → ℕ → W → Bool
  scan k r zero instr w = false
  scan k r (suc n) instr w =
      let rest = scan k r n (suc instr) w in
      elim (k.probe instr w) [
        | none ↦ false
        | some opcode ↦ after_byte (check_prefetch_opcode k r (suc instr) opcode w) rest
      ]

  -- Addresses wrap, so near their end no byte is read.
  unfoldable pub is_prefetch : Kernel W → Regs → ErrorCode → W → Bool
  is_prefetch k r e w =
      let instr = k.convert_ip_to_linear r w in
      if e.instr
      then false
      else if k.user_mode r && leb k.task_size_max instr
      then false
      else scan k r (u64 (instr + 15) - instr) instr w

-- The bytes that may stand before a prefetch: the segment prefixes 26, 2E, 36, 3E, the REX prefixes 40 to
-- 4F, which are such in the kernel and in 64-bit user code, the bytes 64 to 67, and F0, F2, F3.
abbrev pub IsPrefix : {W : Type 0} → Kernel W → Regs → ℕ → Type 0
IsPrefix k r b =
    ((b ≡ 0x26) ⊎ (b ≡ 0x2e) ⊎ (b ≡ 0x36) ⊎ (b ≡ 0x3e))
    ⊎ ((0x40 ≤ b) × (b ≤ 0x4f) × ((k.user_mode r ≡ false) ⊎ (k.user_64bit_mode r ≡ true)))
    ⊎ ((0x64 ≤ b) × (b ≤ 0x67))
    ⊎ ((b ≡ 0xf0) ⊎ (b ≡ 0xf2) ⊎ (b ≡ 0xf3))

is_prefix_iff :
    {W : Type 0} (k : Kernel W) (r : Regs) (b : ℕ) → (is_prefix k r b ≡ true) ↔ IsPrefix k r b
unfolding is_prefix
is_prefix_iff k r b = (λ h. ground arith, λ h. ground arith)

is_prefetch_byte_iff : (b : ℕ) → (is_prefetch_byte b ≡ true) ↔ (b ≡ 0x0d) ⊎ (b ≡ 0x18)
unfolding is_prefetch_byte
is_prefetch_byte_iff b = (λ h. ground arith, λ h. ground arith)

-- `PrefetchAt n i`: n prefixes from i on, and behind them 0F 0D or 0F 18.
pub data PrefetchAt {W : Type 0} (k : Kernel W) (r : Regs) (w : W) : ℕ → ℕ → Type 0 where
  found :
      {i b : ℕ}
      → k.probe i w ≡ some 15
      → k.probe (suc i) w ≡ some b
      → ((b ≡ 0x0d) ⊎ (b ≡ 0x18))
      → PrefetchAt k r w zero i
  prefixed :
      {n i b : ℕ}
      → k.probe i w ≡ some b
      → IsPrefix k r b
      → PrefetchAt k r w n (suc i)
      → PrefetchAt k r w (suc n) i

module _ {W : Type 0} (k : Kernel W) (r : Regs) (w : W) where
  scan-step :
      (n i b : ℕ)
      → k.probe i w ≡ some b
      → scan k r (suc n) i w
        ≡ after_byte (check_prefetch_opcode k r (suc i) b w) (scan k r n (suc i) w)
  unfolding scan
  scan-step n i b e = rw (e, scan)

  after_byte-cases :
      (i b : ℕ) (rest : Bool)
      → after_byte (check_prefetch_opcode k r (suc i) b w) rest ≡ true
      → (is_prefix k r b ≡ true) × (rest ≡ true)
        ⊎ (b / 16 ≡ 0) × (second_byte (b % 16) (k.probe (suc i) w) ≡ true)
  unfolding after_byte check_prefetch_opcode
  after_byte-cases i b rest h = ground arith

  second_byte-found :
      (lo : ℕ) (o : Option ℕ)
      → second_byte lo o ≡ true
      → (lo ≡ 15) × (c : ℕ) × (o ≡ some c) × (is_prefetch_byte c ≡ true)
  unfolding second_byte
  second_byte-found lo none h = absurd (ground arith)
  second_byte-found lo (some c) h = (ground arith, c, refl, ground arith)

  scan-none : (n i : ℕ) → k.probe i w ≡ none → scan k r (suc n) i w ≡ false
  unfolding scan
  scan-none n i e = rw (e, scan)

  found_byte :
      (i c : ℕ) (rest : Bool)
      → k.probe (suc i) w ≡ some c
      → is_prefetch_byte c ≡ true
      → after_byte (check_prefetch_opcode k r (suc i) 15 w) rest ≡ true
  unfolding after_byte check_prefetch_opcode second_byte
  found_byte i c rest e h = rw e h

  prefixed_byte :
      (i b : ℕ) (rest : Bool)
      → is_prefix k r b ≡ true
      → rest ≡ true
      → after_byte (check_prefetch_opcode k r (suc i) b w) rest ≡ true
  unfolding after_byte check_prefetch_opcode is_prefix
  prefixed_byte i b rest p h = ground arith

  PrefetchAt-scan : (n j i : ℕ) → j < n → PrefetchAt k r w j i → scan k r n i w ≡ true
  PrefetchAt-scan zero j i h p = absurd (omega arith)
  PrefetchAt-scan (suc n) zero i h (found {b = c} e q f) =
      scan-step n i 15 e ∙ found_byte i c (scan k r n (suc i) w) q ((is_prefetch_byte_iff c).1 f)
  PrefetchAt-scan (suc n) (suc j) i h (prefixed {b = b} e p rest) =
      scan-step n i b e
      ∙ prefixed_byte i b (scan k r n (suc i) w) ((is_prefix_iff k r b).1 p)
          (PrefetchAt-scan n j (suc i) (omega arith) rest)

  scan-PrefetchAt : (n i : ℕ) → scan k r n i w ≡ true → (j : ℕ) × (j < n) × PrefetchAt k r w j i
  scan-PrefetchAt zero i h = absurd (unfold scan in ground arith)
  scan-PrefetchAt (suc n) i h = elim (Option-cases (k.probe i w)) [
    | inl e ↦ absurd (ground (arith, scan-none n i e))
    | inr (b, e) ↦
        elim (after_byte-cases i b (scan k r n (suc i) w) (sym (scan-step n i b e) ∙ h)) [
          | inl (p, rest) ↦
              let (j, lt, at) = scan-PrefetchAt n (suc i) rest in
              (suc j, omega arith, prefixed e ((is_prefix_iff k r b).0 p) at)
          | inr (hi, second) ↦
              let (lo, c, q, f) = second_byte-found (b % 16) (k.probe (suc i) w) second in
              let fifteen : b ≡ 15 = omega arith in
              (zero, omega arith, found (e ∙ ap some fifteen) q ((is_prefetch_byte_iff c).0 f))
        ]
  ]

-- is_prefetch says yes exactly if the fault is no instruction fetch, not a user's at a kernel address,
-- and at most 14 readable prefixes stand before 0F 0D or 0F 18, the prefixes being 26, 2E, 36, 3E, 64
-- to 67, F0, F2, F3 and, for the kernel and 64-bit user code, 40 to 4F.
pub is_prefetch_iff :
    {W : Type 0} (k : Kernel W) (r : Regs) (e : ErrorCode) (w : W)
    → (is_prefetch k r e w ≡ true)
      ↔ (e.instr ≡ false)
        × ((k.user_mode r && leb k.task_size_max (k.convert_ip_to_linear r w)) ≡ false)
        × (j : ℕ) × (j < u64 (k.convert_ip_to_linear r w + 15) - k.convert_ip_to_linear r w)
        × PrefetchAt k r w j (k.convert_ip_to_linear r w)
unfolding is_prefetch
is_prefetch_iff k r e w =
    let instr = k.convert_ip_to_linear r w in
    let n = u64 (instr + 15) - instr in
    (
      λ h.
          let (j, lt, at) = scan-PrefetchAt k r w n instr (ground arith) in
          (ground arith, ground arith, j, lt, at),
      λ (a, b, j, lt, p). rw (a, b) (PrefetchAt-scan k r w n j instr lt p),
    )
