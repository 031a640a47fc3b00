-- ===== src/Lkm/Sys/Show.antt =====
-- What a read of the sysfs file gives: every slot in use, and no more than a page.
use mathlib.Core.List.{Memᴰ}
use native.Mathlib.Nat.{zero-add, add-zero, add-suc, suc-add}
use mathlib.Core.Path.{fun_ext}
use native.Mathlib.Decide.{dec_lt}
use userspace_bypass.Prelude.{
  Bool, if◌then◌else◌, ℕ, zero, suc, ◌+◌, ◌*◌, ◌≤◌, ◌<◌, ◌≡◌, refl, sym, true, false, arith, List,
  ◌∷◌, length, Bool-cases, inl, inr, ap, ◌↔◌, ◌∙◌,
}
use userspace_bypass.Lkm.Hash.{max_exe}
use userspace_bypass.Lkm.Exe.{ExeInfo, ExeTable}
use userspace_bypass.Lkm.Exe.Used.{is_used, used, one_if}
use userspace_bypass.Lkm.Exe.Add.{IsSound}
use userspace_bypass.Lkm.Sys.{sizeof_exe_info, show_from, sysfs_show}

-- `used` from the front, as the loop goes.
used_front :
    (n i : ℕ) (f : ℕ → ExeInfo)
    → used (suc n) (λ j. f (i + j)) ≡ one_if (is_used (f i)) + used n (λ j. f (suc i + j))
unfolding used
used_front zero i f = rw (add-zero) (ground arith)
used_front (suc n) i f = ground (arith, used_front n i f, add-suc i n, suc-add i n)

length-show_from : (n i : ℕ) (f : ℕ → ExeInfo) → length (show_from n i f) ≡ used n (λ j. f (i + j))
unfolding show_from
length-show_from zero i f = unfold used in refl
length-show_from (suc n) i f = ground (arith, used_front n i f, length-show_from n (suc i) f)

-- The entry is that of a slot in use, among the n slots from i.
abbrev pub InUse : ℕ → ℕ → (ℕ → ExeInfo) → ExeInfo → Type 0
InUse n i f e = (j : ℕ) × (i ≤ j) × (j < i + n) × (is_used (f j) ≡ true) × (f j ≡ e)

InUse-first :
    (n i : ℕ) (f : ℕ → ExeInfo) (e : ExeInfo) (rest : List ExeInfo) (b : Bool)
    → is_used (f i) ≡ b
    → (Memᴰ e rest → InUse n (suc i) f e)
    → Memᴰ e (if b then f i ∷ rest else rest)
    → InUse (suc n) i f e
InUse-first n i f e rest true u ih (Memᴰ.head q) = (i, omega arith, omega arith, u, sym q)
InUse-first n i f e rest true u ih (Memᴰ.tail k) =
    let (j, lo, hi, v, q) = ih k in (j, omega arith, omega arith, v, q)
InUse-first n i f e rest false u ih k =
    let (j, lo, hi, v, q) = ih k in (j, omega arith, omega arith, v, q)

mem-show_from : (n i : ℕ) (f : ℕ → ExeInfo) (e : ExeInfo) → Memᴰ e (show_from n i f) → InUse n i f e
unfolding show_from
mem-show_from zero i f e m = elim m [ ]
mem-show_from (suc n) i f e m =
    InUse-first n i f e (show_from n (suc i) f) (is_used (f i)) refl (mem-show_from n (suc i) f e) m

show_from-mem :
    (n i j : ℕ) (f : ℕ → ExeInfo)
    → i ≤ j
    → j < i + n
    → is_used (f j) ≡ true
    → Memᴰ (f j) (show_from n i f)
unfolding show_from
show_from-mem zero i j f lo hi u = absurd (omega arith)
show_from-mem (suc n) i j f lo hi u = elim (dec_lt i j) [
  | yes p ↦ elim (Bool-cases (is_used (f i))) [
    | inl v ↦ rw v (Memᴰ.tail (show_from-mem n (suc i) j f p (omega arith) u))
    | inr v ↦ rw v (show_from-mem n (suc i) j f p (omega arith) u)
  ]
  | no p ↦ let e : j ≡ i = omega arith in rw e (rw (rw e at u) (Memᴰ.head refl))
]

-- A read of the file gives exactly the slots in use, 56 bytes each, and at most a page from a sound
-- table.
pub sysfs_show_lem :
    (t : ExeTable) (stat_flag : ℕ)
    → IsSound t
    → ((sysfs_show t stat_flag).1 ≤ 4096)
      × ((sysfs_show t stat_flag).1 ≡ sizeof_exe_info * used max_exe t.exes)
      × ((e : ExeInfo) → Memᴰ e (sysfs_show t stat_flag).0 ↔ InUse max_exe 0 t.exes e)
unfolding sysfs_show
sysfs_show_lem t stat_flag s = (
  omega (arith, len, s.counted, s.capped),
  omega (arith, len),
  λ e. (mem-show_from max_exe 0 t.exes e, back e),
)
  where
    len : length (show_from max_exe 0 t.exes) ≡ used max_exe t.exes
    len =
        length-show_from max_exe 0 t.exes
        ∙ ap (used max_exe) (fun_ext (λ j. ap t.exes (zero-add j)))

    back : (e : ExeInfo) → InUse max_exe 0 t.exes e → Memᴰ e (show_from max_exe 0 t.exes)
    back e (j, lo, hi, u, q) = rw q at (show_from-mem max_exe 0 j t.exes lo hi u)
