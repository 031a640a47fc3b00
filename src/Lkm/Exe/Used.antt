-- ===== src/Lkm/Exe/Used.antt =====
-- How many slots are in use.
use userspace_bypass.Prelude.{
  ℕ, zero, suc, ◌+◌, ◌≤◌, ◌<◌, ◌≡◌, refl, ◌==◌, if◌then◌else◌, not, arith, update, Bool, true,
  false,
}
use userspace_bypass.Lkm.Hash.{max_exe}
use userspace_bypass.Lkm.Exe.{ExeInfo, un_used, get_exe}

unfoldable pub is_used : ExeInfo → Bool
is_used e = not (e.status_code == un_used)

-- The slots in use among the first n.
unfoldable pub used : ℕ → (ℕ → ExeInfo) → ℕ
unfolding is_used
used zero f = 0
used (suc n) f = let rest = used n f in if is_used (f n) then suc rest else rest

pub get_exe-lt : (pid ip : ℕ) → get_exe pid ip < max_exe
unfolding get_exe
get_exe-lt pid ip = omega arith

abbrev pub one_if : Bool → ℕ
one_if true = 1
one_if false = 0

used-update_above :
    (n : ℕ) (f : ℕ → ExeInfo) (i : ℕ) (v : ExeInfo) → n ≤ i → used n (update f i v) ≡ used n f
unfolding used
used-update_above zero f i v h = refl
used-update_above (suc n) f i v h = ground (arith, used-update_above n f i v)

-- A write to one slot moves the count by what that slot was and became.
pub used-update :
    (n : ℕ) (f : ℕ → ExeInfo) (i : ℕ) (v : ExeInfo)
    → i < n
    → used n (update f i v) + one_if (is_used (f i)) ≡ used n f + one_if (is_used v)
unfolding used
used-update zero f i v h = elim h [ ]
used-update (suc n) f i v h = ground (arith, used-update n f i v, used-update_above n f i v)

pub one_if-le : (b : Bool) → one_if b ≤ 1
one_if-le true = omega arith
one_if-le false = omega arith
