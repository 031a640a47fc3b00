-- ===== src/Daemon/Check/History.antt =====
-- What the daemon has done over any number of passes.
use mathlib.Core.Option.{some-injective, none-ne-some}
use native.Mathlib.Decide.{dec_lt}
use userspace_bypass.Prelude.{
  ◌≢◌, true, ℕ, zero, suc, ◌≤◌, ◌<◌, ◌≡◌, refl, ◌∙◌, arith, false, Option, none, some, List, [],
  ◌∷◌, ltb, ltb→lt, update, length, inl, inr, Bool-cases, Option-cases, take,
}
use userspace_bypass.Lkm.Exe.{ExeInfo}
use userspace_bypass.Lkm.Sys.{Write}
use userspace_bypass.Daemon.Check.{
  Effect, warn, run, compile, write, Daemon, start, max_records, max_cmd_hist, in_first, in_records,
  in_hist, same_text, warn_once, run_new, push_writes, Files, send_writes, send, command, boost,
  check_one, check_all, check, main_from, main_loop,
}

-- The commands run and the sites warned about, the latest first.
abbrev pub runs : List Effect → List (List ℕ)
runs [] = []
runs (run cmd ∷ es) = cmd ∷ runs es
runs (warn ip ∷ es) = runs es
runs (compile pid rip ∷ es) = runs es
runs (write w ∷ es) = runs es

abbrev pub warns : List Effect → List ℕ
warns [] = []
warns (run cmd ∷ es) = warns es
warns (warn ip ∷ es) = ip ∷ warns es
warns (compile pid rip ∷ es) = warns es
warns (write w ∷ es) = warns es

-- The first n records, the latest first.
abbrev pub recorded : ℕ → (ℕ → ℕ) → List ℕ
recorded zero f = []
recorded (suc n) f = f n ∷ recorded n f

-- No command stands twice in the list, and no record among the first n.
abbrev AllNew : List (List ℕ) → Type 0
AllNew [] = Unit {0}
AllNew (c ∷ cs) = (in_hist c cs ≡ false) × AllNew cs

abbrev AllDistinct : ℕ → (ℕ → ℕ) → Type 0
AllDistinct zero f = Unit {0}
AllDistinct (suc n) f = (in_first n (f n) f ≡ false) × AllDistinct n f

record IsTracked (d : Daemon) : Type 0 where
  pub ran : runs d.done ≡ d.cmd_hist
  pub new : AllNew d.cmd_hist
  pub room : length d.cmd_hist ≤ max_cmd_hist
  pub warned : warns d.done ≡ recorded d.cnts d.records
  pub distinct : AllDistinct d.cnts d.records
  pub fits : d.cnts ≤ max_records

start-IsTracked : IsTracked start
unfolding start
start-IsTracked = ground arith

update_self : (k v : ℕ) (f : ℕ → ℕ) → update f k v k ≡ v
update_self k v f = ground arith

in_first-update :
    (n k ip v : ℕ) (f : ℕ → ℕ) → n ≤ k → in_first n ip (update f k v) ≡ in_first n ip f
unfolding in_first
in_first-update zero k ip v f h = refl
in_first-update (suc n) k ip v f h = ground (arith, in_first-update n k ip v f)

in_first_mono : (m n ip : ℕ) (f : ℕ → ℕ) → n ≤ m → in_first m ip f ≡ false → in_first n ip f ≡ false
unfolding in_first
in_first_mono zero zero ip f h e = e
in_first_mono zero (suc n) ip f h e = absurd (omega arith)
in_first_mono (suc m) n ip f h e = elim (dec_lt m n) [
  | yes top ↦ let q : n ≡ suc m = omega arith in rw q e
  | no below ↦ in_first_mono m n ip f (omega arith) (ground arith)
]

recorded-update : (n k v : ℕ) (f : ℕ → ℕ) → n ≤ k → recorded n (update f k v) ≡ recorded n f
recorded-update zero k v f h = refl
recorded-update (suc n) k v f h = ground (arith, recorded-update n k v f)

AllDistinct-update :
    (n k v : ℕ) (f : ℕ → ℕ) → n ≤ k → AllDistinct n f → AllDistinct n (update f k v)
AllDistinct-update zero k v f h d = tt
AllDistinct-update (suc n) k v f h d =
    ground (arith, AllDistinct-update n k v f, in_first-update n k (f n) v f)

add_record-IsTracked :
    (ip : ℕ) (d : Daemon)
    → IsTracked d
    → in_first max_records ip d.records ≡ false
    → d.cnts < max_records
    → IsTracked (record d {
      records = update d.records d.cnts ip;
      cnts = suc d.cnts;
      done = warn ip ∷ d.done;
    })
add_record-IsTracked ip d t fresh lt = record {
  ran = t.ran;
  new = t.new;
  room = t.room;
  warned = ground (arith, t.warned, recorded-update d.cnts d.cnts ip d.records);
  distinct = (
    rw (update_self d.cnts ip d.records) (
        in_first-update d.cnts d.cnts ip ip d.records (omega arith)
        ∙ in_first_mono max_records d.cnts ip d.records (omega arith) fresh),
    AllDistinct-update d.cnts d.cnts ip d.records (omega arith) t.distinct,
  );
  fits = omega arith;
}

warn_once-IsTracked :
    (ip : ℕ) (d d' : Daemon) → IsTracked d → warn_once ip d ≡ some d' → IsTracked d'
unfolding warn_once in_records
warn_once-IsTracked ip d d' t e = elim (Bool-cases (in_first max_records ip d.records)) [
  | inl old ↦ let q : d ≡ d' = ground arith in rw q at t
  | inr fresh ↦ elim (Bool-cases (ltb d.cnts max_records)) [
    | inr full ↦ absurd (none-ne-some _ (rw (fresh, full, warn_once) at e))
    | inl room ↦
        rw (some-injective _ _ (rw (fresh, room, warn_once) at e)) at
          (add_record-IsTracked ip d t fresh (ltb→lt _ _ room))
  ]
]

run_new-IsTracked :
    (cmd : List ℕ) (e : ExeInfo) (d d' : Daemon)
    → IsTracked d
    → run_new cmd e d ≡ some d'
    → IsTracked d'
unfolding run_new
run_new-IsTracked cmd e d d' t h = ground arith

push_writes-IsTracked : (ws : List Write) (d : Daemon) → IsTracked d → IsTracked (push_writes ws d)
unfolding push_writes
push_writes-IsTracked [] d t = t
push_writes-IsTracked (w ∷ ws) d t = push_writes-IsTracked ws _ (ground arith)

send_writes-IsTracked :
    (ws : Option (List Write)) (d d' : Daemon)
    → IsTracked d
    → send_writes ws d ≡ some d'
    → IsTracked d'
unfolding send_writes
send_writes-IsTracked none d d' t e = absurd (none-ne-some _ e)
send_writes-IsTracked (some ws) d d' t e =
    rw (some-injective _ _ e) at (push_writes-IsTracked ws d t)

boost-IsTracked :
    (files : Files) (cmd : Option (List ℕ)) (e : ExeInfo) (d d' : Daemon)
    → IsTracked d
    → boost files cmd e d ≡ some d'
    → IsTracked d'
unfolding boost send
boost-IsTracked files none e d d' t q = rw (some-injective _ _ q) at t
boost-IsTracked files (some cmd) e d d' t q = elim (Option-cases (run_new cmd e d)) [
  | inl f ↦ absurd (none-ne-some _ (rw (f, send) at q))
  | inr (k, f) ↦ send_writes-IsTracked _ k d' (run_new-IsTracked cmd e d k t f) (rw (f, send) at q)
]

check_one-IsTracked :
    (files : Files) (e : ExeInfo) (d d' : Daemon)
    → IsTracked d
    → check_one files e d ≡ some d'
    → IsTracked d'
unfolding check_one
check_one-IsTracked files e d d' t q =
    ground (arith, warn_once-IsTracked e.rip d d' t, boost-IsTracked files (command e) e d d' t)

check_all-IsTracked :
    (files : Files) (es : List ExeInfo) (d d' : Daemon)
    → IsTracked d
    → check_all files es d ≡ some d'
    → IsTracked d'
unfolding check_all
check_all-IsTracked files [] d d' t q = rw (some-injective _ _ q) at t
check_all-IsTracked files (e ∷ es) d d' t q = elim (Option-cases (check_one files e d)) [
  | inl f ↦ absurd (none-ne-some _ (rw (f, check_all) at q))
  | inr (k, f) ↦
      check_all-IsTracked files es k d' (check_one-IsTracked files e d k t f)
        (rw (f, check_all) at q)
]

main_from-IsTracked :
    (files : Files) (passes : List (List ExeInfo)) (d d' : Daemon)
    → IsTracked d
    → main_from files passes d ≡ some d'
    → IsTracked d'
unfolding main_from check
main_from-IsTracked files [] d d' t q = rw (some-injective _ _ q) at t
main_from-IsTracked files (es ∷ passes) d d' t q = elim (Option-cases (check files es d)) [
  | inl f ↦ absurd (none-ne-some _ (rw (f, main_from) at q))
  | inr (k, f) ↦
      main_from-IsTracked files passes k d' (check_all-IsTracked files (take 73 es) d k t f)
        (rw (f, main_from) at q)
]

-- O-- An element that a list does not have, and a list that has none twice.
abbrev pub IsUnseen : {A : Type 0} → A → List A → Type 0
IsUnseen x [] = Unit {0}
IsUnseen x (y ∷ ys) = (x ≢ y) × IsUnseen x ys

abbrev pub HasNoTwice : {A : Type 0} → List A → Type 0
HasNoTwice [] = Unit {0}
HasNoTwice (x ∷ xs) = IsUnseen x xs × HasNoTwice xs

-- What has been done, by the effects, and what the arrays hold of it.
pub record HasNoRepeats (d : Daemon) : Type 0 where
  pub ran_once : HasNoTwice (runs d.done)
  pub warned_once : HasNoTwice (warns d.done)
  pub ran : runs d.done ≡ d.cmd_hist
  pub warned : warns d.done ≡ recorded d.cnts d.records
  pub room : length d.cmd_hist ≤ max_cmd_hist
  pub fits : d.cnts ≤ max_records

same_text_refl : (xs : List ℕ) → same_text xs xs ≡ true
unfolding same_text
same_text_refl [] = refl
same_text_refl (x ∷ xs) = ground (arith, same_text_refl xs)

same_text-≢ : (xs ys : List ℕ) → same_text xs ys ≡ false → xs ≢ ys
same_text-≢ xs ys h e = let same : same_text xs ys ≡ true = rw (← e) (same_text_refl xs) in cc

in_hist-IsUnseen : (c : List ℕ) (hs : List (List ℕ)) → in_hist c hs ≡ false → IsUnseen c hs
unfolding in_hist
in_hist-IsUnseen c [] h = tt
in_hist-IsUnseen c (y ∷ ys) h =
    (same_text-≢ c y (ground arith), in_hist-IsUnseen c ys (ground arith))

in_first-IsUnseen : (n ip : ℕ) (f : ℕ → ℕ) → in_first n ip f ≡ false → IsUnseen ip (recorded n f)
unfolding in_first
in_first-IsUnseen zero ip f h = tt
in_first-IsUnseen (suc n) ip f h = (ground arith, in_first-IsUnseen n ip f (ground arith))

AllNew-HasNoTwice : (cs : List (List ℕ)) → AllNew cs → HasNoTwice cs
AllNew-HasNoTwice [] h = tt
AllNew-HasNoTwice (c ∷ cs) h = (in_hist-IsUnseen c cs h.0, AllNew-HasNoTwice cs h.1)

AllDistinct-HasNoTwice : (n : ℕ) (f : ℕ → ℕ) → AllDistinct n f → HasNoTwice (recorded n f)
AllDistinct-HasNoTwice zero f h = tt
AllDistinct-HasNoTwice (suc n) f h =
    (in_first-IsUnseen n (f n) f h.0, AllDistinct-HasNoTwice n f h.1)

IsTracked-HasNoRepeats : (d : Daemon) → IsTracked d → HasNoRepeats d
IsTracked-HasNoRepeats d t = record {
  ran_once = rw (t.ran) (AllNew-HasNoTwice d.cmd_hist t.new);
  warned_once = rw (t.warned) (AllDistinct-HasNoTwice d.cnts d.records t.distinct);
  ran = t.ran;
  warned = t.warned;
  room = t.room;
  fits = t.fits;
}

-- Over any passes of the daemon that do not fault, no two commands that are run are equal, nor are two
-- sites that are warned about, cmd_hist and records are exactly what was run and warned about, and
-- neither array is overrun.
pub main_loop-HasNoRepeats :
    (files : Files) (passes : List (List ExeInfo)) (d : Daemon)
    → main_loop files passes ≡ some d
    → HasNoRepeats d
unfolding main_loop
main_loop-HasNoRepeats files passes d q =
    IsTracked-HasNoRepeats d (main_from-IsTracked files passes start d start-IsTracked q)
