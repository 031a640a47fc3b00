-- ===== src/Pages/Unmap.antt =====
-- Taking mappings away again: unmap_pud_range and what it calls, for the error path of populate_pgd. A
-- walk through an entry that is no table, which reads and writes memory that is none, is `none`.
use userspace_bypass.Prelude.{
  ℕ, zero, suc, ◌+◌, ◌*◌, ◌-◌, ◌/◌, ◌^◌, ◌%◌, Bool, true, false, ◌&&◌, not, Option, none, some, ltb,
  ◌==◌, if◌then◌else◌, update,
}
use userspace_bypass.Pages.{Leaf, Entry, e_none, e_leaf, e_table, Tables, vpn}

-- The tables of the pgd, and how many were freed.
pub record Area : Type 0 where
  pub tables : Tables
  pub freed : ℕ

infixl 20 ◌>>=◌
abbrev pub ◌>>=◌ {ℓ ℓ'} : {A : Type ℓ} {B : Type ℓ'} → Option A → (A → Option B) → Option B
none >>= f = none
some a >>= f = f a

unfoldable pub is_none : Entry → Bool
is_none e_none = true
is_none _ = false

unfoldable pub is_table : Entry → Bool
is_table e_table = true
is_table _ = false

-- pmd_large, pud_large.
unfoldable pub is_large : Entry → Bool
is_large (e_leaf l) = l.prot.pse
is_large _ = false

unfoldable pub pte_none : Option Leaf → Bool
pte_none none = true
pte_none (some l) = false

-- Whether the n entries from index i on are all zero.
unfoldable pub all_zero : {A : Type 0} → (A → Bool) → (ℕ → A) → ℕ → ℕ → Bool
all_zero test f i zero = true
all_zero test f i (suc n) = test (f i) && all_zero test f (i + 1) n

unfoldable pub try_to_free_pte_page : ℕ → Area → Bool
unfolding all_zero pte_none
try_to_free_pte_page d a = all_zero pte_none a.tables.pte (d * 512) 512

unfoldable pub try_to_free_pmd_page : ℕ → Area → Bool
unfolding all_zero is_none
try_to_free_pmd_page u a = all_zero is_none a.tables.pmd (u * 512) 512

unfoldable pub clear_ptes : ℕ → ℕ → (ℕ → Option Leaf) → ℕ → Option Leaf
clear_ptes zero v f = f
clear_ptes (suc n) v f = clear_ptes n (v + 1) (update f v none)

unfoldable pub pmd_clear : ℕ → Area → Area
pmd_clear d a = record a { tables = record (a.tables) { pmd = update a.tables.pmd d e_none } }

unfoldable pub pud_clear : ℕ → Area → Area
pud_clear u a = record a { tables = record (a.tables) { pud = update a.tables.pud u e_none } }

unfoldable pub free_page : Area → Area
free_page a = record a { freed = a.freed + 1 }

-- The flag tells whether the table of ptes was freed.
unfoldable pub unmap_pte_range : ℕ → ℕ → Area → Option (Bool × Area)
unfolding is_table vpn clear_ptes try_to_free_pte_page free_page pmd_clear
unmap_pte_range start end a =
    let v = vpn start in
    let d = v / 2 ^ 9 in
    let b = record a {
      tables = record (a.tables) { pte = clear_ptes ((end - start + 4095) / 4096) v a.tables.pte };
    } in
    if not (is_table (a.tables.pmd d))
    then none
    else if try_to_free_pte_page d b
    then some (true, pmd_clear d (free_page b))
    else some (false, b)

unfoldable pub free_pmd_page : ℕ → Area → Area
unfolding try_to_free_pmd_page pud_clear free_page
free_pmd_page u a = if try_to_free_pmd_page u a then pud_clear u (free_page a) else a

-- __unmap_pmd_range.
unfoldable pub unmap_pmd_part : ℕ → ℕ → Area → Option Area
unfolding unmap_pte_range free_pmd_page vpn
unmap_pmd_part start end a = do
  r ← unmap_pte_range start end a
  some (if r.0 then free_pmd_page (vpn start / 2 ^ 18) r.1 else r.1)

-- One round of the loop over 2M chunks.
unfoldable pub unmap_pmd_chunk : ℕ → Area → Option Area
unfolding is_large vpn pmd_clear unmap_pmd_part
unmap_pmd_chunk start a =
    let d = vpn start / 2 ^ 9 in
    if is_large (a.tables.pmd d)
    then some (pmd_clear d a)
    else unmap_pmd_part start (start + 2 ^ 21) a

unfoldable pub unmap_pmd_chunks : ℕ → ℕ → Area → Option Area
unfolding unmap_pmd_chunk
unmap_pmd_chunks zero start a = some a
unmap_pmd_chunks (suc n) start a = do
  b ← unmap_pmd_chunk start a
  unmap_pmd_chunks n (start + 2 ^ 21) b

-- The end of the part of a range before the next multiple of `size`.
unfoldable pub pre_end : ℕ → ℕ → ℕ → ℕ
pre_end size start end =
    let next_page = (start + size) / size * size in if ltb end next_page then end else next_page

unfoldable pub unmap_pmd_left : ℕ → ℕ → ℕ → Area → Option Area
unfolding unmap_pmd_part is_none free_pmd_page
unmap_pmd_left u left end b =
    if ltb left end
    then unmap_pmd_part left end b
    else some (if is_none (b.tables.pud u) then b else free_pmd_page u b)

-- From a boundary of 2M on: chunks, then what is left over.
unfoldable pub unmap_pmd_rest : ℕ → ℕ → ℕ → Area → Option Area
unfolding unmap_pmd_chunks unmap_pmd_left
unmap_pmd_rest u start end a = do
  b ← unmap_pmd_chunks ((end - start) / 2 ^ 21) start a
  unmap_pmd_left u (start + (end - start) / 2 ^ 21 * 2 ^ 21) end b

unfoldable pub unmap_pmd_range : ℕ → ℕ → Area → Option Area
unfolding is_table vpn pre_end unmap_pmd_part unmap_pmd_rest
unmap_pmd_range start end a =
    let u = vpn start / 2 ^ 18 in
    if not (is_table (a.tables.pud u))
    then none
    else if start % 2 ^ 21 == 0
    then unmap_pmd_rest u start end a
    else do
      b ← unmap_pmd_part start (pre_end (2 ^ 21) start end) a
      unmap_pmd_rest u (pre_end (2 ^ 21) start end) end b

unfoldable pub unmap_pud_chunk : ℕ → Area → Option Area
unfolding is_large vpn pud_clear unmap_pmd_range
unmap_pud_chunk start a =
    let u = vpn start / 2 ^ 18 in
    if is_large (a.tables.pud u)
    then some (pud_clear u a)
    else unmap_pmd_range start (start + 2 ^ 30) a

unfoldable pub unmap_pud_chunks : ℕ → ℕ → Area → Option Area
unfolding unmap_pud_chunk
unmap_pud_chunks zero start a = some a
unmap_pud_chunks (suc n) start a = do
  b ← unmap_pud_chunk start a
  unmap_pud_chunks n (start + 2 ^ 30) b

unfoldable pub unmap_pud_left : ℕ → ℕ → Area → Option Area
unfolding unmap_pmd_range
unmap_pud_left left end b = if ltb left end then unmap_pmd_range left end b else some b

unfoldable pub unmap_pud_rest : ℕ → ℕ → Area → Option Area
unfolding unmap_pud_chunks unmap_pud_left
unmap_pud_rest start end a = do
  b ← unmap_pud_chunks ((end - start) / 2 ^ 30) start a
  unmap_pud_left (start + (end - start) / 2 ^ 30 * 2 ^ 30) end b

unfoldable pub unmap_pud_range : ℕ → ℕ → Area → Option Area
unfolding pre_end unmap_pmd_range unmap_pud_rest
unmap_pud_range start end a = if start % 2 ^ 30 == 0 then unmap_pud_rest start end a else do
  b ← unmap_pmd_range start (pre_end (2 ^ 30) start end) a
  unmap_pud_rest (pre_end (2 ^ 30) start end) end b
