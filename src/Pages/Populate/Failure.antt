-- ===== src/Pages/Populate/Failure.antt =====
-- What a failed allocation does to a mapping into another pgd.
use userspace_bypass.Prelude.{
  ℕ, ◌+◌, ◌-◌, ◌*◌, ◌/◌, ◌%◌, ◌^◌, ◌≡◌, ◌<◌, refl, true, false, none, some, arith, u32,
  if◌then◌else◌, ltb, ◌==◌,
}
use userspace_bypass.Pages.{Prot, e_none, e_table, Tables, vpn, masked}
use userspace_bypass.Pages.Cpa.{
  Cpa, Mem, Platform, success, Pgd, no_pgd, init_mm_pgd, other_pgd, tables_of, put_tables,
}
use userspace_bypass.Pages.Populate.{
  and_then, new_pmd_page, alloc_table, change_tables, need_table, need_pte_page, need_pmd_page,
  need_pud_page, populate_small, populate_pmd_rest, populate_pmd, populate_puds, add_pages,
  populate_pud_left, populate_pud_rest, populate_pud, populate_result, map_in_pud, populate_pgd,
}

tables_of-put_tables : (g : Pgd) (t : Tables) (m : Mem) → tables_of g (put_tables g t m) ≡ t
unfolding tables_of put_tables
tables_of-put_tables no_pgd t m = refl
tables_of-put_tables init_mm_pgd t m = refl
tables_of-put_tables other_pgd t m = refl

asked-put_tables : (g : Pgd) (t : Tables) (m : Mem) → (put_tables g t m).asked ≡ m.asked
unfolding put_tables
asked-put_tables no_pgd t m = refl
asked-put_tables init_mm_pgd t m = refl
asked-put_tables other_pgd t m = refl

-- The memory with a new, empty table of pmds, and then one request for memory more.
abbrev pub with_pmds : ℕ → Cpa → Mem → Mem
with_pmds u c m =
    put_tables c.pgd (new_pmd_page u (tables_of c.pgd (record m { asked = m.asked + 1 })))
      (record m { asked = m.asked + 1 })

abbrev pub asked_again : Mem → Mem
asked_again m = record m { asked = m.asked + 1 }

new_pmd_page-empty :
    (u : ℕ) (t : Tables) (d : ℕ) → d / 2 ^ 9 ≡ u → (new_pmd_page u t).pmd d ≡ e_none
unfolding new_pmd_page
new_pmd_page-empty u t d h = let r : (d / 2 ^ 9 == u) ≡ true = ground arith in rw r

-- There is no page for the ptes.
populate_small-fails :
    (p : Platform) (start end n : ℕ) (prot : Prot) (total : ℕ) (c : Cpa) (m : Mem)
    → (tables_of c.pgd m).pmd (vpn start / 2 ^ 9) ≡ e_none
    → p.alloc m.asked ≡ false
    → populate_small p start end n prot total c m
      ≡ some (record { ret = none; cpa = c; mem = asked_again m })
unfolding populate_small and_then need_pte_page need_table alloc_table
populate_small-fails p start end n prot total c m h l = rw (h, l)

populate_pmd-fails :
    (p : Platform) (start n : ℕ) (prot : Prot) (c : Cpa) (m : Mem)
    → start % 2 ^ 21 ≡ 0
    → 0 < n
    → n < 512
    → (tables_of c.pgd m).pmd (vpn start / 2 ^ 9) ≡ e_none
    → p.alloc m.asked ≡ false
    → populate_pmd p start (start + n * 4096) n prot c m
      ≡ some (record { ret = none; cpa = c; mem = asked_again m })
unfolding populate_pmd populate_pmd_rest
populate_pmd-fails p start n prot c m line some_pages few h l =
    let aligned : (start % 2 ^ 21 == 0) ≡ true = ground arith in
    let more : (n == 0) ≡ false = ground arith in
    let no_chunk : (start + n * 4096 - start) / 2 ^ 21 ≡ 0 = omega arith in
    let first : start + 0 * 2 ^ 21 ≡ start = omega arith in
    let left : ltb start (start + n * 4096) ≡ true = ground arith in
    let fails =
      populate_small-fails p start (start + n * 4096) (u32 (n + 2 ^ 32 - 0)) prot n c m h l in
    rw (aligned, more, no_chunk, first, left, fails)

-- From a boundary of 1G on, with the table of pmds still to be made.
populate_pud-fails :
    (p : Platform) (start : ℕ) (prot : Prot) (c : Cpa) (m : Mem)
    → start % 2 ^ 30 ≡ 0
    → 0 < c.numpages
    → c.numpages < 512
    → (tables_of c.pgd m).pud (vpn start / 2 ^ 18) ≡ e_none
    → p.alloc m.asked ≡ true
    → p.alloc (m.asked + 1) ≡ false
    → populate_pud p start prot c m
      ≡ some
          (record { ret = some 0; cpa = c; mem = asked_again (with_pmds (vpn start / 2 ^ 18) c m) })
unfolding populate_pud populate_pud_rest populate_pud_left populate_puds need_pmd_page need_table
    alloc_table change_tables and_then add_pages
populate_pud-fails p start prot c m line some_pages few h given refused =
    let n = c.numpages in
    let u = vpn start / 2 ^ 18 in
    let asked_once = record m { asked = m.asked + 1 } in
    let table = new_pmd_page u (tables_of c.pgd asked_once) in
    let fresh = with_pmds u c m in
    let aligned : (start % 2 ^ 30 == 0) ≡ true = ground arith in
    let more : (n == 0) ≡ false = ground arith in
    let no_chunk : (if p.has_gbpages then (start + n * 4096 - start) / 2 ^ 30 else 0) ≡ 0 =
      ground arith in
    let first : start + 0 * 2 ^ 30 ≡ start = omega arith in
    let left : ltb start (start + n * 4096) ≡ true = ground arith in
    let word : u32 (n + 2 ^ 32 - 0) ≡ n = omega arith in
    let fails =
      populate_pmd-fails p start n prot c fresh (omega (arith, line)) some_pages few
        (rw (tables_of-put_tables c.pgd table asked_once)
          (new_pmd_page-empty u (tables_of c.pgd asked_once) (vpn start / 2 ^ 9) (omega arith)))
        (rw (asked-put_tables c.pgd table asked_once) refused) in
    rw (aligned, more, no_chunk, first, left, h, given, word, fails)

-- What the mapping needs: a boundary of 1G, at most 511 pages, a table of puds, no table of pmds, memory
-- for that table and none for the next.
pub record IsShort (p : Platform) (start : ℕ) (c : Cpa) (m : Mem) : Type 0 where
  pub pgd : c.pgd ≡ other_pgd
  pub aligned : start % 2 ^ 30 ≡ 0
  pub some_pages : 0 < c.numpages
  pub few_pages : c.numpages < 512
  pub p4d : m.other.p4d (vpn start / 2 ^ 27) ≡ e_table
  pub pud : m.other.pud (vpn start / 2 ^ 18) ≡ e_none
  pub given : p.alloc m.asked ≡ true
  pub refused : p.alloc (m.asked + 1) ≡ false

pub tables_of-other : (g : Pgd) (m : Mem) → g ≡ other_pgd → tables_of g m ≡ m.other
unfolding tables_of
tables_of-other g m h = rw h

-- populate_pgd then says that it mapped no page, and that it did not fail.
pub populate_pgd-fails :
    (p : Platform) (start : ℕ) (c : Cpa) (m : Mem)
    → IsShort p start c m
    → populate_pgd p start c m
      ≡ some (record {
        ret = success;
        cpa = record c { numpages = 0 };
        mem = asked_again (with_pmds (vpn start / 2 ^ 18) c m);
      })
unfolding populate_pgd map_in_pud need_pud_page need_table populate_result
populate_pgd-fails p start c m s =
    let other = tables_of-other c.pgd m s.pgd in
    let table : (tables_of c.pgd m).p4d (vpn start / 2 ^ 27) ≡ e_table = rw other s.p4d in
    let prot = masked c.mask_clr c.mask_set p.kernpg_table in
    let fails =
      populate_pud-fails p start prot c m s.aligned s.some_pages s.few_pages (rw other s.pud)
        s.given s.refused in
    rw (table, fails)
