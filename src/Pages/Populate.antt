-- ===== src/Pages/Populate.antt =====
-- Mapping pages that are not mapped, into the pgd that a caller brings: populate_pgd and what it calls.
pub mod Failure
use userspace_bypass.Prelude.{
  ℕ, zero, suc, ◌+◌, ◌*◌, ◌-◌, ◌/◌, ◌^◌, ◌%◌, true, Option, none, some, ltb, ◌==◌, if◌then◌else◌,
  u32, update,
}
use userspace_bypass.Pages.{
  Prot, Level, Leaf, Entry, e_none, e_leaf, e_table, Tables, level_2m, level_1g, set_leaf, vpn,
  without_pse, masked, pgprot_clear_protnone_bits,
}
use userspace_bypass.Pages.Cpa.{Cpa, Mem, Platform, Out, success, eperm, tables_of, put_tables}
use userspace_bypass.Pages.Unmap.{◌>>=◌, pre_end, unmap_pud_range}

-- A function's result: the pages that it mapped, or -1 as `none`.
pub record Populated : Type 0 where
  pub ret : Option ℕ
  pub cpa : Cpa
  pub mem : Mem

-- The way on after a step that did not fail; a walk through an entry that is no table is `none`.
unfoldable pub and_then : Option Populated → (ℕ → Cpa → Mem → Option Populated) → Option Populated
and_then none f = none
and_then (some s) f = elim s.ret [ none ↦ some s | some n ↦ f n s.cpa s.mem ]

unfoldable pub lesser : ℕ → ℕ → ℕ
lesser a b = if ltb a b then a else b

unfoldable pub change_tables : (Tables → Tables) → Cpa → Mem → Mem
unfolding tables_of put_tables
change_tables f c m = put_tables c.pgd (f (tables_of c.pgd m)) m

unfoldable pub new_pte_page : ℕ → Tables → Tables
new_pte_page d t = record t {
  pmd = update t.pmd d e_table;
  pte = λ w. if w / 2 ^ 9 == d then none else t.pte w;
}

unfoldable pub new_pmd_page : ℕ → Tables → Tables
new_pmd_page u t = record t {
  pud = update t.pud u e_table;
  pmd = λ d. if d / 2 ^ 9 == u then e_none else t.pmd d;
}

unfoldable pub new_pud_page : ℕ → Tables → Tables
new_pud_page q t = record t {
  p4d = update t.p4d q e_table;
  pud = λ u. if u / 2 ^ 9 == q then e_none else t.pud u;
}

-- get_zeroed_page for a table, hung up by `f` if there is a page.
unfoldable pub alloc_table : Platform → (Tables → Tables) → Cpa → Mem → Populated
unfolding change_tables
alloc_table p f c m =
    let n = record m { asked = m.asked + 1 } in
    if p.alloc m.asked
    then record { ret = some 0; cpa = c; mem = change_tables f c n }
    else record { ret = none; cpa = c; mem = n }

-- "Need a page?": alloc_pte_page, alloc_pmd_page or the page for a pud, if the entry `e` is zero.
unfoldable pub need_table : Platform → Entry → (Tables → Tables) → Cpa → Mem → Option Populated
unfolding alloc_table
need_table p e_none f c m = some (alloc_table p f c m)
need_table p e_table f c m = some (record { ret = some 0; cpa = c; mem = m })
need_table p (e_leaf l) f c m = none

unfoldable pub need_pte_page : Platform → ℕ → Cpa → Mem → Option Populated
unfolding tables_of need_table new_pte_page
need_pte_page p d c m = need_table p ((tables_of c.pgd m).pmd d) (new_pte_page d) c m

unfoldable pub need_pmd_page : Platform → ℕ → Cpa → Mem → Option Populated
unfolding tables_of need_table new_pmd_page
need_pmd_page p u c m = need_table p ((tables_of c.pgd m).pud u) (new_pmd_page u) c m

unfoldable pub need_pud_page : Platform → ℕ → Cpa → Mem → Option Populated
unfolding tables_of need_table new_pud_page
need_pud_page p q c m = need_table p ((tables_of c.pgd m).p4d q) (new_pud_page q) c m

unfoldable pub fill_ptes : ℕ → ℕ → ℕ → Prot → (ℕ → Option Leaf) → ℕ → Option Leaf
fill_ptes zero v pfn prot f = f
fill_ptes (suc n) v pfn prot f =
    fill_ptes n (v + 1) (pfn + 1) prot (update f v (some (record { pfn = pfn; prot = prot })))

unfoldable pub populate_pte : ℕ → ℕ → ℕ → Prot → Cpa → Mem → Cpa × Mem
unfolding lesser fill_ptes vpn pgprot_clear_protnone_bits change_tables
populate_pte start end num_pages pgprot c m =
    let n = lesser num_pages ((end - start + 4095) / 4096) in
    let prot = pgprot_clear_protnone_bits pgprot in
    (
      record c { pfn = c.pfn + n },
      change_tables (λ t. record t { pte = fill_ptes n (vpn start) c.pfn prot t.pte }) c m,
    )

-- A stretch of 4K pages within one table, with `total` as the result.
unfoldable pub populate_small : Platform → ℕ → ℕ → ℕ → Prot → ℕ → Cpa → Mem → Option Populated
unfolding and_then need_pte_page vpn populate_pte
populate_small p start end num_pages pgprot total c m =
    and_then (need_pte_page p (vpn start / 2 ^ 9) c m) (λ _ d n.
      let s = populate_pte start end num_pages pgprot d n in
      some (record { ret = some total; cpa = s.0; mem = s.1 }))

-- A leaf of `level` for the page of an address, at cpa->pfn, which moves on by `pages`.
unfoldable pub put_huge : Platform → Level → ℕ → ℕ → Prot → Cpa → Mem → Cpa × Mem
unfolding set_leaf vpn without_pse change_tables
put_huge p level pages start pgprot c m =
    let l : Leaf = record {
      pfn = c.pfn;
      prot = record (p.canon_pgprot (without_pse pgprot)) { pse = true };
    } in
    (record c { pfn = c.pfn + pages }, change_tables (set_leaf level (vpn start) l) c m)

unfoldable pub populate_pmds : Platform → ℕ → ℕ → Prot → ℕ → Cpa → Mem → Option Populated
unfolding and_then need_pmd_page put_huge vpn
populate_pmds p zero start pgprot cur_pages c m =
    some (record { ret = some cur_pages; cpa = c; mem = m })
populate_pmds p (suc k) start pgprot cur_pages c m =
    and_then (need_pmd_page p (vpn start / 2 ^ 18) c m) (λ _ d n.
      let s = put_huge p level_2m 512 start pgprot d n in
      populate_pmds p k (start + 2 ^ 21) pgprot (cur_pages + 512) s.0 s.1)

-- populate_pmd from a boundary of 2M on, or from the end of the range.
unfoldable pub populate_pmd_rest : Platform → ℕ → ℕ → ℕ → Prot → ℕ → Cpa → Mem → Option Populated
unfolding and_then populate_pmds populate_small
populate_pmd_rest p start end num_pages pgprot cur_pages c m =
    let k = (end - start) / 2 ^ 21 in
    let left = start + k * 2 ^ 21 in
    if num_pages == cur_pages
    then some (record { ret = some cur_pages; cpa = c; mem = m })
    else and_then (populate_pmds p k start pgprot cur_pages c m) (λ cur d n.
      if ltb left end
      then populate_small p left end (u32 (num_pages + 2 ^ 32 - cur)) pgprot num_pages d n
      else some (record { ret = some num_pages; cpa = d; mem = n }))

unfoldable pub populate_pmd : Platform → ℕ → ℕ → ℕ → Prot → Cpa → Mem → Option Populated
unfolding and_then populate_small pre_end lesser populate_pmd_rest
populate_pmd p start end num_pages pgprot c m =
    let pre = pre_end (2 ^ 21) start (start + num_pages * 4096) in
    let cur = lesser num_pages ((pre - start) / 4096) in
    if start % 2 ^ 21 == 0
    then populate_pmd_rest p start end num_pages pgprot 0 c m
    else and_then (populate_small p start pre cur pgprot cur c m)
        (λ _. populate_pmd_rest p pre end num_pages pgprot cur)

unfoldable pub populate_puds : Platform → ℕ → ℕ → Prot → ℕ → Cpa → Mem → ℕ × (Cpa × Mem)
unfolding put_huge
populate_puds p zero start pgprot cur_pages c m = (cur_pages, (c, m))
populate_puds p (suc k) start pgprot cur_pages c m =
    let s = put_huge p level_1g (2 ^ 18) start pgprot c m in
    populate_puds p k (start + 2 ^ 30) pgprot (cur_pages + 2 ^ 18) s.0 s.1

-- The trailing part: a failure of populate_pmd ends with what was mapped before.
unfoldable pub add_pages : ℕ → Option Populated → Option Populated
add_pages cur none = none
add_pages cur (some s) =
    some (record s { ret = some (elim s.ret [ none ↦ cur | some n ↦ cur + n ]) })

unfoldable pub populate_pud_left : Platform → ℕ → ℕ → ℕ → Prot → ℕ → Cpa → Mem → Option Populated
unfolding and_then need_pmd_page vpn add_pages populate_pmd
populate_pud_left p start end num_pages pgprot cur c m =
    if ltb start end
    then and_then (need_pmd_page p (vpn start / 2 ^ 18) c m) (λ _ d n.
      add_pages cur (populate_pmd p start end (u32 (num_pages + 2 ^ 32 - cur)) pgprot d n))
    else some (record { ret = some cur; cpa = c; mem = m })

unfoldable pub populate_pud_rest : Platform → ℕ → ℕ → ℕ → Prot → ℕ → Cpa → Mem → Option Populated
unfolding populate_puds populate_pud_left
populate_pud_rest p start end num_pages pgprot cur_pages c m =
    let k = if p.has_gbpages then (end - start) / 2 ^ 30 else 0 in
    let s = populate_puds p k start pgprot cur_pages c m in
    if num_pages == cur_pages
    then some (record { ret = some cur_pages; cpa = c; mem = m })
    else populate_pud_left p (start + k * 2 ^ 30) end num_pages pgprot s.0 s.1.0 s.1.1

-- Of fewer than 2 ^ 31 pages, which (int) then keeps.
unfoldable pub populate_pud : Platform → ℕ → Prot → Cpa → Mem → Option Populated
unfolding and_then need_pmd_page vpn pre_end lesser populate_pmd populate_pud_rest
populate_pud p start pgprot c m =
    let end = start + c.numpages * 4096 in
    let pre = pre_end (2 ^ 30) start end in
    let cur = lesser c.numpages ((pre - start) / 4096) in
    if start % 2 ^ 30 == 0
    then populate_pud_rest p start end c.numpages pgprot 0 c m
    else and_then (need_pmd_page p (vpn start / 2 ^ 18) c m) (λ _ d n.
      and_then (populate_pmd p start pre cur pgprot d n)
        (λ done. populate_pud_rest p pre end c.numpages pgprot done))

-- The entries that a failed populate_pud added are taken away again.
unfoldable pub undo : ℕ → Cpa → Mem → Option Out
unfolding unmap_pud_range tables_of put_tables
undo addr c m = do
  a ←
      unmap_pud_range addr (addr + c.numpages * 4096)
        (record { tables = tables_of c.pgd m; freed = m.freed })
  some (record {
    ret = eperm;
    cpa = c;
    mem = record (put_tables c.pgd a.tables m) { freed = a.freed };
  })

unfoldable pub populate_result : ℕ → Option Populated → Option Out
unfolding undo
populate_result addr none = none
populate_result addr (some s) = elim s.ret [
  | none ↦ undo addr s.cpa s.mem
  | some n ↦ some (record { ret = success; cpa = record (s.cpa) { numpages = n }; mem = s.mem })
]

unfoldable pub map_in_pud : Platform → ℕ → Option Populated → Option Out
unfolding populate_result populate_pud masked
map_in_pud p addr none = none
map_in_pud p addr (some s) = elim s.ret [
  | none ↦ some (record { ret = eperm; cpa = s.cpa; mem = s.mem })
  | some n ↦
      populate_result addr
        (populate_pud p addr (masked s.cpa.mask_clr s.cpa.mask_set p.kernpg_table) s.cpa s.mem)
]

-- -1 is -EPERM.
unfoldable pub populate_pgd : Platform → ℕ → Cpa → Mem → Option Out
unfolding need_pud_page vpn map_in_pud
populate_pgd p addr c m = map_in_pud p addr (need_pud_page p (vpn addr / 2 ^ 27) c m)
