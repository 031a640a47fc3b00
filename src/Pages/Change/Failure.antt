-- ===== src/Pages/Change/Failure.antt =====
-- A mapping into another pgd that runs out of memory in its last part.
use userspace_bypass.Prelude.{
  if◌then◌else◌, ltb, ◌==◌, ◌||◌, ℕ, zero, suc, ◌/◌, ◌^◌, ◌≡◌, refl, true, false, Bool, Option,
  none, some, arith,
}
use userspace_bypass.Pages.{level_512g, vpn, lookup_address_in_pgd, lookup_p4d, lookup_pud}
use userspace_bypass.Pages.Cpa.{
  Cpa, Mem, Platform, Out, success, Pgd, other_pgd, cpa_addr, lookup_address_cpa,
}
use userspace_bypass.Pages.Populate.{populate_pgd}
use userspace_bypass.Pages.Populate.Failure.{
  IsShort, populate_pgd-fails, tables_of-other, asked_again, with_pmds,
}
use userspace_bypass.Pages.Change.{
  cpa_process_fault, change_entry, change_page_at, change_page_attr, advance, after_alias,
  after_change, others, change_pages, no_alias, offered, restore_numpages,
  change_page_attr_set_clr_0,
}

fault-other :
    (p : Platform) (g : Pgd) (a : ℕ) (primary : Bool) (c : Cpa) (m : Mem)
    → g ≡ other_pgd
    → cpa_process_fault p g a primary c m ≡ populate_pgd p a c m
unfolding cpa_process_fault
fault-other p g a primary c m h = rw h

lookup-IsShort :
    (p : Platform) (a : ℕ) (c : Cpa) (m : Mem)
    → IsShort p a c m
    → lookup_address_cpa c m a ≡ (none, level_512g)
unfolding lookup_address_cpa lookup_address_in_pgd lookup_p4d lookup_pud
lookup-IsShort p a c m s = rw (tables_of-other c.pgd m s.pgd, s.p4d, s.pud)

change_page_attr-IsShort :
    (p : Platform) (primary : Bool) (c : Cpa) (m : Mem)
    → IsShort p (cpa_addr c c.curpage) c m
    → (o : Out) × (change_page_attr p primary c m ≡ some o)
      × (o.ret ≡ success)
      × (o.cpa.numpages ≡ 0)
unfolding change_page_attr change_page_at change_entry
change_page_attr-IsShort p primary c m s =
    let a = cpa_addr c c.curpage in
    (
      record {
        ret = success;
        cpa = record c { numpages = 0 };
        mem = asked_again (with_pmds (vpn a / 2 ^ 18) c m);
      },
      rw (
        lookup-IsShort p a c m s,
        fault-other p c.pgd a primary c m s.pgd,
        populate_pgd-fails p a c m s,
      ),
      refl,
      refl,
    )

-- No page done is a BUG_ON.
after_change_stops :
    (rest : ℕ → Cpa → Mem → Option Out) (r : ℕ) (o : Out)
    → o.ret ≡ success
    → o.cpa.numpages ≡ 0
    → after_change no_alias rest r (some o) ≡ none
unfolding after_change no_alias after_alias advance
after_change_stops rest r o h z =
    let bug : (ltb r o.cpa.numpages || o.cpa.numpages == 0) ≡ true = ground arith in rw (h, bug)

-- Not for an array, whose steps are one page each.
IsShort-offered :
    (p : Platform) (a r : ℕ) (c : Cpa) (m : Mem)
    → c.array ≡ false
    → c.pages_array ≡ false
    → c.numpages ≡ suc r
    → IsShort p a c m
    → IsShort p a (offered (suc r) c) m
unfolding offered
IsShort-offered p a r c m h l pages s =
    let n : (if c.array || c.pages_array then 1 else suc r) ≡ suc r = rw (h, l) in
    record {
      pgd = s.pgd;
      aligned = s.aligned;
      some_pages = omega (arith, n);
      few_pages = omega (arith, n, pages, s.few_pages);
      p4d = s.p4d;
      pud = s.pud;
      given = s.given;
      refused = s.refused;
    }

-- What the others do to init_mm's tables does not help.
IsShort-others :
    (p : Platform) (a r : ℕ) (c : Cpa) (m : Mem) → IsShort p a c m → IsShort p a c (others p r m)
unfolding others
IsShort-others p a r c m s = record {
  pgd = s.pgd;
  aligned = s.aligned;
  some_pages = s.some_pages;
  few_pages = s.few_pages;
  p4d = s.p4d;
  pud = s.pud;
  given = s.given;
  refused = s.refused;
}

change_pages_stops :
    (p : Platform) (c : Cpa) (m : Mem) (n : ℕ)
    → c.array ≡ false
    → c.pages_array ≡ false
    → c.numpages ≡ n
    → IsShort p (cpa_addr c c.curpage) c m
    → change_pages p false no_alias n n c m ≡ none
unfolding change_pages offered cpa_addr
change_pages_stops p c m zero h l pages s = absurd (omega (arith, pages, s.some_pages))
change_pages_stops p c m (suc r) h l pages s =
    let short =
      IsShort-others p (cpa_addr c c.curpage) (suc r) (offered (suc r) c) m
        (IsShort-offered p (cpa_addr c c.curpage) r c m h l pages s) in
    let (o, e, ok, none_done) =
      change_page_attr-IsShort p false (offered (suc r) c) (others p (suc r) m) short in
    rw e (after_change_stops (change_pages p false no_alias r) (suc r) o ok none_done)

-- In mapping fewer than 512 pages from a boundary of 1G into another pgd, which has a table of puds
-- there but none of pmds, with memory for that table and not for the next, __change_page_attr reports
-- success with no page done, and so __change_page_attr_set_clr, of a request that is no array, runs
-- into its BUG_ON.
pub change_page_attr_set_clr_0_stops :
    (p : Platform) (c : Cpa) (m : Mem)
    → c.array ≡ false
    → c.pages_array ≡ false
    → IsShort p (cpa_addr c c.curpage) c m
    → ((o : Out) × (change_page_attr p false c m ≡ some o)
        × (o.ret ≡ success)
        × (o.cpa.numpages ≡ 0))
      × (change_page_attr_set_clr_0 p c m ≡ none)
unfolding change_page_attr_set_clr_0 restore_numpages
change_page_attr_set_clr_0_stops p c m h l s =
    (change_page_attr-IsShort p false c m s, rw (change_pages_stops p c m c.numpages h l refl s))
