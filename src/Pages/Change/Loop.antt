-- ===== src/Pages/Change/Loop.antt =====
-- __change_page_attr_set_clr without aliases, for a range of addresses.
use userspace_bypass.Prelude.{
  ℕ, zero, suc, ◌+◌, ◌-◌, ◌≡◌, ◌≤◌, refl, ◌∙◌, ◌⊎◌, inl, inr, false, Option, some, arith, u64, ltb,
  ◌==◌,
}
use userspace_bypass.Pages.{Layout, Prot, Tables, vpn}
use userspace_bypass.Pages.Cpa.{Cpa, Mem, Platform, Out, success, enomem, efault}
use userspace_bypass.Pages.Spec.Prots.{masked-IsMilder}
use userspace_bypass.Pages.Spec.Follows.{
  IsMonotone, IsChange-before, IsChange-none, IsChange-append,
}
use userspace_bypass.Pages.Spec.{same, IsStep, IsChange, IsQuiet, IsFor, asked}
use userspace_bypass.Pages.Change.{
  others, advance, after_alias, after_change, offered, change_pages, no_alias,
  change_page_attr_set_clr_0, restore_numpages,
}
use userspace_bypass.Pages.Change.Step.{asked-IsFor}
use userspace_bypass.Pages.Change.Range.{
  HasNoHuge-near, IsRange, HasNoHuge, IsDoneUpTo, IsRange-rest, IsRange-offered, offered-numpages,
  round-Returns, HasNoHuge-IsChange,
}

after_change-success :
    (rest : ℕ → Cpa → Mem → Option Out) (r : ℕ) (o : Out)
    → o.ret ≡ success
    → 1 ≤ o.cpa.numpages
    → o.cpa.numpages ≤ r
    → after_change no_alias rest r (some o)
      ≡ rest
          (r - o.cpa.numpages)
          (record (o.cpa) { curpage = u64 (o.cpa.curpage + o.cpa.numpages) })
          o.mem
unfolding after_change no_alias after_alias advance
after_change-success rest r o h a b =
    let more : ltb r o.cpa.numpages ≡ false = ground arith in
    let some_pages : (o.cpa.numpages == 0) ≡ false = ground arith in rw (h, more, some_pages)

after_change-failure :
    (rest : ℕ → Cpa → Mem → Option Out) (r : ℕ) (o : Out)
    → ((o.ret ≡ enomem) ⊎ (o.ret ≡ efault))
    → after_change no_alias rest r (some o) ≡ some o
unfolding after_change
after_change-failure rest r o (inl h) = simp h
after_change-failure rest r o (inr h) = simp h

IsDoneUpTo-failure :
    (lay : Layout)
    → (f : Prot → Prot) (s r : ℕ) (t : Tables) (o : Out) → ((o.ret ≡ enomem) ⊎ (o.ret ≡ efault))
    → ((w : ℕ) → IsStep lay same w t o.mem.tables)
    → IsDoneUpTo lay f s r t o
IsDoneUpTo-failure lay f s r t o failed near =
    (0, omega arith, λ w. (λ a b. absurd (omega arith), λ a. near w), inr failed)

-- What the others do first.
IsDoneUpTo-before :
    (lay : Layout) (f : Prot → Prot)
    → IsMonotone lay f
    → (s r : ℕ) (t u : Tables) → ((w : ℕ) → IsStep lay same w t u)
    → (o : Out) → IsDoneUpTo lay f s r u o
    → IsDoneUpTo lay f s r t o
IsDoneUpTo-before lay f mono s r t u near o (d, few, change, end) =
    (d, few, IsChange-before lay f mono s d t u o.mem.tables near change, end)

-- k pages, and then what the rest of the loop does.
IsDoneUpTo-append :
    (lay : Layout)
    → (f : Prot → Prot) → IsMonotone lay f
    → (s k r : ℕ) (t u : Tables) (o : Out) → k ≤ r
    → IsChange lay f s k t u
    → IsDoneUpTo lay f (s + k) (r - k) u o
    → IsDoneUpTo lay f s r t o
IsDoneUpTo-append lay f mono s k r t u o fits change (d, few, rest, end) = (
  k + d,
  omega (arith, few, fits),
  IsChange-append lay f mono s k d t u o.mem.tables change rest,
  elim end [ inl (ok, all) ↦ inl (ok, omega (arith, all, few, fits)) | inr failed ↦ inr failed ],
)

IsDoneUpTo-moved :
    (lay : Layout)
    → (c d : Cpa) (b k r : ℕ) (t : Tables) (o : Out) → IsFor c d
    → u64 (d.curpage + k) ≡ c.curpage + k
    → IsDoneUpTo lay (asked d) (b + u64 (d.curpage + k)) r t o
    → IsDoneUpTo lay (asked c) (b + c.curpage + k) r t o
IsDoneUpTo-moved lay c d b k r t o frame e done =
    let start : b + u64 (d.curpage + k) ≡ b + c.curpage + k = omega (arith, e) in
    rw (start, asked-IsFor c d frame) at done

-- The loop, from the page `s` on, with r pages to do.
pub change_pages-IsDoneUpTo :
    (p : Platform)
    → IsQuiet p
    → (base n r : ℕ) (c : Cpa) (m : Mem) → IsRange c base (c.curpage + r)
    → HasNoHuge m.tables
    → r ≤ n
    → (o : Out) × (change_pages p false no_alias n r c m ≡ some o)
      × IsDoneUpTo p.layout (asked c) (vpn base + c.curpage) r m.tables o
unfolding change_pages
change_pages-IsDoneUpTo p quiet base zero zero c m range huge fuel = (
  record { ret = success; cpa = c; mem = m },
  refl,
  (
    0,
    omega arith,
    IsChange-none p.layout (asked c) (vpn base + c.curpage) m.tables,
    inl (refl, refl),
  ),
)
change_pages-IsDoneUpTo p quiet base (suc n) zero c m range huge fuel = (
  record { ret = success; cpa = c; mem = m },
  refl,
  (
    0,
    omega arith,
    IsChange-none p.layout (asked c) (vpn base + c.curpage) m.tables,
    inl (refl, refl),
  ),
)
change_pages-IsDoneUpTo p quiet base zero (suc r) c m range huge fuel = absurd (omega arith)
change_pages-IsDoneUpTo p quiet base (suc n) (suc r) c m range huge fuel =
    let x = others p (suc r) m in
    let near = quiet.between (suc r) m.tables in
    let before =
      IsDoneUpTo-before p.layout (asked c) (masked-IsMilder c.mask_clr c.mask_set)
        (vpn base + c.curpage) (suc r) m.tables x.tables near in
    let huge_x = HasNoHuge-near p.layout m.tables x.tables huge near in
    let (o, e, (frame, verdict)) = round-Returns p quiet base r c x range huge_x in
    rw e (elim verdict [
      | inl (ok, some_pages, few, change) ↦
          let k = o.cpa.numpages in
          let fits : k ≤ suc r = omega (arith, few, (offered-numpages c r).1) in
          let (moved, left) =
            IsRange-rest (offered (suc r) c) o.cpa base (suc r) k frame
              (IsRange-offered c base (c.curpage + suc r) (suc r) range) fits in
          let (y, e2, done) =
            change_pages-IsDoneUpTo p quiet base n (suc r - k)
              (record (o.cpa) { curpage = u64 (o.cpa.curpage + k) }) o.mem left
              (HasNoHuge-IsChange p.layout (asked c) (vpn base + c.curpage) k x.tables o.mem.tables
                huge_x change)
              (omega (arith, some_pages, fuel)) in
          (
            y,
            after_change-success (change_pages p false no_alias n) (suc r) o ok some_pages fits
                ∙ e2,
            before y (
                IsDoneUpTo-append p.layout (asked c) (masked-IsMilder c.mask_clr c.mask_set)
                  (vpn base + c.curpage) k (suc r) x.tables o.mem.tables y fits change
                  (IsDoneUpTo-moved p.layout (offered (suc r) c) o.cpa (vpn base) k (suc r - k)
                    o.mem.tables y frame moved done)),
          )
      | inr (failed, change) ↦ (
        o,
        after_change-failure (change_pages p false no_alias n) (suc r) o failed,
        before o (
            IsDoneUpTo-failure p.layout (asked c) (vpn base + c.curpage) (suc r) x.tables o failed
              change),
      )
    ])

restored-IsDoneUpTo :
    (lay : Layout)
    → (f : Prot → Prot) (s r n : ℕ) (t : Tables) (o : Out) → IsDoneUpTo lay f s r t o
    → IsDoneUpTo lay f s r t (record o { cpa = record (o.cpa) { numpages = n } })
restored-IsDoneUpTo lay f s r n t o h = h

-- Where other processors only split entries and take write access away, or NX from the kernel's text,
-- and nothing is mapped at 512G, __change_page_attr_set_clr without aliases returns for every range of
-- whole pages below 2 ^ 48 of init_mm: no BUG_ON fires, the first d pages map to the frames they did,
-- with the protections that the masks ask for, every other page keeps its frame and its protection, in
-- both cases but for write access, which may be taken away, NX, which may be cleared in the kernel's
-- text only, and the global bit, and d is all of them unless the function fails, for want of memory or
-- of a mapping.
pub change_page_attr_set_clr_0-IsDoneUpTo :
    (p : Platform)
    → IsQuiet p
    → (base : ℕ) (c : Cpa) (m : Mem) → IsRange c base c.numpages
    → c.curpage ≡ 0
    → HasNoHuge m.tables
    → (o : Out) × (change_page_attr_set_clr_0 p c m ≡ some o)
      × IsDoneUpTo p.layout (asked c) (vpn base) c.numpages m.tables o
unfolding change_page_attr_set_clr_0 restore_numpages
change_page_attr_set_clr_0-IsDoneUpTo p quiet base c m range start huge =
    let all : c.curpage + c.numpages ≡ c.numpages = omega (arith, start) in
    let whole : IsRange c base (c.curpage + c.numpages) = rw all range in
    let (o, e, done) =
      change_pages-IsDoneUpTo p quiet base c.numpages c.numpages c m whole huge (omega arith) in
    let first : vpn base + c.curpage ≡ vpn base = omega (arith, start) in
    (
      record o { cpa = record (o.cpa) { numpages = c.numpages } },
      rw e,
      restored-IsDoneUpTo p.layout (asked c) (vpn base) c.numpages c.numpages m.tables o
          (rw first at done),
    )
