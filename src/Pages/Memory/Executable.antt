-- ===== src/Pages/Memory/Executable.antt =====
-- set_memory_x: the pages are executable afterwards.
use userspace_bypass.Prelude.{
  inl, inr, ℕ, ◌+◌, ◌^◌, ◌≡◌, ◌≤◌, ◌<◌, refl, ◌⊎◌, true, false, Option, none, some, arith,
}
use userspace_bypass.Pages.{Layout, Prot, Leaf, Tables, vpn, masked}
use userspace_bypass.Pages.Cpa.{Cpa, Mem, Platform, Out, Errno, success, enomem, efault}
use userspace_bypass.Pages.Spec.{IsStep, IsChange, IsQuiet, Follows, page_at}
use userspace_bypass.Pages.Change.{change_page_attr_set_clr, change_page_attr_set_clr_0}
use userspace_bypass.Pages.Change.Range.{IsRange, HasNoHuge, IsDoneUpTo}
use userspace_bypass.Pages.Change.Loop.{change_page_attr_set_clr_0-IsDoneUpTo}
use userspace_bypass.Pages.Requests.{
  request, checks_alias, cpa_of, flush_after, page_nx, no_bits, page_mask,
}
use userspace_bypass.Pages.Flush.Keeps.{flush_after-tables}
use userspace_bypass.Pages.Memory.{Memtypes, range, change_page_attr_clear, set_memory_x}

-- Code in the page may run, if there is a page.
unfoldable pub IsExecutable : Option Leaf → Type 0
IsExecutable none = Unit
IsExecutable (some l) = l.prot.nx ≡ false

page_mask-vpn : (a : ℕ) → vpn (page_mask a) ≡ vpn a
unfolding vpn page_mask
page_mask-vpn a = omega arith

-- The masks of set_memory_x.
abbrev pub without_nx : Prot → Prot
without_nx = masked page_nx no_bits

-- What set_memory_x asks for.
abbrev x_cpa : ℕ → ℕ → Cpa
x_cpa addr numpages = cpa_of (range addr numpages no_bits page_nx) no_bits

IsRange-x :
    (addr numpages : ℕ)
    → vpn addr + numpages ≤ 2 ^ 36
    → IsRange (x_cpa addr numpages) (page_mask addr) numpages
unfolding cpa_of range page_mask
IsRange-x addr numpages h = record {
  vaddr = refl;
  aligned = omega arith;
  below = omega (arith, page_mask-vpn addr, h);
  pgd = refl;
  array = refl;
  pages_array = refl;
}

Follows-IsExecutable :
    (lay : Layout) (w : ℕ) → (a b : Option Leaf) → Follows lay w without_nx a b → IsExecutable b
unfolding Follows IsExecutable masked
Follows-IsExecutable lay w none none h = tt
Follows-IsExecutable lay w none (some l) h = absurd h
Follows-IsExecutable lay w (some k) none h = absurd h
Follows-IsExecutable lay w (some k) (some l) h = elim h.1.nx [
  | inl e ↦ ground arith
  | inr (e, x) ↦ e
]

-- The first d pages from s on are executable, map to the frames they did with no right more, and no
-- other page has changed, unless rights were taken away; d is n if the function did not fail.
abbrev pub IsMadeExecutable : Layout → ℕ → ℕ → Tables → Errno × Mem → Type 0
IsMadeExecutable lay s n t r =
    (d : ℕ) × (d ≤ n)
    × IsChange lay without_nx s d t r.1.tables
    × ((w : ℕ) → s ≤ w → w < s + d → IsExecutable (page_at r.1.tables w))
    × (((r.0 ≡ success) × (d ≡ n)) ⊎ ((r.0 ≡ enomem) ⊎ (r.0 ≡ efault)))

IsMadeExecutable-IsDoneUpTo :
    (lay : Layout)
    → (s n : ℕ) (t : Tables) (o : Out) → IsDoneUpTo lay without_nx s n t o
    → IsMadeExecutable lay s n t (o.ret, o.mem)
unfolding IsStep
IsMadeExecutable-IsDoneUpTo lay s n t o (d, few, change, end) = (
  d,
  few,
  change,
  λ w a b. Follows-IsExecutable lay w (page_at t w) (page_at o.mem.tables w) ((change w).0 a b).0,
  end,
)

request-x :
    {W : Type 0} (p : Platform) (t : Memtypes W) (addr numpages : ℕ) (m : Mem)
    → p.canon_pgprot no_bits ≡ no_bits
    → t.supports_nx ≡ true
    → (o : Out) → change_page_attr_set_clr_0 p (x_cpa addr numpages) m ≡ some o
    → set_memory_x p t addr numpages m ≡ some (o.ret, (flush_after p t.caches no_bits o).mem)
unfolding set_memory_x change_page_attr_clear request checks_alias change_page_attr_set_clr range
request-x p t addr numpages m canon nx o e = rw (nx, canon) (rw e)

x_cpa-IsDoneUpTo :
    (p : Platform)
    → IsQuiet p
    → (addr numpages : ℕ) (m : Mem) → vpn addr + numpages ≤ 2 ^ 36
    → HasNoHuge m.tables
    → (o : Out) × (change_page_attr_set_clr_0 p (x_cpa addr numpages) m ≡ some o)
      × IsDoneUpTo p.layout without_nx (vpn addr) numpages m.tables o
unfolding cpa_of range
x_cpa-IsDoneUpTo p quiet addr numpages m below huge =
    let (o, e, done) =
      change_page_attr_set_clr_0-IsDoneUpTo p quiet (page_mask addr) (x_cpa addr numpages) m
        (IsRange-x addr numpages below) refl huge in
    (o, e, rw (page_mask-vpn addr) at done)

-- Where other processors only split entries and take write access away, or NX from the kernel's text,
-- nothing is mapped at 512G, the processor has NX and canon_pgprot leaves an empty mask empty,
-- set_memory_x returns for every range below 2 ^ 48: the first d of its pages map to the frames they
-- did, are executable if they are mapped, and have no other right more, every other page keeps its
-- frame and its protection but for write access, which may be taken away, NX, which may be cleared in
-- the kernel's text only, and the global bit, and d is all of them if it does not fail.
pub set_memory_x-IsMadeExecutable :
    {W : Type 0} (p : Platform)
    → IsQuiet p
    → (t : Memtypes W) (addr numpages : ℕ) (m : Mem) → p.canon_pgprot no_bits ≡ no_bits
    → t.supports_nx ≡ true
    → vpn addr + numpages ≤ 2 ^ 36
    → HasNoHuge m.tables
    → (r : Errno × Mem) × (set_memory_x p t addr numpages m ≡ some r)
      × IsMadeExecutable p.layout (vpn addr) numpages m.tables r
set_memory_x-IsMadeExecutable p quiet t addr numpages m canon nx below huge =
    let (o, e, done) = x_cpa-IsDoneUpTo p quiet addr numpages m below huge in
    let made = IsMadeExecutable-IsDoneUpTo p.layout (vpn addr) numpages m.tables o done in
    let flushed = flush_after-tables p t.caches no_bits o in
    (
      (o.ret, (flush_after p t.caches no_bits o).mem),
      request-x p t addr numpages m canon nx o e,
      rw flushed made,
    )
