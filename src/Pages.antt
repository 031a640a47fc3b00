-- ===== src/Pages.antt =====
-- Page attributes, source_codes/kernel_modify/pageattr.c (arch/x86/mm/pageattr.c): the page tables, how
-- an address is looked up, and which protections of the kernel's own memory no change may take away.
-- The modules below change attributes. CONFIG_PCI_BIOS is off, so protect_pci_bios forbids nothing.
pub mod Protect
pub mod Cpa
pub mod Split
pub mod Unmap
pub mod Populate
pub mod Change
pub mod Flush
pub mod Requests
pub mod Memory
pub mod DirectMap
pub mod Arrays
pub mod Spec
use Prim.Native.Nat.{bit_and, bit_or, bit_xor}
use userspace_bypass.Prelude.{
  ℕ, ◌+◌, ◌*◌, ◌-◌, ◌/◌, ◌%◌, ◌^◌, Bool, true, false, ◌||◌, ◌&&◌, not, Option, none, some, ltb, leb,
  ◌==◌, if◌then◌else◌, u64, sub64, update,
}

-- A pgprot_t. The page attribute bit is `pat` at every level, and `pse` is the size bit, which only a
-- large entry has: pgprot_large_2_4k and pgprot_4k_2_large, which move the one and clear the other,
-- then only clear `pse`.
pub record Prot : Type 0 where
  pub present : Bool
  pub rw : Bool
  pub pwt : Bool
  pub pcd : Bool
  pub pse : Bool
  pub global : Bool
  pub pat : Bool
  pub enc : Bool
  pub nx : Bool
  pub other : ℕ

-- A pgprotval_t of bits that are forbidden; only these two ever are.
pub record Forbidden : Type 0 where
  pub rw : Bool
  pub nx : Bool

pub data Level : Type 0 where
  level_none level_4k level_2m level_1g level_512g : Level

-- An entry that maps memory, or is there without being present.
pub record Leaf : Type 0 where
  pub pfn : ℕ
  pub prot : Prot

pub data Entry : Type 0 where
  e_none e_table : Entry
  e_leaf : Leaf → Entry

-- The tables below a pgd, each level as one array over the index of all its tables together. With four
-- levels the p4d is folded into the pgd, whose pgd_none is never true.
pub record Tables : Type 0 where
  pub p4d : ℕ → Entry
  pub pud : ℕ → Entry
  pub pmd : ℕ → Entry
  pub pte : ℕ → Option Leaf

-- The kernel's sections, of which `start_rodata` and `end_rodata` are page frame numbers.
pub record Layout : Type 0 where
  pub text : ℕ
  pub etext : ℕ
  pub end_rodata_hpage_align : ℕ
  pub start_rodata : ℕ
  pub end_rodata : ℕ
  pub kernel_set_to_readonly : Bool

unfoldable pub within : ℕ → ℕ → ℕ → Bool
within addr start end = leb start addr && ltb addr end

unfoldable pub within_inclusive : ℕ → ℕ → ℕ → Bool
within_inclusive addr start end = leb start addr && leb addr end

-- `(long)(addr << 1) >> 1`: bit 62 goes to bit 63.
unfoldable pub fix_addr : ℕ → ℕ
fix_addr addr =
    let shifted = u64 (addr * 2) in
    if ltb shifted (2 ^ 63) then shifted / 2 else shifted / 2 + 2 ^ 63

unfoldable pub overlaps : ℕ → ℕ → ℕ → ℕ → Bool
overlaps r1_start r1_end r2_start r2_end =
    leb r1_start r2_end && leb r2_start r1_end || leb r2_start r1_end && leb r1_start r2_end

-- The page of an address: bits 12 to 47, which the indices of the four levels are made of.
unfoldable pub vpn : ℕ → ℕ
vpn address = address / 4096 % 2 ^ 36

-- The entry that the walk for a page ends at, and its level; no entry at the level of 4k is a pte that is
-- zero, at another level it is a missing table.
unfoldable pub lookup_pte : Option Leaf → Option Leaf × Level
lookup_pte o = (o, level_4k)

unfoldable pub lookup_pmd : Entry → Option Leaf → Option Leaf × Level
unfolding lookup_pte
lookup_pmd e_none o = (none, level_1g)
lookup_pmd (e_leaf l) o = (some l, level_2m)
lookup_pmd e_table o = lookup_pte o

unfoldable pub lookup_pud : Entry → Entry → Option Leaf → Option Leaf × Level
unfolding lookup_pmd
lookup_pud e_none d o = (none, level_512g)
lookup_pud (e_leaf l) d o = (some l, level_1g)
lookup_pud e_table d o = lookup_pmd d o

unfoldable pub lookup_p4d : Entry → Entry → Entry → Option Leaf → Option Leaf × Level
unfolding lookup_pud
lookup_p4d e_none u d o = (none, level_none)
lookup_p4d (e_leaf l) u d o = (some l, level_512g)
lookup_p4d e_table u d o = lookup_pud u d o

unfoldable pub walk : Tables → ℕ → Option Leaf × Level
unfolding lookup_p4d
walk t v = lookup_p4d (t.p4d (v / 2 ^ 27)) (t.pud (v / 2 ^ 18)) (t.pmd (v / 2 ^ 9)) (t.pte v)

unfoldable pub lookup_address_in_pgd : Tables → ℕ → Option Leaf × Level
unfolding walk vpn
lookup_address_in_pgd t address = walk t (vpn address)

-- `lookup_address(start, &level) && level != PG_LEVEL_4K`.
unfoldable pub is_large_mapping : Option Leaf × Level → Bool
is_large_mapping (none, l) = false
is_large_mapping (some e, level_4k) = false
is_large_mapping (some e, _) = true

unfoldable pub protect_rodata : Layout → ℕ → ℕ → Bool
unfolding overlaps
protect_rodata k spfn epfn =
    k.kernel_set_to_readonly && overlaps spfn epfn k.start_rodata (sub64 k.end_rodata 1)

unfoldable pub protect_kernel_text : Layout → ℕ → ℕ → Bool
unfolding overlaps
protect_kernel_text k start end = overlaps start end k.text (sub64 k.etext 1)

unfoldable pub protect_kernel_text_ro : Layout → Tables → ℕ → ℕ → Bool
unfolding overlaps lookup_address_in_pgd is_large_mapping
protect_kernel_text_ro k t start end =
    if not k.kernel_set_to_readonly
      || not (overlaps start end k.text (sub64 k.end_rodata_hpage_align 1))
    then false
    else is_large_mapping (lookup_address_in_pgd t start)

-- `prot & ~forbidden`.
unfoldable pub remove : Forbidden → Prot → Prot
remove f p = record p { rw = p.rw && not f.rw; nx = p.nx && not f.nx }

-- The last address of the range.
unfoldable pub end_of : ℕ → ℕ → ℕ
end_of start npg = u64 (start + npg * 4096 + (2 ^ 64 - 1))

unfoldable pub static_protections : Layout → Tables → Prot → ℕ → ℕ → ℕ → ℕ → Prot
unfolding remove end_of protect_kernel_text protect_kernel_text_ro protect_rodata
static_protections k t prot start pfn npg lpsize =
    let end = end_of start npg in
    let whole_large = lpsize == u64 (npg * 4096) && bit_and start (sub64 lpsize 1) == 0 in
    if not prot.present
    then prot
    else remove
        (record {
          nx = protect_kernel_text k start end;
          rw =
              not whole_large && protect_kernel_text_ro k t start end
              || protect_rodata k pfn (u64 (pfn + npg + (2 ^ 64 - 1)));
        })
        prot

-- The number of pages of an entry, page_level_size(level) / PAGE_SIZE.
unfoldable pub pages_of : Level → ℕ
pages_of level_2m = 2 ^ 9
pages_of level_1g = 2 ^ 18
pages_of level_512g = 2 ^ 27
pages_of _ = 1

-- The pages below one entry are those with the same index at its level.
unfoldable pub set_leaf : Level → ℕ → Leaf → Tables → Tables
set_leaf level_2m v l t = record t { pmd = update t.pmd (v / 2 ^ 9) (e_leaf l) }
set_leaf level_1g v l t = record t { pud = update t.pud (v / 2 ^ 18) (e_leaf l) }
set_leaf level_512g v l t = record t { p4d = update t.p4d (v / 2 ^ 27) (e_leaf l) }
set_leaf _ v l t = record t { pte = update t.pte v (some l) }

unfoldable pub level_eq : Level → Level → Bool
level_eq level_none level_none = true
level_eq level_4k level_4k = true
level_eq level_2m level_2m = true
level_eq level_1g level_1g = true
level_eq level_512g level_512g = true
level_eq _ _ = false

unfoldable pub bool_eq : Bool → Bool → Bool
bool_eq true b = b
bool_eq false b = not b

unfoldable pub prot_eq : Prot → Prot → Bool
unfolding bool_eq
prot_eq p q =
    bool_eq p.present q.present
    && (bool_eq p.rw q.rw
        && (bool_eq p.pwt q.pwt
            && (bool_eq p.pcd q.pcd
                && (bool_eq p.pse q.pse
                    && (bool_eq p.global q.global
                        && (bool_eq p.pat q.pat
                            && (bool_eq p.enc q.enc
                                && (bool_eq p.nx q.nx && p.other == q.other))))))))

-- pgprot_large_2_4k and pgprot_4k_2_large.
unfoldable pub without_pse : Prot → Prot
without_pse p = record p { pse = false }

unfoldable pub pgprot_clear_protnone_bits : Prot → Prot
pgprot_clear_protnone_bits p = record p { global = p.global && p.present }

-- `x & ~clr | set` on a bit, and on the other bits.
unfoldable pub masked_bit : Bool → Bool → Bool → Bool
masked_bit clr set b = b && not clr || set

-- `prot & ~mask_clr | mask_set`.
unfoldable pub masked : Prot → Prot → Prot → Prot
unfolding masked_bit
masked clr set p = record {
  present = masked_bit clr.present set.present p.present;
  rw = masked_bit clr.rw set.rw p.rw;
  pwt = masked_bit clr.pwt set.pwt p.pwt;
  pcd = masked_bit clr.pcd set.pcd p.pcd;
  pse = masked_bit clr.pse set.pse p.pse;
  global = masked_bit clr.global set.global p.global;
  pat = masked_bit clr.pat set.pat p.pat;
  enc = masked_bit clr.enc set.enc p.enc;
  nx = masked_bit clr.nx set.nx p.nx;
  other = bit_or (bit_xor p.other (bit_and p.other clr.other)) set.other;
}
