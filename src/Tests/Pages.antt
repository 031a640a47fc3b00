-- ===== src/Tests/Pages.antt =====
-- A kernel whose text lies at 0x10000 and whose rodata is the page frames 32 to 47.
use userspace_bypass.Prelude.{◌≡◌, true, false, ◌⊎◌, none}
use userspace_bypass.Pages.{Prot, Tables, e_none, Layout, overlaps, end_of, static_protections}
use userspace_bypass.Pages.Protect.{static_protections_lem}

abbrev pub layout : Layout
layout = record {
  text = 0x10000;
  etext = 0x20000;
  end_rodata_hpage_align = 0x40000;
  start_rodata = 32;
  end_rodata = 48;
  kernel_set_to_readonly = true;
}

-- A request to make two pages of the text writable and non-executable.
abbrev request : Prot
request = record {
  present = true;
  rw = true;
  pwt = false;
  pcd = false;
  pse = false;
  global = true;
  pat = false;
  enc = false;
  nx = true;
  other = 3;
}

abbrev no_tables : Tables
no_tables = record { p4d = λ q. e_none; pud = λ u. e_none; pmd = λ d. e_none; pte = λ w. none }

static_protections_example :
    let res = static_protections layout no_tables request 0x1f000 64 2 0 in
    (res ≡ record request { rw = res.rw; nx = res.nx })
    × ((res.rw ≡ false) ⊎ (true ≡ true))
    × ((res.nx ≡ false) ⊎ (true ≡ true))
    × ((true ≡ false)
        ⊎ (overlaps 0x1f000 (end_of 0x1f000 2) 0x10000 0x1ffff ≡ false)
        ⊎ (res.nx ≡ false))
    × ((true ≡ false) ⊎ (true ≡ false) ⊎ (overlaps 64 65 32 47 ≡ false) ⊎ (res.rw ≡ false))
    × ((overlaps 0x1f000 (end_of 0x1f000 2) 0x10000 0x1ffff ≡ true)
        ⊎ (overlaps 0x1f000 (end_of 0x1f000 2) 0x10000 0x3ffff ≡ true)
        ⊎ (overlaps 64 65 32 47 ≡ true)
        ⊎ (res ≡ request))
static_protections_example = static_protections_lem layout no_tables request 0x1f000 64 2 0
