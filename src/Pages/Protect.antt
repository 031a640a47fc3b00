-- ===== src/Pages/Protect.antt =====
-- What static_protections guarantees.
use userspace_bypass.Prelude.{
  ℕ, ◌+◌, ◌-◌, ◌^◌, ◌≤◌, ◌≡◌, arith, true, false, ◌↔◌, ◌⊎◌, inl, inr, u64, sub64, leb, Bool-cases,
}
use userspace_bypass.Pages.{
  Prot, Tables, Layout, overlaps, protect_rodata, protect_kernel_text, protect_kernel_text_ro,
  remove, end_of, static_protections,
}

-- Two ranges that are not empty overlap exactly if they share an address.
pub overlaps_iff :
    (s e a b : ℕ)
    → s ≤ e
    → a ≤ b
    → (overlaps s e a b ≡ true) ↔ ((x : ℕ) × (s ≤ x) × (x ≤ e) × (a ≤ x) × (x ≤ b))
unfolding overlaps
overlaps_iff s e a b h l = (forth, λ (x, p, q, r, t). ground arith)
  where
    forth : overlaps s e a b ≡ true → (x : ℕ) × (s ≤ x) × (x ≤ e) × (a ≤ x) × (x ≤ b)
    forth o = elim (Bool-cases (leb s a)) [
      | inl c ↦ (a, ground arith, ground arith, ground arith, ground arith)
      | inr c ↦ (s, ground arith, ground arith, ground arith, ground arith)
    ]

-- static_protections grants nothing and changes no other bit; of a present mapping it leaves no part
-- of the kernel's text non-executable and, once the kernel is read-only, no part of its rodata
-- writable; a mapping away from text and rodata stays as asked for.
pub static_protections_lem :
    (k : Layout) (t : Tables) (prot : Prot) (start pfn npg lpsize : ℕ)
    → let res = static_protections k t prot start pfn npg lpsize in
      let last = u64 (pfn + npg + (2 ^ 64 - 1)) in
      (res ≡ record prot { rw = res.rw; nx = res.nx })
      × ((res.rw ≡ false) ⊎ (prot.rw ≡ true))
      × ((res.nx ≡ false) ⊎ (prot.nx ≡ true))
      × ((prot.present ≡ false)
          ⊎ (overlaps start (end_of start npg) k.text (sub64 k.etext 1) ≡ false)
          ⊎ (res.nx ≡ false))
      × ((prot.present ≡ false)
          ⊎ (k.kernel_set_to_readonly ≡ false)
          ⊎ (overlaps pfn last k.start_rodata (sub64 k.end_rodata 1) ≡ false)
          ⊎ (res.rw ≡ false))
      × ((overlaps start (end_of start npg) k.text (sub64 k.etext 1) ≡ true)
          ⊎ (overlaps start (end_of start npg) k.text (sub64 k.end_rodata_hpage_align 1) ≡ true)
          ⊎ (overlaps pfn last k.start_rodata (sub64 k.end_rodata 1) ≡ true)
          ⊎ (res ≡ prot))
unfolding static_protections remove protect_rodata protect_kernel_text protect_kernel_text_ro
static_protections_lem k t prot start pfn npg lpsize = ground arith
