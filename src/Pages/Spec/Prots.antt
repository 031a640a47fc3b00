-- ===== src/Pages/Spec/Prots.antt =====
-- Milder protections.
use userspace_bypass.Prelude.{sub64, ◌⊎◌, ℕ, ◌≡◌, refl, ap, ◌∙◌, inl, inr, true, false, Bool, arith}
use userspace_bypass.Pages.{
  remove, overlaps, end_of, protect_kernel_text, vpn, Prot, Layout, Tables, static_protections,
  without_pse, masked, masked_bit, pgprot_clear_protnone_bits, bool_eq, prot_eq,
}
use userspace_bypass.Pages.Protect.{static_protections_lem}
use userspace_bypass.Pages.Spec.{InText, IsTaken, IsMilder}

pub IsTaken-refl : (a : Bool) → IsTaken a a
IsTaken-refl true = inr refl
IsTaken-refl false = inl refl

pub IsTaken-trans : (a b c : Bool) → IsTaken a b → IsTaken b c → IsTaken a c
IsTaken-trans a b c h l = ground arith

-- NX, which may be gone in the text.
abbrev IsKept : Layout → ℕ → Bool → Bool → Type 0
IsKept lay w a b = (a ≡ b) ⊎ (a ≡ false) × InText lay w

IsKept-trans :
    {lay : Layout} {w : ℕ} (a b c : Bool) → IsKept lay w a b → IsKept lay w b c → IsKept lay w a c
IsKept-trans a b c (inl h) (inl l) = inl (h ∙ l)
IsKept-trans a b c (inl h) (inr (l, x)) = inr (h ∙ l, x)
IsKept-trans a b c (inr h) l = inr h

masked_bit-IsKept :
    {lay : Layout} {w : ℕ} (c s a b : Bool)
    → IsKept lay w a b
    → IsKept lay w (masked_bit c s a) (masked_bit c s b)
masked_bit-IsKept c s a b (inl h) = inl (ap (masked_bit c s) h)
masked_bit-IsKept c true a b (inr (h, x)) = inl (unfold masked_bit in ground arith)
masked_bit-IsKept c false a b (inr (h, x)) = inr (unfold masked_bit in ground arith, x)

pub IsMilder-refl : {lay : Layout} {w : ℕ} → (p : Prot) → IsMilder lay w p p
IsMilder-refl p = record {
  present = refl;
  rw = IsTaken-refl p.rw;
  pwt = refl;
  pcd = refl;
  pat = refl;
  enc = refl;
  nx = inl refl;
  other = refl;
}

pub IsMilder-trans :
    {lay : Layout} {w : ℕ}
    → (p q r : Prot) → IsMilder lay w p q
    → IsMilder lay w q r
    → IsMilder lay w p r
IsMilder-trans p q r h l = record {
  present = h.present ∙ l.present;
  rw = IsTaken-trans p.rw q.rw r.rw h.rw l.rw;
  pwt = h.pwt ∙ l.pwt;
  pcd = h.pcd ∙ l.pcd;
  pat = h.pat ∙ l.pat;
  enc = h.enc ∙ l.enc;
  nx = IsKept-trans p.nx q.nx r.nx h.nx l.nx;
  other = h.other ∙ l.other;
}

static_protections-nx :
    (k : Layout) (t : Tables) (p : Prot) (start pfn npg lpsize : ℕ)
    → ((static_protections k t p start pfn npg lpsize).nx ≡ p.nx)
      ⊎ ((static_protections k t p start pfn npg lpsize).nx ≡ false)
        × (overlaps start (end_of start npg) k.text (sub64 k.etext 1) ≡ true)
unfolding static_protections remove protect_kernel_text
static_protections-nx k t p start pfn npg lpsize = ground arith

-- For one page.
pub static_protections-IsMilder :
    (lay : Layout) (t : Tables) (p : Prot) (start pfn lpsize w : ℕ)
    → vpn start ≡ w
    → IsMilder lay w (static_protections lay t p start pfn 1 lpsize) p
static_protections-IsMilder lay t p start pfn lpsize w e =
    let l = static_protections_lem lay t p start pfn 1 lpsize in
    record {
      present = ap (λ q. q.present) l.0;
      rw = l.1;
      pwt = ap (λ q. q.pwt) l.0;
      pcd = ap (λ q. q.pcd) l.0;
      pat = ap (λ q. q.pat) l.0;
      enc = ap (λ q. q.enc) l.0;
      nx = elim (static_protections-nx lay t p start pfn 1 lpsize) [
        | inl h ↦ inl h
        | inr (h, x) ↦ inr (h, record { address = start; page = e; text = x })
      ];
      other = ap (λ q. q.other) l.0;
    }

masked_bit-IsTaken : (c s a b : Bool) → IsTaken a b → IsTaken (masked_bit c s a) (masked_bit c s b)
unfolding masked_bit
masked_bit-IsTaken c s a b h = ground arith

-- A mask keeps the order.
pub masked-IsMilder :
    {lay : Layout}
    → (clr set : Prot) (w : ℕ) (p q : Prot) → IsMilder lay w p q
    → IsMilder lay w (masked clr set p) (masked clr set q)
unfolding masked
masked-IsMilder clr set w p q h = record {
  present = ap (masked_bit clr.present set.present) h.present;
  rw = masked_bit-IsTaken clr.rw set.rw p.rw q.rw h.rw;
  pwt = ap (masked_bit clr.pwt set.pwt) h.pwt;
  pcd = ap (masked_bit clr.pcd set.pcd) h.pcd;
  pat = ap (masked_bit clr.pat set.pat) h.pat;
  enc = ap (masked_bit clr.enc set.enc) h.enc;
  nx = masked_bit-IsKept clr.nx set.nx p.nx q.nx h.nx;
  other = ap (λ o. (masked clr set (record p { other = o })).other) h.other;
}

pub without_pse-IsMilder :
    {lay : Layout} {w : ℕ} → (p q : Prot) → IsMilder lay w p q → IsMilder lay w (without_pse p) q
unfolding without_pse
without_pse-IsMilder p q h = record {
  present = h.present;
  rw = h.rw;
  pwt = h.pwt;
  pcd = h.pcd;
  pat = h.pat;
  enc = h.enc;
  nx = h.nx;
  other = h.other;
}

pub IsMilder-without_pse : {lay : Layout} {w : ℕ} → (p : Prot) → IsMilder lay w p (without_pse p)
unfolding without_pse
IsMilder-without_pse p = record {
  present = refl;
  rw = IsTaken-refl p.rw;
  pwt = refl;
  pcd = refl;
  pat = refl;
  enc = refl;
  nx = inl refl;
  other = refl;
}

pub clear_protnone-IsMilder :
    {lay : Layout} {w : ℕ}
    → (p q : Prot) → IsMilder lay w p q
    → IsMilder lay w (pgprot_clear_protnone_bits p) q
unfolding pgprot_clear_protnone_bits
clear_protnone-IsMilder p q h = record {
  present = h.present;
  rw = h.rw;
  pwt = h.pwt;
  pcd = h.pcd;
  pat = h.pat;
  enc = h.enc;
  nx = h.nx;
  other = h.other;
}

-- The test for equal protections is right.
pub prot_eq→≡ : (p q : Prot) → prot_eq p q ≡ true → p ≡ q
unfolding prot_eq bool_eq
prot_eq→≡ p q h =
    let e_present : p.present ≡ q.present = ground arith in
    let e_rw : p.rw ≡ q.rw = ground arith in
    let e_pwt : p.pwt ≡ q.pwt = ground arith in
    let e_pcd : p.pcd ≡ q.pcd = ground arith in
    let e_pse : p.pse ≡ q.pse = ground arith in
    let e_global : p.global ≡ q.global = ground arith in
    let e_pat : p.pat ≡ q.pat = ground arith in
    let e_enc : p.enc ≡ q.enc = ground arith in
    let e_nx : p.nx ≡ q.nx = ground arith in
    let e_other : p.other ≡ q.other = ground arith in
    λ x. record {
      present = e_present x;
      rw = e_rw x;
      pwt = e_pwt x;
      pcd = e_pcd x;
      pse = e_pse x;
      global = e_global x;
      pat = e_pat x;
      enc = e_enc x;
      nx = e_nx x;
      other = e_other x;
    }
