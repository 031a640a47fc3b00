-- ===== src/Fault/Access.antt =====
-- What access_error allows.
use userspace_bypass.Prelude.{◌≡◌, arith, true, false, ◌↔◌, ◌⊎◌}
use userspace_bypass.Fault.State.{ErrorCode, Vma, Kernel}
use userspace_bypass.Fault.Area.{access_error}

-- access_error lets an access through exactly if no protection key forbids it and it is a write to a
-- writable VMA, or a read that met no protection in a VMA that may be read, written or executed.
access_error_iff :
    {W : Type 0} (k : Kernel W) (e : ErrorCode) (vma : Vma) (w : W)
    → (access_error k e vma w ≡ false)
      ↔ (e.pk ≡ false)
        × (k.access_permitted vma e.write e.instr w ≡ true)
        × ((e.write ≡ true) × (vma.vm_write ≡ true)
            ⊎ (e.write ≡ false)
              × (e.prot ≡ false)
              × ((vma.vm_read ≡ true) ⊎ (vma.vm_exec ≡ true) ⊎ (vma.vm_write ≡ true)))
unfolding access_error
access_error_iff k e vma w = ground arith
