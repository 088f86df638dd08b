-- ===== src/Regs/Valid/Writes.antt =====
-- `csr_write` of regs.c and the well-formed states.
use space_emu.Base.{ℕ, ◌^◌, ◌<◌, ◌≡◌, arith, bit_and, true}
use space_emu.Base.{◌≤◌, Bool-cases, inl, inr}
use mathlib.Core.Path.{subst}
use space_emu.Base.{switch_all, Option, none, some}
use space_emu.Base.Word.{◌>>>◌}
use space_emu.Regs.Csr.Write.{misa_mxl, allows_mxl, set_mxl}
use space_emu.Base.Bits.{has_bit-bit_and, bit_and_mask, IsWithin}
use space_emu.Cpu.{CpuState}
use space_emu.Regs.Status.{sstatus_mask, get_base_from_xlen}
use space_emu.Regs.Csr.Write.{csr_write, merge, mie_mask, mideleg_mask, mip_mask, medeleg_mask}
use space_emu.Regs.Csr.Write.{set_frm}
use space_emu.Regs.Csr.Write.{write_machine, write_supervisor, write_misa}
use space_emu.Regs.Csr.Merge.{merge-lt, merge-IsWithin}
use space_emu.Regs.Valid.{IsValid}
use space_emu.Regs.Valid.Fields.{set_mstatus-IsValid, float-IsValid, words-IsValid, width-IsValid}
use space_emu.Regs.Valid.Fields.{interrupts-IsValid, set_frm-lt, satp_value-IsSatpMode}

-- A reply of `csr_write` whose state, if there is one, is valid.
data Keeps : Option (ℕ × CpuState) → Type 0 where
  refused : Keeps none
  kept : {n : ℕ} {t : CpuState} → IsValid t → Keeps (some (n, t))

Keeps-some :
    {r : Option (ℕ × CpuState)} {code : ℕ} {t : CpuState} → Keeps r → r ≡ some (code, t) → IsValid t
Keeps-some refused e = cc
Keeps-some (kept {t = u} v) e = subst IsValid (cc) v

fflags-lt : (val : ℕ) → bit_and val 0x1f < 32
fflags-lt val = omega (arith, bit_and_mask 5 val)

-- What can be delegated can be enabled.
mideleg_mask-in-mie_mask : IsWithin mideleg_mask mie_mask
mideleg_mask-in-mie_mask i e = ground (arith, has_bit-bit_and mideleg_mask mie_mask i)

known_mxl :
    (s : CpuState) (val : ℕ) → allows_mxl s val ≡ true → (1 ≤ misa_mxl s val) × (misa_mxl s val ≤ 2)
unfolding get_base_from_xlen
known_mxl s val h = (ground (arith, h), ground (arith, h))

module _ (s : CpuState) (csr val : ℕ) (v : IsValid s) where
  write_misa-Keeps : Keeps (write_misa s val)
  unfolding write_misa set_mxl
  write_misa-Keeps = elim (Bool-cases (allows_mxl s val)) [
    | inl e ↦ rw e (kept (width-IsValid v (known_mxl s val e)))
    | inr e ↦ rw e (kept v)
  ]

  mie_merged :
      (mask : ℕ)
      → mask < 2 ^ 32
      → IsWithin mask mie_mask
      → (merge s.mie mask val < 2 ^ 32) × IsWithin (merge s.mie mask val) mie_mask
  mie_merged mask p q = (
    merge-lt 32 s.mie mask val (omega arith) v.mie_lt p,
    merge-IsWithin mie_mask s.mie mask val (omega arith) v.mie_within q,
  )

  mideleg_merged :
      (merge s.mideleg mideleg_mask val < 2 ^ 32)
      × IsWithin (merge s.mideleg mideleg_mask val) mideleg_mask
  mideleg_merged = (
    merge-lt 32 s.mideleg mideleg_mask val (omega arith) v.mideleg_lt (omega arith),
    merge-IsWithin mideleg_mask s.mideleg mideleg_mask val (omega arith) v.mideleg_within
        (λ i e. e),
  )

  medeleg_merged : merge s.medeleg medeleg_mask val < 2 ^ 16
  medeleg_merged = merge-lt 16 s.medeleg medeleg_mask val (omega arith) v.medeleg_lt (omega arith)

  mip_merged : (mask : ℕ) → mask < 2 ^ 32 → merge s.mip mask val < 2 ^ 32
  mip_merged mask p = merge-lt 32 s.mip mask val (omega arith) v.mip_lt p

  mideleg-in-mie : IsWithin s.mideleg mie_mask
  mideleg-in-mie i e = mideleg_mask-in-mie_mask i (v.mideleg_within i e)

  mie_old : (s.mie < 2 ^ 32) × IsWithin s.mie mie_mask
  mie_old = (v.mie_lt, v.mie_within)

  mideleg_old : (s.mideleg < 2 ^ 32) × IsWithin s.mideleg mideleg_mask
  mideleg_old = (v.mideleg_lt, v.mideleg_within)

  write_machine-Keeps : Keeps (write_machine s csr val)
  unfolding write_machine
  write_machine-Keeps =
      switch_all Keeps csr _
        (
          kept (set_mstatus-IsValid s val v),
          (
            write_misa-Keeps,
            (
              kept (interrupts-IsValid v medeleg_merged mideleg_old mie_old v.mip_lt v.satp_mode),
              (
                kept
                    (interrupts-IsValid v v.medeleg_lt mideleg_merged mie_old v.mip_lt v.satp_mode),
                (
                  kept (
                      interrupts-IsValid v v.medeleg_lt mideleg_old
                        (mie_merged mie_mask (omega arith) (λ i e. e)) v.mip_lt v.satp_mode),
                  (
                    kept (words-IsValid v),
                    (
                      kept (words-IsValid v),
                      (
                        kept (words-IsValid v),
                        (
                          kept (words-IsValid v),
                          (
                            kept (words-IsValid v),
                            (
                              kept (words-IsValid v),
                              (
                                kept (
                                    interrupts-IsValid v v.medeleg_lt mideleg_old mie_old
                                      (mip_merged mip_mask (omega arith)) v.satp_mode),
                                tt,
                              ),
                            ),
                          ),
                        ),
                      ),
                    ),
                  ),
                ),
              ),
            ),
          ),
        )
        refused

  write_supervisor-Keeps : Keeps (write_supervisor s csr val)
  unfolding write_supervisor
  write_supervisor-Keeps =
      switch_all Keeps csr _
        (
          kept (set_mstatus-IsValid s (merge s.mstatus sstatus_mask val) v),
          (
            kept (
                interrupts-IsValid v v.medeleg_lt mideleg_old
                  (mie_merged s.mideleg v.mideleg_lt mideleg-in-mie) v.mip_lt v.satp_mode),
            (
              kept (words-IsValid v),
              (
                kept (words-IsValid v),
                (
                  kept (words-IsValid v),
                  (
                    kept (words-IsValid v),
                    (
                      kept (words-IsValid v),
                      (
                        kept (words-IsValid v),
                        (
                          kept (
                              interrupts-IsValid v v.medeleg_lt mideleg_old mie_old
                                (mip_merged s.mideleg v.mideleg_lt) v.satp_mode),
                          (
                            kept (
                                interrupts-IsValid v v.medeleg_lt mideleg_old mie_old v.mip_lt
                                  (satp_value-IsSatpMode s.satp val v.satp_mode)),
                            tt,
                          ),
                        ),
                      ),
                    ),
                  ),
                ),
              ),
            ),
          ),
        )
        write_machine-Keeps

  csr_write-Keeps : Keeps (csr_write s csr val)
  unfolding csr_write
  csr_write-Keeps =
      switch_all Keeps csr _
        (
          kept
              (float-IsValid s (bit_and val 0x1f) s.frm 3 (fflags-lt val) v.frm_lt (omega arith) v),
          (
            kept (
                float-IsValid s s.fflags (set_frm s (bit_and val 7)).frm 3 v.fflags_lt
                  (set_frm-lt s (bit_and val 7)) (omega arith) v),
            (
              kept (
                  float-IsValid s (bit_and val 0x1f) (set_frm s (bit_and (val >>> 5) 7)).frm 3
                    (fflags-lt val) (set_frm-lt s (bit_and (val >>> 5) 7)) (omega arith) v),
              tt,
            ),
          ),
        )
        write_supervisor-Keeps

-- Whatever the register and the value, a write that is accepted, from a state in which the
-- fields of `IsValid` (`mstatus` with the width in UXL, FS, the rounding mode, the flags, the
-- privilege, the delegation and interrupt words, MXL and the mode of `satp`) are within their
-- bounds, leaves them so.
pub csr_write-IsValid :
    {s t : CpuState} {code : ℕ} (csr val : ℕ)
    → IsValid s
    → csr_write s csr val ≡ some (code, t)
    → IsValid t
csr_write-IsValid {s} csr val v e = Keeps-some (csr_write-Keeps s csr val v) e
