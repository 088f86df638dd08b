-- ===== src/Instr/Keeps/System.antt =====
-- The privileged instructions and those of the control registers.
use space_emu.Base.{ℕ, ◌≡◌, ◌+◌, ◌^◌, refl, Bool, true, false, ◌&&◌, ltb, either, switch_all, ◌==◌}
use space_emu.Base.{◌!=◌, bit_and, bit_or, if◌then◌else◌, Option, some, none}
use space_emu.Base.Word.{lnot, ◌>>>◌}
use space_emu.Cpu.{CpuState}
use space_emu.Instr.{Result, result, illegal, next_inst, write_reg}
use space_emu.Instr.Fields.{rd, rs1, funct3}
use space_emu.Instr.Float.{Call}
use space_emu.Instr.Keeps.{Transfer, Ends, write_reg-keeps}
use space_emu.Instr.System.{goto_exception, op_sret, op_mret, op_wfi, op_sfence, op_privileged}
use space_emu.Instr.System.{after_csr_write, csr_swap, csr_update, op_system, csr}
use space_emu.Regs.Csr.Read.{csr_read}
use space_emu.Regs.Csr.Write.{csr_write}

module _ {softfp : Call → ℕ → ℕ × ℕ} {I F : CpuState → Type 0} (t : Transfer softfp I F)
    {M : Type 0} (s : CpuState) (m : M) where
  pub goto_exception-Ends : (cause : ℕ) → I s → Ends I F (goto_exception s m cause)
  unfolding goto_exception
  goto_exception-Ends cause i = t.pend s (some cause) s.pending_tval i

  module _ (inst : ℕ) (i : I s) where
    abbrev EndsHere : Result M → Type 0
    EndsHere r = Ends I F r

    op_sret-Ends : EndsHere (op_sret s m inst)
    unfolding op_sret
    op_sret-Ends = either EndsHere (ltb s.priv 1) i (t.sret s (t.enter s i))

    op_mret-Ends : EndsHere (op_mret s m inst)
    unfolding op_mret
    op_mret-Ends = either EndsHere (ltb s.priv 3) i (t.mret s (t.enter s i))

    op_wfi-Ends : EndsHere (op_wfi s m inst)
    unfolding op_wfi
    op_wfi-Ends = either EndsHere (bit_and inst 0x00007f80 != 0) i (
        either EndsHere (s.priv == 0) i (
          either EndsHere (ltb s.priv 3 && bit_and s.mstatus (2 ^ 21) != 0) i (
            either EndsHere (bit_and s.mip s.mie == 0) (t.to_pc _ _ (t.sleep s (t.enter s i)))
              (t.enter s i))))

    op_sfence-Ends : EndsHere (op_sfence s m inst)
    unfolding op_sfence
    op_sfence-Ends =
        either EndsHere (bit_and inst 0x00007f80 != 0) i
          (either EndsHere (s.priv == 0) i (t.to_pc s _ (t.enter s i)))

    plain-Ends :
        (r : Result M)
        → EndsHere r
        → EndsHere (if bit_and inst 0x000fff80 != 0 then illegal s m else r)
    plain-Ends r e = either EndsHere (bit_and inst 0x000fff80 != 0) i e

    op_privileged-Ends : EndsHere (op_privileged s m inst)
    unfolding op_privileged
    op_privileged-Ends =
        switch_all EndsHere (csr s m inst) _
          (
            plain-Ends _ (goto_exception-Ends (8 + s.priv) i),
            (
              plain-Ends _ (goto_exception-Ends 3 i),
              (plain-Ends _ op_sret-Ends, (plain-Ends _ op_mret-Ends, (op_wfi-Ends, tt))),
            ),
          )
          (either EndsHere (csr s m inst >>> 5 == 9) op_sfence-Ends i)

    after_csr_write-Ends :
        (value number val : ℕ) (o : Option (ℕ × CpuState))
        → csr_write s number val ≡ o
        → EndsHere (after_csr_write s m inst value o)
    unfolding after_csr_write
    after_csr_write-Ends value number val none e = i
    after_csr_write-Ends value number val (some (error, s')) e =
        let f =
          write_reg-keeps t s' (rd inst) value (t.csr s s' number val error e (t.enter s i)) in
        either EndsHere (error == 0) f (t.to_pc _ _ f)

    csr_swap-Ends : (uninit operand : ℕ) → EndsHere (csr_swap s m inst uninit operand)
    unfolding csr_swap
    csr_swap-Ends uninit operand =
        elim (csr_read uninit s (csr s m inst) true)
          as (λ o. EndsHere (elim o [
            | none ↦ illegal s m
            | some value ↦ after_csr_write s m inst value (csr_write s (csr s m inst) operand)
          ])) [ none ↦ i | some value ↦ after_csr_write-Ends value (csr s m inst) operand _ refl ]

    csr_update-Ends :
        (uninit : ℕ) (set : Bool) (operand : ℕ) → EndsHere (csr_update s m inst uninit set operand)
    unfolding csr_update
    csr_update-Ends uninit set operand =
        let value2 : ℕ → ℕ =
          λ value. if set then bit_or value operand else bit_and value (lnot 64 operand) in
        elim (csr_read uninit s (csr s m inst) (rs1 inst != 0))
          as (λ o. EndsHere (elim o [
            | none ↦ illegal s m
            | some value ↦
                if rs1 inst != 0
                then after_csr_write s m inst value (csr_write s (csr s m inst) (value2 value))
                else result next_inst (write_reg s (rd inst) value) m
          ])) [
            | none ↦ i
            | some value ↦
                either EndsHere (rs1 inst != 0)
                  (after_csr_write-Ends value (csr s m inst) (value2 value) _ refl)
                  (write_reg-keeps t s (rd inst) value (t.enter s i))
          ]

    pub op_system-Ends : (uninit : ℕ) → EndsHere (op_system s m inst uninit)
    unfolding op_system
    op_system-Ends uninit =
        let val1 = s.regs (rs1 inst) in
        switch_all EndsHere (funct3 inst) _
          (
            op_privileged-Ends,
            (
              csr_swap-Ends uninit val1,
              (
                csr_update-Ends uninit true val1,
                (
                  csr_update-Ends uninit false val1,
                  (
                    csr_swap-Ends uninit (rs1 inst),
                    (
                      csr_update-Ends uninit true (rs1 inst),
                      (csr_update-Ends uninit false (rs1 inst), tt),
                    ),
                  ),
                ),
              ),
            ),
          )
          i
