-- ===== src/Instr/Keeps/Control.antt =====
-- Branches, jumps and fences.
use space_emu.Base.{ℕ, either, switch_all, ◌!=◌, bit_and, if◌then◌else◌, some, none}
use space_emu.Base.Word.{add64}
use space_emu.Cpu.{CpuState}
use space_emu.Instr.{Result, result, illegal, next_inst, jump}
use space_emu.Instr.Control.{condition, op_auipc, op_lui, op_branch, op_jal, op_jalr, op_fence}
use space_emu.Instr.Fields.{rd, rs1, rs2, funct3, imm_b}
use space_emu.Instr.Float.{Call}
use space_emu.Instr.Keeps.{Transfer, Ends, write_reg-keeps}

module _ {softfp : Call → ℕ → ℕ × ℕ} {I F : CpuState → Type 0} (t : Transfer softfp I F)
    {M : Type 0} (s : CpuState) (m : M) (inst : ℕ) (i : I s) where
  pub op_auipc-Ends : Ends I F (op_auipc s m inst)
  unfolding op_auipc
  op_auipc-Ends = write_reg-keeps t s (rd inst) _ (t.enter s i)

  pub op_lui-Ends : Ends I F (op_lui s m inst)
  unfolding op_lui
  op_lui-Ends = write_reg-keeps t s (rd inst) _ (t.enter s i)

  pub op_branch-Ends : Ends I F (op_branch s m inst)
  unfolding op_branch
  op_branch-Ends =
      elim (condition (funct3 inst) (s.regs (rs1 inst)) (s.regs (rs2 inst)))
        as (λ o. Ends I F {M = M} (elim o [
          | none ↦ illegal s m
          | some c ↦
              if c
              then result jump (record s { pc = add64 s.pc (imm_b inst) }) m
              else result next_inst s m
        ])) [
          | none ↦ i
          | some c ↦
              either (λ (r : Result M). Ends I F r) c (t.to_pc s _ (t.enter s i)) (t.enter s i)
        ]

  pub op_jal-Ends : Ends I F (op_jal s m inst)
  unfolding op_jal
  op_jal-Ends = t.to_pc _ _ (write_reg-keeps t s (rd inst) _ (t.enter s i))

  pub op_jalr-Ends : Ends I F (op_jalr s m inst)
  unfolding op_jalr
  op_jalr-Ends = write_reg-keeps t _ (rd inst) _ (t.to_pc s _ (t.enter s i))

  pub op_fence-Ends : Ends I F (op_fence s m inst)
  unfolding op_fence
  op_fence-Ends =
      switch_all (λ (r : Result M). Ends I F r) (funct3 inst) _
        (
          either (λ (r : Result M). Ends I F r) (bit_and inst 0xf00fff80 != 0) i (t.enter s i),
          (either (λ (r : Result M). Ends I F r) (inst != 0x0000100f) i (t.enter s i), tt),
        )
        i
