-- ===== src/Instr/Control.antt =====
-- Branches and jumps, and the instructions that need no memory besides: the cases OP_AUIPC,
-- OP_BRANCH, OP_JAL, OP_JALR, OP_LUI, OP_FENCE, and the results of the arithmetic groups.
use space_emu.Base.{ℕ, bit_and, Bool, not, ◌==◌, ◌!=◌, ltb, if◌then◌else◌}
use space_emu.Base.{switch, [], ◌∷◌, Option, none, some}
use space_emu.Base.Word.{lnot, add64}
use space_emu.Alu.Helpers.{slt}
use space_emu.Cpu.{CpuState}
use space_emu.Instr.{Result, result, illegal, next_inst, jump, write_reg}
use space_emu.Instr.Fields.{rd, rs1, rs2, funct3, imm_i, imm_b, imm_u, imm_j}

-- The comparison of a branch, before `condition ^= funct3 & 1`.
unfoldable pub compare_regs : ℕ → ℕ → ℕ → Option Bool
compare_regs funct a b =
    switch funct
      ((0, some (a == b))
        ∷ (1, some (a == b))
        ∷ (4, some (slt a b))
        ∷ (5, some (slt a b))
        ∷ (6, some (ltb a b))
        ∷ (7, some (ltb a b))
        ∷ [])
      none

unfoldable pub condition : ℕ → ℕ → ℕ → Option Bool
unfolding compare_regs
condition funct a b = elim (compare_regs funct a b) [
  | none ↦ none
  | some c ↦ some (if bit_and funct 1 == 0 then c else not c)
]

module _ {M : Type 0} (s : CpuState) (m : M) (inst : ℕ) where
  unfoldable pub op_auipc : Result M
  op_auipc = result next_inst (write_reg s (rd inst) (add64 s.pc (imm_u inst))) m

  unfoldable pub op_lui : Result M
  op_lui = result next_inst (write_reg s (rd inst) (imm_u inst)) m

  unfoldable pub op_branch : Result M
  unfolding condition
  op_branch = elim (condition (funct3 inst) (s.regs (rs1 inst)) (s.regs (rs2 inst))) [
    | none ↦ illegal s m
    | some c ↦
        if c
        then result jump (record s { pc = add64 s.pc (imm_b inst) }) m
        else result next_inst s m
  ]

  unfoldable pub op_jal : Result M
  op_jal =
      let linked = write_reg s (rd inst) (add64 s.pc 4) in
      result jump (record linked { pc = add64 s.pc (imm_j inst) }) m

  -- The target is computed before the link is written.
  unfoldable pub op_jalr : Result M
  op_jalr =
      let val = add64 s.pc 4 in
      let target = bit_and (add64 (s.regs (rs1 inst)) (imm_i inst)) (lnot 64 1) in
      result jump (write_reg (record s { pc = target }) (rd inst) val) m

  unfoldable pub op_fence : Result M
  op_fence =
      switch (funct3 inst)
        ((0, if bit_and inst 0xf00fff80 != 0 then illegal s m else result next_inst s m)
          ∷ (1, if inst != 0x0000100f then illegal s m else result next_inst s m)
          ∷ [])
        (illegal s m)
