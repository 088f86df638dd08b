-- ===== src/Instr/Compressed/Quadrant1.antt =====
-- C_QUADRANT(1): arithmetic with immediates and short registers, jumps and branches. An immediate
-- is the 64-bit pattern of its int32_t.
use space_emu.Base.{ℕ, bit_and, bit_or, bit_xor, Bool, not, ◌==◌, if◌then◌else◌}
use space_emu.Base.{switch, [], ◌∷◌}
use space_emu.Base.Word.{add64, sub64, ◌<<<◌, ◌>>>◌}
use space_emu.Alu.Helpers.{sext32, sra}
use space_emu.Cpu.{CpuState}
use space_emu.Instr.{Result, result, illegal, next_c_inst, jump, set_reg, write_reg}
use space_emu.Instr.Compressed.{low_reg, high_reg, c_funct3}
use space_emu.Instr.Fields.{◌|||◌, extend, rd}

-- The six bits of an amount to shift by, and the same as a signed immediate.
abbrev pub imm_shift : ℕ → ℕ
imm_shift inst = bit_and (inst >>> 7) 0x20 ||| bit_and (inst >>> 2) 0x1f

unfoldable pub imm_six : ℕ → ℕ
imm_six inst = extend 26 (imm_shift inst)

unfoldable pub imm_addi16sp : ℕ → ℕ
imm_addi16sp inst = extend 22 (
    bit_and (inst >>> 3) 0x200
    ||| bit_and (inst >>> 2) 0x10
    ||| bit_and (inst <<< 1) 0x40
    ||| bit_and (inst <<< 4) 0x180
    ||| bit_and (inst <<< 3) 0x20)

unfoldable pub imm_lui : ℕ → ℕ
imm_lui inst = extend 14 (bit_and (inst <<< 5) 0x20000 ||| bit_and (inst <<< 10) 0x1f000)

unfoldable pub imm_cj : ℕ → ℕ
imm_cj inst = extend 20 (
    bit_and (inst >>> 1) 0x800
    ||| bit_and (inst >>> 7) 0x10
    ||| bit_and (inst >>> 1) 0x300
    ||| bit_and (inst <<< 2) 0x400
    ||| bit_and (inst >>> 1) 0x40
    ||| bit_and (inst <<< 1) 0x80
    ||| bit_and (inst >>> 2) 0x0e
    ||| bit_and (inst <<< 3) 0x20)

unfoldable pub imm_cb : ℕ → ℕ
imm_cb inst = extend 23 (
    bit_and (inst >>> 4) 0x100
    ||| bit_and (inst >>> 7) 0x18
    ||| bit_and (inst <<< 1) 0xc0
    ||| bit_and (inst >>> 2) 0x06
    ||| bit_and (inst <<< 3) 0x20)

module _ {M : Type 0} (s : CpuState) (m : M) (inst : ℕ) where
  -- A value for the full destination register, which may be x0, and for the short one.
  abbrev to_rd : ℕ → Result M
  to_rd value = result next_c_inst (write_reg s (rd inst) value) m

  abbrev to_high : ℕ → Result M
  to_high value = result next_c_inst (set_reg s (high_reg inst) value) m

  unfoldable pub c_addi16sp : Result M
  c_addi16sp =
      if imm_addi16sp inst == 0
      then illegal s m
      else result next_c_inst (set_reg s 2 (add64 (s.regs 2) (imm_addi16sp inst))) m

  -- The arithmetic of two short registers.
  unfoldable pub c_arith : Result M
  c_arith =
      let a = s.regs (high_reg inst) in
      let b = s.regs (low_reg inst) in
      switch (bit_and (inst >>> 5) 3 ||| bit_and (inst >>> 10) 4)
        ((0, to_high (sub64 a b))
          ∷ (1, to_high (bit_xor a b))
          ∷ (2, to_high (bit_or a b))
          ∷ (3, to_high (bit_and a b))
          ∷ (4, to_high (sext32 (sub64 a b)))
          ∷ (5, to_high (sext32 (add64 a b)))
          ∷ [])
        (illegal s m)

  -- The four values of the field are the four cases.
  unfoldable pub c_misc_alu : Result M
  unfolding c_arith
  c_misc_alu =
      let a = s.regs (high_reg inst) in
      switch (bit_and (inst >>> 10) 3)
        ((0, to_high (a >>> imm_shift inst))
          ∷ (1, to_high (sra a (imm_shift inst)))
          ∷ (2, to_high (bit_and a (imm_six inst)))
          ∷ (3, c_arith)
          ∷ [])
        (result next_c_inst s m)

  -- c.beqz and c.bnez
  unfoldable pub c_branch : Bool → Result M
  c_branch taken =
      if taken
      then result jump (record s { pc = add64 s.pc (imm_cb inst) }) m
      else result next_c_inst s m

  unfoldable pub quadrant1 : Result M
  unfolding c_addi16sp c_misc_alu c_branch
  quadrant1 =
      let zero_reg = s.regs (high_reg inst) == 0 in
      switch (c_funct3 inst)
        ((0, to_rd (add64 (s.regs (rd inst)) (imm_six inst)))
          ∷ (1, to_rd (sext32 (add64 (s.regs (rd inst)) (imm_six inst))))
          ∷ (2, to_rd (imm_six inst))
          ∷ (3, if rd inst == 2 then c_addi16sp else to_rd (imm_lui inst))
          ∷ (4, c_misc_alu)
          ∷ (5, result jump (record s { pc = add64 s.pc (imm_cj inst) }) m)
          ∷ (6, c_branch zero_reg)
          ∷ (7, c_branch (not zero_reg))
          ∷ [])
        (illegal s m)
