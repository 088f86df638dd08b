-- ===== src/Instr/Compressed/Quadrant0.antt =====
-- C_QUADRANT(0): the stack pointer plus an offset, and loads and stores by short registers.
use space_emu.Base.{ℕ, bit_and, ◌==◌, if◌then◌else◌}
use space_emu.Base.{switch, [], ◌∷◌, List}
use space_emu.Base.Word.{add64, ◌<<<◌, ◌>>>◌}
use space_emu.Alu.Helpers.{sext32}
use space_emu.Cpu.{CpuState}
use space_emu.Device.{Reply}
use space_emu.Instr.{Result, result, illegal, next_c_inst, set_reg, load, store}
use space_emu.Instr.Compressed.{low_reg, high_reg, c_funct3}
use space_emu.Instr.Fields.{◌|||◌}
use space_emu.Instr.LoadStore.{set_float}

unfoldable pub imm_addi4spn : ℕ → ℕ
imm_addi4spn inst =
    bit_and (inst >>> 7) 0x30
    ||| bit_and (inst >>> 1) 0x3c0
    ||| bit_and (inst >>> 4) 0x4
    ||| bit_and (inst >>> 2) 0x8

-- The offsets of the accesses of four and of eight bytes.
unfoldable pub imm_word : ℕ → ℕ
imm_word inst = bit_and (inst >>> 7) 0x38 ||| bit_and (inst >>> 4) 0x4 ||| bit_and (inst <<< 1) 0x40

unfoldable pub imm_double : ℕ → ℕ
imm_double inst = bit_and (inst >>> 7) 0x38 ||| bit_and (inst <<< 1) 0xc0

module _ {M : Type 0} (read : CpuState × M → ℕ → ℕ → Reply (CpuState × M))
    (write : CpuState × M → ℕ → List ℕ → Reply (CpuState × M)) (s : CpuState) (m : M)
    (inst : ℕ) where
  abbrev rd' : ℕ
  rd' = low_reg inst

  -- An address from the base register and an offset.
  abbrev base : ℕ → ℕ
  base imm = add64 (s.regs (high_reg inst)) imm

  unfoldable pub c_addi4spn : Result M
  c_addi4spn =
      if imm_addi4spn inst == 0
      then illegal s m
      else result next_c_inst (set_reg s rd' (add64 (s.regs 2) (imm_addi4spn inst))) m

  unfoldable pub c_fld : Result M
  c_fld =
      let get =
        load read write s m (base (imm_double inst)) 8
          (λ s' m' rval. result next_c_inst (set_float s' rd' rval) m') in
      if s.fs == 0 then illegal s m else get

  unfoldable pub c_lw : Result M
  c_lw =
      load read write s m (base (imm_word inst)) 4
        (λ s' m' rval. result next_c_inst (set_reg s' rd' (sext32 rval)) m')

  unfoldable pub c_ld : Result M
  c_ld =
      load read write s m (base (imm_double inst)) 8
        (λ s' m' rval. result next_c_inst (set_reg s' rd' rval) m')

  unfoldable pub c_fsd : Result M
  c_fsd =
      let put =
        store read write s m (base (imm_double inst)) 8 (s.fp_reg rd')
          (λ s' m'. result next_c_inst s' m') in
      if s.fs == 0 then illegal s m else put

  unfoldable pub c_sw : Result M
  c_sw =
      store read write s m (base (imm_word inst)) 4 (s.regs rd') (λ s' m'. result next_c_inst s' m')

  unfoldable pub c_sd : Result M
  c_sd =
      store read write s m (base (imm_double inst)) 8 (s.regs rd')
        (λ s' m'. result next_c_inst s' m')

  unfoldable pub quadrant0 : Result M
  quadrant0 =
      switch (c_funct3 inst)
        ((0, c_addi4spn)
          ∷ (1, c_fld)
          ∷ (2, c_lw)
          ∷ (3, c_ld)
          ∷ (5, c_fsd)
          ∷ (6, c_sw)
          ∷ (7, c_sd)
          ∷ [])
        (illegal s m)
