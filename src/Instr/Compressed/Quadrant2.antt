-- ===== src/Instr/Compressed/Quadrant2.antt =====
-- C_QUADRANT(2): shifts, accesses from the stack pointer, moves and jumps by full registers.
use space_emu.Base.{ℕ, bit_and, ◌==◌, if◌then◌else◌}
use space_emu.Base.{switch, [], ◌∷◌, List}
use space_emu.Base.Word.{u64, lnot, add64, ◌<<<◌, ◌>>>◌}
use space_emu.Alu.Helpers.{sext32}
use space_emu.Cpu.{CpuState}
use space_emu.Device.{Reply}
use space_emu.Instr.{Result, result, illegal, next_c_inst, jump, set_reg, write_reg, load, store}
use space_emu.Instr.Compressed.{c_funct3}
use space_emu.Instr.Fields.{◌|||◌, rd}
use space_emu.Instr.LoadStore.{set_float}
use space_emu.Instr.System.{goto_exception, cause_breakpoint}

-- `(inst >> 2) & 0x1F`
abbrev pub c_rs2 : ℕ → ℕ
c_rs2 inst = bit_and (inst >>> 2) 0x1f

-- The offsets of loads of four and eight bytes, and of stores.
unfoldable pub imm_lwsp : ℕ → ℕ
imm_lwsp inst =
    bit_and (inst >>> 7) 0x20 ||| bit_and (c_rs2 inst) 0x1c ||| bit_and (inst <<< 4) 0xc0

unfoldable pub imm_ldsp : ℕ → ℕ
imm_ldsp inst =
    bit_and (inst >>> 7) 0x20 ||| bit_and (c_rs2 inst) 0x18 ||| bit_and (inst <<< 4) 0x1c0

unfoldable pub imm_swsp : ℕ → ℕ
imm_swsp inst = bit_and (inst >>> 7) 0x3c ||| bit_and (inst >>> 1) 0xc0

unfoldable pub imm_sdsp : ℕ → ℕ
imm_sdsp inst = bit_and (inst >>> 7) 0x38 ||| bit_and (inst >>> 1) 0x1c0

module _ {M : Type 0} (read : CpuState × M → ℕ → ℕ → Reply (CpuState × M))
    (write : CpuState × M → ℕ → List ℕ → Reply (CpuState × M)) (s : CpuState) (m : M)
    (inst : ℕ) where
  -- An address from the stack pointer.
  abbrev from_sp : ℕ → ℕ
  from_sp imm = add64 (s.regs 2) imm

  unfoldable pub c_slli : Result M
  c_slli =
      let imm = bit_and (inst >>> 7) 0x20 ||| c_rs2 inst in
      result next_c_inst (write_reg s (rd inst) (u64 (s.regs (rd inst) <<< imm))) m

  unfoldable pub c_fldsp : Result M
  c_fldsp =
      let get =
        load read write s m (from_sp (imm_ldsp inst)) 8
          (λ s' m' rval. result next_c_inst (set_float s' (rd inst) rval) m') in
      if s.fs == 0 then illegal s m else get

  unfoldable pub c_lwsp : Result M
  c_lwsp =
      load read write s m (from_sp (imm_lwsp inst)) 4
        (λ s' m' rval. result next_c_inst (write_reg s' (rd inst) (sext32 rval)) m')

  unfoldable pub c_ldsp : Result M
  c_ldsp =
      load read write s m (from_sp (imm_ldsp inst)) 8
        (λ s' m' rval. result next_c_inst (write_reg s' (rd inst) rval) m')

  -- The target is read before the link is written.
  unfoldable pub c_jump : Result M
  c_jump =
      let target = bit_and (s.regs (rd inst)) (lnot 64 1) in
      if rd inst == 0 then illegal s m else result jump (record s { pc = target }) m

  unfoldable pub c_jump_and_link : Result M
  c_jump_and_link =
      let val = add64 s.pc 2 in
      let target = bit_and (s.regs (rd inst)) (lnot 64 1) in
      if rd inst == 0
      then goto_exception s m cause_breakpoint
      else result jump (set_reg (record s { pc = target }) 1 val) m

  -- c.jr and c.mv, c.ebreak, c.jalr and c.add
  unfoldable pub c_register : Result M
  unfolding c_jump c_jump_and_link
  c_register =
      let moved = result next_c_inst (write_reg s (rd inst) (s.regs (c_rs2 inst))) m in
      let added =
        result next_c_inst (write_reg s (rd inst) (add64 (s.regs (rd inst)) (s.regs (c_rs2 inst))))
          m in
      if bit_and (inst >>> 12) 1 == 0
      then (if c_rs2 inst == 0 then c_jump else moved)
      else (if c_rs2 inst == 0 then c_jump_and_link else added)

  unfoldable pub c_fsdsp : Result M
  c_fsdsp =
      let put =
        store read write s m (from_sp (imm_sdsp inst)) 8 (s.fp_reg (c_rs2 inst))
          (λ s' m'. result next_c_inst s' m') in
      if s.fs == 0 then illegal s m else put

  unfoldable pub c_swsp : Result M
  c_swsp =
      store read write s m (from_sp (imm_swsp inst)) 4 (s.regs (c_rs2 inst))
        (λ s' m'. result next_c_inst s' m')

  unfoldable pub c_sdsp : Result M
  c_sdsp =
      store read write s m (from_sp (imm_sdsp inst)) 8 (s.regs (c_rs2 inst))
        (λ s' m'. result next_c_inst s' m')

  unfoldable pub quadrant2 : Result M
  unfolding c_register
  quadrant2 =
      switch (c_funct3 inst)
        ((0, c_slli)
          ∷ (1, c_fldsp)
          ∷ (2, c_lwsp)
          ∷ (3, c_ldsp)
          ∷ (4, c_register)
          ∷ (5, c_fsdsp)
          ∷ (6, c_swsp)
          ∷ (7, c_sdsp)
          ∷ [])
        (illegal s m)
