-- ===== src/Instr/System.antt =====
-- The privileged instructions and those of the control registers: the case OP_SYSTEM.
use space_emu.Base.{ℕ, ◌+◌, ◌^◌, bit_and, bit_or, Bool, true, false, ◌&&◌, ◌==◌, ◌!=◌, ltb}
use space_emu.Base.{if◌then◌else◌}
use space_emu.Base.{switch, [], ◌∷◌, Option, none, some}
use space_emu.Base.Word.{lnot, add64, ◌>>>◌}
use space_emu.Cpu.{CpuState, priv_u, priv_s, priv_m}
use space_emu.Instr.{Result, result, illegal, next_inst, jump, exception, write_reg}
use space_emu.Instr.Fields.{rd, rs1, funct3}
use space_emu.Regs.Csr.Read.{csr_read}
use space_emu.Regs.Csr.Write.{csr_write}
use space_emu.Regs.Trap.{handle_sret, handle_mret}

-- CAUSE_BREAKPOINT and CAUSE_USER_ECALL; the cause of a call is the latter and the mode.
abbrev pub cause_breakpoint : ℕ
cause_breakpoint = 3

abbrev pub cause_user_ecall : ℕ
cause_user_ecall = 8

-- `goto Exception`, with the exception that is to be raised; the value beside it is as it was.
unfoldable pub goto_exception : {M : Type 0} → CpuState → M → ℕ → Result M
goto_exception s m cause = result exception (record s { pending_exception = some cause }) m

module _ {M : Type 0} (s : CpuState) (m : M) (inst : ℕ) where
  -- The CSR number, and the number of the instructions without one: `imm_I = inst >> 20`.
  abbrev pub csr : ℕ
  csr = inst >>> 20

  unfoldable pub op_sret : Result M
  op_sret = if ltb s.priv priv_s then illegal s m else result jump (handle_sret s) m

  unfoldable pub op_mret : Result M
  op_mret = if ltb s.priv priv_m then illegal s m else result jump (handle_mret s) m

  -- `wfi` waits if no enabled interrupt is pending, and is passed by otherwise.
  unfoldable pub op_wfi : Result M
  op_wfi =
      if bit_and inst 0x00007f80 != 0
      then illegal s m
      else if s.priv == priv_u
      then illegal s m
      else if ltb s.priv priv_m && bit_and s.mstatus (2 ^ 21) != 0
      then illegal s m
      else if bit_and s.mip s.mie == 0
      then result jump (record s { power_down_flag = true; pc = add64 s.pc 4 }) m
      else result next_inst s m

  unfoldable pub op_sfence : Result M
  op_sfence =
      if bit_and inst 0x00007f80 != 0
      then illegal s m
      else if s.priv == priv_u
      then illegal s m
      else result jump (record s { pc = add64 s.pc 4 }) m

  -- The instructions whose other fields have to be 0.
  abbrev plain : Result M → Result M
  plain r = if bit_and inst 0x000fff80 != 0 then illegal s m else r

  unfoldable pub op_privileged : Result M
  unfolding op_sret op_mret op_wfi op_sfence
  op_privileged =
      switch csr
        ((0, plain (goto_exception s m (cause_user_ecall + s.priv)))
          ∷ (1, plain (goto_exception s m cause_breakpoint))
          ∷ (0x102, plain op_sret)
          ∷ (0x302, plain op_mret)
          ∷ (0x105, op_wfi)
          ∷ [])
        (if csr >>> 5 == 0x09 then op_sfence else illegal s m)

  -- What follows `csr_write`: the old value goes to `rd`, and a code that is not 0 ends the
  -- instruction here, by the same jump for both codes.
  unfoldable pub after_csr_write : ℕ → Option (ℕ × CpuState) → Result M
  after_csr_write value none = illegal s m
  after_csr_write value (some (error, s')) =
      let s'' = write_reg s' (rd inst) value in
      if error == 0
      then result next_inst s'' m
      else result jump (record s'' { pc = add64 s''.pc 4 }) m

  -- csrrw and csrrwi
  unfoldable pub csr_swap : ℕ → ℕ → Result M
  unfolding after_csr_write
  csr_swap uninit operand = elim (csr_read uninit s csr true) [
    | none ↦ illegal s m
    | some value ↦ after_csr_write value (csr_write s csr operand)
  ]

  -- csrrs, csrrc and their immediate forms: `set` is `funct3 == 2` after `funct3 &= 3`.
  unfoldable pub csr_update : ℕ → Bool → ℕ → Result M
  unfolding after_csr_write
  csr_update uninit set operand = elim (csr_read uninit s csr (rs1 inst != 0)) [
    | none ↦ illegal s m
    | some value ↦
        let value2 = if set then bit_or value operand else bit_and value (lnot 64 operand) in
        if rs1 inst != 0
        then after_csr_write value (csr_write s csr value2)
        else result next_inst (write_reg s (rd inst) value) m
  ]

  -- `uninit` is the counter enable that `csr_read` may read unset.
  unfoldable pub op_system : ℕ → Result M
  unfolding op_privileged csr_swap csr_update
  op_system uninit =
      let val1 = s.regs (rs1 inst) in
      switch (funct3 inst)
        ((0, op_privileged)
          ∷ (1, csr_swap uninit val1)
          ∷ (2, csr_update uninit true val1)
          ∷ (3, csr_update uninit false val1)
          ∷ (5, csr_swap uninit (rs1 inst))
          ∷ (6, csr_update uninit true (rs1 inst))
          ∷ (7, csr_update uninit false (rs1 inst))
          ∷ [])
        (illegal s m)
