-- ===== src/Instr/LoadStore.antt =====
-- Loads and stores: the cases OP_STORE, OP_LOAD, OP_FP_LOAD and OP_FP_STORE.
use space_emu.Base.{ℕ, ◌+◌, ◌-◌, ◌^◌, bit_or, ◌==◌, ltb, if◌then◌else◌}
use space_emu.Base.{switch, [], ◌∷◌, List}
use space_emu.Base.Word.{add64}
use space_emu.Alu.Helpers.{sext32}
use space_emu.Cpu.{CpuState}
use space_emu.Device.{Reply}
use space_emu.Instr.{Result, result, illegal, next_inst, write_reg, load, store}
use space_emu.Instr.Fields.{rd, rs1, rs2, funct3, imm_i, imm_s}

-- F32_HIGH
abbrev pub f32_high : ℕ
f32_high = 2 ^ 64 - 2 ^ 32

-- `(int8_t)a` and `(int16_t)a`, extended to 64 bits, for a value that fits.
abbrev pub sext8 : ℕ → ℕ
sext8 a = if ltb a (2 ^ 7) then a else a + (2 ^ 64 - 2 ^ 8)

abbrev pub sext16 : ℕ → ℕ
sext16 a = if ltb a (2 ^ 15) then a else a + (2 ^ 64 - 2 ^ 16)

-- A write to a float register turns the unit on.
unfoldable pub set_float : CpuState → ℕ → ℕ → CpuState
set_float s r value = record s { fp_reg = λ i. if i == r then value else s.fp_reg i; fs = 3 }

module _ {M : Type 0} (read : CpuState × M → ℕ → ℕ → Reply (CpuState × M))
    (write : CpuState × M → ℕ → List ℕ → Reply (CpuState × M)) (s : CpuState) (m : M)
    (inst : ℕ) where
  unfoldable pub op_store : Result M
  op_store =
      let addr = add64 (s.regs (rs1 inst)) (imm_s inst) in
      let val2 = s.regs (rs2 inst) in
      let put : ℕ → Result M =
        λ size. store read write s m addr size val2 (λ s' m'. result next_inst s' m') in
      switch (funct3 inst) ((0, put 1) ∷ (1, put 2) ∷ (2, put 4) ∷ (3, put 8) ∷ []) (illegal s m)

  unfoldable pub op_load : Result M
  op_load =
      let addr = add64 (s.regs (rs1 inst)) (imm_i inst) in
      let get : ℕ → (ℕ → ℕ) → Result M = λ size convert.
        load read write s m addr size
          (λ s' m' ret. result next_inst (write_reg s' (rd inst) (convert ret)) m') in
      switch (funct3 inst)
        ((0x0, get 1 sext8)
          ∷ (0x1, get 2 sext16)
          ∷ (0x2, get 4 sext32)
          ∷ (0x4, get 1 (λ ret. ret))
          ∷ (0x5, get 2 (λ ret. ret))
          ∷ (0x3, get 8 (λ ret. ret))
          ∷ (0x6, get 4 (λ ret. ret))
          ∷ [])
        (illegal s m)

  unfoldable pub op_fp_load : Result M
  op_fp_load =
      let addr = add64 (s.regs (rs1 inst)) (imm_i inst) in
      let get : ℕ → ℕ → Result M = λ size high.
        load read write s m addr size
          (λ s' m' fret. result next_inst (set_float s' (rd inst) (bit_or fret high)) m') in
      if s.fs == 0
      then illegal s m
      else switch (funct3 inst) ((2, get 4 f32_high) ∷ (3, get 8 0) ∷ []) (illegal s m)

  unfoldable pub op_fp_store : Result M
  op_fp_store =
      let addr = add64 (s.regs (rs1 inst)) (imm_s inst) in
      let put : ℕ → Result M = λ size.
        store read write s m addr size (s.fp_reg (rs2 inst)) (λ s' m'. result next_inst s' m') in
      if s.fs == 0
      then illegal s m
      else switch (funct3 inst) ((2, put 4) ∷ (3, put 8) ∷ []) (illegal s m)
