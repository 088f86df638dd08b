-- ===== src/Instr/Amo.antt =====
-- The atomic instructions: the case OP_AMO. The reservation is an address, `load_res`.
pub mod Meaning
use space_emu.Base.{ℕ, bit_and, bit_or, bit_xor, ◌==◌, ◌!=◌, ltb, if◌then◌else◌}
use space_emu.Base.{switch, [], ◌∷◌, Option, none, some, List}
use space_emu.Base.Word.{u32, add64, ◌>>>◌}
use space_emu.Alu.Helpers.{sext32, slt}
use space_emu.Cpu.{CpuState}
use space_emu.Device.{Reply}
use space_emu.Instr.{Result, result, illegal, next_inst, write_reg, load, store}
use space_emu.Instr.Fields.{rd, rs1, rs2, funct3}

-- What an atomic update stores, by its `funct7`, from the value in memory and the register's.
unfoldable pub amo_w_value : ℕ → ℕ → ℕ → Option ℕ
amo_w_value funct value val2 =
    switch funct
      ((1, some val2)
        ∷ (0, some (sext32 (add64 value val2)))
        ∷ (4, some (sext32 (bit_xor value val2)))
        ∷ (0xc, some (sext32 (bit_and value val2)))
        ∷ (0x8, some (sext32 (bit_or value val2)))
        ∷ (0x10, some (if slt (sext32 value) (sext32 val2) then sext32 value else val2))
        ∷ (0x14, some (if slt (sext32 val2) (sext32 value) then sext32 value else val2))
        ∷ (0x18, some (if ltb (u32 value) (u32 val2) then sext32 value else val2))
        ∷ (0x1c, some (if ltb (u32 val2) (u32 value) then sext32 value else val2))
        ∷ [])
      none

unfoldable pub amo_d_value : ℕ → ℕ → ℕ → Option ℕ
amo_d_value funct value val2 =
    switch funct
      ((1, some val2)
        ∷ (0, some (add64 value val2))
        ∷ (4, some (bit_xor value val2))
        ∷ (0xc, some (bit_and value val2))
        ∷ (0x8, some (bit_or value val2))
        ∷ (0x10, some (if slt value val2 then value else val2))
        ∷ (0x14, some (if slt val2 value then value else val2))
        ∷ (0x18, some (if ltb value val2 then value else val2))
        ∷ (0x1c, some (if ltb val2 value then value else val2))
        ∷ [])
      none

module _ {M : Type 0} (read : CpuState × M → ℕ → ℕ → Reply (CpuState × M))
    (write : CpuState × M → ℕ → List ℕ → Reply (CpuState × M)) (s : CpuState) (m : M)
    (inst : ℕ) where
  abbrev addr : ℕ
  addr = s.regs (rs1 inst)

  -- After the `switch`: `if (rd != 0) regs[rd] = value`.
  abbrev finish : CpuState → M → ℕ → Result M
  finish s' m' value = result next_inst (write_reg s' (rd inst) value) m'

  module _ (size : ℕ) (convert : ℕ → ℕ) where
    unfoldable pub load_reserved : Result M
    load_reserved =
        let get =
          load read write s m addr size
            (λ s' m' rval. finish (record s' { load_res = addr }) m' (convert rval)) in
        if rs2 inst != 0 then illegal s m else get

    unfoldable pub store_conditional : Result M
    store_conditional =
        let put =
          store read write s m addr size (s.regs (rs2 inst))
            (λ s' m'. finish (record s' { load_res = 0 }) m' 0) in
        if s.load_res == addr then put else finish s m 1

    -- The read, and the write of what `update` makes of the value that was read.
    unfoldable pub read_modify_write : (ℕ → ℕ) → Result M
    read_modify_write update = load read write s m addr size (λ s' m' rval.
        store read write s' m' addr size (update (convert rval))
          (λ s'' m''. finish s'' m'' (convert rval)))

    -- The labels of the outer `switch` are those of the inner one.
    unfoldable pub atomic : (ℕ → ℕ → Option ℕ) → Result M
    unfolding load_reserved store_conditional read_modify_write
    atomic value_of =
        let funct7 = inst >>> 27 in
        let val2 = s.regs (rs2 inst) in
        if funct7 == 2
        then load_reserved
        else if funct7 == 3
        then store_conditional
        else elim (value_of 0 0) [
          | none ↦ illegal s m
          | some v ↦
              read_modify_write (λ value. elim (value_of value val2) [ none ↦ val2 | some w ↦ w ])
        ]

  unfoldable pub op_amo : Result M
  unfolding atomic
  op_amo =
      let funct7 = inst >>> 27 in
      switch (funct3 inst)
        ((2, atomic 4 sext32 (amo_w_value funct7))
          ∷ (3, atomic 8 (λ rval. rval) (amo_d_value funct7))
          ∷ [])
        (illegal s m)
