-- ===== src/Instr/Float.antt =====
-- The floating-point instructions: OP_FP_FMADD to OP_FP_FNMADD and OP_FP_NORMAL. The software
-- floats are another project's library: `softfp` gives, for a call and the flags before it, the
-- value returned and the flags after it.
use space_emu.Base.{ℕ, ◌-◌, ◌^◌, bit_and, bit_or, bit_xor, Bool, true, false, ◌==◌, ◌!=◌, leb}
use space_emu.Base.{if◌then◌else◌}
use space_emu.Base.{switch, [], ◌∷◌, Option, none, some}
use space_emu.Base.Word.{u32, lnot, ◌>>>◌}
use space_emu.Alu.Helpers.{sext32}
use space_emu.Cpu.{CpuState}
use space_emu.Instr.{write_reg}
use space_emu.Instr.Fields.{rd, rs1, rs2, funct7}
use space_emu.Instr.LoadStore.{f32_high, set_float}

-- The functions of the library, on numbers of 64 bits if the Boolean is true and of 32 bits if it
-- is false. Of the arguments that are numbers, one named `rm` is the rounding mode and the last.
pub data Call : Type 0 where
  fma_sf : Bool → ℕ → ℕ → ℕ → ℕ → Call
  add_sf : Bool → ℕ → ℕ → ℕ → Call
  sub_sf : Bool → ℕ → ℕ → ℕ → Call
  mul_sf : Bool → ℕ → ℕ → ℕ → Call
  div_sf : Bool → ℕ → ℕ → ℕ → Call
  sqrt_sf : Bool → ℕ → ℕ → Call
  min_sf : Bool → ℕ → ℕ → Call
  max_sf : Bool → ℕ → ℕ → Call
  le_sf : Bool → ℕ → ℕ → Call
  lt_sf : Bool → ℕ → ℕ → Call
  eq_quiet_sf : Bool → ℕ → ℕ → Call
  fclass_sf : Bool → ℕ → Call
  cvt_sf64_sf32 : ℕ → ℕ → Call
  cvt_sf32_sf64 : ℕ → Call
  cvt_sf_i32 : Bool → ℕ → ℕ → Call
  cvt_sf_u32 : Bool → ℕ → ℕ → Call
  cvt_sf_i64 : Bool → ℕ → ℕ → Call
  cvt_sf_u64 : Bool → ℕ → ℕ → Call
  cvt_i32_sf : Bool → ℕ → ℕ → Call
  cvt_u32_sf : Bool → ℕ → ℕ → Call
  cvt_i64_sf : Bool → ℕ → ℕ → Call
  cvt_u64_sf : Bool → ℕ → ℕ → Call

-- `none` is -1; `rm` is the field of three bits.
unfoldable pub get_inst_rm : CpuState → ℕ → Option ℕ
get_inst_rm s rm = if rm == 7 then some s.frm else if leb 5 rm then none else some rm

-- FSIGN_MASK32, an int that the operations on registers extend by its sign, and FSIGN_MASK64.
abbrev pub fsign_mask : Bool → ℕ
fsign_mask wide = if wide then 2 ^ 63 else 2 ^ 64 - 2 ^ 31

-- `| F64_HIGH` or `| F32_HIGH`
abbrev pub box : Bool → ℕ → ℕ
box wide value = if wide then value else bit_or value f32_high

-- fsgnj, fsgnjn and fsgnjx
unfoldable pub inject_sign : Bool → ℕ → ℕ → ℕ → Option ℕ
inject_sign wide rm a b =
    let mask = fsign_mask wide in
    switch rm
      ((0, some (bit_or (bit_and a (lnot 64 mask)) (bit_and b mask)))
        ∷ (1, some (bit_or (bit_and a (lnot 64 mask)) (bit_xor (bit_and b mask) mask)))
        ∷ (2, some (bit_xor a (bit_and b mask)))
        ∷ [])
      none

module _ (softfp : Call → ℕ → ℕ × ℕ) (s : CpuState) (inst : ℕ) where
  -- A float register as an argument of the library.
  abbrev pub arg : Bool → ℕ → ℕ
  arg wide r = if wide then s.fp_reg r else u32 (s.fp_reg r)

  -- A call whose value goes to a float register; not every such instruction turns the unit on.
  unfoldable pub to_float : Bool → Bool → Call → CpuState
  to_float turns_on wide call =
      let (value, flags) = softfp call s.fflags in
      let stored = set_float s (rd inst) (box wide value) in
      record stored { fflags = flags; fs = if turns_on then stored.fs else s.fs }

  -- A call whose value goes to an integer register.
  unfoldable pub to_int : (ℕ → ℕ) → Call → CpuState
  to_int convert call =
      let (value, flags) = softfp call s.fflags in
      write_reg (record s { fflags = flags }) (rd inst) (convert value)

  abbrev pub negated : Bool → Bool → ℕ → ℕ
  negated wide flipped a = if flipped then bit_xor a (if wide then 2 ^ 63 else 2 ^ 31) else a

  -- The four fused cases negate the first operand, the third, or both.
  unfoldable pub op_fp_fused : Bool → Bool → Option CpuState
  unfolding to_float get_inst_rm
  op_fp_fused negate_product negate_addend =
      let fused : ℕ → Bool → CpuState = λ rm wide. to_float true wide (
        fma_sf wide (negated wide negate_product (arg wide (rs1 inst))) (arg wide (rs2 inst))
          (negated wide negate_addend (arg wide (inst >>> 27))) rm) in
      if s.fs == 0 then none else elim (get_inst_rm s (bit_and (inst >>> 12) 7)) [
        | none ↦ none
        | some rm ↦
            switch (bit_and (inst >>> 25) 3)
              ((0, some (fused rm false)) ∷ (1, some (fused rm true)) ∷ []) none
      ]

  abbrev some_if : Bool → CpuState → Option CpuState
  some_if b t = if b then some t else none

  -- The cases of funct7 for the numbers of one width.
  unfoldable pub fp_sign : Bool → ℕ → Option CpuState
  unfolding inject_sign
  fp_sign wide rm = elim (inject_sign wide rm (s.fp_reg (rs1 inst)) (s.fp_reg (rs2 inst))) [
    | none ↦ none
    | some value ↦ some (set_float s (rd inst) value)
  ]

  unfoldable pub fp_min_max : Bool → ℕ → Option CpuState
  unfolding to_float
  fp_min_max wide rm =
      let a = arg wide (rs1 inst) in
      let b = arg wide (rs2 inst) in
      switch rm
        ((0, some (to_float true wide (min_sf wide a b)))
          ∷ (1, some (to_float true wide (max_sf wide a b)))
          ∷ [])
        none

  unfoldable pub fp_compare : Bool → ℕ → Option CpuState
  unfolding to_int
  fp_compare wide rm =
      let a = arg wide (rs1 inst) in
      let b = arg wide (rs2 inst) in
      switch rm
        ((0, some (to_int (λ v. v) (le_sf wide a b)))
          ∷ (1, some (to_int (λ v. v) (lt_sf wide a b)))
          ∷ (2, some (to_int (λ v. v) (eq_quiet_sf wide a b)))
          ∷ [])
        none

  unfoldable pub fp_to_integer : Bool → ℕ → Option CpuState
  unfolding to_int
  fp_to_integer wide rm =
      let a = arg wide (rs1 inst) in
      switch (rs2 inst)
        ((0, some (to_int sext32 (cvt_sf_i32 wide a rm)))
          ∷ (1, some (to_int sext32 (cvt_sf_u32 wide a rm)))
          ∷ (2, some (to_int (λ v. v) (cvt_sf_i64 wide a rm)))
          ∷ (3, some (to_int (λ v. v) (cvt_sf_u64 wide a rm)))
          ∷ [])
        none

  unfoldable pub fp_from_integer : Bool → ℕ → Option CpuState
  unfolding to_float
  fp_from_integer wide rm =
      let a = s.regs (rs1 inst) in
      switch (rs2 inst)
        ((0, some (to_float true wide (cvt_i32_sf wide (u32 a) rm)))
          ∷ (1, some (to_float true wide (cvt_u32_sf wide (u32 a) rm)))
          ∷ (2, some (to_float true wide (cvt_i64_sf wide a rm)))
          ∷ (3, some (to_float true wide (cvt_u64_sf wide a rm)))
          ∷ [])
        none

  -- fmv.x and fclass; the class leaves the flags alone.
  unfoldable pub fp_inspect : Bool → ℕ → Option CpuState
  fp_inspect wide rm =
      let a = s.fp_reg (rs1 inst) in
      let class = (softfp (fclass_sf wide (arg wide (rs1 inst))) s.fflags).0 in
      let moved = if wide then a else sext32 a in
      if rs2 inst != 0
      then none
      else switch rm
          ((0, some (write_reg s (rd inst) moved)) ∷ (1, some (write_reg s (rd inst) class)) ∷ [])
          none

  -- fmv.w.x and fmv.d.x, by the field of the instruction itself
  unfoldable pub fp_move : Bool → Option CpuState
  fp_move wide =
      let a = s.regs (rs1 inst) in
      let moved = set_float s (rd inst) (if wide then a else sext32 a) in
      if rs2 inst != 0 then none else if bit_and (inst >>> 12) 7 != 0 then none else some moved

  unfoldable pub fp_sqrt : Bool → ℕ → Option CpuState
  unfolding to_float
  fp_sqrt wide rm =
      some_if (rs2 inst == 0) (to_float true wide (sqrt_sf wide (arg wide (rs1 inst)) rm))

  -- The cases of funct7, with the rounding mode.
  unfoldable pub fp_normal_cases : ℕ → Option CpuState
  unfolding fp_sign fp_min_max fp_compare fp_to_integer fp_from_integer fp_inspect fp_move fp_sqrt
  fp_normal_cases rm =
      let a : Bool → ℕ = λ wide. arg wide (rs1 inst) in
      let b : Bool → ℕ = λ wide. arg wide (rs2 inst) in
      let float : Bool → Call → Option CpuState = λ wide call. some (to_float true wide call) in
      switch (funct7 inst)
        ((0x00, float false (add_sf false (a false) (b false) rm))
          ∷ (0x01, float true (add_sf true (a true) (b true) rm))
          ∷ (0x04, float false (sub_sf false (a false) (b false) rm))
          ∷ (0x05, float true (sub_sf true (a true) (b true) rm))
          ∷ (0x08, float false (mul_sf false (a false) (b false) rm))
          ∷ (0x09, float true (mul_sf true (a true) (b true) rm))
          ∷ (0x0c, float false (div_sf false (a false) (b false) rm))
          ∷ (0x0d, float true (div_sf true (a true) (b true) rm))
          ∷ (0x2c, fp_sqrt false rm)
          ∷ (0x2d, fp_sqrt true rm)
          ∷ (0x10, fp_sign false rm)
          ∷ (0x11, fp_sign true rm)
          ∷ (0x14, fp_min_max false rm)
          ∷ (0x15, fp_min_max true rm)
          ∷ (0x20, some_if (rs2 inst == 1) (to_float false false (cvt_sf64_sf32 (a true) rm)))
          ∷ (0x21, some_if (rs2 inst == 0) (to_float false true (cvt_sf32_sf64 (a false))))
          ∷ (0x60, fp_to_integer false rm)
          ∷ (0x61, fp_to_integer true rm)
          ∷ (0x70, fp_inspect false rm)
          ∷ (0x71, fp_inspect true rm)
          ∷ (0x50, fp_compare false rm)
          ∷ (0x51, fp_compare true rm)
          ∷ (0x68, fp_from_integer false rm)
          ∷ (0x69, fp_from_integer true rm)
          ∷ (0x78, fp_move false)
          ∷ (0x79, fp_move true)
          ∷ [])
        none

  -- Without a rounding mode (-1) every case ends at ERROR_PROCESS: by its test, by the default of
  -- its `switch`, or, in fmv, by the test of the field, which is then 5 or 6.
  unfoldable pub op_fp_normal : Option CpuState
  unfolding get_inst_rm
  op_fp_normal = if s.fs == 0 then none else elim (get_inst_rm s (bit_and (inst >>> 12) 7)) [
    | none ↦ none
    | some rm ↦ fp_normal_cases rm
  ]
