-- ===== src/Instr/Fields.antt =====
-- The fields of an instruction word, as `decode_inst` cuts them out. An immediate is the 64-bit
-- pattern of its int32_t.
use space_emu.Base.{ℕ, bit_and, bit_or}
use space_emu.Base.Word.{◌<<<◌, ◌>>>◌}
use space_emu.Alu.Helpers.{sra, sext32}

infixl 60 ◌|||◌
-- `a | b`
abbrev pub ◌|||◌ : ℕ → ℕ → ℕ
a ||| b = bit_or a b

-- `((int32_t)a << k) >> k`
unfoldable pub extend : ℕ → ℕ → ℕ
extend k a = sra (sext32 (a <<< k)) k

abbrev pub opcode : ℕ → ℕ
opcode inst = bit_and inst 0x7f

abbrev pub rd : ℕ → ℕ
rd inst = bit_and (inst >>> 7) 0x1f

abbrev pub funct3 : ℕ → ℕ
funct3 inst = bit_and (inst >>> 12) 0x7

abbrev pub rs1 : ℕ → ℕ
rs1 inst = bit_and (inst >>> 15) 0x1f

abbrev pub rs2 : ℕ → ℕ
rs2 inst = bit_and (inst >>> 20) 0x1f

abbrev pub funct7 : ℕ → ℕ
funct7 inst = bit_and (inst >>> 25) 0x7f

unfoldable pub imm_i : ℕ → ℕ
imm_i inst = sra (sext32 inst) 20

unfoldable pub imm_s : ℕ → ℕ
imm_s inst = extend 20 (rd inst ||| bit_and (inst >>> 20) 0xfe0)

unfoldable pub imm_b : ℕ → ℕ
imm_b inst = extend 19 (
    bit_and (inst >>> 7) 0x1e
    ||| bit_and (inst >>> 20) 0x7e0
    ||| bit_and (inst <<< 4) 0x800
    ||| bit_and (inst >>> 19) 0x1000)

unfoldable pub imm_u : ℕ → ℕ
imm_u inst = sext32 (bit_and inst 0xfffff000)

unfoldable pub imm_j : ℕ → ℕ
imm_j inst = extend 11 (
    bit_and (inst >>> 20) 0x7fe
    ||| bit_and (inst >>> 9) 0x800
    ||| bit_and inst 0xff000
    ||| bit_and (inst >>> 11) 0x100000)
