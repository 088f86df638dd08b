-- ===== src/Instr/Compressed.antt =====
-- The compressed instructions: the three C_QUADRANT cases, each with its own fields.
pub mod Quadrant0
pub mod Quadrant1
pub mod Quadrant2
use space_emu.Base.{ℕ, bit_and, bit_or}
use space_emu.Base.Word.{◌>>>◌}

-- The three-bit registers: `((inst >> 2) & 7) | 8` and `((inst >> 7) & 7) | 8`.
abbrev pub low_reg : ℕ → ℕ
low_reg inst = bit_or (bit_and (inst >>> 2) 7) 8

abbrev pub high_reg : ℕ → ℕ
high_reg inst = bit_or (bit_and (inst >>> 7) 7) 8

-- `(inst >> 13) & 7`
abbrev pub c_funct3 : ℕ → ℕ
c_funct3 inst = bit_and (inst >>> 13) 7
