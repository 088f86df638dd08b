-- ===== src/Alu.antt =====
-- The integer arithmetic of instructions.c: the helpers for products and quotients, and the
-- instruction groups OP, OP-IMM, OP-IMM-32 and OP-32 of `decode_inst`. A signed value is its bit
-- pattern. `none` is the jump to ERROR_PROCESS, an illegal instruction.
pub mod Helpers
pub mod Mulhu
pub mod Results
use space_emu.Base.{ℕ, ◌+◌, ◌*◌, bit_and, bit_or, bit_xor, Bool, ◌!=◌, ltb, if◌then◌else◌}
use space_emu.Base.{switch, [], ◌∷◌, Option, none, some}
use space_emu.Base.Word.{lnot, u32, u64, sub64, add64, ◌<<<◌, ◌>>>◌}
use Helpers.{slt, sra, sext32, mulhu, mulh, mulhsu, m_div, m_divu, rem, remu, m_div32, m_divu32}
use Helpers.{rem32, remu32}

abbrev bool_word : Bool → ℕ
bool_word b = if b then 1 else 0

-- The value that an OP instruction stores.
unfoldable pub op_value : ℕ → ℕ → ℕ → ℕ → Option ℕ
op_value funct7 funct3 val1 val2 =
    switch funct7
      ((
        0x0,
        switch funct3
            ((0x0, some (add64 val1 val2))
              ∷ (0x1, some (u64 (val1 <<< bit_and val2 63)))
              ∷ (0x2, some (bool_word (slt val1 val2)))
              ∷ (0x3, some (bool_word (ltb val1 val2)))
              ∷ (0x4, some (bit_xor val1 val2))
              ∷ (0x5, some (val1 >>> bit_and val2 63))
              ∷ (0x6, some (bit_or val1 val2))
              ∷ (0x7, some (bit_and val1 val2))
              ∷ [])
            none,
      )
        ∷ (
          0x1,
          switch funct3
              ((0, some (u64 (val1 * val2)))
                ∷ (1, some (mulh val1 val2))
                ∷ (2, some (mulhsu val1 val2))
                ∷ (3, some (mulhu val1 val2))
                ∷ (4, some (m_div val1 val2))
                ∷ (5, some (m_divu val1 val2))
                ∷ (6, some (rem val1 val2))
                ∷ (7, some (remu val1 val2))
                ∷ [])
              none,
        )
        ∷ (
          0x20,
          switch funct3
              ((0x0, some (sub64 val1 val2)) ∷ (0x5, some (sra val1 (bit_and val2 63))) ∷ []) none,
        )
        ∷ [])
      none

-- `imm` is `imm_I`, sign-extended to 64 bits.
unfoldable pub op_imm_value : ℕ → ℕ → ℕ → Option ℕ
op_imm_value funct3 val1 imm =
    switch funct3
      ((0, some (add64 val1 imm))
        ∷ (1, if bit_and imm (lnot 64 63) != 0 then none else some (u64 (val1 <<< bit_and imm 63)))
        ∷ (2, some (bool_word (slt val1 imm)))
        ∷ (3, some (bool_word (ltb val1 imm)))
        ∷ (4, some (bit_xor val1 imm))
        ∷ (
          5,
          if bit_and imm (lnot 64 (bit_or 63 0x400)) != 0
              then none
              else if bit_and imm 0x400 != 0
              then some (sra val1 (bit_and imm 63))
              else some (val1 >>> bit_and imm 63),
        )
        ∷ (6, some (bit_or val1 imm))
        ∷ (7, some (bit_and val1 imm))
        ∷ [])
      none

-- The shift to the right of an int32_t, from a value cut to 32 bits.
abbrev sra32 : ℕ → ℕ → ℕ
sra32 a k = sra (sext32 a) k

unfoldable pub op_imm32_value : ℕ → ℕ → ℕ → Option ℕ
op_imm32_value funct3 val imm =
    switch funct3
      ((0, some (sext32 (add64 val imm)))
        ∷ (
          1,
          if bit_and imm (lnot 64 31) != 0 then none else some (sext32 (val <<< bit_and imm 31)),
        )
        ∷ (
          5,
          if bit_and imm (lnot 64 (bit_or 31 0x400)) != 0
              then none
              else if bit_and imm 0x400 != 0
              then some (sra32 val (bit_and imm 31))
              else some (sext32 (u32 val >>> bit_and imm 31)),
        )
        ∷ [])
      none

-- OP-32. The product of mulw is that of two int32_t: where it does not fit, which C leaves
-- undefined, it wraps around, as compilers make it.
unfoldable pub op32_value : ℕ → ℕ → ℕ → ℕ → Option ℕ
op32_value funct7 funct3 val1 val2 =
    switch funct7
      ((
        0,
        switch funct3
            ((0, some (sext32 (val1 + val2)))
              ∷ (1, some (sext32 (u32 val1 <<< bit_and val2 31)))
              ∷ (5, some (sext32 (u32 val1 >>> bit_and val2 31)))
              ∷ [])
            none,
      )
        ∷ (
          0x1,
          switch funct3
              ((0, some (sext32 (sext32 val1 * sext32 val2)))
                ∷ (4, some (m_div32 val1 val2))
                ∷ (5, some (sext32 (m_divu32 (u32 val1) (u32 val2))))
                ∷ (6, some (rem32 val1 val2))
                ∷ (7, some (sext32 (remu32 (u32 val1) (u32 val2))))
                ∷ [])
              none,
        )
        ∷ (
          0x20,
          switch funct3
              ((0, some (sext32 (sub64 val1 val2))) ∷ (5, some (sra32 val1 (bit_and val2 31))) ∷ [])
              none,
        )
        ∷ [])
      none
