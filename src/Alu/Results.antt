-- ===== src/Alu/Results.antt =====
-- The results of the OP-32 group of instructions (instructions.c), and sign extension.
use space_emu.Base.{ℕ, ◌+◌, ◌-◌, ◌*◌, ◌^◌, ◌<◌, ◌≤◌, ◌≡◌, ◌⊎◌, arith, refl, bit_and, Bool, true}
use space_emu.Base.{false, ◌==◌, ◌&&◌, if◌then◌else◌}
use space_emu.Base.{switch_all, Option, none, some}
use space_emu.Base.Word.{u32, sub64, ◌<<<◌, ◌>>>◌}
use native.Mathlib.Nat.{div-le_self}
use mathlib.Core.Path.{subst}
use space_emu.Alu.{op32_value}
use space_emu.Alu.Helpers.{sra, sext32, m_div32, m_divu32, rem32, remu32, sdiv, srem}

-- The sign extension of a word of 32 bits.
abbrev pub IsExtended : ℕ → Type 0
IsExtended r = r ≡ sext32 r

either {ℓ} : (P : ℕ → Type ℓ) (b : Bool) (x y : ℕ) → P x → P y → P (if b then x else y)
either P true x y p q = p
either P false x y p q = q

data Stores : Option ℕ → Type 0 where
  illegal : Stores none
  stores : {r : ℕ} → IsExtended r → Stores (some r)

sext32-IsExtended : (a : ℕ) → IsExtended (sext32 a)
unfolding sext32
sext32-IsExtended a = ground arith

-- The patterns of the integers from - 2 ^ 31 to 2 ^ 31 - 1.
IsExtended-of_range : (r : ℕ) → r < 2 ^ 64 → (r < 2 ^ 31) ⊎ (2 ^ 64 - 2 ^ 31 ≤ r) → IsExtended r
unfolding sext32
IsExtended-of_range r h c = ground arith

sext32_range : (a : ℕ) → (sext32 a < 2 ^ 64) × ((sext32 a < 2 ^ 31) ⊎ (2 ^ 64 - 2 ^ 31 ≤ sext32 a))
unfolding sext32
sext32_range a = ground arith

-- A shift to the right keeps a value within 32 signed bits.
sra-IsExtended : (a k : ℕ) → IsExtended (sra (sext32 a) k)
sra-IsExtended a k = IsExtended-of_range (sra (sext32 a) k) (shifted a k).0 (shifted a k).1
  where
    shifted :
        (a k : ℕ)
        → (sra (sext32 a) k < 2 ^ 64)
          × ((sra (sext32 a) k < 2 ^ 31) ⊎ (2 ^ 64 - 2 ^ 31 ≤ sra (sext32 a) k))
    shifted a k =
        unfold sra in
        ground (
          arith,
          sext32_range a,
          div-le_self (sext32 a) (2 ^ k),
          div-le_self (2 ^ 64 - 1 - sext32 a) (2 ^ k),
        )

zero-IsExtended : IsExtended 0
unfolding sext32
zero-IsExtended = refl

ones-IsExtended : IsExtended (2 ^ 64 - 1)
unfolding sext32
ones-IsExtended = refl

m_div32-IsExtended : (a b : ℕ) → IsExtended (m_div32 a b)
unfolding m_div32
m_div32-IsExtended a b = either IsExtended (sext32 b == 0) _ _ ones-IsExtended (
    either IsExtended (sext32 a == 2 ^ 64 - 2 ^ 31 && sext32 b == 2 ^ 64 - 1) _ _
      (sext32-IsExtended a) (sext32-IsExtended (sdiv (sext32 a) (sext32 b))))

rem32-IsExtended : (a b : ℕ) → IsExtended (rem32 a b)
unfolding rem32
rem32-IsExtended a b = either IsExtended (sext32 b == 0) _ _ (sext32-IsExtended a) (
    either IsExtended (sext32 a == 2 ^ 64 - 2 ^ 31 && sext32 b == 2 ^ 64 - 1) _ _ zero-IsExtended
      (sext32-IsExtended (srem (sext32 a) (sext32 b))))

op32_value-Stores : (funct7 funct3 a b : ℕ) → Stores (op32_value funct7 funct3 a b)
unfolding op32_value
op32_value-Stores funct7 funct3 a b =
    switch_all Stores funct7 _
      (
        switch_all Stores funct3 _
            (word (a + b), (word (u32 a <<< bit_and b 31), (word (u32 a >>> bit_and b 31), tt)))
            illegal,
        (
          switch_all Stores funct3 _
              (
                word (sext32 a * sext32 b),
                (
                  stores (m_div32-IsExtended a b),
                  (
                    word (m_divu32 (u32 a) (u32 b)),
                    (stores (rem32-IsExtended a b), (word (remu32 (u32 a) (u32 b)), tt)),
                  ),
                ),
              )
              illegal,
          (
            switch_all Stores funct3 _
                (word (sub64 a b), (stores (sra-IsExtended a (bit_and b 31)), tt)) illegal,
            tt,
          ),
        ),
      )
      illegal
  where
    word : (x : ℕ) → Stores (some (sext32 x))
    word x = stores (sext32-IsExtended x)

abbrev IsStored : Option ℕ → Type 0
IsStored none = Unit
IsStored (some r) = IsExtended r

stored : {o : Option ℕ} → Stores o → IsStored o
stored illegal = tt
stored (stores p) = p

-- Whatever an instruction of the OP-32 group stores is the sign extension of its own low 32
-- bits.
pub op32_value-IsExtended :
    (funct7 funct3 a b r : ℕ) → op32_value funct7 funct3 a b ≡ some r → r ≡ sext32 r
op32_value-IsExtended funct7 funct3 a b r e =
    subst IsStored e (stored (op32_value-Stores funct7 funct3 a b))
