-- ===== src/Base/Word.antt =====
-- The unsigned integers of C as native numbers: casts, shifts, complements. A value of a w-bit
-- type is a number below 2 ^ w.
use Prim.Native.Nat.{ℕ, ◌+◌, ◌-◌, ◌*◌, ◌/◌, ◌%◌, ◌^◌}

abbrev pub u8 : ℕ → ℕ
u8 a = a % 2 ^ 8

abbrev pub u32 : ℕ → ℕ
u32 a = a % 2 ^ 32

abbrev pub u64 : ℕ → ℕ
u64 a = a % 2 ^ 64

-- `~a` in a type of w bits.
abbrev pub lnot : ℕ → ℕ → ℕ
lnot w a = 2 ^ w - 1 - a % 2 ^ w

-- `a - b` in uint64_t.
abbrev pub sub64 : ℕ → ℕ → ℕ
sub64 a b = (a + 2 ^ 64 - b) % 2 ^ 64

abbrev pub add64 : ℕ → ℕ → ℕ
add64 a b = (a + b) % 2 ^ 64

infixl 68 ◌<<<◌ ◌>>>◌
-- `a << k` before the cut to the width of the type, and `a >> k` of an unsigned value.
abbrev pub ◌<<<◌ : ℕ → ℕ → ℕ
a <<< k = a * 2 ^ k

abbrev pub ◌>>>◌ : ℕ → ℕ → ℕ
a >>> k = a / 2 ^ k
