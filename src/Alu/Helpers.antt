-- ===== src/Alu/Helpers.antt =====
-- The helper functions at the head of instructions.c, and C's operations on signed patterns.
use space_emu.Base.{ℕ, ◌+◌, ◌-◌, ◌*◌, ◌/◌, ◌%◌, ◌^◌, bit_or, Bool, ◌==◌, ◌&&◌, ltb, leb}
use space_emu.Base.{if◌then◌else◌}
use space_emu.Base.Word.{u32, u64, sub64, add64, ◌<<<◌, ◌>>>◌}

-- `(int64_t)a < 0`
abbrev pub is_negative : ℕ → Bool
is_negative a = leb (2 ^ 63) a

-- `(int64_t)a < (int64_t)b`
abbrev pub slt : ℕ → ℕ → Bool
slt a b = ltb (add64 a (2 ^ 63)) (add64 b (2 ^ 63))

-- `(int64_t)a >> k`, which keeps the sign
unfoldable pub sra : ℕ → ℕ → ℕ
sra a k = if is_negative a then 2 ^ 64 - 1 - ((2 ^ 64 - 1 - a) >>> k) else a >>> k

-- `(int32_t)a`, extended to 64 bits
unfoldable pub sext32 : ℕ → ℕ
sext32 a = if ltb (u32 a) (2 ^ 31) then u32 a else u32 a + (2 ^ 64 - 2 ^ 32)

-- The absolute value of an int64_t and `-a`, as patterns.
abbrev pub magnitude : ℕ → ℕ
magnitude a = if is_negative a then 2 ^ 64 - a else a

abbrev pub negate : ℕ → ℕ
negate a = (2 ^ 64 - a) % 2 ^ 64

-- `a / b` and `a % b` on int64_t, towards 0: the remainder has the sign of `a`.
unfoldable pub sdiv : ℕ → ℕ → ℕ
sdiv a b =
    let q = magnitude a / magnitude b in
    if is_negative a
    then (if is_negative b then q else negate q)
    else if is_negative b
    then negate q
    else q

unfoldable pub srem : ℕ → ℕ → ℕ
srem a b = let r = magnitude a % magnitude b in if is_negative a then negate r else r

-- The column sums of `mulhu`, from the four products of halves.
unfoldable pub add_columns : ℕ → ℕ → ℕ → ℕ → ℕ
add_columns r00 r01 r10 r11 =
    let c = u64 ((r00 >>> 32) + u32 r01 + u32 r10) in
    let c' = u64 ((c >>> 32) + (r01 >>> 32) + (r10 >>> 32) + u32 r11) in
    let r2 = u32 c' in let r3 = u32 ((c' >>> 32) + (r11 >>> 32)) in bit_or (u64 (r3 <<< 32)) r2

-- The high word of a product.
unfoldable pub mulhu : ℕ → ℕ → ℕ
mulhu a b =
    let a0 = u32 a in
    let a1 = u32 (a >>> 32) in
    let b0 = u32 b in
    let b1 = u32 (b >>> 32) in
    add_columns (u64 (a0 * b0)) (u64 (a0 * b1)) (u64 (a1 * b0)) (u64 (a1 * b1))

unfoldable pub mulh : ℕ → ℕ → ℕ
mulh a b =
    let r1 = mulhu a b in
    let r2 = if is_negative a then sub64 r1 b else r1 in if is_negative b then sub64 r2 a else r2

unfoldable pub mulhsu : ℕ → ℕ → ℕ
mulhsu a b = let r1 = mulhu a b in if is_negative a then sub64 r1 b else r1

unfoldable pub m_div : ℕ → ℕ → ℕ
m_div a b = if b == 0 then 2 ^ 64 - 1 else if a == 2 ^ 63 && b == 2 ^ 64 - 1 then a else sdiv a b

unfoldable pub m_divu : ℕ → ℕ → ℕ
m_divu a b = if b == 0 then 2 ^ 64 - 1 else a / b

unfoldable pub rem : ℕ → ℕ → ℕ
rem a b = if b == 0 then a else if a == 2 ^ 63 && b == 2 ^ 64 - 1 then 0 else srem a b

unfoldable pub remu : ℕ → ℕ → ℕ
remu a b = if b == 0 then a else a % b

-- The 32-bit versions take their arguments cut to int32_t; the result is widened again.
unfoldable pub m_div32 : ℕ → ℕ → ℕ
m_div32 val1 val2 =
    let a = sext32 val1 in
    let b = sext32 val2 in
    if b == 0
    then 2 ^ 64 - 1
    else if a == 2 ^ 64 - 2 ^ 31 && b == 2 ^ 64 - 1
    then a
    else sext32 (sdiv a b)

unfoldable pub m_divu32 : ℕ → ℕ → ℕ
m_divu32 a b = if b == 0 then 2 ^ 32 - 1 else a / b

unfoldable pub rem32 : ℕ → ℕ → ℕ
rem32 val1 val2 =
    let a = sext32 val1 in
    let b = sext32 val2 in
    if b == 0 then a else if a == 2 ^ 64 - 2 ^ 31 && b == 2 ^ 64 - 1 then 0 else sext32 (srem a b)

unfoldable pub remu32 : ℕ → ℕ → ℕ
remu32 a b = if b == 0 then a else a % b
