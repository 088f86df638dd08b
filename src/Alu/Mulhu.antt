-- ===== src/Alu/Mulhu.antt =====
-- `mulhu` of instructions.c and the product of two words.
use space_emu.Base.{ℕ, ◌+◌, ◌-◌, ◌*◌, ◌/◌, ◌%◌, ◌^◌, ◌<◌, ◌≤◌, ◌≡◌, arith, bit_and, bit_or}
use space_emu.Base.Word.{u32, u64, ◌>>>◌, ◌<<<◌}
use space_emu.Base.Bits.{eq_of_bits, has_bit-bit_and, has_bit-shl, has_bit_above, has_bit_zero}
use space_emu.Base.Bits.{bit_or-add-bit_and}
use mathlib.Core.Path.{ap, ap₂, ◌∙◌}
use native.Mathlib.Nat.{mul-le-mul_left, mul-le-mul_right}
use space_emu.Alu.Helpers.{mulhu, add_columns}

-- Setting the bits of a word below one that is shifted past it adds it.
pub high_or_low : (high low : ℕ) → low < 2 ^ 32 → bit_or (high <<< 32) low ≡ high * 2 ^ 32 + low
high_or_low high low h =
    let apart : bit_and (high <<< 32) low ≡ 0 = eq_of_bits _ _ λ i. ground (
      arith,
      has_bit-bit_and (high <<< 32) low i,
      has_bit-shl 32 high i,
      has_bit_above 32 low i h,
      has_bit_zero i,
    ) in
    omega (arith, bit_or-add-bit_and (high <<< 32) low, apart)

-- The product of two halves, as a number.
half_product : (x y : ℕ) → x < 2 ^ 32 → y < 2 ^ 32 → x * y ≤ (2 ^ 32 - 1) * (2 ^ 32 - 1)
half_product x y h k = omega (
  arith,
  mul-le-mul_right {m = x} {n = 2 ^ 32 - 1} y (omega arith),
  mul-le-mul_left {m = y} {n = 2 ^ 32 - 1} (2 ^ 32 - 1) (omega arith),
)

columns :
    (p00 p01 p10 p11 : ℕ)
    → p00 ≤ (2 ^ 32 - 1) * (2 ^ 32 - 1)
    → p01 ≤ (2 ^ 32 - 1) * (2 ^ 32 - 1)
    → p10 ≤ (2 ^ 32 - 1) * (2 ^ 32 - 1)
    → p11 ≤ (2 ^ 32 - 1) * (2 ^ 32 - 1)
    → add_columns (u64 p00) (u64 p01) (u64 p10) (u64 p11)
      ≡ (p11 * 2 ^ 64 + (p01 + p10) * 2 ^ 32 + p00) / 2 ^ 64
unfolding add_columns
columns p00 p01 p10 p11 a b c d =
    let c1 = p00 / 2 ^ 32 + p01 % 2 ^ 32 + p10 % 2 ^ 32 in
    let c2 = c1 / 2 ^ 32 + p01 / 2 ^ 32 + p10 / 2 ^ 32 + p11 % 2 ^ 32 in
    let r3 = c2 / 2 ^ 32 + p11 / 2 ^ 32 in
    let e1 : u64 ((u64 p00 >>> 32) + u32 (u64 p01) + u32 (u64 p10)) ≡ c1 = omega arith in
    let e2 : u64 ((c1 >>> 32) + (u64 p01 >>> 32) + (u64 p10 >>> 32) + u32 (u64 p11)) ≡ c2 =
      omega arith in
    let e3 : u64 (u32 ((c2 >>> 32) + (u64 p11 >>> 32)) <<< 32) ≡ r3 <<< 32 = omega arith in
    let top : r3 * 2 ^ 32 + c2 % 2 ^ 32 ≡ (p11 * 2 ^ 64 + (p01 + p10) * 2 ^ 32 + p00) / 2 ^ 64 =
      omega arith in
    rw (e1, e2, e3) (high_or_low r3 (c2 % 2 ^ 32) (omega arith) ∙ top)

split_product :
    (a0 a1 b0 b1 : ℕ)
    → a1 * b1 * 2 ^ 64 + (a0 * b1 + a1 * b0) * 2 ^ 32 + a0 * b0
      ≡ (a1 * 2 ^ 32 + a0) * (b1 * 2 ^ 32 + b0)
split_product a0 a1 b0 b1 = omega arith

product :
    (a b : ℕ)
    → a < 2 ^ 64
    → b < 2 ^ 64
    → u32 (a >>> 32) * u32 (b >>> 32) * 2 ^ 64
        + (u32 a * u32 (b >>> 32) + u32 (a >>> 32) * u32 b) * 2 ^ 32
        + u32 a * u32 b
      ≡ a * b
product a b h k =
    let ea : u32 (a >>> 32) * 2 ^ 32 + u32 a ≡ a = omega arith in
    let eb : u32 (b >>> 32) * 2 ^ 32 + u32 b ≡ b = omega arith in
    split_product (u32 a) (u32 (a >>> 32)) (u32 b) (u32 (b >>> 32)) ∙ ap₂ ◌*◌ ea eb

-- `mulhu` gives the high 64 bits of the product of two words.
pub mulhu_lem : (a b : ℕ) → a < 2 ^ 64 → b < 2 ^ 64 → mulhu a b ≡ a * b / 2 ^ 64
unfolding mulhu
mulhu_lem a b h k =
    let a0 = u32 a in
    let a1 = u32 (a >>> 32) in
    let b0 = u32 b in
    let b1 = u32 (b >>> 32) in
    let whole : a1 * b1 * 2 ^ 64 + (a0 * b1 + a1 * b0) * 2 ^ 32 + a0 * b0 ≡ a * b =
      product a b h k in
    columns (a0 * b0) (a0 * b1) (a1 * b0) (a1 * b1) (half_product a0 b0 (omega arith) (omega arith))
      (half_product a0 b1 (omega arith) (omega arith))
      (half_product a1 b0 (omega arith) (omega arith))
      (half_product a1 b1 (omega arith) (omega arith))
    ∙ ap (λ x. x / 2 ^ 64) whole
