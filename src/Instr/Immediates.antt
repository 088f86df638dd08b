-- ===== src/Instr/Immediates.antt =====
-- The immediates of the instruction formats, bit by bit.
use space_emu.Base.{ℕ, ◌+◌, ◌-◌, ◌^◌, ◌<◌, ◌≡◌, arith, false, ◌&&◌, ◌||◌, ◌==◌, ltb, leb}
use space_emu.Base.{if◌then◌else◌, bit_and, bit_or}
use native.Mathlib.Nat.{div-le_self}
use space_emu.Base.Bits.{has_bit, has_bit-bit_and, has_bit-bit_or, has_bit-shl, has_bit-shr}
use space_emu.Base.Bits.{has_bit-ones, has_bit-mod, has_bit_above, has_bit_zero, has_bit-lnot}
use space_emu.Base.Bits.{bit_or-add-bit_and, bit_and_mask, shift_and_one, eq_of_bits}
use space_emu.Base.Word.{◌<<<◌, ◌>>>◌, u32, lnot}
use space_emu.Alu.Helpers.{sra, sext32}
use space_emu.Instr.Fields.{◌|||◌, extend, rd, imm_i, imm_s, imm_b, imm_u, imm_j}

-- A mask of `n` ones from bit `low` on.
abbrev pub ones : ℕ → ℕ → ℕ
ones n low = (2 ^ n - 1) <<< low

pub has_bit-ones_from : (n low i : ℕ) → has_bit (ones n low) i ≡ leb low i && ltb i (low + n)
has_bit-ones_from n low i = ground (arith, has_bit-shl low (2 ^ n - 1) i, has_bit-ones n (i - low))

has_bit-masked :
    (a n low i : ℕ)
    → has_bit (bit_and a (ones n low)) i ≡ leb low i && ltb i (low + n) && has_bit a i
has_bit-masked a n low i = ground (
  arith,
  has_bit-bit_and a (ones n low) i,
  has_bit-shl low (2 ^ n - 1) i,
  has_bit-ones n (i - low),
)

top_bit32 : (a : ℕ) → a < 2 ^ 32 → has_bit a 31 ≡ leb (2 ^ 31) a
top_bit32 a h = ground (arith, shift_and_one a 31, bit_and_mask 1 (a >>> 31))

top_bit64 : (a : ℕ) → a < 2 ^ 64 → has_bit a 63 ≡ leb (2 ^ 63) a
top_bit64 a h = ground (arith, shift_and_one a 63, bit_and_mask 1 (a >>> 63))

sext32-lt : (a : ℕ) → sext32 a < 2 ^ 64
unfolding sext32
sext32-lt a = ground arith

has_bit-sext32 : (a i : ℕ) → i < 64 → has_bit (sext32 a) i ≡ has_bit a (if ltb i 32 then i else 31)
unfolding sext32
has_bit-sext32 a i h =
    let high = (2 ^ 32 - 1) <<< 32 in
    let apart : bit_and (u32 a) high ≡ 0 =
      eq_of_bits _ _
        λ j. ground (arith, has_bit-masked (u32 a) 32 32 j, has_bit-mod 32 a j, has_bit_zero j) in
    let sum : u32 a + (2 ^ 64 - 2 ^ 32) ≡ bit_or (u32 a) high =
      omega (arith, bit_or-add-bit_and (u32 a) high, apart) in
    let bits : has_bit (bit_or (u32 a) high) i ≡ has_bit (u32 a) i || leb 32 i = ground (
      arith,
      has_bit-bit_or (u32 a) high i,
      has_bit-shl 32 (2 ^ 32 - 1) i,
      has_bit-ones 32 (i - 32),
    ) in
    let top : has_bit (u32 a) 31 ≡ leb (2 ^ 31) (u32 a) = top_bit32 (u32 a) (omega arith) in
    let top' = has_bit-mod 32 a 31 in
    let low = has_bit-mod 32 a i in rw sum (ground (arith, bits, top, top', low))

has_bit-sra :
    (a k i : ℕ)
    → a < 2 ^ 64
    → i < 64
    → k < 64
    → has_bit (sra a k) i ≡ has_bit a (if ltb (i + k) 64 then i + k else 63)
unfolding sra
has_bit-sra a k i ha hi hk =
    let top = top_bit64 a ha in
    let over = has_bit_above 64 a (i + k) ha in
    let shifted = has_bit-shr k a i in
    let inner : 2 ^ 64 - 1 - a ≡ lnot 64 a = omega arith in
    let e : 2 ^ 64 - 1 - (lnot 64 a >>> k) ≡ lnot 64 (lnot 64 a >>> k) =
      omega (arith, div-le_self (lnot 64 a) (2 ^ k)) in
    rw inner (
      ground (
        arith,
        top,
        over,
        shifted,
        e,
        has_bit-lnot 64 (lnot 64 a >>> k) i,
        has_bit-shr k (lnot 64 a) i,
        has_bit-lnot 64 a (i + k),
      ))

-- The last bit kept is the sign.
has_bit-extend :
    (k a i : ℕ)
    → k < 32
    → i < 64
    → has_bit (extend k a) i ≡ has_bit a (if ltb (i + k) 32 then i else 31 - k)
unfolding extend
has_bit-extend k a i hk hi =
    let j = if ltb (i + k) 64 then i + k else 63 in
    let shifted = has_bit-sra (sext32 (a <<< k)) k i (sext32-lt (a <<< k)) hi (omega arith) in
    let signed = has_bit-sext32 (a <<< k) j (ground arith) in
    let moved = has_bit-shl k a (if ltb j 32 then j else 31) in
    ground (arith, shifted, signed, moved)

module _ (inst i : ℕ) where
  cut :
      (k n low j : ℕ)
      → has_bit (bit_and (inst >>> k) (ones n low)) j
        ≡ leb low j && ltb j (low + n) && has_bit inst (j + k)
  cut k n low j = ground (arith, has_bit-masked (inst >>> k) n low j, has_bit-shr k inst j)

  has_bit-imm_i : i < 64 → has_bit (imm_i inst) i ≡ has_bit inst (if ltb i 11 then i + 20 else 31)
  unfolding imm_i
  has_bit-imm_i h =
      let j = if ltb (i + 20) 64 then i + 20 else 63 in
      let shifted = has_bit-sra (sext32 inst) 20 i (sext32-lt inst) h (omega arith) in
      let signed = has_bit-sext32 inst j (ground arith) in ground (arith, shifted, signed)

  has_bit-imm_s :
      i < 64
      → has_bit (imm_s inst) i
        ≡ has_bit inst (if ltb i 5 then i + 7 else if ltb i 11 then i + 20 else 31)
  unfolding imm_s
  has_bit-imm_s h =
      let j = if ltb i 12 then i else 11 in
      let whole = has_bit-extend 20 (rd inst ||| bit_and (inst >>> 20) 0xfe0) i (omega arith) h in
      let parts = has_bit-bit_or (rd inst) (bit_and (inst >>> 20) 0xfe0) j in
      ground (arith, whole, parts, cut 7 5 0 j, cut 20 7 5 j)

  has_bit-imm_b :
      i < 64
      → has_bit (imm_b inst) i ≡ (
          if i == 0
          then false
          else has_bit inst
              (if ltb i 5 then i + 7 else if ltb i 11 then i + 20 else if i == 11 then 7 else 31))
  unfolding imm_b
  has_bit-imm_b h =
      let j = if ltb i 13 then i else 12 in
      let a = bit_and (inst >>> 7) 0x1e in
      let b = bit_and (inst >>> 20) 0x7e0 in
      let c = bit_and (inst <<< 4) 0x800 in
      let d = bit_and (inst >>> 19) 0x1000 in
      let whole = has_bit-extend 19 (a ||| b ||| c ||| d) i (omega arith) h in
      let parts : has_bit (a ||| b ||| c ||| d) j
          ≡ has_bit a j || has_bit b j || has_bit c j || has_bit d j =
        ground (
          arith,
          has_bit-bit_or (a ||| b ||| c) d j,
          has_bit-bit_or (a ||| b) c j,
          has_bit-bit_or a b j,
        ) in
      let third = has_bit-masked (inst <<< 4) 1 11 j in
      ground
        (arith, whole, parts, cut 7 4 1 j, cut 20 6 5 j, third, has_bit-shl 4 inst j, cut 19 1 12 j)

  has_bit-imm_u :
      i < 64
      → has_bit (imm_u inst) i
        ≡ (if ltb i 12 then false else has_bit inst (if ltb i 32 then i else 31))
  unfolding imm_u
  has_bit-imm_u h =
      let j = if ltb i 32 then i else 31 in
      ground (arith, has_bit-sext32 (bit_and inst 0xfffff000) i h, has_bit-masked inst 20 12 j)

  has_bit-imm_j :
      i < 64
      → has_bit (imm_j inst) i ≡ (
          if i == 0
          then false
          else has_bit inst
              (if ltb i 11 then i + 20 else if i == 11 then 20 else if ltb i 20 then i else 31))
  unfolding imm_j
  has_bit-imm_j h =
      let j = if ltb i 21 then i else 20 in
      let a = bit_and (inst >>> 20) 0x7fe in
      let b = bit_and (inst >>> 9) 0x800 in
      let c = bit_and inst 0xff000 in
      let d = bit_and (inst >>> 11) 0x100000 in
      let whole = has_bit-extend 11 (a ||| b ||| c ||| d) i (omega arith) h in
      let parts : has_bit (a ||| b ||| c ||| d) j
          ≡ has_bit a j || has_bit b j || has_bit c j || has_bit d j =
        ground (
          arith,
          has_bit-bit_or (a ||| b ||| c) d j,
          has_bit-bit_or (a ||| b) c j,
          has_bit-bit_or a b j,
        ) in
      ground (
        arith,
        whole,
        parts,
        cut 20 10 1 j,
        cut 9 1 11 j,
        has_bit-masked inst 8 12 j,
        cut 11 1 20 j,
      )

-- Each of the 64 bits of the five immediates is the bit of the instruction word that the format
-- puts there, with the word's top bit as the sign, or is 0 where the format has none.
pub has_bit_immediates :
    (inst i : ℕ)
    → i < 64
    → (has_bit (imm_i inst) i ≡ has_bit inst (if ltb i 11 then i + 20 else 31))
      × (has_bit (imm_s inst) i
          ≡ has_bit inst (if ltb i 5 then i + 7 else if ltb i 11 then i + 20 else 31))
      × (has_bit (imm_b inst) i ≡ (
          if i == 0
          then false
          else has_bit inst
              (if ltb i 5 then i + 7 else if ltb i 11 then i + 20 else if i == 11 then 7 else 31)))
      × (has_bit (imm_u inst) i
          ≡ (if ltb i 12 then false else has_bit inst (if ltb i 32 then i else 31)))
      × (has_bit (imm_j inst) i ≡ (
          if i == 0
          then false
          else has_bit inst
              (if ltb i 11 then i + 20 else if i == 11 then 20 else if ltb i 20 then i else 31)))
has_bit_immediates inst i h = (
  has_bit-imm_i inst i h,
  has_bit-imm_s inst i h,
  has_bit-imm_b inst i h,
  has_bit-imm_u inst i h,
  has_bit-imm_j inst i h,
)
