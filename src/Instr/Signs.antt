-- ===== src/Instr/Signs.antt =====
-- The sign injections fsgnj.s, fsgnjn.s and fsgnjx.s, bit by bit.
use space_emu.Base.{ℕ, ◌-◌, ◌<◌, ◌≤◌, ◌^◌, ◌≡◌, refl, arith, bit_and, bit_or, bit_xor, true, false}
use space_emu.Base.{not, ◌==◌, ltb, if◌then◌else◌, some, switch}
use space_emu.Base.Bits.{has_bit, has_bit-bit_and, has_bit-bit_or, has_bit-bit_xor, has_bit-lnot}
use space_emu.Base.Word.{lnot}
use space_emu.Instr.Float.{inject_sign}
use space_emu.Instr.Immediates.{has_bit-ones_from}

-- The upper half of the register is all ones, as it is for a number of 32 bits.
abbrev pub IsBoxed : ℕ → Type 0
IsBoxed a = (i : ℕ) → 32 ≤ i → i < 64 → has_bit a i ≡ true

-- On boxed 32-bit numbers, fsgnj.s, fsgnjn.s and fsgnjx.s give the magnitude of the first
-- operand and the sign of the second, its opposite or the exclusive or of both; the upper half
-- of the result is all ones for fsgnj.s and 0 for the two others.
pub inject_sign-single :
    (a b : ℕ)
    → IsBoxed a
    → IsBoxed b
    → (v0 : ℕ) × (v1 : ℕ) × (v2 : ℕ) × (inject_sign false 0 a b ≡ some v0)
      × (inject_sign false 1 a b ≡ some v1)
      × (inject_sign false 2 a b ≡ some v2)
      × ((i : ℕ)
          → i < 64
          → (has_bit v0 i
              ≡ (if ltb i 31 then has_bit a i else if i == 31 then has_bit b i else true))
            × (has_bit v1 i
                ≡ (if ltb i 31 then has_bit a i else if i == 31 then not (has_bit b i) else false))
            × (has_bit v2 i ≡ (
                if ltb i 31
                then has_bit a i
                else if i == 31
                then (if has_bit a i then not (has_bit b i) else has_bit b i)
                else false)))
unfolding inject_sign switch
inject_sign-single a b p q =
    let mask = 2 ^ 64 - 2 ^ 31 in
    let kept = bit_and a (lnot 64 mask) in
    let sign = bit_and b mask in
    (
      bit_or kept sign,
      bit_or kept (bit_xor sign mask),
      bit_xor a sign,
      refl,
      refl,
      refl,
      λ i h.
          let from_a = has_bit-bit_and a (lnot 64 mask) i in
          let from_b = has_bit-bit_and b mask i in
          let in_mask = has_bit-ones_from 33 31 i in
          let outside = has_bit-lnot 64 mask i in
          (
            ground (arith, p i, q i, from_a, from_b, in_mask, outside, has_bit-bit_or kept sign i),
            ground (
              arith,
              p i,
              q i,
              from_a,
              from_b,
              in_mask,
              outside,
              has_bit-bit_or kept (bit_xor sign mask) i,
              has_bit-bit_xor sign mask i,
            ),
            ground (arith, p i, q i, from_b, in_mask, has_bit-bit_xor a sign i),
          ),
    )
