-- ===== src/Regs/Trap/Bits.antt =====
-- The updates of `mstatus` in the trap functions, bit by bit.
use space_emu.Base.{ℕ, ◌+◌, ◌-◌, ◌<◌, ◌≡◌, refl, arith, bit_and, ◌&&◌, ◌||◌}
use space_emu.Base.{sym, zero, suc, ltb, ◌==◌, ◌∙◌, not}
use space_emu.Base.Word.{lnot, ◌>>>◌, ◌<<<◌}
use space_emu.Base.Bits.{has_bit, has_bit-bit_and, has_bit-lnot, has_bit-shl, has_bit-shr}
use space_emu.Base.Bits.{has_bit_above, has_bit_zero, has_bit-one, shift_and_one, eq_of_bits}
use space_emu.Base.Bits.{bit_and_mask}

-- Bit `j` of a word, moved to place `k`.
pub has_bit-flag : (a j k i : ℕ) → has_bit (bit_and (a >>> j) 1 <<< k) i ≡ has_bit a j && i == k
has_bit-flag a j k i = ground (
  arith,
  shift_and_one a j,
  has_bit-shl k (bit_and (a >>> j) 1) i,
  has_bit-one (i - k),
  has_bit_zero (i - k),
)

-- The bits of a number below 4.
two_digits : (p j : ℕ) → p < 4 → has_bit p j ≡ (j == 0 && has_bit p 0) || (j == 1 && has_bit p 1)
two_digits p zero h = ground arith
two_digits p (suc zero) h = ground arith
two_digits p (suc (suc j)) h = ground (arith, has_bit_above 2 p (suc (suc j)) h (omega arith))

-- A two-bit field at place `k`.
pub has_bit-field :
    (p k i : ℕ)
    → p < 4
    → has_bit (p <<< k) i ≡ (i == k && has_bit p 0) || (i == k + 1 && has_bit p 1)
has_bit-field p k i h = ground (arith, has_bit-shl k p i, two_digits p (i - k) h)

pub three : (i : ℕ) → has_bit 3 i ≡ ltb i 2
unfolding has_bit
three zero = refl
three (suc zero) = refl
three (suc (suc i)) = has_bit_zero i ∙ ground arith

-- The word with the bits of `mask` cleared, cut to 64 bits.
pub has_bit-clear :
    (a mask i : ℕ)
    → has_bit (bit_and a (lnot 64 mask)) i ≡ ltb i 64 && (has_bit a i && not (has_bit mask i))
has_bit-clear a mask i = ground (arith, has_bit-bit_and a (lnot 64 mask) i, has_bit-lnot 64 mask i)

-- A two-bit field of a word is read by its two bits.
pub two_bits :
    (a k p : ℕ)
    → p < 4
    → has_bit a k ≡ has_bit p 0
    → has_bit a (k + 1) ≡ has_bit p 1
    → bit_and (a >>> k) 3 ≡ p
two_bits a k p h e f = eq_of_bits _ _ (go k e f)
  where
    go :
        (k : ℕ)
        → has_bit a k ≡ has_bit p 0
        → has_bit a (k + 1) ≡ has_bit p 1
        → (i : ℕ) → has_bit (bit_and (a >>> k) 3) i ≡ has_bit p i
    go k e f zero = ground (arith, has_bit-bit_and (a >>> k) 3 0, has_bit-shr k a 0, three 0)
    go k e f (suc zero) = ground (arith, has_bit-bit_and (a >>> k) 3 1, has_bit-shr k a 1, three 1)
    go k e f (suc (suc i)) = ground (
      arith,
      has_bit-bit_and (a >>> k) 3 (suc (suc i)),
      three (suc (suc i)),
      has_bit_above 2 p (suc (suc i)) h (omega arith),
    )

-- The bits of a two-bit field.
pub two_bits_of :
    (a k : ℕ)
    → (has_bit (bit_and (a >>> k) 3) 0 ≡ has_bit a k)
      × (has_bit (bit_and (a >>> k) 3) 1 ≡ has_bit a (k + 1))
      × (bit_and (a >>> k) 3 < 4)
two_bits_of a k = (
  ground (arith, has_bit-bit_and (a >>> k) 3 0, has_bit-shr k a 0, three 0),
  ground (arith, has_bit-bit_and (a >>> k) 3 1, has_bit-shr k a 1, three 1),
  omega (arith, bit_and_mask 2 (a >>> k)),
)

-- Words that agree on two bits agree on the field.
pub two_bits_same :
    (a b k : ℕ)
    → has_bit a k ≡ has_bit b k
    → has_bit a (k + 1) ≡ has_bit b (k + 1)
    → bit_and (a >>> k) 3 ≡ bit_and (b >>> k) 3
two_bits_same a b k e f =
    let (low, high, small) = two_bits_of b k in
    two_bits a k (bit_and (b >>> k) 3) small (e ∙ sym low) (f ∙ sym high)
