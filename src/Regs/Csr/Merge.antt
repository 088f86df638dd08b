-- ===== src/Regs/Csr/Merge.antt =====
-- The masked update `(old & ~mask) | (val & mask)` of the write functions, bit by bit.
use space_emu.Base.{ℕ, ◌^◌, ◌<◌, ◌≡◌, arith, bit_and, if◌then◌else◌}
use space_emu.Base.Word.{lnot}
use space_emu.Base.Bits.{has_bit, has_bit-bit_and, has_bit-bit_or, has_bit-lnot, has_bit_above}
use space_emu.Base.Bits.{lt_of_bits, IsWithin}
use space_emu.Regs.Csr.Write.{merge}

-- Bit `i` comes from the value under the mask, and from the old word elsewhere.
pub has_bit-merge :
    (old mask val i : ℕ)
    → old < 2 ^ 64
    → has_bit (merge old mask val) i ≡ (if has_bit mask i then has_bit val i else has_bit old i)
unfolding merge
has_bit-merge old mask val i h = ground (
  arith,
  has_bit-bit_or (bit_and old (lnot 64 mask)) (bit_and val mask) i,
  has_bit-bit_and old (lnot 64 mask) i,
  has_bit-bit_and val mask i,
  has_bit-lnot 64 mask i,
  has_bit_above 64 old i h,
)

-- A merge of words within `bound` under a mask within `bound` stays within it.
pub merge-IsWithin :
    (bound old mask val : ℕ)
    → old < 2 ^ 64
    → IsWithin old bound
    → IsWithin mask bound
    → IsWithin (merge old mask val) bound
merge-IsWithin bound old mask val h p q i e =
    ground (arith, has_bit-merge old mask val i h, p i, q i)

pub merge-lt :
    (w old mask val : ℕ) → old < 2 ^ 64 → old < 2 ^ w → mask < 2 ^ w → merge old mask val < 2 ^ w
merge-lt w old mask val h p q = lt_of_bits w _ λ i r.
    ground
      (arith, has_bit-merge old mask val i h, has_bit_above w old i p r, has_bit_above w mask i q r)
