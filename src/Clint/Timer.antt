-- ===== src/Clint/Timer.antt =====
-- clint.c: the comparison register, the clock and the timer interrupt.
use space_emu.Base.{ℕ, ◌+◌, ◌*◌, ◌/◌, ◌^◌, ◌%◌, ◌<◌, ◌≡◌, bit_and, bit_or, true, false}
use space_emu.Base.{switch, [], ◌∷◌, ◌++◌, refl, arith}
use space_emu.Base.Word.{lnot, u32, ◌<<<◌, ◌>>>◌}
use space_emu.Base.Bits.{bit_or-add-bit_and, bit_and_mask, has_bit, has_bit-bit_and, has_bit-lnot}
use space_emu.Base.Bits.{has_bit-bit_or, eq_of_bits, has_bit_zero, has_bit-shl}
use space_emu.Base.Bits.{has_bit_above, has_bit-pow}
use space_emu.Base.Bytes.{to_bytes, from_bytes}
use space_emu.Cpu.{CpuState, reset_mip, mip_mtip}
use space_emu.Device.{read_words, write_words, read_loop, write_loop}
use space_emu.Clint.{clint_base_addr, rtc_get_time, clint_read, clint_read_sub, clint_write}
use space_emu.Clint.{clint_write_sub}
use space_emu.Clint.{write_mtimecmp_low, write_mtimecmp_high}

pub and-zero : (a : ℕ) → bit_and a 0 ≡ 0
and-zero a = eq_of_bits _ _ λ i. ground (arith, has_bit-bit_and a 0 i, has_bit_zero i)

pub zero-or : (a : ℕ) → bit_or 0 a ≡ a
zero-or a = eq_of_bits _ _ λ i. ground (arith, has_bit-bit_or 0 a i, has_bit_zero i)

-- A word below 2 ^ 32 beside one that is shifted past it.
pub or_high : (low high : ℕ) → low < 2 ^ 32 → bit_or low (high <<< 32) ≡ low + high * 2 ^ 32
or_high low high h =
    let apart : bit_and low (high <<< 32) ≡ 0 = eq_of_bits _ _ λ i. ground (
      arith,
      has_bit-bit_and low (high <<< 32) i,
      has_bit-shl 32 high i,
      has_bit_above 32 low i h,
      has_bit_zero i,
    ) in
    omega (arith, bit_or-add-bit_and low (high <<< 32), apart)

-- Writing the low word sets the whole register to it: the high word of the old value is lost.
pub mtimecmp-write_mtimecmp_low :
    (s : CpuState) (value : ℕ) → (write_mtimecmp_low s value).mtimecmp ≡ value
unfolding write_mtimecmp_low
mtimecmp-write_mtimecmp_low s value = ground (arith, and-zero s.mtimecmp, zero-or value)

pub mtimecmp-write_mtimecmp_high :
    (s : CpuState) (value : ℕ)
    → value < 2 ^ 32
    → (write_mtimecmp_high s value).mtimecmp ≡ s.mtimecmp % 2 ^ 32 + value * 2 ^ 32
unfolding write_mtimecmp_high
mtimecmp-write_mtimecmp_high s value h =
    ground (arith, bit_and_mask 32 s.mtimecmp, or_high (s.mtimecmp % 2 ^ 32) value (omega arith))

pub mtip-reset_mip : (s : CpuState) → has_bit (reset_mip s mip_mtip).mip 7 ≡ false
unfolding reset_mip
mtip-reset_mip s =
    ground
      (arith, has_bit-bit_and s.mip (lnot 32 (2 ^ 7)) 7, has_bit-lnot 32 (2 ^ 7) 7, has_bit-pow 7 7)

-- The words of the low and the high half of a value.
pub low_word :
    (v : ℕ)
    → from_bytes
        ((v % 256) ∷ (v / 256 % 256) ∷ (v / 256 / 256 % 256) ∷ (v / 256 / 256 / 256 % 256) ∷ [])
      ≡ v % 2 ^ 32
unfolding from_bytes
low_word v = omega arith

-- A write of eight bytes to the comparison register is accepted, stores them as one value and
-- clears the timer interrupt.
pub clint_write_mtimecmp :
    (s : CpuState) (value : ℕ)
    → value < 2 ^ 64
    → let r = clint_write s (to_bytes 8 value) (clint_base_addr + 0x4000) in
      (r.ok ≡ true) × (r.state.mtimecmp ≡ value) × (has_bit r.state.mip 7 ≡ false)
unfolding clint_write write_words write_loop clint_write_sub switch to_bytes
clint_write_mtimecmp s value h =
    let high = value / 256 / 256 / 256 / 256 in
    (
      refl,
      ground (
        arith,
        low_word value,
        low_word high,
        and-zero s.mtimecmp,
        zero-or (value % 2 ^ 32),
        bit_and_mask 32 (value % 2 ^ 32),
        or_high (value % 2 ^ 32) high (omega arith),
      ),
      ground (
        arith,
        has_bit-bit_and (bit_and s.mip (lnot 32 (2 ^ 7))) (lnot 32 (2 ^ 7)) 7,
        has_bit-lnot 32 (2 ^ 7) 7,
        has_bit-pow 7 7,
      ),
    )

-- A write of four bytes to the low half of the comparison register drops the high half; one to
-- the high half keeps the low.
pub clint_write_half :
    (s : CpuState) (value : ℕ)
    → value < 2 ^ 32
    → ((clint_write s (to_bytes 4 value) (clint_base_addr + 0x4000)).state.mtimecmp ≡ value)
      × ((clint_write s (to_bytes 4 value) (clint_base_addr + 0x4004)).state.mtimecmp
          ≡ s.mtimecmp % 2 ^ 32 + value * 2 ^ 32)
unfolding clint_write write_words write_loop clint_write_sub switch to_bytes
clint_write_half s value h = (
  ground (arith, low_word value, and-zero s.mtimecmp, zero-or value),
  ground (
    arith,
    low_word value,
    bit_and_mask 32 s.mtimecmp,
    or_high (s.mtimecmp % 2 ^ 32) value (omega arith),
  ),
)

pub rtc_get_time-lt : (s : CpuState) (real : ℕ) → rtc_get_time s real < 2 ^ 64
unfolding rtc_get_time
rtc_get_time-lt s real = omega arith

four_bytes :
    (a tail : ℕ)
    → a % 256 % 256
        + 256
          * (a / 256 % 256 % 256
              + 256
                * (a / 256 / 256 % 256 % 256
                    + 256 * (a / 256 / 256 / 256 % 256 % 256 + 256 * tail)))
      ≡ a % 2 ^ 32 + tail * 2 ^ 32
four_bytes a tail = omega arith

-- The bytes of two words, one after the other.
mtime_words :
    (a b : ℕ)
    → b < 2 ^ 64
    → from_bytes (to_bytes 4 (u32 a) ++ to_bytes 4 (u32 (b >>> 32)))
      ≡ a % 2 ^ 32 + b / 2 ^ 32 * 2 ^ 32
unfolding from_bytes to_bytes
mtime_words a b h = omega (
  arith,
  four_bytes (u32 a) (
      u32 (b >>> 32) % 256 % 256
      + 256
        * (u32 (b >>> 32) / 256 % 256 % 256
            + 256
              * (u32 (b >>> 32) / 256 / 256 % 256 % 256
                  + 256 * (u32 (b >>> 32) / 256 / 256 / 256 % 256 % 256 + 256 * 0)))),
  four_bytes (u32 (b >>> 32)) 0,
)

-- A read of eight bytes of the clock is accepted, changes nothing, and is made of the low half
-- at the first reading and the high half at the second.
pub clint_read_mtime :
    (real : ℕ → ℕ) (s : CpuState)
    → let r = clint_read real s (clint_base_addr + 0xbff8) 8 in
      (r.ok ≡ true)
      × (r.state ≡ s)
      × (from_bytes r.bytes
          ≡ rtc_get_time s (real 0) % 2 ^ 32 + rtc_get_time s (real 1) / 2 ^ 32 * 2 ^ 32)
unfolding clint_read read_words read_loop clint_read_sub switch to_bytes from_bytes
clint_read_mtime real s = (
  refl,
  refl,
  mtime_words (rtc_get_time s (real 0)) (rtc_get_time s (real 1)) (rtc_get_time-lt s (real 1)),
)
