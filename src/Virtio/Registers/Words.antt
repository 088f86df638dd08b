-- ===== src/Virtio/Registers/Words.antt =====
-- virtio_interface.c: `set_low32` and `set_high32`, and the bytes of the halves of an address.
use space_emu.Base.{ℕ, ◌-◌, ◌/◌, ◌%◌, ◌^◌, ◌<◌, ◌≡◌, refl, ◌∙◌, arith}
use space_emu.Base.{◌++◌, bit_and, bit_or}
use space_emu.Base.Bits.{bit_and_mask, has_bit-bit_and, has_bit-lnot}
use space_emu.Base.Bits.{has_bit-bit_or, eq_of_bits, has_bit_above, has_bit-mod, has_bit-ones}
use space_emu.Base.Bytes.{to_bytes}
use space_emu.Base.Word.{u32, u64, lnot, ◌>>>◌, ◌<<<◌}
use space_emu.Clint.Timer.{or_high}
use space_emu.Virtio.Registers.{set_low32}
use space_emu.Virtio.Registers.{set_high32}

set_low32-low :
    (addr value : ℕ) → value < 2 ^ 32 → bit_and (set_low32 addr value) 0xffff_ffff ≡ value
unfolding set_low32
set_low32-low addr value h =
    bit_and_mask 32 (bit_or (bit_and addr (lnot 64 0xffff_ffff)) value)
    ∙ eq_of_bits _ _ λ i. ground (
      arith,
      has_bit-mod 32 (bit_or (bit_and addr (lnot 64 0xffff_ffff)) value) i,
      has_bit-bit_or (bit_and addr (lnot 64 0xffff_ffff)) value i,
      has_bit-bit_and addr (lnot 64 0xffff_ffff) i,
      has_bit-lnot 64 (2 ^ 32 - 1) i,
      has_bit-ones 32 i,
      has_bit_above 32 value i h,
    )

-- The halves make up the address, whatever it was before.
pub set_high32-set_low32 :
    (addr v : ℕ) → v < 2 ^ 64 → set_high32 (set_low32 addr (v % 2 ^ 32)) (v / 2 ^ 32) ≡ v
unfolding set_high32
set_high32-set_low32 addr v h =
    let low = set_low32-low addr (v % 2 ^ 32) (omega arith) in
    let high : u64 (v / 2 ^ 32 <<< 32) ≡ v / 2 ^ 32 <<< 32 = omega arith in
    rw (low, high) (or_high (v % 2 ^ 32) (v / 2 ^ 32) (omega arith) ∙ omega arith)

low_bytes : (v : ℕ) → to_bytes 4 (u32 v) ≡ to_bytes 4 v
unfolding to_bytes
low_bytes v =
    let e0 : u32 v % 256 ≡ v % 256 = omega arith in
    let e1 : u32 v / 256 % 256 ≡ v / 256 % 256 = omega arith in
    let e2 : u32 v / 256 / 256 % 256 ≡ v / 256 / 256 % 256 = omega arith in
    let e3 : u32 v / 256 / 256 / 256 % 256 ≡ v / 256 / 256 / 256 % 256 = omega arith in
    rw (e0, e1, e2, e3) refl

pub words : (v : ℕ) → v < 2 ^ 64 → to_bytes 4 (u32 v) ++ to_bytes 4 (u32 (v >>> 32)) ≡ to_bytes 8 v
words v h =
    let high : v >>> 32 ≡ v / 256 / 256 / 256 / 256 = omega arith in
    rw (low_bytes v, low_bytes (v >>> 32), high) (unfold to_bytes in refl)
