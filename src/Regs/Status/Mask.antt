-- ===== src/Regs/Status/Mask.antt =====
-- The write mask of `set_mstatus`, and the bits of `mstatus` after a write.
use space_emu.Base.{ℕ, ◌^◌, ◌<◌, ◌≡◌, refl, arith, bit_and, Bool, false, ◌&&◌}
use space_emu.Base.{leb, if◌then◌else◌, ap, ◌∙◌}
use space_emu.Base.Word.{◌>>>◌}
use space_emu.Base.{true, not, ◌%◌, ◌/◌, ◌==◌, Bool-cases, inl, inr}
use space_emu.Base.Bits.{has_bit, bit_and_mask, has_bit-shr}
use space_emu.Cpu.{CpuState}
use space_emu.Regs.Status.{set_mstatus, mstatus_write_mask}
use space_emu.Regs.Csr.Write.{merge}
use space_emu.Regs.Csr.Merge.{has_bit-merge}

-- The value names a width of 32 or 64 bits in its UXL field.
abbrev pub allows_widths : ℕ → Bool
allows_widths value = leb 1 (bit_and (value >>> 32) 3) && leb (bit_and (value >>> 32) 3) 2

-- The mask takes two values only: without and with the two width fields.
pub mstatus_write_mask_cases :
    (value : ℕ) → mstatus_write_mask value ≡ (if allows_widths value then 0xf000e19bb else 0xe19bb)
unfolding mstatus_write_mask
mstatus_write_mask_cases value = ground arith

pub mstatus-set_mstatus :
    (s : CpuState) (value : ℕ)
    → (set_mstatus s value).mstatus ≡ merge s.mstatus (mstatus_write_mask value) value
unfolding set_mstatus merge
mstatus-set_mstatus s value = refl

-- A bit of `mstatus` comes from the value under the mask, and is kept elsewhere.
pub has_bit-set_mstatus :
    (s : CpuState) (value i : ℕ)
    → s.mstatus < 2 ^ 64
    → has_bit (set_mstatus s value).mstatus i
      ≡ (if has_bit (mstatus_write_mask value) i then has_bit value i else has_bit s.mstatus i)
has_bit-set_mstatus s value i h =
    ap (λ x. has_bit x i) (mstatus-set_mstatus s value)
    ∙ has_bit-merge s.mstatus (mstatus_write_mask value) value i h

-- No write reaches the place of FS.
pub mstatus_write_mask-fs :
    (value : ℕ)
    → (has_bit (mstatus_write_mask value) 13 ≡ false)
      × (has_bit (mstatus_write_mask value) 14 ≡ false)
unfolding has_bit
mstatus_write_mask-fs value = ground (arith, mstatus_write_mask_cases value)

-- The width field is written exactly when the value names a known width.
mstatus_write_mask-uxl :
    (value : ℕ)
    → (has_bit (mstatus_write_mask value) 32 ≡ allows_widths value)
      × (has_bit (mstatus_write_mask value) 33 ≡ allows_widths value)
unfolding has_bit
mstatus_write_mask-uxl value = ground (arith, mstatus_write_mask_cases value)

two_digits : (a : ℕ) → (has_bit a 0 ≡ (a % 2 == 1)) × (has_bit a 1 ≡ (a / 2 % 2 == 1))
unfolding has_bit
two_digits a = (ground arith, ground arith)

allows_widths-uxl :
    (value : ℕ) → allows_widths value ≡ true → has_bit value 32 ≡ not (has_bit value 33)
allows_widths-uxl value h = ground (
  arith,
  h,
  bit_and_mask 2 (value >>> 32),
  two_digits (value >>> 32),
  has_bit-shr 32 value 0,
  has_bit-shr 32 value 1,
)

-- A known width in UXL stays a known one.
pub set_mstatus-uxl :
    (s : CpuState) (value : ℕ)
    → s.mstatus < 2 ^ 64
    → has_bit s.mstatus 32 ≡ not (has_bit s.mstatus 33)
    → has_bit (set_mstatus s value).mstatus 32 ≡ not (has_bit (set_mstatus s value).mstatus 33)
set_mstatus-uxl s value lt h =
    let mask = mstatus_write_mask-uxl value in
    let low = has_bit-set_mstatus s value 32 lt in
    let high = has_bit-set_mstatus s value 33 lt in
    elim (Bool-cases (allows_widths value)) [
      | inl e ↦ ground (arith, e, mask, low, high, allows_widths-uxl value e)
      | inr e ↦ ground (arith, e, mask, low, high, h)
    ]

pub mstatus_write_mask-lt : (value : ℕ) → mstatus_write_mask value < 2 ^ 64
mstatus_write_mask-lt value = ground (arith, mstatus_write_mask_cases value)
