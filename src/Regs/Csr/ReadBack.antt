-- ===== src/Regs/Csr/ReadBack.antt =====
-- `mstatus` read back after a write, and the width fields.
use space_emu.Base.{ℕ, ◌-◌, ◌^◌, ◌<◌, ◌≡◌, refl, arith, bit_and, bit_or, true, ◌&&◌, ◌||◌}
use space_emu.Base.{if◌then◌else◌, ◌==◌, inl, inr, Bool-cases, switch}
use space_emu.Base.{some}
use space_emu.Base.Word.{◌>>>◌, ◌<<<◌}
use space_emu.Base.Bits.{has_bit, has_bit-bit_and, has_bit-bit_or}
use space_emu.Base.Bits.{has_bit-pow, has_bit-ones}
use space_emu.Cpu.{CpuState}
use space_emu.Regs.Status.{set_mstatus, get_mstatus, mstatus_write_mask}
use space_emu.Regs.Status.Mask.{has_bit-set_mstatus, mstatus_write_mask_cases}
use space_emu.Regs.Status.Mask.{mstatus_write_mask-fs, allows_widths}
use space_emu.Regs.Csr.Read.{csr_read}
use space_emu.Regs.Csr.Write.{csr_write}
use space_emu.Regs.Trap.Bits.{two_bits_same, two_bits_of, has_bit-field}
use space_emu.Regs.Valid.{IsValid}

fs-set_mstatus : (s : CpuState) (value : ℕ) → (set_mstatus s value).fs ≡ bit_and (value >>> 13) 3
unfolding set_mstatus
fs-set_mstatus s value = refl

-- Below the top bit, the whole register shows `mstatus` with FS in its place.
has_bit-get_mstatus :
    (s : CpuState) (i : ℕ)
    → s.xlen ≡ 64
    → s.fs < 4
    → i < 63
    → has_bit (get_mstatus s (2 ^ 64 - 1)) i
      ≡ has_bit s.mstatus i || ((i == 13 && has_bit s.fs 0) || (i == 14 && has_bit s.fs 1))
unfolding get_mstatus
has_bit-get_mstatus s i x f h =
    let word = bit_or s.mstatus (s.fs <<< 13) in
    ground (
      arith,
      has_bit-bit_and word (2 ^ 64 - 1) i,
      has_bit-ones 64 i,
      has_bit-bit_or s.mstatus (s.fs <<< 13) i,
      has_bit-field s.fs 13 i f,
      has_bit-bit_or (bit_and word (2 ^ 64 - 1)) (2 ^ 63) i,
      has_bit-pow 63 i,
    )

-- In a valid state in machine mode at a width of 64 bits, a write to `mstatus` is accepted, and
-- the register reads back, below its top bit, as the value on FS and on the bits of the write
-- mask, and as the old `mstatus` elsewhere.
pub csr_read-csr_write_mstatus :
    (uninit : ℕ) (s : CpuState) (val i : ℕ)
    → IsValid s
    → s.priv ≡ 3
    → s.xlen ≡ 64
    → i < 63
    → (t : CpuState) × (r : ℕ) × (csr_write s 0x300 val ≡ some (0, t))
      × (csr_read uninit t 0x300 true ≡ some r)
      × (has_bit r i ≡ (
          if i == 13 || i == 14
          then has_bit val i
          else if has_bit (mstatus_write_mask val) i
          then has_bit val i
          else has_bit s.mstatus i))
csr_read-csr_write_mstatus uninit s val i v p x h = (
  set_mstatus s val,
  get_mstatus (set_mstatus s val) (2 ^ 64 - 1),
  unfold csr_write switch in refl,
  unfold csr_read switch set_mstatus in ground arith,
  ground (
    arith,
    has_bit-get_mstatus (set_mstatus s val) i (unfold set_mstatus in x)
        (rw (fs-set_mstatus s val) (two_bits_of val 13).2) h,
    fs-set_mstatus s val,
    has_bit-set_mstatus s val i v.mstatus_lt,
    two_bits_of val 13,
    mstatus_write_mask-fs val,
    v.fs_low,
    v.fs_high,
  ),
)

mask_widths :
    (value : ℕ)
    → (has_bit (mstatus_write_mask value) 32 ≡ allows_widths value)
      × (has_bit (mstatus_write_mask value) 33 ≡ allows_widths value)
      × (has_bit (mstatus_write_mask value) 34 ≡ allows_widths value)
      × (has_bit (mstatus_write_mask value) 35 ≡ allows_widths value)
mask_widths value = elim (Bool-cases (allows_widths value)) [
  | inl e ↦
      let m : mstatus_write_mask value ≡ 0xf000e19bb =
        ground (arith, mstatus_write_mask_cases value) in
      rw (m, e) (unfold has_bit in (refl, refl, refl, refl))
  | inr e ↦
      let m : mstatus_write_mask value ≡ 0xe19bb = ground (arith, mstatus_write_mask_cases value) in
      rw (m, e) (unfold has_bit in (refl, refl, refl, refl))
]

-- In a valid state, a write to `mstatus` takes both width fields from the value if its UXL
-- field is 1 or 2, and keeps both otherwise.
pub set_mstatus_widths :
    (s : CpuState) (value : ℕ)
    → IsValid s
    → let kept = if allows_widths value then value else s.mstatus in
      (bit_and ((set_mstatus s value).mstatus >>> 32) 3 ≡ bit_and (kept >>> 32) 3)
      × (bit_and ((set_mstatus s value).mstatus >>> 34) 3 ≡ bit_and (kept >>> 34) 3)
set_mstatus_widths s value v =
    let kept = if allows_widths value then value else s.mstatus in
    let same : (i : ℕ)
        → has_bit (mstatus_write_mask value) i ≡ allows_widths value
        → has_bit (set_mstatus s value).mstatus i ≡ has_bit kept i =
      λ i e. ground (arith, e, has_bit-set_mstatus s value i v.mstatus_lt) in
    let (a, b, c, d) = mask_widths value in
    (
      two_bits_same (set_mstatus s value).mstatus kept 32 (same 32 a) (same 33 b),
      two_bits_same (set_mstatus s value).mstatus kept 34 (same 34 c) (same 35 d),
    )
