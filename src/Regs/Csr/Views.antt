-- ===== src/Regs/Csr/Views.antt =====
-- The supervisor's registers as views of the machine's, and reading back what was written.
use space_emu.Base.{ℕ, ◌^◌, ◌<◌, ◌≤◌, ◌≡◌, refl, arith, bit_and, bit_or, true, ◌&&◌, ◌||◌}
use space_emu.Base.{leb, if◌then◌else◌, ◌==◌, ap, switch}
use space_emu.Base.{some}
use space_emu.Base.Bits.{has_bit, has_bit-bit_and, has_bit-bit_or, eq_of_bits}
use space_emu.Base.Bits.{has_bit-pow}
use space_emu.Cpu.{CpuState}
use space_emu.Regs.Status.{set_mstatus, sstatus_mask}
use space_emu.Regs.Status.Mask.{has_bit-set_mstatus, mstatus_write_mask_cases, allows_widths}
use space_emu.Regs.Csr.Read.{csr_read}
use space_emu.Regs.Csr.Write.{csr_write, merge}
use space_emu.Regs.Csr.Merge.{has_bit-merge}
use space_emu.Regs.Trap.Bits.{two_bits_same}
use space_emu.Regs.Valid.{IsValid}

-- The bits of `sstatus` that `set_mstatus` writes whatever the value: UIE, SIE, UPIE, SPIE, SPP,
-- SUM and MXR.
abbrev pub sstatus_plain : ℕ
sstatus_plain = 0xc0133

-- The bits that both the view and the write mask of `mstatus` let through.
writable :
    (i : ℕ)
    → ((has_bit sstatus_mask i && has_bit 0xe19bb i) ≡ has_bit sstatus_plain i)
      × ((has_bit sstatus_mask i && has_bit 0xf000e19bb i)
          ≡ (has_bit sstatus_plain i || i == 32 || i == 33))
writable i = (
  ground (arith, has_bit-bit_and sstatus_mask 0xe19bb i),
  ground (
    arith,
    has_bit-bit_and sstatus_mask 0xf000e19bb i,
    has_bit-bit_or sstatus_plain (bit_or (2 ^ 32) (2 ^ 33)) i,
    has_bit-bit_or (2 ^ 32) (2 ^ 33) i,
    has_bit-pow 32 i,
    has_bit-pow 33 i,
  ),
)

wide : (has_bit sstatus_mask 32 && has_bit sstatus_mask 33) ≡ true
unfolding has_bit
wide = refl

module _ (s : CpuState) (val : ℕ) (v : IsValid s) where
  abbrev sstatus_value : ℕ
  sstatus_value = merge s.mstatus sstatus_mask val

  has_bit-sstatus_value :
      (i : ℕ)
      → has_bit sstatus_value i
        ≡ (if has_bit sstatus_mask i then has_bit val i else has_bit s.mstatus i)
  has_bit-sstatus_value i = has_bit-merge s.mstatus sstatus_mask val i v.mstatus_lt

  same_widths : allows_widths sstatus_value ≡ allows_widths val
  same_widths =
      ap (λ w. leb 1 w && leb w 2)
        (two_bits_same sstatus_value val 32 (ground (arith, has_bit-sstatus_value 32, wide))
          (ground (arith, has_bit-sstatus_value 33, wide)))

  -- What a write through the view leaves in bit `i`.
  pub has_bit-write_sstatus :
      (i : ℕ)
      → has_bit (set_mstatus s sstatus_value).mstatus i ≡ (
          if has_bit sstatus_plain i || ((i == 32 || i == 33) && allows_widths val)
          then has_bit val i
          else has_bit s.mstatus i)
  has_bit-write_sstatus i = ground (
    arith,
    has_bit-set_mstatus s sstatus_value i v.mstatus_lt,
    has_bit-sstatus_value i,
    mstatus_write_mask_cases sstatus_value,
    same_widths,
    writable i,
  )

-- In a valid state a write to `sstatus` is accepted, takes over the seven plain bits of the
-- view and, if the value's UXL field is 1 or 2, that field, and changes no other bit of
-- `mstatus`.
pub csr_write_sstatus :
    (s : CpuState) (val : ℕ)
    → IsValid s
    → (t : CpuState) × (csr_write s 0x100 val ≡ some (0, t))
      × ((i : ℕ)
          → has_bit t.mstatus i ≡ (
              if has_bit sstatus_plain i || ((i == 32 || i == 33) && allows_widths val)
              then has_bit val i
              else has_bit s.mstatus i))
csr_write_sstatus s val v = (
  set_mstatus s (sstatus_value s val v),
  unfold csr_write switch in refl,
  has_bit-write_sstatus s val v,
)

-- A merge under a mask, seen through the mask, is the value seen through it.
merge_through :
    (old mask val : ℕ) → old < 2 ^ 64 → bit_and (merge old mask val) mask ≡ bit_and val mask
merge_through old mask val h = eq_of_bits _ _ λ i. ground (
  arith,
  has_bit-bit_and (merge old mask val) mask i,
  has_bit-merge old mask val i h,
  has_bit-bit_and val mask i,
)

-- In a valid state in supervisor mode or above, `sie` reads back as the delegated bits of what
-- was written, and the bits of `mie` that are not delegated are as before.
pub csr_read-csr_write_sie :
    (uninit : ℕ) (s : CpuState) (val : ℕ)
    → IsValid s
    → 1 ≤ s.priv
    → (t : CpuState) × (csr_write s 0x104 val ≡ some (0, t))
      × (csr_read uninit t 0x104 true ≡ some (bit_and val s.mideleg))
      × ((i : ℕ)
          → has_bit t.mie i ≡ (if has_bit s.mideleg i then has_bit val i else has_bit s.mie i))
csr_read-csr_write_sie uninit s val v p = (
  record s { mie = merge s.mie s.mideleg val },
  unfold csr_write switch in refl,
  unfold csr_read switch in ground (arith, merge_through s.mie s.mideleg val),
  λ i. has_bit-merge s.mie s.mideleg val i (omega (arith, v.mie_lt)),
)

-- In a valid state in supervisor mode or above, `sip` reads back as the delegated bits of what
-- was written, and the bits of `mip` that are not delegated are as before.
pub csr_read-csr_write_sip :
    (uninit : ℕ) (s : CpuState) (val : ℕ)
    → IsValid s
    → 1 ≤ s.priv
    → (t : CpuState) × (csr_write s 0x144 val ≡ some (0, t))
      × (csr_read uninit t 0x144 true ≡ some (bit_and val s.mideleg))
      × ((i : ℕ)
          → has_bit t.mip i ≡ (if has_bit s.mideleg i then has_bit val i else has_bit s.mip i))
csr_read-csr_write_sip uninit s val v p = (
  record s { mip = merge s.mip s.mideleg val },
  unfold csr_write switch in refl,
  unfold csr_read switch in ground (arith, merge_through s.mip s.mideleg val),
  λ i. has_bit-merge s.mip s.mideleg val i (omega (arith, v.mip_lt)),
)
