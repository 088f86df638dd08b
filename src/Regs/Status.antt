-- ===== src/Regs/Status.antt =====
-- `get_mstatus` and `set_mstatus` of regs.c, with the masks that they use.
pub mod Mask
use space_emu.Base.{ℕ, ◌-◌, bit_and, bit_or, ◌&&◌}
use space_emu.Base.{◌||◌, ◌==◌, leb, if◌then◌else◌}
use space_emu.Base.Word.{lnot, u64, ◌<<<◌, ◌>>>◌}
use space_emu.Cpu.{CpuState}

-- `mstatus_fs` is MSTATUS_FS, `3 << 13`; `mstatus_xs` is MSTATUS_XS, `3 << 15`.
abbrev pub mstatus_fs : ℕ
mstatus_fs = 0x6000

abbrev pub mstatus_xs : ℕ
mstatus_xs = 0x18000

abbrev pub mstatus_uxl_mask : ℕ
mstatus_uxl_mask = 3 <<< 32

abbrev pub mstatus_sxl_mask : ℕ
mstatus_sxl_mask = 3 <<< 34

-- UIE, SIE, MIE (bits 0, 1, 3), UPIE, SPIE, MPIE (4, 5, 7), SPP (8), MPP (11, 12), FS (13, 14),
-- MPRV, SUM, MXR (17, 18, 19).
abbrev pub mstatus_mask : ℕ
mstatus_mask = 0xe79bb

-- UIE, SIE, UPIE, SPIE, SPP, FS, XS, SUM, MXR and, as XLEN is 64, UXL.
abbrev pub sstatus_mask : ℕ
sstatus_mask = 0x3000de133

unfoldable pub get_base_from_xlen : ℕ → ℕ
get_base_from_xlen xlen = if xlen == 32 then 1 else if xlen == 64 then 2 else 3

-- The shift `1 << (xlen - 1)` is in uint64_t.
unfoldable pub get_mstatus : CpuState → ℕ → ℕ
get_mstatus s mask =
    let result = bit_and (bit_or s.mstatus (s.fs <<< 13)) mask in
    let sd = bit_and result mstatus_fs == mstatus_fs || bit_and result mstatus_xs == mstatus_xs in
    if sd then bit_or result (u64 (1 <<< (s.xlen - 1))) else result

-- The bits that `set_mstatus` lets the value change. Both fields are allowed by the UXL field
-- of the value, as in the code.
unfoldable pub mstatus_write_mask : ℕ → ℕ
unfolding get_base_from_xlen
mstatus_write_mask value =
    let mask = bit_and mstatus_mask (lnot 64 mstatus_fs) in
    let uxl = bit_and (value >>> 32) 3 in
    let mask =
      if leb 1 uxl && leb uxl (get_base_from_xlen 64) then bit_or mask mstatus_uxl_mask else mask in
    let sxl = bit_and (value >>> 32) 3 in
    if leb 1 sxl && leb sxl (get_base_from_xlen 64) then bit_or mask mstatus_sxl_mask else mask

-- The test of `diff` has no effect in the code ("TODO: tlb flush").
unfoldable pub set_mstatus : CpuState → ℕ → CpuState
set_mstatus s value =
    let mask = mstatus_write_mask value in
    record s {
      fs = bit_and (value >>> 13) 3;
      mstatus = bit_or (bit_and s.mstatus (lnot 64 mask)) (bit_and value mask);
    }
