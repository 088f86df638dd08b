-- ===== src/Regs/Valid.antt =====
-- The well-formed states of regs.c. `mstatus` fits in 64 bits, with FS kept elsewhere and a known
-- width in its field UXL; FS, the rounding mode, the exception flags and the privilege fit their
-- fields; the words of the delegation and of the interrupts fit their C types, and those that a
-- mask guards hold no other bit; MXL and the mode of `satp` are known ones. Nothing is said of
-- the program counter, of the vectors and of the words that only record a trap, which take any
-- value, nor of SXL, which the code stores unchecked, and of `xlen`, which follows it.
pub mod Fields
pub mod Writes
pub mod Traps
use space_emu.Base.{ℕ, ◌^◌, ◌<◌, ◌≡◌, ◌⊎◌, ◌≤◌, not, false}
use space_emu.Base.Word.{◌>>>◌}
use space_emu.Base.Bits.{has_bit, IsWithin}
use space_emu.Cpu.{CpuState}
use space_emu.Regs.Csr.Write.{mie_mask, mideleg_mask}

-- A width of 32 or 64 bits in the field UXL, bits 32 and 33: 1 or 2.
abbrev pub HasWidth : ℕ → Type 0
HasWidth mstatus = has_bit mstatus 32 ≡ not (has_bit mstatus 33)

-- Bare, Sv39 or Sv48.
abbrev pub IsSatpMode : ℕ → Type 0
IsSatpMode mode = (mode ≡ 0) ⊎ (mode ≡ 8) ⊎ (mode ≡ 9)

pub record IsValid (s : CpuState) : Type 0 where
  pub mstatus_lt : s.mstatus < 2 ^ 64
  -- The FS field is kept in `fs`, and its place in `mstatus` is empty.
  pub fs_low : has_bit s.mstatus 13 ≡ false
  pub fs_high : has_bit s.mstatus 14 ≡ false
  pub uxl_known : HasWidth s.mstatus
  pub fs_lt : s.fs < 4
  pub frm_lt : s.frm < 5
  pub fflags_lt : s.fflags < 32
  pub priv_lt : s.priv < 4
  pub medeleg_lt : s.medeleg < 2 ^ 16
  pub mideleg_lt : s.mideleg < 2 ^ 32
  pub mideleg_within : IsWithin s.mideleg mideleg_mask
  pub mie_lt : s.mie < 2 ^ 32
  pub mie_within : IsWithin s.mie mie_mask
  pub mip_lt : s.mip < 2 ^ 32
  pub mxl_known : (1 ≤ s.mxl) × (s.mxl ≤ 2)
  pub satp_mode : IsSatpMode (s.satp >>> 60)
