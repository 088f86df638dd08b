-- ===== src/Regs/Trap/Return.antt =====
-- regs.c: a trap into machine mode and the return from it.
use space_emu.Base.{ℕ, ◌+◌, ◌^◌, ◌<◌, ◌≡◌, arith, bit_and, true, false, ◌&&◌, ◌||◌}
use space_emu.Base.{if◌then◌else◌, ◌==◌, ◌!=◌}
use space_emu.Base.Word.{lnot, ◌>>>◌, ◌<<<◌}
use space_emu.Base.Bits.{has_bit, bit_and-lt}
use space_emu.Cpu.{CpuState}
use space_emu.Regs.Trap.{machine_entry, mret_mstatus, mode_mxl, is_delegated}
use space_emu.Regs.Trap.{raise_exception, trap_to_machine, handle_mret}
use space_emu.Regs.Valid.{IsValid}
use space_emu.Regs.Trap.Bits.{two_bits, two_bits_same}
use space_emu.Regs.Trap.Entry.{has_bit-machine_entry, has_bit-mret_mstatus}

-- The current width is the one of the current mode.
abbrev pub HasModeWidth : CpuState → Type 0
HasModeWidth s = s.xlen ≡ 1 <<< (4 + mode_mxl s.mstatus s.mxl s.priv)

machine_entry-lt : (m p : ℕ) → machine_entry m p < 2 ^ 64
unfolding machine_entry
machine_entry-lt m p = bit_and-lt 64 _ (lnot 64 (2 ^ 3)) (omega arith)

module _ (m : ℕ) (m_lt : m < 2 ^ 64) (p : ℕ) (p_lt : p < 4) where
  -- The mode is found again in MPP.
  mpp-machine_entry : bit_and (machine_entry m p >>> 11) 3 ≡ p
  mpp-machine_entry =
      two_bits (machine_entry m p) 11 p p_lt (has_bit-machine_entry m m_lt p p_lt 11)
        (has_bit-machine_entry m m_lt p p_lt 12)

  has_bit-there_and_back :
      (i : ℕ)
      → has_bit (mret_mstatus (machine_entry m p) p) i ≡ (
          if i == 7
          then true
          else if i == 11 || i == 12
          then false
          else if i == 3 && p != 3
          then false
          else has_bit m i)
  has_bit-there_and_back i = ground (
    arith,
    has_bit-mret_mstatus (machine_entry m p) (machine_entry-lt m p) p p_lt i,
    has_bit-machine_entry m m_lt p p_lt i,
    has_bit-machine_entry m m_lt p p_lt 7,
  )

  mode_mxl-there_and_back :
      (mxl : ℕ) → mode_mxl (mret_mstatus (machine_entry m p) p) mxl p ≡ mode_mxl m mxl p
  mode_mxl-there_and_back mxl = ground (
    arith,
    two_bits_same (mret_mstatus (machine_entry m p) p) m 34 (has_bit-there_and_back 34)
        (has_bit-there_and_back 35),
    two_bits_same (mret_mstatus (machine_entry m p) p) m 32 (has_bit-there_and_back 32)
        (has_bit-there_and_back 33),
  )

-- In a valid state whose width is that of its mode, a trap that is not delegated, followed at
-- once by `mret`, comes back to the same program counter, mode and width; of `mstatus`, MPIE is
-- then set, MPP is cleared, MIE is cleared unless the trap came from machine mode, and every
-- other bit is as before.
pub mret-raise_exception :
    (s : CpuState) (cause tval : ℕ)
    → IsValid s
    → HasModeWidth s
    → is_delegated s cause ≡ false
    → let t = handle_mret (raise_exception s cause tval) in
      (t.pc ≡ s.pc)
      × (t.priv ≡ s.priv)
      × (t.xlen ≡ s.xlen)
      × ((i : ℕ)
          → has_bit t.mstatus i ≡ (
              if i == 7
              then true
              else if i == 11 || i == 12
              then false
              else if i == 3 && s.priv != 3
              then false
              else has_bit s.mstatus i))
unfolding raise_exception trap_to_machine handle_mret
mret-raise_exception s cause tval v w d =
    let e = mpp-machine_entry s.mstatus v.mstatus_lt s.priv v.priv_lt in
    let x = mode_mxl-there_and_back s.mstatus v.mstatus_lt s.priv v.priv_lt s.mxl in
    (
      ground (arith, e),
      ground (arith, e),
      ground (arith, e, x),
      λ i. ground (arith, e, has_bit-there_and_back s.mstatus v.mstatus_lt s.priv v.priv_lt i),
    )
