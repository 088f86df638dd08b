-- ===== src/Regs/Trap/Supervisor.antt =====
-- regs.c: a trap into supervisor mode and the return from it.
use space_emu.Base.{ℕ, ◌^◌, ◌<◌, ◌≡◌, arith, bit_and, true, false, ◌&&◌}
use space_emu.Base.{if◌then◌else◌, ◌==◌, ◌!=◌}
use space_emu.Base.Word.{lnot, ◌>>>◌}
use space_emu.Base.Bits.{has_bit, bit_and-lt, shift_and_one}
use space_emu.Cpu.{CpuState}
use space_emu.Regs.Valid.{IsValid}
use space_emu.Regs.Trap.{supervisor_entry, sret_mstatus, mode_mxl, is_delegated}
use space_emu.Regs.Trap.{raise_exception, trap_to_supervisor, handle_sret}
use space_emu.Regs.Trap.Bits.{two_bits_same}
use space_emu.Regs.Trap.Return.{HasModeWidth}
use space_emu.Regs.Trap.Entry.{has_bit-supervisor_entry, has_bit-sret_mstatus}

supervisor_entry-lt : (m p : ℕ) → supervisor_entry m p < 2 ^ 64
unfolding supervisor_entry
supervisor_entry-lt m p = bit_and-lt 64 _ (lnot 64 (2 ^ 1)) (omega arith)

-- A number below 2 is its digit.
one_digit : (p : ℕ) → p < 2 → (if has_bit p 0 then 1 else 0) ≡ p
unfolding has_bit
one_digit p h = ground arith

module _ (m : ℕ) (m_lt : m < 2 ^ 64) (p : ℕ) (p_lt : p < 2) where
  -- The mode is found again in SPP.
  spp-supervisor_entry : bit_and (supervisor_entry m p >>> 8) 1 ≡ p
  spp-supervisor_entry = ground (
    arith,
    shift_and_one (supervisor_entry m p) 8,
    has_bit-supervisor_entry m m_lt p p_lt 8,
    one_digit p p_lt,
  )

  has_bit-there_and_back :
      (i : ℕ)
      → has_bit (sret_mstatus (supervisor_entry m p) p) i ≡ (
          if i == 5
          then true
          else if i == 8
          then false
          else if i == 1 && p != 1
          then false
          else has_bit m i)
  has_bit-there_and_back i = ground (
    arith,
    has_bit-sret_mstatus (supervisor_entry m p) (supervisor_entry-lt m p) p p_lt i,
    has_bit-supervisor_entry m m_lt p p_lt i,
    has_bit-supervisor_entry m m_lt p p_lt 5,
  )

  mode_mxl-there_and_back :
      (mxl : ℕ) → mode_mxl (sret_mstatus (supervisor_entry m p) p) mxl p ≡ mode_mxl m mxl p
  mode_mxl-there_and_back mxl = ground (
    arith,
    two_bits_same (sret_mstatus (supervisor_entry m p) p) m 34 (has_bit-there_and_back 34)
        (has_bit-there_and_back 35),
    two_bits_same (sret_mstatus (supervisor_entry m p) p) m 32 (has_bit-there_and_back 32)
        (has_bit-there_and_back 33),
  )

-- Only traps from supervisor and user mode are delegated.
pub is_delegated-priv : (s : CpuState) (cause : ℕ) → is_delegated s cause ≡ true → s.priv < 2
unfolding is_delegated
is_delegated-priv s cause h = ground arith

-- In a valid state whose width is that of its mode, a delegated trap, followed at once by
-- `sret`, comes back to the same program counter, mode and width; of `mstatus`, SPIE is then
-- set, SPP is cleared, SIE is cleared unless the trap came from supervisor mode, and every
-- other bit is as before.
pub sret-raise_exception :
    (s : CpuState) (cause tval : ℕ)
    → IsValid s
    → HasModeWidth s
    → is_delegated s cause ≡ true
    → let t = handle_sret (raise_exception s cause tval) in
      (t.pc ≡ s.pc)
      × (t.priv ≡ s.priv)
      × (t.xlen ≡ s.xlen)
      × ((i : ℕ)
          → has_bit t.mstatus i ≡ (
              if i == 5
              then true
              else if i == 8
              then false
              else if i == 1 && s.priv != 1
              then false
              else has_bit s.mstatus i))
unfolding raise_exception trap_to_supervisor handle_sret
sret-raise_exception s cause tval v w d =
    let low = is_delegated-priv s cause d in
    let e = spp-supervisor_entry s.mstatus v.mstatus_lt s.priv low in
    let x = mode_mxl-there_and_back s.mstatus v.mstatus_lt s.priv low s.mxl in
    (
      ground (arith, e),
      ground (arith, e),
      ground (arith, e, x),
      λ i. ground (arith, e, has_bit-there_and_back s.mstatus v.mstatus_lt s.priv low i),
    )
