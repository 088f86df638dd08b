-- ===== src/Regs/Trap.antt =====
-- Privilege changes, traps, interrupts and returns from traps of regs.c. `raise_interrupt`
-- returns -1 (`true` here) if it has taken one.
pub mod Bits
pub mod Entry
pub mod Return
pub mod Supervisor
pub mod Interrupt
pub mod Vector
use space_emu.Base.{ℕ, zero, suc, ◌+◌, ◌-◌, ◌*◌, ◌^◌, bit_and, bit_or, Bool, true, false}
use space_emu.Base.{◌==◌, ◌!=◌, ◌&&◌, leb, if◌then◌else◌}
use space_emu.Base.Word.{lnot, u64, ◌<<<◌, ◌>>>◌}
use space_emu.Cpu.{CpuState, priv_u, priv_s, priv_m}

-- CAUSE_INTERRUPT
abbrev pub cause_interrupt : ℕ
cause_interrupt = 2 ^ 31

-- The width code of a mode: its field of `mstatus`, or `mxl` for machine mode.
abbrev pub mode_mxl : ℕ → ℕ → ℕ → ℕ
mode_mxl mstatus machine_mxl priv =
    if priv == priv_s
    then bit_and (mstatus >>> 34) 3
    else if priv == priv_u
    then bit_and (mstatus >>> 32) 3
    else machine_mxl

unfoldable pub set_priv : CpuState → ℕ → CpuState
set_priv s priv =
    if s.priv != priv
    then record s { xlen = 1 <<< (4 + mode_mxl s.mstatus s.mxl priv); priv = priv }
    else s

unfoldable pub is_interrupt : ℕ → Bool
is_interrupt cause = bit_and cause cause_interrupt != 0

-- Does a trap with this cause go to supervisor mode? The shift of `medeleg` by the cause is in
-- uint32_t, and the causes of exceptions are below 32.
unfoldable pub is_delegated : CpuState → ℕ → Bool
unfolding is_interrupt
is_delegated s cause =
    if leb s.priv priv_s
    then (if is_interrupt cause
        then bit_and (s.mideleg >>> bit_and cause 63) 1 != 0
        else bit_and (s.medeleg >>> cause) 1 != 0)
    else false

-- What the cause register is set to: the top bit of the current width marks an interrupt.
unfoldable pub cause_value : CpuState → ℕ → ℕ
unfolding is_interrupt
cause_value s cause =
    let causel = bit_and cause 0x7fff_ffff in
    if is_interrupt cause then bit_or causel (u64 (1 <<< (s.xlen - 1))) else causel

-- The entry point: vectored for an interrupt, if a low bit of the vector register is set.
unfoldable pub trap_pc : ℕ → ℕ → ℕ → ℕ
unfolding is_interrupt
trap_pc tvec cause causel =
    let base = bit_and tvec (lnot 64 3) in
    if is_interrupt cause && bit_and tvec 3 != 0 then u64 (base + causel * 4) else base

-- `mstatus` on entry to supervisor mode from mode `priv`: SPIE takes the enable bit of that mode,
-- SPP the mode, and SIE is cleared.
unfoldable pub supervisor_entry : ℕ → ℕ → ℕ
supervisor_entry m priv =
    let m1 = bit_or (bit_and m (lnot 64 (2 ^ 5))) (bit_and (m >>> priv) 1 <<< 5) in
    let m2 = bit_or (bit_and m1 (lnot 64 (2 ^ 8))) (priv <<< 8) in bit_and m2 (lnot 64 (2 ^ 1))

-- The same on entry to machine mode, with MPIE, MPP and MIE.
unfoldable pub machine_entry : ℕ → ℕ → ℕ
machine_entry m priv =
    let m1 = bit_or (bit_and m (lnot 64 (2 ^ 7))) (bit_and (m >>> priv) 1 <<< 7) in
    let m2 = bit_or (bit_and m1 (lnot 64 (3 <<< 11))) (priv <<< 11) in bit_and m2 (lnot 64 (2 ^ 3))

unfoldable pub trap_to_supervisor : CpuState → ℕ → ℕ → CpuState
unfolding set_priv trap_pc cause_value
trap_to_supervisor s cause tval =
    let causel = cause_value s cause in
    let entered =
      set_priv
        (record s {
          scause = causel;
          sepc = s.pc;
          stval = tval;
          mstatus = supervisor_entry s.mstatus s.priv;
        })
        priv_s in
    record entered { pc = trap_pc s.stvec cause causel }

unfoldable pub trap_to_machine : CpuState → ℕ → ℕ → CpuState
unfolding set_priv trap_pc cause_value
trap_to_machine s cause tval =
    let causel = cause_value s cause in
    let entered =
      set_priv
        (record s {
          mcause = causel;
          mepc = s.pc;
          mtval = tval;
          mstatus = machine_entry s.mstatus s.priv;
        })
        priv_m in
    record entered { pc = trap_pc s.mtvec cause causel }

unfoldable pub raise_exception : CpuState → ℕ → ℕ → CpuState
raise_exception s cause tval =
    if is_delegated s cause then trap_to_supervisor s cause tval else trap_to_machine s cause tval

-- `default` and PRIV_U share a case: every interrupt is enabled there.
unfoldable pub get_pending_irq_mask : CpuState → ℕ
get_pending_irq_mask s =
    let pending_ints = bit_and s.mie s.mip in
    let enabled_ints =
      if s.priv == priv_m
      then (if bit_and s.mstatus (2 ^ 3) != 0 then lnot 32 s.mideleg else 0)
      else if s.priv == priv_s
      then (if bit_and s.mstatus (2 ^ 1) != 0
          then bit_or (lnot 32 s.mideleg) s.mideleg
          else lnot 32 s.mideleg)
      else 2 ^ 32 - 1 in
    if pending_ints == 0 then 0 else bit_and pending_ints enabled_ints

-- `for (i = 0; i < 32; i++)`, with the rounds left; 32 if no bit is set.
unfoldable pub first_set_bit : ℕ → ℕ → ℕ → ℕ
first_set_bit zero mask i = 32
first_set_bit (suc left) mask i =
    let rest = first_set_bit left mask (i + 1) in if bit_and (mask >>> i) 1 != 0 then i else rest

unfoldable pub raise_interrupt : CpuState → Bool × CpuState
unfolding first_set_bit
raise_interrupt s =
    let mask = get_pending_irq_mask s in
    let irq_num = first_set_bit 32 mask 0 in
    if mask == 0 then (false, s) else (true, raise_exception s (bit_or irq_num cause_interrupt) 0)

-- `mstatus` on return to mode `spp` (or `mpp`): the enable bit of that mode takes SPIE (MPIE),
-- which is then set, and SPP (MPP) is cleared.
unfoldable pub sret_mstatus : ℕ → ℕ → ℕ
sret_mstatus m spp =
    let spie = bit_and (m >>> 5) 1 in
    let m1 = bit_or (bit_and m (lnot 64 (2 ^ spp))) (spie <<< spp) in
    bit_and (bit_or m1 (2 ^ 5)) (lnot 64 (2 ^ 8))

unfoldable pub mret_mstatus : ℕ → ℕ → ℕ
mret_mstatus m mpp =
    let mpie = bit_and (m >>> 7) 1 in
    let m1 = bit_or (bit_and m (lnot 64 (2 ^ mpp))) (mpie <<< mpp) in
    bit_and (bit_or m1 (2 ^ 7)) (lnot 64 (3 <<< 11))

unfoldable pub handle_sret : CpuState → CpuState
unfolding set_priv
handle_sret s =
    let spp = bit_and (s.mstatus >>> 8) 1 in
    let returned = set_priv (record s { mstatus = sret_mstatus s.mstatus spp }) spp in
    record returned { pc = returned.sepc }

unfoldable pub handle_mret : CpuState → CpuState
unfolding set_priv
handle_mret s =
    let mpp = bit_and (s.mstatus >>> 11) 3 in
    let returned = set_priv (record s { mstatus = mret_mstatus s.mstatus mpp }) mpp in
    record returned { pc = returned.mepc }
