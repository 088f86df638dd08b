-- ===== src/Tests/Traps.antt =====
-- Traps, interrupts and returns.
use space_emu.Base.{ℕ, ◌^◌, ◌+◌, ◌≡◌, true, false, if◌then◌else◌, ◌==◌, ◌!=◌, ◌&&◌, ◌||◌}
use space_emu.Base.{leb, refl, arith, [], ◌∷◌}
use space_emu.Base.Bits.{has_bit}
use space_emu.Cpu.{CpuState}
use space_emu.Regs.Trap.{raise_exception, raise_interrupt, handle_mret, handle_sret, is_delegated}
use space_emu.Regs.Trap.Return.{HasModeWidth, mret-raise_exception}
use space_emu.Regs.Trap.Supervisor.{sret-raise_exception}
use space_emu.Regs.Trap.Interrupt.{Taken, raise_interrupt-Taken}
use space_emu.Regs.Trap.Vector.{vector, raise_exception_interrupt}
use space_emu.Regs.Status.{get_base_from_xlen}
use space_emu.Regs.Valid.{IsValid}
use space_emu.Space.{cpu_state_reset}
use space_emu.Space.Reachable.{reached, reached-IsValid, write_csr, trap, poll, mret, line}
use space_emu.Tests.{user, user-IsValid}

user-HasModeWidth : HasModeWidth user
unfolding cpu_state_reset get_base_from_xlen
user-HasModeWidth = refl

-- An illegal instruction in user mode.
mret-raise_exception_example :
    let t = handle_mret (raise_exception user 2 0) in
    (t.pc ≡ 0x400)
    × (t.priv ≡ 0)
    × (t.xlen ≡ user.xlen)
    × ((i : ℕ)
        → has_bit t.mstatus i ≡ (
            if i == 7
            then true
            else if i == 11 || i == 12
            then false
            else if i == 3 && user.priv != 3
            then false
            else has_bit user.mstatus i))
unfolding is_delegated
mret-raise_exception_example = mret-raise_exception user 2 0 user-IsValid user-HasModeWidth refl

-- A system call in user mode.
sret-raise_exception_example :
    let t = handle_sret (raise_exception user 8 0) in
    (t.pc ≡ 0x400)
    × (t.priv ≡ 0)
    × (t.xlen ≡ user.xlen)
    × ((i : ℕ)
        → has_bit t.mstatus i ≡ (
            if i == 5
            then true
            else if i == 8
            then false
            else if i == 1 && user.priv != 1
            then false
            else has_bit user.mstatus i))
unfolding is_delegated
sret-raise_exception_example = sret-raise_exception user 8 0 user-IsValid user-HasModeWidth refl

raise_interrupt-Taken_example : Taken user (raise_interrupt user)
raise_interrupt-Taken_example = raise_interrupt-Taken user user-IsValid

raise_exception_interrupt_example :
    let t = raise_exception cpu_state_reset (7 + 2 ^ 31) 0 in
    let down = leb cpu_state_reset.priv 1 && has_bit cpu_state_reset.mideleg 7 in
    (t.priv ≡ (if down then 1 else 3))
    × ((if down then t.sepc else t.mepc) ≡ cpu_state_reset.pc)
    × ((if down then t.scause else t.mcause) ≡ 7 + 2 ^ 63)
    × (t.pc ≡ vector (if down then cpu_state_reset.stvec else cpu_state_reset.mtvec) 7)
raise_exception_interrupt_example =
    raise_exception_interrupt cpu_state_reset 7 (omega arith) reset-xlen
  where
    reset-xlen : cpu_state_reset.xlen ≡ 64
    reset-xlen = unfold cpu_state_reset in refl

-- A table of vectors at 0x1000, at a width of 32 bits.
abbrev narrow : CpuState
narrow = record user { xlen = 32 }

-- The timer is delegated, the guest enters user mode, and the network's line rises.
reached-IsValid_example :
    IsValid
      (reached cpu_state_reset (write_csr 0x303 0x222 ∷ mret ∷ line 2 true ∷ poll ∷ trap 8 0 ∷ []))
reached-IsValid_example =
    reached-IsValid (write_csr 0x303 0x222 ∷ mret ∷ line 2 true ∷ poll ∷ trap 8 0 ∷ [])
