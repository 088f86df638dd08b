-- ===== src/Tests.antt =====
-- The theorems at concrete states and inputs.
mod Traps
mod Registers
mod Devices
mod Accesses
mod Instructions
mod Programs
mod Trees
mod Virtio
mod Queues
mod Requests
use space_emu.Base.{ℕ, ◌^◌, ◌≢◌, ◌<◌, inl, inr, arith}
use space_emu.Base.Bits.{some_bit}
use space_emu.Cpu.{CpuState}
use space_emu.Regs.Trap.{first_set_bit}
use space_emu.Regs.Trap.Interrupt.{first_set_bit-IsFirst, IsFirst}
use space_emu.Regs.Valid.{IsValid}
use space_emu.Plic.Claim.{CountsTrailingZeros}
use space_emu.Space.{cpu_state_reset}
use space_emu.Space.Reachable.{cpu_state_reset-IsValid}

-- The processor in user mode, with the system call of that mode delegated.
abbrev pub user : CpuState
user = record cpu_state_reset { priv = 0; medeleg = 2 ^ 8; pc = 0x400 }

pub user-IsValid : IsValid user
user-IsValid =
    let v = cpu_state_reset-IsValid in
    record {
      mstatus_lt = v.mstatus_lt;
      fs_low = v.fs_low;
      fs_high = v.fs_high;
      uxl_known = v.uxl_known;
      fs_lt = v.fs_lt;
      frm_lt = v.frm_lt;
      fflags_lt = v.fflags_lt;
      priv_lt = omega arith;
      medeleg_lt = omega arith;
      mideleg_lt = v.mideleg_lt;
      mideleg_within = v.mideleg_within;
      mie_lt = v.mie_lt;
      mie_within = v.mie_within;
      mip_lt = v.mip_lt;
      mxl_known = v.mxl_known;
      satp_mode = v.satp_mode;
    }

-- A bit count for the interrupt controller, by a search from the lowest bit.
abbrev pub ctz32 : ℕ → ℕ
ctz32 a = first_set_bit 32 a 0

ctz32-IsFirst : (a : ℕ) → a ≢ 0 → a < 2 ^ 32 → IsFirst a 0 32 (ctz32 a)
ctz32-IsFirst a ne h = elim (some_bit 32 a h) [
  | inl e ↦ absurd (ne e)
  | inr (k, below, set) ↦ first_set_bit-IsFirst 32 a 0 k (omega arith) (omega arith) set
]

pub counts : CountsTrailingZeros ctz32
counts = record {
  lowest = λ a ne h. (ctz32-IsFirst a ne h).found;
  below = λ a j ne h p. (ctz32-IsFirst a ne h).first j (omega arith) p;
}
