-- ===== src/Instr.antt =====
-- instructions.c: `decode_inst`, one instruction of the processor. Memory and the devices are
-- reached by the physical accesses `read` and `write`; their state beside the processor's is `M`,
-- and since the devices keep the processor's state by a pointer, an access takes and returns both.
pub mod Fields
pub mod Control
pub mod LoadStore
pub mod Amo
pub mod System
pub mod Compressed
pub mod Float
pub mod Decode
pub mod Loop
pub mod Keeps
pub mod Sound
pub mod Precise
pub mod Signs
pub mod Immediates
use space_emu.Base.{ℕ, ◌==◌, if◌then◌else◌}
use space_emu.Base.{Option, none, some, List}
use space_emu.Base.Bytes.{to_bytes, from_bytes}
use space_emu.Cpu.{CpuState}
use space_emu.Device.{Reply}
use space_emu.Translate.Vaddr.{Access, read_vaddr, write_vaddr}

-- Where a case of the `switch` goes: by `break` to `pc += 4`, to C_NEXT_INSN, to DONE_INTERP or
-- JUMP, to ERROR_PROCESS, or to MMU_EXCEPTION or Exception. After a translation that C leaves
-- undefined nothing is said any more.
pub data Next : Type 0 where
  next_inst : Next
  next_c_inst : Next
  jump : Next
  error_process : Next
  exception : Next
  undefined : Next

pub record Result (M : Type 0) : Type 0 where
  pub cpu : CpuState
  pub memory : M
  pub next : Next

abbrev pub result : {M : Type 0} → Next → CpuState → M → Result M
result next s m = record { cpu = s; memory = m; next = next }

abbrev pub illegal : {M : Type 0} → CpuState → M → Result M
illegal s m = result error_process s m

-- `cpu_state.regs[r] = value`, and the same under `if (r != 0)`.
unfoldable pub set_reg : CpuState → ℕ → ℕ → CpuState
set_reg s r value = record s { regs = λ i. if i == r then value else s.regs i }

unfoldable pub write_reg : CpuState → ℕ → ℕ → CpuState
write_reg s r value = if r == 0 then s else set_reg s r value

-- A value that the instruction stores in its destination, if it has one; `none` is the jump to
-- ERROR_PROCESS.
unfoldable pub store_value : {M : Type 0} → Next → ℕ → CpuState → M → Option ℕ → Result M
store_value next rd s m none = illegal s m
store_value next rd s m (some value) = result next (write_reg s rd value) m

-- What an access at a virtual address leaves of the processor: the devices' part of it is with the
-- memory, and the access records an exception besides.
unfoldable pub settle : {M : Type 0} → Access (CpuState × M) → CpuState
settle a = record (a.memory.0) {
  pending_exception = a.cpu.pending_exception;
  pending_tval = a.cpu.pending_tval;
}

-- After an access: MMU_EXCEPTION if it was refused, and else what follows.
unfoldable pub after_access :
    {M : Type 0} → Access (CpuState × M) → (CpuState → M → List ℕ → Result M) → Result M
unfolding settle
after_access a then_run =
    if a.ok
    then then_run (settle a) a.memory.1 a.bytes
    else if a.defined
    then result exception (settle a) a.memory.1
    else result undefined (settle a) a.memory.1

module _ {M : Type 0} (read : CpuState × M → ℕ → ℕ → Reply (CpuState × M))
    (write : CpuState × M → ℕ → List ℕ → Reply (CpuState × M)) where
  -- A read of `size` bytes into a local variable.
  unfoldable pub load : CpuState → M → ℕ → ℕ → (CpuState → M → ℕ → Result M) → Result M
  unfolding after_access
  load s m addr size then_run =
      after_access (read_vaddr read write s (s, m) addr size)
        (λ s' m' bytes. then_run s' m' (from_bytes bytes))

  -- A write of the `size` low bytes of a variable or a register.
  unfoldable pub store : CpuState → M → ℕ → ℕ → ℕ → (CpuState → M → Result M) → Result M
  unfolding after_access
  store s m addr size value then_run =
      after_access (write_vaddr read write s (s, m) addr (to_bytes size value))
        (λ s' m' bytes. then_run s' m')
