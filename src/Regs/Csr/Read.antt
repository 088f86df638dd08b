-- ===== src/Regs/Csr/Read.antt =====
-- `csr_read` of regs.c: `none` is the return of -1. The function changes nothing in the state.
use space_emu.Base.{ℕ, ◌-◌, ◌^◌, bit_and, bit_or, Bool, ◌&&◌}
use space_emu.Base.{switch, [], ◌∷◌, ◌==◌, ◌!=◌, ltb, if◌then◌else◌, Option, some, none}
use space_emu.Base.Word.{u64, ◌<<<◌, ◌>>>◌}
use space_emu.Cpu.{CpuState, priv_s, priv_m}
use space_emu.Regs.Status.{get_mstatus, sstatus_mask}

module _ (uninit : ℕ) (s : CpuState) (csr : ℕ) where
  -- The word by which a user counter is guarded. The code leaves the variable unset in machine
  -- mode: `uninit` stands for whatever the stack holds there.
  unfoldable pub counter_enable : ℕ
  counter_enable =
      if ltb s.priv priv_m
      then (if ltb s.priv priv_s then s.scounteren else s.mcounteren)
      else uninit

  -- A counter is read if its enable bit is set.
  unfoldable pub read_counter : ℕ → Option ℕ
  unfolding counter_enable
  read_counter value =
      if bit_and (counter_enable >>> bit_and csr 0xf) 1 == 0 then none else some value

  -- The machine-level registers, from 0x300 on, and the refusal of what is left.
  unfoldable pub read_machine : Option ℕ
  read_machine =
      switch csr
        ((0x300, some (get_mstatus s (2 ^ 64 - 1)))
          ∷ (0x301, some (bit_or s.misa (u64 (s.mxl <<< (s.xlen - 2)))))
          ∷ (0x302, some s.medeleg)
          ∷ (0x303, some s.mideleg)
          ∷ (0x304, some s.mie)
          ∷ (0x305, some s.mtvec)
          ∷ (0x306, some s.mcounteren)
          ∷ (0x340, some s.mscratch)
          ∷ (0x341, some s.mepc)
          ∷ (0x342, some s.mcause)
          ∷ (0x343, some s.mtval)
          ∷ (0x344, some s.mip)
          ∷ (0xb00, some s.cycles)
          ∷ (0xb02, some s.cycles)
          ∷ (0xb80, if s.xlen != 32 then none else some (s.cycles >>> 32))
          ∷ (0xb82, if s.xlen != 32 then none else some (s.cycles >>> 32))
          ∷ (0xf11, some 0)
          ∷ (0xf12, some 0)
          ∷ (0xf13, some 0)
          ∷ (0xf14, some s.mhartid)
          ∷ [])
        none

  -- The supervisor-level registers.
  unfoldable pub read_supervisor : Option ℕ
  unfolding read_machine
  read_supervisor =
      switch csr
        ((0x100, some (get_mstatus s sstatus_mask))
          ∷ (0x104, some (bit_and s.mie s.mideleg))
          ∷ (0x105, some s.stvec)
          ∷ (0x106, some s.scounteren)
          ∷ (0x140, some s.sscratch)
          ∷ (0x141, some s.sepc)
          ∷ (0x142, some s.scause)
          ∷ (0x143, some s.stval)
          ∷ (0x144, some (bit_and s.mip s.mideleg))
          ∷ (0x180, some s.satp)
          ∷ [])
        read_machine

  -- The float registers, which need the unit to be on, and the user counters.
  unfoldable pub read_user : Option ℕ
  unfolding read_counter read_supervisor
  read_user =
      switch csr
        ((0x001, if s.fs == 0 then none else some s.fflags)
          ∷ (0x002, if s.fs == 0 then none else some s.frm)
          ∷ (0x003, if s.fs == 0 then none else some (bit_or s.fflags (s.frm <<< 5)))
          ∷ (0xc00, read_counter s.cycles)
          ∷ (0xc02, read_counter s.cycles)
          ∷ (0xc80, if s.xlen != 32 then none else read_counter (s.cycles >>> 32))
          ∷ (0xc82, if s.xlen != 32 then none else read_counter (s.cycles >>> 32))
          ∷ [])
        read_supervisor

  -- `will_write` says that the instruction goes on to write the register.
  unfoldable pub csr_read : Bool → Option ℕ
  unfolding read_user
  csr_read will_write =
      if bit_and csr 0xc00 == 0xc00 && will_write
      then none
      else if ltb s.priv (bit_and (csr >>> 8) 3)
      then none
      else read_user
