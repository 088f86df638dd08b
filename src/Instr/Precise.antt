-- ===== src/Instr/Precise.antt =====
-- Exceptions: what an instruction that raises one has done before.
use space_emu.Base.{ℕ, ◌≡◌, refl, Bool, true, false, Option, some, List, arith}
use space_emu.Cpu.{CpuState}
use space_emu.Device.{Reply}
use space_emu.Instr.{Next, next_inst, next_c_inst, jump, error_process, exception, undefined}
use space_emu.Instr.Decode.{decode_case, decode_inst, finish_inst, raise_pending}
use space_emu.Instr.Float.{Call}
use space_emu.Instr.Keeps.{Transfer, BusKeeps, EndsAt}
use space_emu.Instr.Keeps.Decode.{decode_case-Ends}

-- The program counter and the integer registers of `s0`.
abbrev pub IsBefore : CpuState → CpuState → Type 0
IsBefore s0 s = (s.pc ≡ s0.pc) × (s.regs ≡ s0.regs)

abbrev Anything : CpuState → Type 0
Anything s = Unit

IsBefore-Transfer :
    (softfp : Call → ℕ → ℕ × ℕ) (s0 : CpuState) → Transfer softfp (IsBefore s0) Anything
IsBefore-Transfer softfp s0 = record {
  enter = λ s h. tt;
  pend = λ s e tval h. h;
  to_pc = λ s pc h. tt;
  to_reg = λ s r value ne h. tt;
  to_fp = λ s fp h. tt;
  turn_on = λ s h. tt;
  flags = λ s call h. tt;
  reserve = λ s addr h. tt;
  sleep = λ s h. tt;
  csr = λ s t number val code e h. tt;
  sret = λ s h. tt;
  mret = λ s h. tt;
}

-- The case goes to ERROR_PROCESS, MMU_EXCEPTION or Exception.
abbrev pub raises : Next → Bool
raises error_process = true
raises exception = true
raises next = false

module _ {M : Type 0} (inst : ℕ) (s0 : CpuState) where
  -- The end of an instruction that raises an exception: nothing but the trap is left to do, in a
  -- state that still has the program counter and the integer registers.
  abbrev pub Trapped : Option (CpuState × M) → Type 0
  Trapped o = (u : CpuState) × (m : M) × (o ≡ some (raise_pending u, m)) × IsBefore s0 u

  finish_inst-Trapped :
      (s : CpuState) (m : M) (next : Next)
      → raises next ≡ true
      → EndsAt (IsBefore s0) Anything next s
      → Trapped (finish_inst inst s m next)
  unfolding finish_inst
  finish_inst-Trapped s m error_process e h =
      (record s { pending_exception = some 2; pending_tval = inst }, m, refl, h)
  finish_inst-Trapped s m exception e h = (s, m, refl, h)
  finish_inst-Trapped s m next_inst e h = absurd (ground (arith, e))
  finish_inst-Trapped s m next_c_inst e h = absurd (ground (arith, e))
  finish_inst-Trapped s m jump e h = absurd (ground (arith, e))
  finish_inst-Trapped s m undefined e h = absurd (ground (arith, e))

-- If the physical accesses leave the program counter and the integer registers alone, then an
-- instruction that raises an exception has not changed them when the trap is entered.
pub decode_inst-Trapped :
    {M : Type 0} (read : CpuState × M → ℕ → ℕ → Reply (CpuState × M))
    (write : CpuState × M → ℕ → List ℕ → Reply (CpuState × M)) (softfp : Call → ℕ → ℕ × ℕ)
    (uninit : ℕ) (s : CpuState) (m : M) (inst : ℕ)
    → BusKeeps read write (IsBefore s)
    → raises (decode_case read write softfp uninit s m inst).next ≡ true
    → Trapped inst s (decode_inst read write softfp uninit s m inst)
unfolding decode_inst
decode_inst-Trapped read write softfp uninit s m inst b e =
    finish_inst-Trapped inst s _ _ _ e
      (decode_case-Ends (IsBefore-Transfer softfp s) b uninit s m inst (refl, refl))
