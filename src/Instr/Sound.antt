-- ===== src/Instr/Sound.antt =====
-- The states that instructions keep: well-formed ones in which x0 is 0.
pub mod Run
use space_emu.Base.{ℕ, ◌≡◌, ◌<◌, ◌^◌, ◌+◌, refl, arith, Bool, either, switch_all, ◌!=◌, Option}
use space_emu.Base.{some, none, ◌⊎◌, inl, inr, ◌∙◌, ap}
use mathlib.Core.Path.{subst}
use space_emu.Clint.{machine_get_sleep_duration}
use space_emu.Cpu.{CpuState, set_mip, mip_mtip}
use space_emu.Instr.{set_reg}
use space_emu.Instr.Float.{Call}
use space_emu.Instr.Keeps.{Transfer}
use space_emu.Space.Reachable.{timer_cases, timer-IsValid}
use space_emu.Regs.Csr.Write.{csr_write, write_machine, write_supervisor, write_misa, set_mxl}
use space_emu.Regs.Csr.Write.{set_frm, allows_mxl}
use space_emu.Regs.Status.{set_mstatus}
use space_emu.Regs.Trap.{raise_exception, raise_interrupt, trap_to_machine, trap_to_supervisor}
use space_emu.Regs.Trap.{set_priv, is_delegated, handle_mret, handle_sret}
use space_emu.Regs.Trap.Interrupt.{Taken, raise_interrupt-Taken}
use space_emu.Regs.Valid.{IsValid}
use space_emu.Regs.Valid.Traps.{raise_exception-IsValid, handle_mret-IsValid, handle_sret-IsValid}
use space_emu.Regs.Valid.Writes.{csr_write-IsValid}

-- The library keeps the flags within their five bits.
pub record KeepsFlags (softfp : Call → ℕ → ℕ × ℕ) : Type 0 where
  pub flags_lt : (call : Call) (flags : ℕ) → flags < 32 → (softfp call flags).1 < 32

pub record IsSound (s : CpuState) : Type 0 where
  pub valid : IsValid s
  pub x0 : s.regs 0 ≡ 0

-- The fields of the processor that `IsValid` does not speak of and instructions change.
pub free-IsValid :
    {s : CpuState} {pc pending_tval load_res cycles fs fflags : ℕ} {regs fp_reg : ℕ → ℕ}
    {pending_exception : Option ℕ} {power_down_flag : Bool}
    → IsValid s
    → fs < 4
    → fflags < 32
    → IsValid (record s {
      pc = pc;
      pending_tval = pending_tval;
      load_res = load_res;
      cycles = cycles;
      regs = regs;
      fp_reg = fp_reg;
      fs = fs;
      fflags = fflags;
      pending_exception = pending_exception;
      power_down_flag = power_down_flag;
    })
free-IsValid v f g = record {
  mstatus_lt = v.mstatus_lt;
  fs_low = v.fs_low;
  fs_high = v.fs_high;
  uxl_known = v.uxl_known;
  fs_lt = f;
  frm_lt = v.frm_lt;
  fflags_lt = g;
  priv_lt = v.priv_lt;
  medeleg_lt = v.medeleg_lt;
  mideleg_lt = v.mideleg_lt;
  mideleg_within = v.mideleg_within;
  mie_lt = v.mie_lt;
  mie_within = v.mie_within;
  mip_lt = v.mip_lt;
  mxl_known = v.mxl_known;
  satp_mode = v.satp_mode;
}

-- The same registers after a write to a control register, if it is accepted.
abbrev SameRegs : CpuState → Option (ℕ × CpuState) → Type 0
SameRegs s none = Unit
SameRegs s (some (code, t)) = t.regs ≡ s.regs

module _ (s : CpuState) (csr val : ℕ) where
  abbrev Same : Option (ℕ × CpuState) → Type 0
  Same o = SameRegs s o

  write_misa-Same : Same (write_misa s val)
  unfolding write_misa set_mxl
  write_misa-Same = either Same (allows_mxl s val) refl refl

  write_machine-Same : Same (write_machine s csr val)
  unfolding write_machine set_mstatus
  write_machine-Same =
      switch_all Same csr _
        (
          refl,
          (
            write_misa-Same,
            (refl, (refl, (refl, (refl, (refl, (refl, (refl, (refl, (refl, (refl, tt)))))))))),
          ),
        )
        tt

  write_supervisor-Same : Same (write_supervisor s csr val)
  unfolding write_supervisor set_mstatus
  write_supervisor-Same =
      switch_all Same csr _
        (refl, (refl, (refl, (refl, (refl, (refl, (refl, (refl, (refl, (refl, tt))))))))))
        write_machine-Same

  csr_write-Same : Same (csr_write s csr val)
  unfolding csr_write set_frm
  csr_write-Same = switch_all Same csr _ (refl, (refl, (refl, tt))) write_supervisor-Same

set_priv-regs : (s : CpuState) (priv : ℕ) → (set_priv s priv).regs ≡ s.regs
unfolding set_priv
set_priv-regs s priv = either (λ (t : CpuState). t.regs ≡ s.regs) (s.priv != priv) refl refl

raise_exception-regs :
    (s : CpuState) (cause tval : ℕ) → (raise_exception s cause tval).regs ≡ s.regs
unfolding raise_exception trap_to_machine trap_to_supervisor
raise_exception-regs s cause tval =
    either (λ (t : CpuState). t.regs ≡ s.regs) (is_delegated s cause) (set_priv-regs _ 1)
      (set_priv-regs _ 3)

handle_mret-regs : (s : CpuState) → (handle_mret s).regs ≡ s.regs
unfolding handle_mret
handle_mret-regs s = set_priv-regs _ _

handle_sret-regs : (s : CpuState) → (handle_sret s).regs ≡ s.regs
unfolding handle_sret
handle_sret-regs s = set_priv-regs _ _

x0_kept : (s t : CpuState) → t.regs ≡ s.regs → s.regs 0 ≡ 0 → t.regs 0 ≡ 0
x0_kept s t e h = ap (λ f. f 0) e ∙ h

pub raise_exception-IsSound :
    (s : CpuState) (cause tval : ℕ) → IsSound s → IsSound (raise_exception s cause tval)
raise_exception-IsSound s cause tval h = record {
  valid = raise_exception-IsValid s h.valid cause tval;
  x0 = x0_kept s (raise_exception s cause tval) (raise_exception-regs s cause tval) h.x0;
}

pub raise_interrupt-IsSound : (s : CpuState) → IsSound s → IsSound (raise_interrupt s).1
raise_interrupt-IsSound s h = go (raise_interrupt-Taken s h.valid)
  where
    go : {r : Bool × CpuState} → Taken s r → IsSound r.1
    go (Taken.idle none_set) = h
    go (Taken.taken irq below set first) = raise_exception-IsSound s (irq + 2 ^ 31) 0 h

pub timer-IsSound :
    (s : CpuState) (real delay : ℕ)
    → IsSound s
    → IsSound (machine_get_sleep_duration s real delay).0
timer-IsSound s real delay h = record {
  valid = timer-IsValid s real delay h.valid;
  x0 =
      x0_kept s (machine_get_sleep_duration s real delay).0 (regs_of (timer_cases s real delay))
        h.x0;
}
  where
    regs_of : {t : CpuState} → (t ≡ s) ⊎ (t ≡ set_mip s mip_mtip) → t.regs ≡ s.regs
    regs_of (inl e) = ap (λ u. u.regs) e
    regs_of (inr e) = ap (λ u. u.regs) e ∙ (unfold set_mip in refl)

-- Every update of an instruction keeps a sound state sound.
pub IsSound-Transfer :
    (softfp : Call → ℕ → ℕ × ℕ) → KeepsFlags softfp → Transfer softfp IsSound IsSound
IsSound-Transfer softfp k = record {
  enter = λ s h. h;
  pend = λ s e tval h. record {
    valid = free-IsValid h.valid h.valid.fs_lt h.valid.fflags_lt;
    x0 = h.x0;
  };
  to_pc =
      λ s pc h. record { valid = free-IsValid h.valid h.valid.fs_lt h.valid.fflags_lt; x0 = h.x0 };
  to_reg = λ s r value ne h. record {
    valid = unfold set_reg in free-IsValid h.valid h.valid.fs_lt h.valid.fflags_lt;
    x0 = unfold set_reg in ground (arith, ne, h.x0);
  };
  to_fp =
      λ s fp h. record { valid = free-IsValid h.valid h.valid.fs_lt h.valid.fflags_lt; x0 = h.x0 };
  turn_on =
      λ s h. record { valid = free-IsValid h.valid (omega arith) h.valid.fflags_lt; x0 = h.x0 };
  flags = λ s call h. record {
    valid = free-IsValid h.valid h.valid.fs_lt (k.flags_lt call s.fflags h.valid.fflags_lt);
    x0 = h.x0;
  };
  reserve = λ s addr h. record {
    valid = free-IsValid h.valid h.valid.fs_lt h.valid.fflags_lt;
    x0 = h.x0;
  };
  sleep = λ s h. record { valid = free-IsValid h.valid h.valid.fs_lt h.valid.fflags_lt; x0 = h.x0 };
  csr = λ s t number val code e h. record {
    valid = csr_write-IsValid number val h.valid e;
    x0 = x0_kept s t (subst (SameRegs s) e (csr_write-Same s number val)) h.x0;
  };
  sret = λ s h. record {
    valid = handle_sret-IsValid s h.valid;
    x0 = x0_kept s (handle_sret s) (handle_sret-regs s) h.x0;
  };
  mret = λ s h. record {
    valid = handle_mret-IsValid s h.valid;
    x0 = x0_kept s (handle_mret s) (handle_mret-regs s) h.x0;
  };
}
