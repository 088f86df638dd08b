-- ===== src/Space/Reachable.antt =====
-- The states that the processor reaches from its reset.
use space_emu.Base.{ℕ, ◌%◌, ◌⊎◌, ltb, ◌+◌, ◌-◌, ◌^◌, ◌<◌, ◌≡◌, refl, arith, bit_or, Bool, true}
use space_emu.Base.{◌!=◌}
use space_emu.Base.{List, [], ◌∷◌, Option, none, some, inl, inr, Bool-cases}
use space_emu.Base.Word.{lnot}
use space_emu.Base.Bits.{bit_and-lt, bit_or-lt, has_bit, has_bit_zero}
use space_emu.Cpu.{CpuState, set_mip, reset_mip, mip_mtip, mip_meip, mip_seip}
use space_emu.Regs.Csr.Write.{csr_write}
use space_emu.Regs.Status.{get_base_from_xlen}
use space_emu.Regs.Trap.{raise_exception, raise_interrupt, handle_mret, handle_sret}
use space_emu.Regs.Valid.{IsValid}
use space_emu.Regs.Valid.Traps.{raise_exception-IsValid, raise_interrupt-IsValid}
use space_emu.Regs.Valid.Traps.{handle_mret-IsValid, handle_sret-IsValid}
use space_emu.Regs.Valid.Writes.{csr_write-IsValid}
use space_emu.Plic.{open_irqs, update_mip, plic_set_irq, plic_complete}
use space_emu.Clint.{machine_get_sleep_duration}
use space_emu.Space.{cpu_state_reset}

-- What reaches the privileged state: a write to a register, a trap, an interrupt, a return, and a
-- line of the timer or of the interrupt controller.
pub data Event : Type 0 where
  write_csr : ℕ → ℕ → Event
  trap : ℕ → ℕ → Event
  poll : Event
  mret : Event
  sret : Event
  timer : ℕ → ℕ → Event
  line : ℕ → Bool → Event
  complete : ℕ → Event

abbrev accepted : CpuState → Option (ℕ × CpuState) → CpuState
accepted s none = s
accepted s (some (code, t)) = t

unfoldable pub step : CpuState → Event → CpuState
step s (write_csr csr val) = accepted s (csr_write s csr val)
step s (trap cause tval) = raise_exception s cause tval
step s poll = (raise_interrupt s).1
step s mret = handle_mret s
step s sret = handle_sret s
step s (timer real delay) = (machine_get_sleep_duration s real delay).0
step s (line n flag) = plic_set_irq s n flag
step s (complete value) = plic_complete s value

unfoldable pub reached : CpuState → List Event → CpuState
reached s [] = s
reached s (event ∷ events) = reached (step s event) events

-- The interrupt lines change four fields only.
lines-IsValid :
    (s : CpuState) (m pending served : ℕ) (down : Bool)
    → m < 2 ^ 32
    → IsValid s
    → IsValid (record s {
      mip = m;
      plic_pending_irq = pending;
      plic_served_irq = served;
      power_down_flag = down;
    })
lines-IsValid s m pending served down h v = record {
  mstatus_lt = v.mstatus_lt;
  fs_low = v.fs_low;
  fs_high = v.fs_high;
  uxl_known = v.uxl_known;
  fs_lt = v.fs_lt;
  frm_lt = v.frm_lt;
  fflags_lt = v.fflags_lt;
  priv_lt = v.priv_lt;
  medeleg_lt = v.medeleg_lt;
  mideleg_lt = v.mideleg_lt;
  mideleg_within = v.mideleg_within;
  mie_lt = v.mie_lt;
  mie_within = v.mie_within;
  mip_lt = h;
  mxl_known = v.mxl_known;
  satp_mode = v.satp_mode;
}

set_mip-IsValid : (s : CpuState) (mask : ℕ) → mask < 2 ^ 32 → IsValid s → IsValid (set_mip s mask)
unfolding set_mip
set_mip-IsValid s mask h v = lines-IsValid s _ _ _ _ (bit_or-lt 32 s.mip mask v.mip_lt h) v

reset_mip-IsValid : (s : CpuState) (mask : ℕ) → IsValid s → IsValid (reset_mip s mask)
unfolding reset_mip
reset_mip-IsValid s mask v =
    lines-IsValid s _ _ _ _ (bit_and-lt 32 s.mip (lnot 32 mask) (omega arith)) v

update_mip-IsValid : (s : CpuState) → IsValid s → IsValid (update_mip s)
unfolding update_mip
update_mip-IsValid s v = elim (Bool-cases (open_irqs s != 0)) [
  | inl e ↦ rw e (set_mip-IsValid s (bit_or mip_meip mip_seip) (omega arith) v)
  | inr e ↦ rw e (reset_mip-IsValid s (bit_or mip_meip mip_seip) v)
]

plic_set_irq-IsValid :
    (s : CpuState) (n : ℕ) (flag : Bool) → IsValid s → IsValid (plic_set_irq s n flag)
unfolding plic_set_irq
plic_set_irq-IsValid s n flag v =
    update_mip-IsValid _ (lines-IsValid s s.mip _ s.plic_served_irq s.power_down_flag v.mip_lt v)

plic_complete-IsValid : (s : CpuState) (value : ℕ) → IsValid s → IsValid (plic_complete s value)
unfolding plic_complete
plic_complete-IsValid s value v = elim (Bool-cases (ltb ((value + 2 ^ 32 - 1) % 2 ^ 32) 32)) [
  | inl e ↦ rw e (
      update_mip-IsValid _
        (lines-IsValid s s.mip s.plic_pending_irq _ s.power_down_flag v.mip_lt v))
  | inr e ↦ rw e v
]

pub timer_cases :
    (s : CpuState) (real delay : ℕ)
    → ((machine_get_sleep_duration s real delay).0 ≡ s)
      ⊎ ((machine_get_sleep_duration s real delay).0 ≡ set_mip s mip_mtip)
unfolding machine_get_sleep_duration
timer_cases s real delay = ground arith

pub timer-IsValid :
    (s : CpuState) (real delay : ℕ)
    → IsValid s
    → IsValid (machine_get_sleep_duration s real delay).0
timer-IsValid s real delay v = elim (timer_cases s real delay) [
  | inl e ↦ rw e v
  | inr e ↦ rw e (set_mip-IsValid s mip_mtip (omega arith) v)
]

step-IsValid : (s : CpuState) (event : Event) → IsValid s → IsValid (step s event)
unfolding step
step-IsValid s (write_csr csr val) v = go (csr_write s csr val) refl
  where
    go : (r : Option (ℕ × CpuState)) → csr_write s csr val ≡ r → IsValid (accepted s r)
    go none e = v
    go (some (code, t)) e = csr_write-IsValid csr val v e
step-IsValid s (trap cause tval) v = raise_exception-IsValid s v cause tval
step-IsValid s poll v = raise_interrupt-IsValid s v
step-IsValid s mret v = handle_mret-IsValid s v
step-IsValid s sret v = handle_sret-IsValid s v
step-IsValid s (timer real delay) v = timer-IsValid s real delay v
step-IsValid s (line n flag) v = plic_set_irq-IsValid s n flag v
step-IsValid s (complete value) v = plic_complete-IsValid s value v

reached_from : (s : CpuState) (events : List Event) → IsValid s → IsValid (reached s events)
unfolding reached
reached_from s [] v = v
reached_from s (event ∷ events) v = reached_from (step s event) events (step-IsValid s event v)

no_bit : (i : ℕ) (P : Type 0) → has_bit 0 i ≡ true → P
no_bit i P h = absurd (ground (arith, has_bit_zero i))

pub cpu_state_reset-IsValid : IsValid cpu_state_reset
unfolding cpu_state_reset get_base_from_xlen has_bit
cpu_state_reset-IsValid = record {
  mstatus_lt = omega arith;
  fs_low = refl;
  fs_high = refl;
  uxl_known = refl;
  fs_lt = omega arith;
  frm_lt = omega arith;
  fflags_lt = omega arith;
  priv_lt = omega arith;
  medeleg_lt = omega arith;
  mideleg_lt = omega arith;
  mideleg_within = λ i h. no_bit i _ h;
  mie_lt = omega arith;
  mie_within = λ i h. no_bit i _ h;
  mip_lt = omega arith;
  mxl_known = (omega arith, omega arith);
  satp_mode = inl refl;
}

-- In every state that the processor reaches from its reset, by writes to registers, traps,
-- interrupts, returns, completions and the lines of the timer and the interrupt controller, in
-- any order, the fields of `IsValid` (`mstatus` with the width in UXL, FS, the rounding mode,
-- the flags, the privilege, the delegation and interrupt words, MXL and the mode of `satp`) are
-- within their bounds.
pub reached-IsValid : (events : List Event) → IsValid (reached cpu_state_reset events)
reached-IsValid events = reached_from cpu_state_reset events cpu_state_reset-IsValid
