-- ===== src/Instr/Sound/Run.antt =====
-- An instruction and a round of the machine's loop, from a sound state.
use space_emu.Base.{ℕ, either, ◌!=◌, bit_and, Option, some, none, List}
use space_emu.Cpu.{CpuState}
use space_emu.Device.{Reply}
use space_emu.Instr.{Next, next_inst, next_c_inst, jump, error_process, exception, undefined}
use space_emu.Instr.{settle}
use space_emu.Instr.Decode.{decode_inst, finish_inst, raise_pending}
use space_emu.Instr.Float.{Call}
use space_emu.Instr.Keeps.{BusKeeps, EndsAt}
use space_emu.Instr.Keeps.Decode.{decode_case-Ends}
use space_emu.Instr.Loop.{fetch_inst, run_fetched, run_ready, run_inst, machine_loop, count_cycle}
use space_emu.Instr.Loop.{Round, run_loop}
use space_emu.Clint.{machine_get_sleep_duration}
use space_emu.Base.{List, [], ◌∷◌, Bool}
use space_emu.Translate.Keeps.{code_vaddr_keeps}
use space_emu.Translate.Vaddr.{code_vaddr}
use space_emu.Regs.Trap.{raise_exception, raise_interrupt}
use space_emu.Instr.Sound.{IsSound, KeepsFlags, free-IsValid, raise_exception-IsSound}
use space_emu.Instr.Sound.{raise_interrupt-IsSound, timer-IsSound, IsSound-Transfer}

-- A run that has ended: sound, if C says what it does.
abbrev pub Soundly : {M : Type 0} → Option (CpuState × M) → Type 0
Soundly none = Unit
Soundly (some (s, m)) = IsSound s

Soundly-then :
    {M : Type 0} (f : CpuState × M → Option (CpuState × M)) (o : Option (CpuState × M))
    → Soundly o
    → ((x : CpuState × M) → IsSound x.0 → Soundly (f x))
    → Soundly (elim o as (λ _. Option (CpuState × M)) [ none ↦ none | some x ↦ f x ])
Soundly-then f none h k = tt
Soundly-then f (some x) h k = k x h

pended :
    (s : CpuState) (e : Option ℕ) (tval : ℕ)
    → IsSound s
    → IsSound (record s { pending_exception = e; pending_tval = tval })
pended s e tval h = record {
  valid = free-IsValid h.valid h.valid.fs_lt h.valid.fflags_lt;
  x0 = h.x0;
}

raise_pending-IsSound : (s : CpuState) → IsSound s → IsSound (raise_pending s)
unfolding raise_pending
raise_pending-IsSound s h =
    elim s.pending_exception
      as (λ o.
        IsSound (elim o [ none ↦ s | some cause ↦ raise_exception s cause s.pending_tval ])) [
          | none ↦ h
          | some cause ↦ raise_exception-IsSound s cause s.pending_tval h
        ]

finish_inst-Soundly :
    {M : Type 0} (inst : ℕ) (s : CpuState) (m : M) (next : Next)
    → EndsAt IsSound IsSound next s
    → Soundly (finish_inst inst s m next)
unfolding finish_inst
finish_inst-Soundly inst s m next_inst h = record {
  valid = free-IsValid h.valid h.valid.fs_lt h.valid.fflags_lt;
  x0 = h.x0;
}
finish_inst-Soundly inst s m next_c_inst h = record {
  valid = free-IsValid h.valid h.valid.fs_lt h.valid.fflags_lt;
  x0 = h.x0;
}
finish_inst-Soundly inst s m jump h = h
finish_inst-Soundly inst s m error_process h = raise_pending-IsSound _ (pended s (some 2) inst h)
finish_inst-Soundly inst s m exception h = raise_pending-IsSound s h
finish_inst-Soundly inst s m undefined h = tt

module _ {M : Type 0} (read : CpuState × M → ℕ → ℕ → Reply (CpuState × M))
    (write : CpuState × M → ℕ → List ℕ → Reply (CpuState × M)) (softfp : Call → ℕ → ℕ × ℕ)
    (uninit : ℕ) (b : BusKeeps read write IsSound) (k : KeepsFlags softfp) where
  -- An instruction that starts in a sound state ends in one, whether it is done or raises an exception,
  -- if the physical accesses keep sound states and the floats keep their flags.
  pub decode_inst-Soundly :
      (s : CpuState) (m : M) (inst : ℕ)
      → IsSound s
      → Soundly (decode_inst read write softfp uninit s m inst)
  unfolding decode_inst
  decode_inst-Soundly s m inst h =
      finish_inst-Soundly inst _ _ _
        (decode_case-Ends (IsSound-Transfer softfp k) b uninit s m inst h)

  count_cycle-Soundly :
      (o : Option (CpuState × M)) → Soundly o → Soundly (count_cycle read write softfp uninit o)
  unfolding count_cycle
  count_cycle-Soundly none h = tt
  count_cycle-Soundly (some (s, m)) h = record {
    valid = free-IsValid h.valid h.valid.fs_lt h.valid.fflags_lt;
    x0 = h.x0;
  }

  abbrev Fetched : Option (CpuState × M × Option ℕ) → Type 0
  Fetched none = Unit
  Fetched (some (s, m, inst)) = IsSound s

  fetch_inst-Fetched :
      (s : CpuState) (m : M) → IsSound s → Fetched (fetch_inst read write softfp uninit s m)
  unfolding fetch_inst settle
  fetch_inst-Fetched s m h =
      let a = code_vaddr read write s (s, m) s.pc 4 in
      let kept =
        code_vaddr_keeps (λ (x : CpuState × M). IsSound x.0) read write b.keep_read b.keep_write s
          (s, m) s.pc 4 h in
      let settled = pended a.memory.0 a.cpu.pending_exception a.cpu.pending_tval kept in
      either Fetched a.ok settled (either Fetched a.defined (raise_pending-IsSound _ settled) tt)

  run_fetched-Soundly :
      (o : Option (CpuState × M × Option ℕ))
      → Fetched o
      → Soundly (run_fetched read write softfp uninit o)
  unfolding run_fetched
  run_fetched-Soundly none h = tt
  run_fetched-Soundly (some (s, m, none)) h = h
  run_fetched-Soundly (some (s, m, some inst)) h =
      count_cycle-Soundly _ (decode_inst-Soundly s m inst h)

  run_ready-Soundly :
      (s : CpuState) (m : M) → IsSound s → Soundly (run_ready read write softfp uninit s m)
  unfolding run_ready
  run_ready-Soundly s m h =
      let h' = pended s none s.pending_tval h in
      either (λ (o : Option (CpuState × M)). Soundly o) s.power_down_flag h'
        (run_fetched-Soundly _ (fetch_inst-Fetched _ m h'))

  run_inst-Soundly :
      (s : CpuState) (m : M) → IsSound s → Soundly (run_inst read write softfp uninit s m)
  unfolding run_inst
  run_inst-Soundly s m h =
      let (taken, s') = raise_interrupt s in
      let h' = raise_interrupt-IsSound s h in
      either (λ (o : Option (CpuState × M)). Soundly o) (bit_and s.mip s.mie != 0)
        (either (λ (o : Option (CpuState × M)). Soundly o) taken h' (run_ready-Soundly s' m h'))
        (run_ready-Soundly s m h)

  machine_loop-Soundly :
      (poll : CpuState → M → CpuState × M) (s : CpuState) (m : M) (real : ℕ)
      → ((s : CpuState) (m : M) → IsSound s → IsSound (poll s m).0)
      → IsSound s
      → Soundly (machine_loop read write softfp uninit poll s m real)
  unfolding machine_loop
  machine_loop-Soundly poll s m real p h =
      run_inst-Soundly _ (poll (machine_get_sleep_duration s real 10).0 m).1
        (p _ m (timer-IsSound s real 10 h))

-- A round whose devices and console keep a sound processor sound.
pub record IsSoundRound {M : Type 0} (r : Round M) : Type 0 where
  pub bus : BusKeeps r.read r.write IsSound
  pub polls : (s : CpuState) (m : M) → IsSound s → IsSound (r.poll s m).0

abbrev pub AllSound : {M : Type 0} → List (Round M) → Type 0
AllSound [] = Unit
AllSound (r ∷ rs) = IsSoundRound r × AllSound rs

-- With float functions that keep the flags within their five bits, and with whatever memory,
-- devices and console, those that answer differently in each round included, as long as their
-- accesses and events keep a sound processor sound: if C defines every step, any number of
-- rounds of the machine's loop from a sound state ends in one, that is, one in which the fields
-- of `IsValid` (`mstatus` with the width in UXL, FS, the rounding mode, the flags, the
-- privilege, the delegation and interrupt words, MXL and the mode of `satp`) are within their
-- bounds and the register x0 is 0.
pub run_loop-Soundly :
    {M : Type 0} (exited : M → Bool) (softfp : Call → ℕ → ℕ × ℕ) (uninit : ℕ)
    (rounds : List (Round M)) (s : CpuState) (m : M)
    → KeepsFlags softfp
    → AllSound rounds
    → IsSound s
    → Soundly (run_loop exited softfp uninit rounds s m)
unfolding run_loop
run_loop-Soundly exited softfp uninit [] s m k all h = h
run_loop-Soundly {M} exited softfp uninit (r ∷ rs) s m k all h =
    either (λ (o : Option (CpuState × M)). Soundly o) (exited m) h
      (Soundly-then (λ x. run_loop exited softfp uninit rs x.0 x.1) _
        (machine_loop-Soundly r.read r.write softfp uninit all.0.bus k r.poll s m r.real all.0.polls
          h)
        (λ x h'. run_loop-Soundly exited softfp uninit rs x.0 x.1 k all.1 h'))
