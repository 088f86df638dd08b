-- ===== src/Instr/Loop.antt =====
-- `fetch_inst` and `machine_loop`: the timer before an instruction, what the console does, the
-- interrupts, and the instruction; and the loop of `main` around it.
use space_emu.Base.{ℕ, bit_and, ◌!=◌, if◌then◌else◌}
use space_emu.Base.{Option, none, some, List, [], ◌∷◌, Bool}
use space_emu.Base.Word.{add64}
use space_emu.Base.Bytes.{from_bytes}
use space_emu.Clint.{machine_get_sleep_duration}
use space_emu.Cpu.{CpuState}
use space_emu.Device.{Reply}
use space_emu.Instr.{settle}
use space_emu.Instr.Decode.{decode_inst, raise_pending}
use space_emu.Instr.Float.{Call}
use space_emu.Regs.Trap.{raise_interrupt}
use space_emu.Translate.Vaddr.{code_vaddr}

-- MAX_DELAY_TIME
abbrev pub max_delay_time : ℕ
max_delay_time = 10

module _ {M : Type 0} (read : CpuState × M → ℕ → ℕ → Reply (CpuState × M))
    (write : CpuState × M → ℕ → List ℕ → Reply (CpuState × M)) (softfp : Call → ℕ → ℕ × ℕ)
    (uninit : ℕ) where
  -- The word at the program counter, or the state after the trap of a refused fetch; `none` after
  -- a translation that C leaves undefined.
  unfoldable pub fetch_inst : CpuState → M → Option (CpuState × M × Option ℕ)
  unfolding settle raise_pending
  fetch_inst s m =
      let a = code_vaddr read write s (s, m) s.pc 4 in
      if a.ok
      then some (settle a, a.memory.1, some (from_bytes a.bytes))
      else if a.defined
      then some (raise_pending (settle a), a.memory.1, none)
      else none

  unfoldable pub count_cycle : Option (CpuState × M) → Option (CpuState × M)
  count_cycle none = none
  count_cycle (some (s, m)) = some (record s { cycles = add64 s.cycles 1 }, m)

  unfoldable pub run_fetched : Option (CpuState × M × Option ℕ) → Option (CpuState × M)
  unfolding count_cycle
  run_fetched none = none
  run_fetched (some (s, m, none)) = some (s, m)
  run_fetched (some (s, m, some inst)) = count_cycle (decode_inst read write softfp uninit s m inst)

  unfoldable pub run_ready : CpuState → M → Option (CpuState × M)
  unfolding run_fetched
  run_ready s m =
      let s' = record s { pending_exception = none } in
      if s'.power_down_flag then some (s', m) else run_fetched (fetch_inst s' m)

  -- From "check interrupts" on.
  unfoldable pub run_inst : CpuState → M → Option (CpuState × M)
  unfolding run_ready
  run_inst s m =
      let (taken, s') = raise_interrupt s in
      if bit_and s.mip s.mie != 0
      then (if taken then some (s', m) else run_ready s' m)
      else run_ready s m

  -- One call, in which `real` is the host's clock and `poll` is what the console does between the
  -- timer and the processor: the event of a new window size, and the keys that `select` reports,
  -- which go to the virtio console behind the bus.
  unfoldable pub machine_loop :
      (CpuState → M → CpuState × M) → CpuState → M → ℕ → Option (CpuState × M)
  unfolding run_inst
  machine_loop poll s m real =
      let (s', m') = poll (machine_get_sleep_duration s real max_delay_time).0 m in run_inst s' m'

-- What a call of `machine_loop` finds: the physical accesses to the items that are registered, the
-- console, and the host's clock.
pub record Round (M : Type 0) : Type 0 where
  pub read : CpuState × M → ℕ → ℕ → Reply (CpuState × M)
  pub write : CpuState × M → ℕ → List ℕ → Reply (CpuState × M)
  pub poll : CpuState → M → CpuState × M
  pub real : ℕ

-- `while(1) machine_loop()`, for the rounds of the list, as long as no device has exited; `none`
-- where C does not say what happens.
unfoldable pub run_loop :
    {M : Type 0}
    → (M → Bool)
    → (Call → ℕ → ℕ × ℕ)
    → ℕ
    → List (Round M)
    → CpuState
    → M
    → Option (CpuState × M)
unfolding machine_loop
run_loop exited softfp uninit [] s m = some (s, m)
run_loop exited softfp uninit (r ∷ rs) s m =
    if exited m
    then some (s, m)
    else elim (machine_loop r.read r.write softfp uninit r.poll s m r.real) [
      | none ↦ none
      | some x ↦ run_loop exited softfp uninit rs x.0 x.1
    ]
