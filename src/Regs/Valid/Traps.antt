-- ===== src/Regs/Valid/Traps.antt =====
-- Traps, interrupts and returns of regs.c and the well-formed states.
use space_emu.Base.{ℕ, ◌+◌, ◌^◌, ◌<◌, ◌≡◌, arith, bit_and, Bool, true, false}
use space_emu.Base.{if◌then◌else◌, ◌!=◌, inl, inr, Bool-cases}
use space_emu.Base.Word.{lnot, ◌>>>◌, ◌<<<◌}
use space_emu.Base.Bits.{has_bit, bit_and-lt, bit_and_mask}
use space_emu.Cpu.{CpuState}
use space_emu.Regs.Trap.{raise_exception, trap_to_machine, trap_to_supervisor, is_delegated}
use space_emu.Regs.Trap.{raise_interrupt}
use space_emu.Regs.Trap.{set_priv, handle_sret, handle_mret, machine_entry, supervisor_entry}
use space_emu.Regs.Trap.{mret_mstatus, sret_mstatus}
use space_emu.Regs.Trap.Entry.{has_bit-machine_entry, has_bit-mret_mstatus}
use space_emu.Regs.Trap.Entry.{has_bit-supervisor_entry, has_bit-sret_mstatus}
use space_emu.Regs.Trap.Supervisor.{is_delegated-priv}
use space_emu.Regs.Valid.{IsValid, HasWidth}
use space_emu.Regs.Valid.Fields.{words-IsValid}
use space_emu.Regs.Trap.{mode_mxl}
use space_emu.Regs.Trap.Interrupt.{Taken, raise_interrupt-Taken}

-- A word that may stand in `mstatus`.
record IsStatus (m : ℕ) : Type 0 where
  fits : m < 2 ^ 64
  low : has_bit m 13 ≡ false
  high : has_bit m 14 ≡ false
  width : HasWidth m

moved-IsValid :
    {s : CpuState} {mstatus priv xlen pc scause sepc stval mcause mepc mtval : ℕ}
    → IsValid s
    → IsStatus mstatus
    → priv < 4
    → IsValid (record s {
      mstatus = mstatus;
      priv = priv;
      xlen = xlen;
      pc = pc;
      scause = scause;
      sepc = sepc;
      stval = stval;
      mcause = mcause;
      mepc = mepc;
      mtval = mtval;
    })
moved-IsValid v m p = record {
  mstatus_lt = m.fits;
  fs_low = m.low;
  fs_high = m.high;
  uxl_known = m.width;
  fs_lt = v.fs_lt;
  frm_lt = v.frm_lt;
  fflags_lt = v.fflags_lt;
  priv_lt = p;
  medeleg_lt = v.medeleg_lt;
  mideleg_lt = v.mideleg_lt;
  mideleg_within = v.mideleg_within;
  mie_lt = v.mie_lt;
  mie_within = v.mie_within;
  mip_lt = v.mip_lt;
  mxl_known = v.mxl_known;
  satp_mode = v.satp_mode;
}

module _ (m : ℕ) (m_lt : m < 2 ^ 64) (low : has_bit m 13 ≡ false) (high : has_bit m 14 ≡ false)
    (width : HasWidth m) (p : ℕ) where
  machine_entry-IsStatus : p < 4 → IsStatus (machine_entry m p)
  machine_entry-IsStatus h = record {
    fits = unfold machine_entry in bit_and-lt 64 _ (lnot 64 (2 ^ 3)) (omega arith);
    low = ground (arith, has_bit-machine_entry m m_lt p h 13);
    high = ground (arith, has_bit-machine_entry m m_lt p h 14);
    width =
        ground
          (arith, width, has_bit-machine_entry m m_lt p h 32, has_bit-machine_entry m m_lt p h 33);
  }

  mret_mstatus-IsStatus : p < 4 → IsStatus (mret_mstatus m p)
  mret_mstatus-IsStatus h = record {
    fits = unfold mret_mstatus in bit_and-lt 64 _ (lnot 64 (3 <<< 11)) (omega arith);
    low = ground (arith, has_bit-mret_mstatus m m_lt p h 13);
    high = ground (arith, has_bit-mret_mstatus m m_lt p h 14);
    width =
        ground
          (arith, width, has_bit-mret_mstatus m m_lt p h 32, has_bit-mret_mstatus m m_lt p h 33);
  }

  supervisor_entry-IsStatus : p < 2 → IsStatus (supervisor_entry m p)
  supervisor_entry-IsStatus h = record {
    fits = unfold supervisor_entry in bit_and-lt 64 _ (lnot 64 (2 ^ 1)) (omega arith);
    low = ground (arith, has_bit-supervisor_entry m m_lt p h 13);
    high = ground (arith, has_bit-supervisor_entry m m_lt p h 14);
    width = ground (
      arith,
      width,
      has_bit-supervisor_entry m m_lt p h 32,
      has_bit-supervisor_entry m m_lt p h 33,
    );
  }

  sret_mstatus-IsStatus : p < 2 → IsStatus (sret_mstatus m p)
  sret_mstatus-IsStatus h = record {
    fits = unfold sret_mstatus in bit_and-lt 64 _ (lnot 64 (2 ^ 8)) (omega arith);
    low = ground (arith, has_bit-sret_mstatus m m_lt p h 13);
    high = ground (arith, has_bit-sret_mstatus m m_lt p h 14);
    width =
        ground
          (arith, width, has_bit-sret_mstatus m m_lt p h 32, has_bit-sret_mstatus m m_lt p h 33);
  }

kept-IsStatus : {s : CpuState} → IsValid s → IsStatus s.mstatus
kept-IsStatus v = record {
  fits = v.mstatus_lt;
  low = v.fs_low;
  high = v.fs_high;
  width = v.uxl_known;
}

set_priv-IsValid : {s : CpuState} (priv : ℕ) → priv < 4 → IsValid s → IsValid (set_priv s priv)
unfolding set_priv
set_priv-IsValid {s} priv h v =
    elim (s.priv != priv)
      as (λ b. IsValid (
        if b
        then record s { xlen = 1 <<< (4 + mode_mxl s.mstatus s.mxl priv); priv = priv }
        else s)) [ true ↦ moved-IsValid v (kept-IsStatus v) h | false ↦ v ]

module _ (s : CpuState) (v : IsValid s) where
  trap_to_machine-IsValid : (cause tval : ℕ) → IsValid (trap_to_machine s cause tval)
  unfolding trap_to_machine
  trap_to_machine-IsValid cause tval =
      let m =
        machine_entry-IsStatus s.mstatus v.mstatus_lt v.fs_low v.fs_high v.uxl_known s.priv
          v.priv_lt in
      words-IsValid (set_priv-IsValid 3 (omega arith) (moved-IsValid v m v.priv_lt))

  trap_to_supervisor-IsValid :
      (cause tval : ℕ) → s.priv < 2 → IsValid (trap_to_supervisor s cause tval)
  unfolding trap_to_supervisor
  trap_to_supervisor-IsValid cause tval h =
      let m =
        supervisor_entry-IsStatus s.mstatus v.mstatus_lt v.fs_low v.fs_high v.uxl_known s.priv h in
      words-IsValid (set_priv-IsValid 1 (omega arith) (moved-IsValid v m v.priv_lt))

  pub raise_exception-IsValid : (cause tval : ℕ) → IsValid (raise_exception s cause tval)
  unfolding raise_exception
  raise_exception-IsValid cause tval = elim (Bool-cases (is_delegated s cause)) [
    | inl d ↦ rw d (trap_to_supervisor-IsValid cause tval (is_delegated-priv s cause d))
    | inr d ↦ rw d (trap_to_machine-IsValid cause tval)
  ]

  pub raise_interrupt-IsValid : IsValid (raise_interrupt s).1
  raise_interrupt-IsValid = go (raise_interrupt-Taken s v)
    where
      go : {r : Bool × CpuState} → Taken s r → IsValid r.1
      go (Taken.idle none_set) = v
      go (Taken.taken irq below set first) = raise_exception-IsValid (irq + 2 ^ 31) 0

  pub handle_mret-IsValid : IsValid (handle_mret s)
  unfolding handle_mret
  handle_mret-IsValid =
      let p : bit_and (s.mstatus >>> 11) 3 < 4 = omega (arith, bit_and_mask 2 (s.mstatus >>> 11)) in
      let m = mret_mstatus-IsStatus s.mstatus v.mstatus_lt v.fs_low v.fs_high v.uxl_known _ p in
      words-IsValid (set_priv-IsValid _ p (moved-IsValid v m v.priv_lt))

  pub handle_sret-IsValid : IsValid (handle_sret s)
  unfolding handle_sret
  handle_sret-IsValid =
      let p : bit_and (s.mstatus >>> 8) 1 < 2 = omega (arith, bit_and_mask 1 (s.mstatus >>> 8)) in
      let m = sret_mstatus-IsStatus s.mstatus v.mstatus_lt v.fs_low v.fs_high v.uxl_known _ p in
      words-IsValid (set_priv-IsValid _ (omega (arith, p)) (moved-IsValid v m v.priv_lt))
