-- ===== src/Instr/Keeps.antt =====
-- What an instruction keeps: a property `I` of the states up to its end, where an exception may
-- still be raised, and a property `F` of the states that it leaves when it is done.
pub mod Control
pub mod LoadStore
pub mod System
pub mod Compressed
pub mod Float
pub mod Decode
use space_emu.Base.{ℕ, ◌≡◌, ◌≢◌, true, Bool-cases, inl, inr, either, ◌==◌, arith, Option, some}
use space_emu.Base.{none, List}
use space_emu.Base.Bytes.{to_bytes, from_bytes}
use space_emu.Cpu.{CpuState}
use space_emu.Device.{Reply}
use space_emu.Instr.{Next, next_inst, next_c_inst, jump, error_process, exception, undefined}
use space_emu.Instr.{Result, set_reg, write_reg, store_value, settle, after_access, load, store}
use space_emu.Instr.Float.{Call}
use space_emu.Regs.Csr.Write.{csr_write}
use space_emu.Regs.Trap.{handle_mret, handle_sret}
use space_emu.Translate.Keeps.{read_vaddr_keeps, write_vaddr_keeps}
use space_emu.Translate.Vaddr.{Access, read_vaddr, write_vaddr}

-- `F` holds of what `I` holds of, and the updates by which an instruction ends keep `F`; recording
-- an exception keeps `I`.
pub record Transfer (softfp : Call → ℕ → ℕ × ℕ) (I F : CpuState → Type 0) : Type 0 where
  pub enter : (s : CpuState) → I s → F s
  pub pend :
      (s : CpuState) (e : Option ℕ) (tval : ℕ)
      → I s
      → I (record s { pending_exception = e; pending_tval = tval })
  pub to_pc : (s : CpuState) (pc : ℕ) → F s → F (record s { pc = pc })
  pub to_reg : (s : CpuState) (r value : ℕ) → r ≢ 0 → F s → F (set_reg s r value)
  pub to_fp : (s : CpuState) (fp : ℕ → ℕ) → F s → F (record s { fp_reg = fp })
  pub turn_on : (s : CpuState) → F s → F (record s { fs = 3 })
  pub flags :
      (s : CpuState) (call : Call) → F s → F (record s { fflags = (softfp call s.fflags).1 })
  pub reserve : (s : CpuState) (addr : ℕ) → F s → F (record s { load_res = addr })
  pub sleep : (s : CpuState) → F s → F (record s { power_down_flag = true })
  pub csr : (s t : CpuState) (csr val code : ℕ) → csr_write s csr val ≡ some (code, t) → F s → F t
  pub sret : (s : CpuState) → F s → F (handle_sret s)
  pub mret : (s : CpuState) → F s → F (handle_mret s)

-- The physical accesses keep `I`.
pub record BusKeeps {M : Type 0} (read : CpuState × M → ℕ → ℕ → Reply (CpuState × M))
    (write : CpuState × M → ℕ → List ℕ → Reply (CpuState × M)) (I : CpuState → Type 0)
    : Type 0 where
  pub keep_read : (x : CpuState × M) (a n : ℕ) → I x.0 → I (read x a n).state.0
  pub keep_write : (x : CpuState × M) (a : ℕ) (bs : List ℕ) → I x.0 → I (write x a bs).state.0

module _ (I F : CpuState → Type 0) where
  abbrev pub EndsAt : Next → CpuState → Type 0
  EndsAt next_inst s = F s
  EndsAt next_c_inst s = F s
  EndsAt jump s = F s
  EndsAt error_process s = I s
  EndsAt exception s = I s
  EndsAt undefined s = Unit

  -- The result of a case: done with `F`, or about to raise an exception with `I`.
  abbrev pub Ends : {M : Type 0} → Result M → Type 0
  Ends r = EndsAt r.next r.cpu

module _ {M : Type 0} {read : CpuState × M → ℕ → ℕ → Reply (CpuState × M)}
    {write : CpuState × M → ℕ → List ℕ → Reply (CpuState × M)} {softfp : Call → ℕ → ℕ × ℕ}
    {I F : CpuState → Type 0} (t : Transfer softfp I F) (b : BusKeeps read write I) where
  after_access-Ends :
      (a : Access (CpuState × M)) (then_run : CpuState → M → List ℕ → Result M)
      → I a.memory.0
      → ((s : CpuState) (m : M) (bytes : List ℕ) → I s → Ends I F (then_run s m bytes))
      → Ends I F (after_access a then_run)
  unfolding after_access settle
  after_access-Ends a then_run i k =
      let settled = t.pend a.memory.0 a.cpu.pending_exception a.cpu.pending_tval i in
      either (λ (r : Result M). Ends I F r) a.ok (k (settle a) a.memory.1 a.bytes settled)
        (either (λ (r : Result M). Ends I F r) a.defined settled tt)

  pub load-Ends :
      (s : CpuState) (m : M) (addr size : ℕ) (then_run : CpuState → M → ℕ → Result M)
      → I s
      → ((s' : CpuState) (m' : M) (value : ℕ) → I s' → Ends I F (then_run s' m' value))
      → Ends I F (load read write s m addr size then_run)
  unfolding load
  load-Ends s m addr size then_run i k =
      after_access-Ends (read_vaddr read write s (s, m) addr size)
        (λ s' m' bytes. then_run s' m' (from_bytes bytes))
        (read_vaddr_keeps (λ (x : CpuState × M). I x.0) read write b.keep_read b.keep_write s (s, m)
          addr size i)
        (λ s' m' bytes i'. k s' m' (from_bytes bytes) i')

  pub store-Ends :
      (s : CpuState) (m : M) (addr size value : ℕ) (then_run : CpuState → M → Result M)
      → I s
      → ((s' : CpuState) (m' : M) → I s' → Ends I F (then_run s' m'))
      → Ends I F (store read write s m addr size value then_run)
  unfolding store
  store-Ends s m addr size value then_run i k =
      after_access-Ends (write_vaddr read write s (s, m) addr (to_bytes size value))
        (λ s' m' bytes. then_run s' m')
        (write_vaddr_keeps (λ (x : CpuState × M). I x.0) read write b.keep_read b.keep_write s
          (s, m) addr (to_bytes size value) i)
        (λ s' m' bytes i'. k s' m' i')

module _ {softfp : Call → ℕ → ℕ × ℕ} {I F : CpuState → Type 0} (t : Transfer softfp I F) where
  pub write_reg-keeps : (s : CpuState) (r value : ℕ) → F s → F (write_reg s r value)
  unfolding write_reg
  write_reg-keeps s r value f = elim (Bool-cases (r == 0)) [
    | inl e ↦ rw e f
    | inr e ↦ rw e (t.to_reg s r value (ground arith) f)
  ]

  pub store_value-Ends :
      {M : Type 0} (rd : ℕ) (s : CpuState) (m : M) (o : Option ℕ)
      → I s
      → Ends I F (store_value next_inst rd s m o)
  unfolding store_value
  store_value-Ends rd s m none i = i
  store_value-Ends rd s m (some value) i = write_reg-keeps s rd value (t.enter s i)
