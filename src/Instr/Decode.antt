-- ===== src/Instr/Decode.antt =====
-- `decode_inst` as a whole: the `switch` on the opcode, and the labels behind it.
use space_emu.Base.{ℕ, bit_and, true, false}
use space_emu.Base.{switch, [], ◌∷◌, Option, none, some, List}
use space_emu.Base.Word.{add64}
use space_emu.Alu.{op_value, op_imm_value, op_imm32_value, op32_value}
use space_emu.Cpu.{CpuState}
use space_emu.Device.{Reply}
use space_emu.Instr.{Result, Next, result, illegal, next_inst, next_c_inst, jump, error_process}
use space_emu.Instr.{exception, undefined, store_value}
use space_emu.Instr.Amo.{op_amo}
use space_emu.Instr.Compressed.Quadrant0.{quadrant0}
use space_emu.Instr.Compressed.Quadrant1.{quadrant1}
use space_emu.Instr.Compressed.Quadrant2.{quadrant2}
use space_emu.Instr.Control.{op_auipc, op_lui, op_branch, op_jal, op_jalr, op_fence}
use space_emu.Instr.Fields.{opcode, rd, rs1, rs2, funct3, funct7, imm_i}
use space_emu.Instr.Float.{Call, op_fp_fused, op_fp_normal}
use space_emu.Instr.LoadStore.{op_load, op_store, op_fp_load, op_fp_store}
use space_emu.Instr.System.{op_system}
use space_emu.Regs.Trap.{raise_exception}

-- CAUSE_ILLEGAL_INSTRUCTION
abbrev pub cause_illegal_instruction : ℕ
cause_illegal_instruction = 2

-- At Exception: the recorded exception is raised, if there is one.
unfoldable pub raise_pending : CpuState → CpuState
raise_pending s = elim s.pending_exception [
  | none ↦ s
  | some cause ↦ raise_exception s cause s.pending_tval
]

-- The labels at the end of `decode_inst`.
unfoldable pub finish_inst : {M : Type 0} → ℕ → CpuState → M → Next → Option (CpuState × M)
unfolding raise_pending
finish_inst inst s m next_inst = some (record s { pc = add64 s.pc 4 }, m)
finish_inst inst s m next_c_inst = some (record s { pc = add64 s.pc 2 }, m)
finish_inst inst s m jump = some (s, m)
finish_inst inst s m error_process = some (
  raise_pending
      (record s { pending_exception = some cause_illegal_instruction; pending_tval = inst }),
  m,
)
finish_inst inst s m exception = some (raise_pending s, m)
finish_inst inst s m undefined = none

-- A case that needs the processor alone; `none` is the jump to ERROR_PROCESS.
unfoldable pub from_cpu : {M : Type 0} → CpuState → M → Option CpuState → Result M
from_cpu s m none = illegal s m
from_cpu s m (some s') = result next_inst s' m

module _ {M : Type 0} (read : CpuState × M → ℕ → ℕ → Reply (CpuState × M))
    (write : CpuState × M → ℕ → List ℕ → Reply (CpuState × M)) (softfp : Call → ℕ → ℕ × ℕ)
    (uninit : ℕ) (s : CpuState) (m : M) (inst : ℕ) where
  -- The opcodes whose two low bits are set.
  unfoldable pub decode_full : Result M
  decode_full =
      let f3 = funct3 inst in
      let f7 = funct7 inst in
      let val1 = s.regs (rs1 inst) in
      let val2 = s.regs (rs2 inst) in
      let value : Option ℕ → Result M = λ v. store_value next_inst (rd inst) s m v in
      let float : Option CpuState → Result M = λ s'. from_cpu s m s' in
      switch (opcode inst)
        ((0x33, value (op_value f7 f3 val1 val2))
          ∷ (0x13, value (op_imm_value f3 val1 (imm_i inst)))
          ∷ (0x1b, value (op_imm32_value f3 val1 (imm_i inst)))
          ∷ (0x3b, value (op32_value f7 f3 val1 val2))
          ∷ (0x23, op_store read write s m inst)
          ∷ (0x03, op_load read write s m inst)
          ∷ (0x07, op_fp_load read write s m inst)
          ∷ (0x27, op_fp_store read write s m inst)
          ∷ (0x43, float (op_fp_fused softfp s inst false false))
          ∷ (0x47, float (op_fp_fused softfp s inst false true))
          ∷ (0x4b, float (op_fp_fused softfp s inst true false))
          ∷ (0x4f, float (op_fp_fused softfp s inst true true))
          ∷ (0x53, float (op_fp_normal softfp s inst))
          ∷ (0x17, op_auipc s m inst)
          ∷ (0x63, op_branch s m inst)
          ∷ (0x6f, op_jal s m inst)
          ∷ (0x67, op_jalr s m inst)
          ∷ (0x37, op_lui s m inst)
          ∷ (0x73, op_system s m inst uninit)
          ∷ (0x0f, op_fence s m inst)
          ∷ (0x2f, op_amo read write s m inst)
          ∷ [])
        (illegal s m)

  -- C_QUADRANT(n) stands for every opcode whose two low bits are n.
  unfoldable pub decode_case : Result M
  unfolding decode_full
  decode_case =
      switch (bit_and inst 3)
        ((0, quadrant0 read write s m inst)
          ∷ (1, quadrant1 s m inst)
          ∷ (2, quadrant2 read write s m inst)
          ∷ [])
        decode_full

  unfoldable pub decode_inst : Option (CpuState × M)
  unfolding decode_case finish_inst
  decode_inst = finish_inst inst decode_case.cpu decode_case.memory decode_case.next
