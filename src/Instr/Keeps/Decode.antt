-- ===== src/Instr/Keeps/Decode.antt =====
-- `decode_inst` as a whole.
use space_emu.Base.{ℕ, Bool, switch_all, bit_and, Option, some, none, List, false, true}
use space_emu.Cpu.{CpuState}
use space_emu.Device.{Reply}
use space_emu.Instr.{Result, store_value, next_inst}
use space_emu.Instr.Decode.{from_cpu, decode_full, decode_case}
use space_emu.Instr.Fields.{opcode, rd}
use space_emu.Instr.Float.{Call, op_fp_fused}
use space_emu.Instr.Keeps.{Transfer, BusKeeps, Ends, store_value-Ends}
use space_emu.Instr.Keeps.Compressed.{quadrant0-Ends, quadrant1-Ends, quadrant2-Ends}
use space_emu.Instr.Keeps.Control.{op_auipc-Ends, op_lui-Ends, op_branch-Ends, op_jal-Ends}
use space_emu.Instr.Keeps.Control.{op_jalr-Ends, op_fence-Ends}
use space_emu.Instr.Keeps.Float.{Holds, op_fp_fused-Holds, op_fp_normal-Holds}
use space_emu.Instr.Keeps.LoadStore.{op_store-Ends, op_load-Ends, op_fp_load-Ends, op_fp_store-Ends}
use space_emu.Instr.Keeps.LoadStore.{op_amo-Ends}
use space_emu.Instr.Keeps.System.{op_system-Ends}

from_cpu-Ends :
    {M : Type 0} (I F : CpuState → Type 0) (s : CpuState) (m : M) (o : Option CpuState)
    → I s
    → Holds F o
    → Ends I F (from_cpu s m o)
unfolding from_cpu
from_cpu-Ends I F s m none i h = i
from_cpu-Ends I F s m (some s') i h = h

module _ {M : Type 0} {read : CpuState × M → ℕ → ℕ → Reply (CpuState × M)}
    {write : CpuState × M → ℕ → List ℕ → Reply (CpuState × M)} {softfp : Call → ℕ → ℕ × ℕ}
    {I F : CpuState → Type 0} (t : Transfer softfp I F) (b : BusKeeps read write I) (uninit : ℕ)
    (s : CpuState) (m : M) (inst : ℕ) (i : I s) where
  abbrev EndsHere : Result M → Type 0
  EndsHere r = Ends I F r

  decode_full-Ends : EndsHere (decode_full read write softfp uninit s m inst)
  unfolding decode_full
  decode_full-Ends =
      let value : (o : Option ℕ) → EndsHere (store_value next_inst (rd inst) s m o) =
        λ o. store_value-Ends t (rd inst) s m o i in
      let fused : (p q : Bool) → EndsHere (from_cpu s m (op_fp_fused softfp s inst p q)) =
        λ p q. from_cpu-Ends I F s m _ i (op_fp_fused-Holds t s inst (t.enter s i) p q) in
      switch_all EndsHere (opcode inst) _
        (
          value _,
          (
            value _,
            (
              value _,
              (
                value _,
                (
                  op_store-Ends t b s m inst i,
                  (
                    op_load-Ends t b s m inst i,
                    (
                      op_fp_load-Ends t b s m inst i,
                      (
                        op_fp_store-Ends t b s m inst i,
                        (
                          fused false false,
                          (
                            fused false true,
                            (
                              fused true false,
                              (
                                fused true true,
                                (
                                  from_cpu-Ends I F s m _ i
                                      (op_fp_normal-Holds t s inst (t.enter s i)),
                                  (
                                    op_auipc-Ends t s m inst i,
                                    (
                                      op_branch-Ends t s m inst i,
                                      (
                                        op_jal-Ends t s m inst i,
                                        (
                                          op_jalr-Ends t s m inst i,
                                          (
                                            op_lui-Ends t s m inst i,
                                            (
                                              op_system-Ends t s m inst i uninit,
                                              (
                                                op_fence-Ends t s m inst i,
                                                (op_amo-Ends t b s m inst i, tt),
                                              ),
                                            ),
                                          ),
                                        ),
                                      ),
                                    ),
                                  ),
                                ),
                              ),
                            ),
                          ),
                        ),
                      ),
                    ),
                  ),
                ),
              ),
            ),
          ),
        )
        i

  -- Whatever the instruction, its case ends as the transfer says.
  pub decode_case-Ends : EndsHere (decode_case read write softfp uninit s m inst)
  unfolding decode_case
  decode_case-Ends =
      switch_all EndsHere (bit_and inst 3) _
        (
          quadrant0-Ends t b s m inst i,
          (quadrant1-Ends t b s m inst i, (quadrant2-Ends t b s m inst i, tt)),
        )
        decode_full-Ends
