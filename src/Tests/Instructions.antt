-- ===== src/Tests/Instructions.antt =====
-- Fields of instructions, the rounds of accesses and the sources of the interrupt controller.
use space_emu.Base.{ℕ, ◌+◌, ◌-◌, ◌^◌, ◌≡◌, refl, arith, true, false}
use space_emu.Base.{List, [], ◌∷◌}
use space_emu.Base.Bits.{has_bit, has_bit-ones, has_bit_zero}
use space_emu.Cpu.{CpuState}
use space_emu.Device.{Reply}
use space_emu.Instr.Fields.{imm_i, imm_s, imm_b, imm_u, imm_j}
use space_emu.Instr.Immediates.{has_bit_immediates}
use space_emu.Instr.Signs.{IsBoxed}
use space_emu.Plic.Claim.{Op, raise, claim, complete, run}
use space_emu.Plic.Gateway.{Gateway, Represents, answers, first_waiting, run-answers}
use space_emu.Plic.Progress.{Returned, claims, run-Returned}
use space_emu.Space.{cpu_state_reset}
use space_emu.Tests.{ctz32, counts}
use space_emu.Translate.{Translation, physical}
use space_emu.Translate.Vaddr.{vaddr_loop}
use space_emu.Translate.Vaddr.Rounds.{vaddr_loop_rounds}

-- A branch back by 32 bytes.
abbrev back : ℕ
back = 0xfe20_80e3

has_bit_immediates_example :
    (has_bit (imm_i back) 11 ≡ has_bit back 31)
    × (has_bit (imm_s back) 11 ≡ has_bit back 31)
    × (has_bit (imm_b back) 11 ≡ has_bit back 7)
    × (has_bit (imm_u back) 11 ≡ false)
    × (has_bit (imm_j back) 11 ≡ has_bit back 20)
has_bit_immediates_example = has_bit_immediates back 11 (omega arith)

ones-IsBoxed : IsBoxed (2 ^ 64 - 1)
ones-IsBoxed i low high = ground (arith, has_bit-ones 64 i)

-- Two sources are raised; the lower one is claimed, then the other, and the first is completed.
abbrev busy : List Op
busy = raise 5 true ∷ raise 3 true ∷ claim ∷ claim ∷ claim ∷ complete 3 ∷ claim ∷ []

abbrev idle : Gateway
idle = record { pending = λ i. false; serving = λ i. false }

idle-Represents : Represents cpu_state_reset idle
unfolding cpu_state_reset
idle-Represents = record { pending = λ i h. has_bit_zero i; serving = λ i h. has_bit_zero i }

run-answers_example : run ctz32 cpu_state_reset busy ≡ answers idle busy
run-answers_example =
    run-answers ctz32 cpu_state_reset idle busy counts
      (omega arith, omega arith, (omega arith, omega arith, (omega arith, omega arith, tt)))
      idle-Represents

-- What the abstract controller answers.
answers_test : answers idle busy ≡ 3 ∷ 5 ∷ 0 ∷ 3 ∷ []
unfolding answers first_waiting
answers_test = refl

abbrev two_pending : CpuState
two_pending = record cpu_state_reset { plic_pending_irq = 0b10100 }

run-Returned_example : Returned 5 (run ctz32 two_pending (claims 5))
run-Returned_example =
    run-Returned ctz32 counts 4 two_pending (omega arith)
      (unfold has_bit in unfold cpu_state_reset in refl)

abbrev shifted : CpuState → ℕ → Unit {0} → Unit {0} × Translation
shifted s va m = (m, physical (va + 0x1000))

abbrev silent : Unit {0} → ℕ → ℕ → ℕ → Reply (Unit {0})
silent m p offset n = record { state = m; bytes = []; ok = true }

vaddr_loop_rounds_example :
    vaddr_loop shifted silent 5 13 9 cpu_state_reset tt 0x1ffc 0 8
    ≡ vaddr_loop shifted silent 5 13 100 cpu_state_reset tt 0x1ffc 0 8
vaddr_loop_rounds_example =
    vaddr_loop_rounds shifted silent 5 13 9 100 cpu_state_reset tt 0x1ffc 0 8 (omega arith)
      (omega arith)
