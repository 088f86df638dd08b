-- ===== src/Tests/Programs.antt =====
-- Programs and instructions on the board.
use space_emu.Alu.Helpers.{sext32, sra}
use space_emu.Base.{ℕ, ◌==◌, if◌then◌else◌, ◌+◌, ◌≡◌, refl, arith, false, List, [], ◌∷◌}
use space_emu.Base.{◌++◌, none}
use space_emu.Base.Bytes.{to_bytes, from_bytes}
use space_emu.Board.{Board, board_read, board_write}
use space_emu.Board.Atomics.{op_amo-ram}
use space_emu.Board.Ram.{IsBare}
use space_emu.Board.Sound.{board_round, board_round-IsSoundRound}
use space_emu.Board.StoreLoad.{kept_part, op_load-op_store}
use space_emu.Cpu.{CpuState}
use space_emu.Instr.{result, next_inst, write_reg}
use space_emu.Instr.Amo.{op_amo}
use space_emu.Instr.Amo.Meaning.{add}
use space_emu.Instr.Fields.{imm_i, imm_s, extend}
use space_emu.Instr.Float.{Call}
use space_emu.Instr.LoadStore.{op_load, op_store}
use space_emu.Instr.Sound.{KeepsFlags, IsSound}
use space_emu.Instr.Sound.Run.{Soundly, IsSoundRound, run_loop-Soundly}
use space_emu.Instr.Loop.{Round, run_loop}
use space_emu.Space.Reachable.{cpu_state_reset-IsValid}
use space_emu.Base.{Bool, true, some}
use space_emu.Memory.Safety.{write_at, read_at}
use space_emu.Space.{cpu_state_reset}
use space_emu.Tests.{ctz32}

-- A float library that gives 0 and leaves the flags alone.
abbrev floats : Call → ℕ → ℕ × ℕ
floats call flags = (0, flags)

floats-KeepsFlags : KeepsFlags floats
floats-KeepsFlags = record { flags_lt = λ call flags h. h }

abbrev words : List ℕ → List ℕ
words [] = []
words (w ∷ ws) = to_bytes 4 w ++ words ws

-- Prints the character 65 and powers off: lui x5; li x6, 65; sw x6, 0(x5); lui x6; sw x6, 4(x5);
-- li x6, 1; sw x6, 0(x5).
abbrev print_a : List ℕ
print_a =
    words (
      0x400082b7 ∷ 0x04100313 ∷ 0x0062a023 ∷ 0x01010337 ∷ 0x0062a223 ∷ 0x00100313 ∷ 0x0062a023 ∷ [])

-- The board, with the program at the address of the first instruction.
abbrev loaded : Board
loaded = record {
  low_ram = write_at (λ _. 0) 0x1000 print_a;
  ram = λ _. 0;
  console = [];
  exit_code = none;
  undefined = false;
}

abbrev has_exited : Board → Bool
has_exited m = elim m.exit_code [ none ↦ false | some code ↦ true ]

-- A round on the board, without a console.
abbrev quiet : Round Board
quiet = board_round ctz32 (λ k. 5) (λ m. m)

quiet-IsSoundRound : IsSoundRound quiet
quiet-IsSoundRound = board_round-IsSoundRound ctz32 (λ k. 5) (λ m. m)

reset-IsSound : IsSound cpu_state_reset
unfolding cpu_state_reset
reset-IsSound = record { valid = cpu_state_reset-IsValid; x0 = refl }

run_loop-Soundly_example :
    Soundly (run_loop has_exited floats 0 (quiet ∷ quiet ∷ quiet ∷ []) cpu_state_reset loaded)
run_loop-Soundly_example =
    run_loop-Soundly has_exited floats 0 (quiet ∷ quiet ∷ quiet ∷ []) cpu_state_reset loaded
      floats-KeepsFlags (quiet-IsSoundRound, (quiet-IsSoundRound, (quiet-IsSoundRound, tt)))
      reset-IsSound

abbrev empty : Board
empty = record { low_ram = λ _. 0; ram = λ _. 7; console = []; exit_code = none; undefined = false }

-- x1 points into the RAM.
abbrev pointing : CpuState
pointing = record cpu_state_reset {
  regs = λ r. if r == 1 then 0x8000_0100 else if r == 2 then 0x1234_fedc else 0;
}

pointing-IsBare : IsBare pointing
unfolding cpu_state_reset
pointing-IsBare = record { machine = refl; own_rights = refl; wide = refl }

-- lw x3, 0(x2), where nothing answers
abbrev lw : ℕ
lw = 0x0001_2183

-- sh x2, 4(x1); lh x3, 4(x1)
abbrev sh : ℕ
sh = 0x0020_9223

abbrev lh : ℕ
lh = 0x0040_9183

op_load-op_store_example :
    (m' : Board) × (op_store
        (board_read ctz32 (λ k. 5))
        (board_write ctz32 (λ k. 5))
        pointing
        empty
        sh
      ≡ result next_inst pointing m')
    × (op_load (board_read ctz32 (λ k. 5)) (board_write ctz32 (λ k. 5)) pointing m' lh
        ≡ result next_inst (write_reg pointing 3 (kept_part 1 0x1234_fedc)) m')
unfolding imm_i imm_s extend sext32 sra
op_load-op_store_example =
    op_load-op_store ctz32 (λ k. 5) pointing empty sh lh 1 pointing-IsBare (omega arith) refl refl
      refl (omega arith) (omega arith)

kept_part_test : kept_part 1 0x1234_fedc ≡ 0xffff_ffff_ffff_fedc
unfolding kept_part
kept_part_test = refl

-- amoadd.w x3, x2, (x1)
abbrev amoadd : ℕ
amoadd = 0x0020_a1af

op_amo-ram_example :
    op_amo (board_read ctz32 (λ k. 5)) (board_write ctz32 (λ k. 5)) pointing empty amoadd
    ≡ result next_inst
        (write_reg pointing 3 0x0707_0707)
        (record empty { ram = write_at empty.ram 0x100 (to_bytes 4 (0x0707_0707 + 0x1234_fedc)) })
unfolding sext32 read_at from_bytes
op_amo-ram_example =
    op_amo-ram ctz32 (λ k. 5) pointing empty amoadd add pointing-IsBare refl refl (omega arith)
      (omega arith)
