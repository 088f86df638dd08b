-- ===== src/Board/Atomics.antt =====
-- An atomic operation on the RAM, as an instruction.
use space_emu.Base.{ℕ, false, ◌==◌, ◌+◌, ◌-◌, ◌<◌, ◌≤◌, ◌≡◌, ◌∙◌, ap, refl, arith, some, switch}
use space_emu.Alu.Helpers.{sext32}
use space_emu.Base.Bytes.{to_bytes, from_bytes, length-to_bytes}
use space_emu.Base.Word.{u32, ◌>>>◌}
use space_emu.Board.{Board, board_read, board_write}
use space_emu.Board.Ram.{IsBare, write_ram, read_ram}
use space_emu.Cpu.{CpuState}
use space_emu.Instr.{result, next_inst, write_reg, load, store, after_access, settle}
use space_emu.Instr.Amo.{op_amo, atomic, read_modify_write, amo_w_value}
use space_emu.Instr.Amo.Meaning.{AmoOp, funct5, meaning, amo_w_value_lem, amo_w_value-legal}
use space_emu.Instr.Amo.Meaning.{funct5-plain, to_bytes_word}
use space_emu.Instr.Fields.{rd, rs1, rs2, funct3}
use space_emu.Memory.{memory_size, ram_base_addr}
use space_emu.Memory.Safety.{write_at, read_at}

-- In machine mode at 64 bits without MPRV, each of the nine atomic operations on a word of the
-- RAM, before its last byte, gives the old word, extended by its sign, and stores the word that
-- the operation means for the old word and the low word of the register: the other one for a
-- swap, the sum modulo 2 ^ 32, the bitwise combination, or the lower or the higher of the two
-- as signed or as unsigned numbers; nothing else of the board changes.
pub op_amo-ram :
    (ctz32 : ℕ → ℕ) (real : ℕ → ℕ) (s : CpuState) (m : Board) (inst : ℕ) (op : AmoOp)
    → let addr = s.regs (rs1 inst) in
      let offset = addr - ram_base_addr in
      let old = from_bytes (read_at m.ram 4 offset) in
      IsBare s
      → funct3 inst ≡ 2
      → inst >>> 27 ≡ funct5 op
      → ram_base_addr ≤ addr
      → addr + 4 < ram_base_addr + memory_size
      → op_amo (board_read ctz32 real) (board_write ctz32 real) s m inst
        ≡ result next_inst (write_reg s (rd inst) (sext32 old)) (record m {
          ram = write_at m.ram offset (to_bytes 4 (meaning op (u32 old) (u32 (s.regs (rs2 inst)))));
        })
unfolding op_amo atomic read_modify_write load store after_access settle switch
op_amo-ram ctz32 real s m inst op b f g low high =
    let addr = s.regs (rs1 inst) in
    let old = from_bytes (read_at m.ram 4 (addr - ram_base_addr)) in
    let (w, e, means) = amo_w_value_lem op old (s.regs (rs2 inst)) in
    let (v, legal) = amo_w_value-legal op in
    let (not_load, not_store) = funct5-plain op in
    let loaded = read_ram ctz32 real s m addr 4 b low high in
    let stored =
      write_ram ctz32 real s m addr (to_bytes 4 w) b low (omega (arith, length-to_bytes 4 w)) in
    let same : to_bytes 4 w ≡ to_bytes 4 (meaning op (u32 old) (u32 (s.regs (rs2 inst)))) =
      to_bytes_word w ∙ ap (to_bytes 4) means in
    let a : (inst >>> 27 == 2) ≡ false = rw g not_load in
    let c : (inst >>> 27 == 3) ≡ false = rw g not_store in
    let legal' : amo_w_value (inst >>> 27) 0 0 ≡ some v = rw g legal in
    let e' : amo_w_value (inst >>> 27) (sext32 old) (s.regs (rs2 inst)) ≡ some w = rw g e in
    rw (f, a, c) (rw legal' (rw loaded (rw e' (rw (stored, same) refl))))
