-- ===== src/Board/StoreLoad.antt =====
-- A store and a load of the RAM, as instructions.
use space_emu.Base.{sym, ℕ, zero, suc, ◌+◌, ◌-◌, ◌%◌, ◌^◌, ◌<◌, ◌≤◌, ◌≡◌, refl, arith, List, []}
use space_emu.Base.{◌∷◌, switch, ap, ◌∙◌}
use space_emu.Alu.Helpers.{sext32}
use space_emu.Base.Bytes.{to_bytes, from_bytes, length-to_bytes, from_bytes-to_bytes_mod}
use space_emu.Base.Word.{add64}
use space_emu.Board.{Board, board_read, board_write}
use space_emu.Board.Ram.{IsBare, write_ram, read_ram}
use space_emu.Cpu.{CpuState}
use space_emu.Device.{Reply}
use space_emu.Instr.{Result, result, next_inst, write_reg, load, store, after_access, settle}
use space_emu.Instr.Fields.{rd, rs1, rs2, funct3, imm_i, imm_s}
use space_emu.Instr.LoadStore.{op_load, op_store, sext8, sext16}
use space_emu.Memory.{memory_size, ram_base_addr}
use space_emu.Memory.Safety.{write_at, read_at, read_at-write_at}

-- What a load of the code `w`, with sign, gives for a register stored by the code `w`.
unfoldable pub kept_part : ℕ → ℕ → ℕ
unfolding switch
kept_part w value =
    switch w
      ((0, sext8 (value % 2 ^ 8))
        ∷ (1, sext16 (value % 2 ^ 16))
        ∷ (2, sext32 (value % 2 ^ 32))
        ∷ [])
      (value % 2 ^ 64)

module _ (ctz32 : ℕ → ℕ) (real : ℕ → ℕ) (s : CpuState) (m : Board) (addr n value : ℕ) (b : IsBare s)
    (low : ram_base_addr ≤ addr) (high : addr + n < ram_base_addr + memory_size) where
  abbrev stored : Board
  stored = record m { ram = write_at m.ram (addr - ram_base_addr) (to_bytes n value) }

  store_ram :
      (k : CpuState → Board → Result Board)
      → store (board_read ctz32 real) (board_write ctz32 real) s m addr n value k ≡ k s stored
  unfolding store after_access settle
  store_ram k =
      rw
        (write_ram ctz32 real s m addr (to_bytes n value) b low
          (omega (arith, length-to_bytes n value)))
        refl

  load_ram :
      (k : CpuState → Board → ℕ → Result Board)
      → load (board_read ctz32 real) (board_write ctz32 real) s stored addr n k
        ≡ k s stored (value % 256 ^ n)
  unfolding load after_access settle
  load_ram k =
      let back : from_bytes (read_at stored.ram n (addr - ram_base_addr)) ≡ value % 256 ^ n =
        ap (λ l. from_bytes (read_at stored.ram l (addr - ram_base_addr)))
          (sym (length-to_bytes n value))
        ∙ ap from_bytes (read_at-write_at m.ram (addr - ram_base_addr) (to_bytes n value))
        ∙ from_bytes-to_bytes_mod n value in
      rw (read_ram ctz32 real s stored addr n b low high) (rw back refl)

-- The conversion of a signed load of the code `w`.
abbrev signed : ℕ → ℕ → ℕ
signed w value = switch w ((0, sext8 value) ∷ (1, sext16 value) ∷ (2, sext32 value) ∷ []) value

module _ {M : Type 0} (read : CpuState × M → ℕ → ℕ → Reply (CpuState × M))
    (write : CpuState × M → ℕ → List ℕ → Reply (CpuState × M)) (s : CpuState) (m : M)
    (inst : ℕ) where
  op_store-width :
      (w : ℕ)
      → w ≤ 3
      → funct3 inst ≡ w
      → op_store read write s m inst
        ≡ store read write s m
            (add64 (s.regs (rs1 inst)) (imm_s inst))
            (2 ^ w)
            (s.regs (rs2 inst))
            (λ s' m'. result next_inst s' m')
  unfolding op_store switch
  op_store-width zero h e = rw e refl
  op_store-width (suc zero) h e = rw e refl
  op_store-width (suc (suc zero)) h e = rw e refl
  op_store-width (suc (suc (suc zero))) h e = rw e refl
  op_store-width (suc (suc (suc (suc w)))) h e = absurd (omega arith)

  op_load-width :
      (w : ℕ)
      → w ≤ 3
      → funct3 inst ≡ w
      → op_load read write s m inst
        ≡ load read write s m
            (add64 (s.regs (rs1 inst)) (imm_i inst))
            (2 ^ w)
            (λ s' m' value. result next_inst (write_reg s' (rd inst) (signed w value)) m')
  unfolding op_load switch
  op_load-width zero h e = rw e refl
  op_load-width (suc zero) h e = rw e refl
  op_load-width (suc (suc zero)) h e = rw e refl
  op_load-width (suc (suc (suc zero))) h e = rw e refl
  op_load-width (suc (suc (suc (suc w)))) h e = absurd (omega arith)

signed-mod : (w value : ℕ) → w ≤ 3 → signed w (value % 256 ^ (2 ^ w)) ≡ kept_part w value
unfolding switch kept_part
signed-mod zero value h = refl
signed-mod (suc zero) value h = refl
signed-mod (suc (suc zero)) value h = refl
signed-mod (suc (suc (suc zero))) value h = refl
signed-mod (suc (suc (suc (suc w)))) value h = absurd (omega arith)

-- In machine mode at 64 bits without MPRV, a store of 1, 2, 4 or 8 bytes into the RAM, before
-- its last byte, succeeds, and a signed load of the same size from the same address then gives
-- the low part of the stored register, extended by its sign, and leaves the memory as the store
-- did.
pub op_load-op_store :
    (ctz32 : ℕ → ℕ) (real : ℕ → ℕ) (s : CpuState) (m : Board) (st ld w : ℕ)
    → let addr = add64 (s.regs (rs1 st)) (imm_s st) in
      IsBare s
      → w ≤ 3
      → funct3 st ≡ w
      → funct3 ld ≡ w
      → add64 (s.regs (rs1 ld)) (imm_i ld) ≡ addr
      → ram_base_addr ≤ addr
      → addr + 2 ^ w < ram_base_addr + memory_size
      → (m' : Board) × (op_store (board_read ctz32 real) (board_write ctz32 real) s m st
          ≡ result next_inst s m')
        × (op_load (board_read ctz32 real) (board_write ctz32 real) s m' ld
            ≡ result next_inst (write_reg s (rd ld) (kept_part w (s.regs (rs2 st)))) m')
op_load-op_store ctz32 real s m st ld w b h e f same low high =
    let read = board_read ctz32 real in
    let write = board_write ctz32 real in
    let addr = add64 (s.regs (rs1 st)) (imm_s st) in
    let value = s.regs (rs2 st) in
    let m' = stored ctz32 real s m addr (2 ^ w) value b low high in
    let k : CpuState → Board → ℕ → Result Board =
      λ s' m'' v. result next_inst (write_reg s' (rd ld) (signed w v)) m'' in
    (
      m',
      op_store-width read write s m st w h e
          ∙ store_ram ctz32 real s m addr (2 ^ w) value b low high
              (λ s' m''. result next_inst s' m''),
      op_load-width read write s m' ld w h f
          ∙ ap (λ a. load read write s m' a (2 ^ w) k) same
          ∙ load_ram ctz32 real s m addr (2 ^ w) value b low high k
          ∙ ap (λ v. result next_inst (write_reg s (rd ld) v) m') (signed-mod w value h),
    )
