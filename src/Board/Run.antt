-- ===== src/Board/Run.antt =====
-- `copy_bin` of space.c: a program file is copied to the RAM, behind a jump to it at 0x1000.
use space_emu.Base.{ℕ, ◌+◌, ◌^◌, ◌%◌, ltb, ◌==◌, if◌then◌else◌, Option, some, none, List}
use space_emu.Base.{◌++◌}
use space_emu.Base.Bytes.{length, to_bytes}
use space_emu.Board.{State, items, board_read, board_write}
use space_emu.Iomap.{AddressItem, find_item}
use space_emu.Translate.{address_translate, fault, undefined, physical, pte_r_mask}
use space_emu.Memory.{Buffer, memory_size, low_ram_size, ram_base_addr, store_loop}

-- auipc t0, jump_addr; jalr zero, t0, jump_addr
abbrev pub jump_to_ram : List ℕ
jump_to_ram = to_bytes 4 ((0x297 + 0x7fff_f000) % 2 ^ 32) ++ to_bytes 4 0x00028067

-- The two instructions at 0x1000, in the buffer of the low RAM.
unfoldable pub with_jump : State → Option Buffer → Option State
with_jump x none = none
with_jump x (some buffer) = some (x.0, record (x.1) { low_ram = buffer })

module _ (ctz32 : ℕ → ℕ) where
  -- The item that an address belongs to, if the address is its own translation for a read.
  unfoldable pub get_address_item : (ℕ → ℕ) → State → ℕ → State × Option (AddressItem State)
  get_address_item clock x address =
      let (x', translation) =
        address_translate (board_read ctz32 clock) (board_write ctz32 clock) x.0 address pte_r_mask
          x in
      (
        x',
        elim translation [
          | fault ↦ none
          | undefined ↦ none
          | physical p ↦ if p == address then find_item (items ctz32 clock) address 1 else none
        ],
      )

  -- `none` where the emulator exits, because the file is too big or nothing answers at 0x1000.
  -- What answers there is the low RAM, to whose buffer the two instructions go. Whether
  -- `iomap_manager.write` succeeds is not looked at.
  unfoldable pub copy_bin : (ℕ → ℕ) → State → List ℕ → Option State
  unfolding with_jump
  copy_bin clock x buf =
      let (x0, item) = get_address_item clock x 0x1000 in
      let x' = (board_write ctz32 clock x0 ram_base_addr buf).state in
      if ltb memory_size (length buf) then none else elim item [
        | none ↦ none
        | some low ↦ with_jump x' (store_loop low_ram_size x'.1.low_ram 0x1000 jump_to_ram)
      ]
