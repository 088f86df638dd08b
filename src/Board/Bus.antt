-- ===== src/Board/Bus.antt =====
-- The physical accesses of the board, and the properties of the processor that they keep.
use space_emu.Base.{ℕ, false, either, List, [], ◌∷◌, Option, none, some}
use space_emu.Base.Bytes.{length}
use space_emu.Board.{State, in_low, in_ram, in_cpu, in_htif, htif_state, low_item, ram_item}
use space_emu.Board.{clint_item, htif_item, plic_item, items, settled, board_read, board_write}
use space_emu.Board.Keeps.{LinesKeep, plic_read-keeps, plic_write-keeps, clint_read-keeps}
use space_emu.Board.Keeps.{clint_write-keeps, htif_read-keeps, htif_write-keeps}
use space_emu.Cpu.{CpuState}
use space_emu.Device.{Reply}
use space_emu.Instr.Keeps.{BusKeeps}
use space_emu.Iomap.{AddressItem, read_bytes, write_bytes, find_item, check_in}
use space_emu.Memory.{Buffer, low_ram_size, memory_size, ram_base_addr, memory_read, memory_write}

module _ {P : CpuState → Type 0} (keep : LinesKeep P) where
  -- An access that C defines keeps `P`.
  abbrev Held : Option (Reply State) → Type 0
  Held none = Unit
  Held (some r) = P r.state.0

  record ItemKeeps (item : AddressItem State) : Type 0 where
    on_read : (x : State) (a n : ℕ) → P x.0 → Held (item.read_bytes x a n)
    on_write : (x : State) (src : List ℕ) (dst : ℕ) → P x.0 → Held (item.write_bytes x src dst)

  in_low-Held : (x : State) (r : Option (Reply Buffer)) → P x.0 → Held (in_low x r)
  unfolding in_low
  in_low-Held x none h = tt
  in_low-Held x (some r) h = h

  in_ram-Held : (x : State) (r : Option (Reply Buffer)) → P x.0 → Held (in_ram x r)
  unfolding in_ram
  in_ram-Held x none h = tt
  in_ram-Held x (some r) h = h

  abbrev AllKeep : List (AddressItem State) → Type 0
  AllKeep [] = Unit
  AllKeep (y ∷ ys) = ItemKeeps y × AllKeep ys

  abbrev FoundKeeps : Option (AddressItem State) → Type 0
  FoundKeeps none = Unit
  FoundKeeps (some item) = ItemKeeps item

  find_item-FoundKeeps :
      (ys : List (AddressItem State)) (a n : ℕ) → AllKeep ys → FoundKeeps (find_item ys a n)
  unfolding find_item
  find_item-FoundKeeps [] a n all = tt
  find_item-FoundKeeps (y ∷ ys) a n all =
      either FoundKeeps (check_in y a n) all.0 (find_item-FoundKeeps ys a n all.1)

  read_bytes-Held :
      (ys : List (AddressItem State)) (x : State) (a n : ℕ)
      → AllKeep ys
      → P x.0
      → Held (read_bytes ys x a n)
  unfolding read_bytes
  read_bytes-Held ys x a n all h = go (find_item ys a n) (find_item-FoundKeeps ys a n all)
    where
      go :
          (o : Option (AddressItem State))
          → FoundKeeps o
          → Held (elim o as (λ _. Option (Reply State)) [
            | none ↦ some (record { state = x; bytes = []; ok = false })
            | some item ↦ item.read_bytes x a n
          ])
      go none k = h
      go (some item) k = k.on_read x a n h

  write_bytes-Held :
      (ys : List (AddressItem State)) (x : State) (a n : ℕ) (src : List ℕ)
      → AllKeep ys
      → P x.0
      → Held (write_bytes ys x a n src)
  unfolding write_bytes
  write_bytes-Held ys x a n src all h = go (find_item ys a n) (find_item-FoundKeeps ys a n all)
    where
      go :
          (o : Option (AddressItem State))
          → FoundKeeps o
          → Held (elim o as (λ _. Option (Reply State)) [
            | none ↦ some (record { state = x; bytes = []; ok = false })
            | some item ↦ item.write_bytes x src a
          ])
      go none k = h
      go (some item) k = k.on_write x src a h

  settled-keeps : (x : State) (o : Option (Reply State)) → P x.0 → Held o → P (settled x o).state.0
  unfolding settled
  settled-keeps x none h k = h
  settled-keeps x (some r) h k = k

  module _ (ctz32 : ℕ → ℕ) (real : ℕ → ℕ) where
    items-AllKeep : AllKeep (items ctz32 real)
    unfolding items low_item ram_item clint_item htif_item plic_item in_cpu in_htif
    items-AllKeep = (
      record {
        on_read = λ x a n h. in_low-Held x (memory_read low_ram_size 0 x.1.low_ram a n) h;
        on_write = λ x src a h. in_low-Held x (memory_write low_ram_size 0 x.1.low_ram src a) h;
      },
      (
        record {
          on_read = λ x a n h. in_ram-Held x (memory_read memory_size ram_base_addr x.1.ram a n) h;
          on_write =
              λ x src a h. in_ram-Held x (memory_write memory_size ram_base_addr x.1.ram src a) h;
        },
        (
          record {
            on_read = λ x a n h. clint_read-keeps keep real x.0 a n h;
            on_write = λ x src a h. clint_write-keeps keep x.0 src a h;
          },
          (
            record {
              on_read = λ x a n h. htif_read-keeps keep (htif_state x) a n h;
              on_write = λ x src a h. htif_write-keeps keep (htif_state x) src a h;
            },
            (
              record {
                on_read = λ x a n h. plic_read-keeps keep ctz32 x.0 a n h;
                on_write = λ x src a h. plic_write-keeps keep x.0 src a h;
              },
              tt,
            ),
          ),
        ),
      ),
    )

    -- The accesses of the board are as the processor expects them.
    pub board-BusKeeps : BusKeeps (board_read ctz32 real) (board_write ctz32 real) P
    board-BusKeeps = record {
      keep_read = λ x a n h.
          unfold board_read in
          settled-keeps x _ h (read_bytes-Held (items ctz32 real) x a n items-AllKeep h);
      keep_write = λ x a src h.
          unfold board_write in
          settled-keeps x _ h
            (write_bytes-Held (items ctz32 real) x a (length src) src items-AllKeep h);
    }
