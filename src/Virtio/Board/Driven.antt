-- ===== src/Virtio/Board/Driven.antt =====
-- virtio_interface.c: the block device on the board, from its setup on, whatever the driver does
-- with its registers.
use space_emu.Base.{ℕ, ◌<◌, ◌≤◌, ◌≡◌, refl, arith, List, [], ◌∷◌, ltb, leb, ◌∙◌, ap, true, either}
use space_emu.Base.{◌-◌}
use space_emu.Base.Word.{u32, sub64}
use space_emu.Base.Bits.{has_bit, has_bit_zero}
use space_emu.Board.{Board}
use space_emu.Cpu.{CpuState}
use space_emu.Device.Laws.{read_words_keeps}
use space_emu.Virtio.{World, max_queue}
use space_emu.Virtio.Block.{BlockDevice}
use space_emu.Virtio.Board.{world_read, world_write, world_read-IsLine, world_write-IsLine}
use space_emu.Virtio.Board.{world_read-IsRegistered, world_write-IsRegistered}
use space_emu.Virtio.Disk.{Stream, Mode}
use space_emu.Virtio.Init.{virtual_block_device_init, virtio_init}
use space_emu.Virtio.Keeps.Block.{block_notify}
use space_emu.Virtio.Keeps.Driver.{block_write-IsLine, block_write-IsRegistered}
use space_emu.Virtio.Registers.{LittleEndian, virtual_mmio_read, virtual_mmio_write}
use space_emu.Virtio.Registers.{virtual_mmio_read_sub}
use space_emu.Virtio.Registers.{virtual_io_reset, reset_queue}
use space_emu.Virtio.Registers.Line.{IsLine}
use space_emu.Virtio.Registers.Valid.{IsRegistered}

-- An access of the driver: a place and a size, or the bytes and a place.
pub data Access : Type 0 where
  read : ℕ → ℕ → Access
  write : List ℕ → ℕ → Access

module _ {F : Type 0} (stream : Stream F) (min_int : ℕ → ℕ → ℕ) (ctz32 : ℕ → ℕ) (real : ℕ → ℕ)
    (stale : World (BlockDevice F × Board) → List ℕ) (fresh : ℕ → List ℕ) (rounds : ℕ)
    (le : LittleEndian) (start : ℕ) (old : ℕ → ℕ) where
  abbrev pub Machine : Type 0
  Machine = World (BlockDevice F × Board)

  -- The requests are served within the accesses, and `rounds` rounds of each loop are allowed.
  unfoldable pub driven : Machine → List Access → Machine
  unfolding virtual_mmio_read virtual_mmio_write block_notify world_read world_write
  driven w [] = w
  driven w (read src n ∷ rest) = driven (virtual_mmio_read le start old w src n).state rest
  driven w (write src dst ∷ rest) =
      let notify =
        block_notify stream min_int (world_read ctz32 real) (world_write ctz32 real) stale fresh
          rounds in
      driven (virtual_mmio_write le start notify w src dst).state rest

  -- A machine as it is set up, with a disk from a stream.
  unfoldable pub set_up : F → ℕ → Mode → ℕ → CpuState → Board → Machine
  unfolding virtual_block_device_init
  set_up f file_size mode irq_num cpu board =
      let (device, block) = virtual_block_device_init le f file_size mode irq_num in
      record { device = device; cpu = cpu; rest = (block, board) }

  record IsGood (w : Machine) : Type 0 where
    line : IsLine w
    registered : IsRegistered w

  read_sub-IsGood :
      (round : ℕ) (w : Machine) (src : ℕ)
      → IsGood w
      → IsGood (virtual_mmio_read_sub le start old round w src).0
  unfolding virtual_mmio_read_sub
  read_sub-IsGood round w src h =
      either (λ (r : Machine × ℕ × ℕ). IsGood r.0) (leb 0x100 (u32 (sub64 src start))) h h

  driven-IsGood : (accesses : List Access) (w : Machine) → IsGood w → IsGood (driven w accesses)
  unfolding driven virtual_mmio_read
  driven-IsGood [] w h = h
  driven-IsGood (read src n ∷ rest) w h =
      driven-IsGood rest _
        (read_words_keeps IsGood (virtual_mmio_read_sub le start old) read_sub-IsGood w src n h)
  driven-IsGood (write src dst ∷ rest) w h = driven-IsGood rest _ (record {
    line =
        block_write-IsLine stream min_int (world_read ctz32 real) (world_write ctz32 real) stale
          fresh rounds le start w src dst (world_read-IsLine ctz32 real)
          (world_write-IsLine ctz32 real) h.line;
    registered =
        block_write-IsRegistered stream min_int (world_read ctz32 real) (world_write ctz32 real)
          stale fresh rounds le start w src dst (world_read-IsRegistered ctz32 real)
          (world_write-IsRegistered ctz32 real) h.registered;
  })

  set_up-IsGood :
      (f : F) (file_size : ℕ) (mode : Mode) (irq_num : ℕ) (cpu : CpuState) (board : Board)
      → 0 < irq_num
      → irq_num ≤ 32
      → cpu.plic_pending_irq ≡ 0
      → IsGood (set_up f file_size mode irq_num cpu board)
  unfolding set_up virtual_block_device_init virtio_init virtual_io_reset reset_queue
  set_up-IsGood f file_size mode irq_num cpu board low high none_pending = record {
    line = record {
      positive = low;
      bounded = high;
      line = ap (λ p. has_bit p (irq_num - 1)) none_pending ∙ has_bit_zero (irq_num - 1);
    };
    registered = record {
      selected = omega arith;
      rings = λ i small.
          let first : ltb i max_queue ≡ true = ground arith in rw first (4, omega arith, refl);
    };
  }

  -- On the board, from the setup of the block device on, with no source pending and the
  -- device's number from 1 to 32, whatever the driver reads from its registers and writes to
  -- them, and whatever requests are served in between: the source of the device is pending
  -- exactly if its interrupt status is not 0, the queue that is selected is one of the eight,
  -- and every ring has a power of two as its size.
  pub driven-Good :
      (f : F) (file_size : ℕ) (mode : Mode) (irq_num : ℕ) (cpu : CpuState) (board : Board)
      (accesses : List Access)
      → 0 < irq_num
      → irq_num ≤ 32
      → cpu.plic_pending_irq ≡ 0
      → let w = driven (set_up f file_size mode irq_num cpu board) accesses in
        IsLine w × IsRegistered w
  driven-Good f file_size mode irq_num cpu board accesses low high none_pending =
      let h =
        driven-IsGood accesses (set_up f file_size mode irq_num cpu board)
          (set_up-IsGood f file_size mode irq_num cpu board low high none_pending) in
      (h.line, h.registered)
