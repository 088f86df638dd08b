-- ===== src/Tests/Virtio.antt =====
-- The virtio devices: registers, the disk, the console's keys, and the block device on the board.
use space_emu.Base.{ℕ, ◌+◌, ◌≡◌, ◌⊎◌, refl, arith, List, [], ◌∷◌, true, false, ltb, leb}
use space_emu.Base.{some, none, min, zero, suc}
use space_emu.Base.Bytes.{to_bytes}
use space_emu.Board.{Board}
use space_emu.Memory.{Buffer}
use space_emu.Space.{cpu_state_reset}
use space_emu.Tests.{user, ctz32}
use space_emu.Virtio.{World, VirtioDevice, IsMinInt, set_queue}
use space_emu.Virtio.Board.{world_read, world_write, with_ram, from_ram-to_ram}
use space_emu.Virtio.Board.Driven.{read, write, driven, set_up, driven-Good}
use space_emu.Virtio.Board.Used.{consume-push_used, push_used}
use space_emu.Virtio.Copy.{virtual_consume_desc}
use space_emu.Virtio.Disk.{Stream, BlockDeviceFile, bf_mode_snapshot, bf_read_async, bf_write_async}
use space_emu.Virtio.Disk.{block_device_init}
use space_emu.Virtio.Disk.Snapshot.{bf_read_async-bf_write_async}
use space_emu.Virtio.Init.{virtio_init}
use space_emu.Virtio.Keeps.{raise_used}
use space_emu.Virtio.Keys.{escape, read_keys, passed, read_keys-escape}
use space_emu.Virtio.Ram.{virtio_memcpy_from_ram, virtio_memcpy_to_ram}
use space_emu.Virtio.Registers.{LittleEndian, virtual_mmio_read, virtual_mmio_write}
use space_emu.Virtio.Registers.Addresses.{available, set_address, place}
use space_emu.Virtio.Registers.Addresses.{virtual_mmio_read-virtual_mmio_write}
use space_emu.Virtio.Registers.Line.{IsLine}
use space_emu.Virtio.Registers.Valid.{IsRegistered}

-- Integers in a buffer, of which only the place is kept.
abbrev plain : LittleEndian
plain = record {
  get_le16 = λ b i. b i;
  get_le32 = λ b i. b i;
  put_le16 = λ b i v. b;
  put_le32 = λ b i v. b;
}

min_lem : IsMinInt min
min_lem a b p q = refl

abbrev blank : Board
blank = record { low_ram = λ i. 0; ram = λ i. 0; console = []; exit_code = none; undefined = false }

-- An empty file that takes no bytes.
abbrev no_file : Stream (Unit {0})
no_file = record { fread = λ f place n. []; fwrite = λ f place bytes. f }

-- The driver makes a ring, names its size, notifies the device and acknowledges its interrupt.
driven-Good_example :
    let accesses =
      write (to_bytes 4 8) 0x4001_0038
      ∷ write (to_bytes 4 0) 0x4001_0050
      ∷ read 0x4001_0060 4
      ∷ write (to_bytes 4 1) 0x4001_0064
      ∷ [] in
    let w =
      driven no_file min ctz32
        (λ k. k)
        (λ v. [])
        (λ n. [])
        8
        plain
        0x4001_0000
        (λ k. 0)
        (set_up no_file min ctz32
          (λ k. k)
          (λ v. [])
          (λ n. [])
          8
          plain
          0x4001_0000
          (λ k. 0)
          tt
          1024
          bf_mode_snapshot
          2
          user
          blank)
        accesses in
    IsLine w × IsRegistered w
unfolding cpu_state_reset
driven-Good_example =
    driven-Good no_file min ctz32 (λ k. k) (λ v. []) (λ n. []) 8 plain 0x4001_0000 (λ k. 0) tt 1024
      bf_mode_snapshot 2 user blank
      (write (to_bytes 4 8) 0x4001_0038
        ∷ write (to_bytes 4 0) 0x4001_0050
        ∷ read 0x4001_0060 4
        ∷ write (to_bytes 4 1) 0x4001_0064
        ∷ [])
      (omega arith) (omega arith) refl

abbrev fresh_device : World (Unit {0})
fresh_device = record { device = virtio_init 1 2 8; cpu = user; rest = tt }

virtual_mmio_read-virtual_mmio_write_example :
    let after =
      set_queue fresh_device fresh_device.device.queue_select
        (set_address available 0x1_8000_0000) in
    (virtual_mmio_write plain 0x4001_0000
        (λ w q. w)
        fresh_device
        (to_bytes 8 0x1_8000_0000)
        (0x4001_0000 + place available)
      ≡ record { state = after; bytes = []; ok = true })
    × (virtual_mmio_read plain 0x4001_0000 (λ k. 0) after (0x4001_0000 + place available) 8
        ≡ record { state = after; bytes = to_bytes 8 0x1_8000_0000; ok = true })
virtual_mmio_read-virtual_mmio_write_example =
    virtual_mmio_read-virtual_mmio_write plain 0x4001_0000 (omega arith) (λ w q. w) (λ k. 0)
      fresh_device available 0x1_8000_0000 (omega arith)

from_ram-to_ram_example :
    (after : Buffer) × (virtio_memcpy_to_ram min
        (world_write ctz32 (λ k. k))
        (with_ram ctz32 (λ k. k) (virtio_init 1 2 8) user tt blank (λ i. 0))
        0x8000_0ffe
        (7 ∷ 8 ∷ 9 ∷ [])
        3
      ≡ with_ram {B = Unit {0}} ctz32 (λ k. k) (virtio_init 1 2 8) user tt blank after)
    × (virtio_memcpy_from_ram min
          (world_read ctz32 (λ k. k))
          (with_ram ctz32 (λ k. k) (virtio_init 1 2 8) user tt blank after)
          (0 ∷ 0 ∷ 0 ∷ [])
          0x8000_0ffe
          3
        ≡ (
          with_ram {B = Unit {0}} ctz32 (λ k. k) (virtio_init 1 2 8) user tt blank after,
          7 ∷ 8 ∷ 9 ∷ [],
        ))
from_ram-to_ram_example =
    from_ram-to_ram ctz32 (λ k. k) (virtio_init 1 2 8) user tt blank min (λ i. 0) 0x8000_0ffe
      (7 ∷ 8 ∷ 9 ∷ []) (0 ∷ 0 ∷ 0 ∷ []) min_lem (omega arith) (omega arith) refl

-- A used ring of 16 entries at the start of the RAM.
abbrev with_ring : VirtioDevice
with_ring = record (virtio_init 1 2 8) {
  queue = λ i. record {
    ready = true;
    num = 16;
    last_avail_idx = 0;
    desc_addr = 0;
    avail_addr = 0;
    used_addr = 0x8000_0000;
    manual_recv = false;
  };
}

consume-push_used_example :
    virtual_consume_desc min
      (world_read ctz32 (λ k. k))
      (world_write ctz32 (λ k. k))
      (with_ram {B = Unit {0}} ctz32 (λ k. k) with_ring user tt blank (λ i. 0))
      0
      3
      17
    ≡ raise_used (with_ram ctz32 (λ k. k) with_ring user tt blank (push_used (λ i. 0) 0 16 3 17))
consume-push_used_example =
    consume-push_used min ctz32 (λ k. k) with_ring user tt blank (λ i. 0) 0 3 17 (omega arith)
      (omega arith) (4, omega arith, refl)

abbrev sector : ℕ → List ℕ
sector zero = []
sector (suc n) = 7 ∷ sector n

abbrev disk : BlockDeviceFile (Unit {0})
disk = block_device_init tt 2048 bf_mode_snapshot

bf_read_async-bf_write_async_example :
    (after : BlockDeviceFile (Unit {0})) × (bf_write_async no_file disk 1 (sector 512) 1
      ≡ some (true, after))
    × (after.f ≡ some tt)
    × ((j : ℕ) → (ltb j 1 ≡ true) ⊎ (leb 2 j ≡ true) → after.sector_table j ≡ disk.sector_table j)
    × (bf_read_async no_file after 1 (sector 512) 1 ≡ some (true, sector 512))
unfolding block_device_init
bf_read_async-bf_write_async_example =
    bf_read_async-bf_write_async no_file disk tt 1 1 (sector 512) (sector 512) refl refl
      (omega arith) (omega arith) refl refl

read_keys-escape_example :
    read_keys false (escape (65 ∷ 1 ∷ 66 ∷ [])) ≡ passed false (65 ∷ 1 ∷ 66 ∷ [])
read_keys-escape_example = read_keys-escape (65 ∷ 1 ∷ 66 ∷ [])
