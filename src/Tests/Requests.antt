-- ===== src/Tests/Requests.antt =====
-- The block device run on a request, from the notification to the used ring.
use space_emu.Base.{ℕ, ◌-◌, ◌≡◌, refl, List, [], ◌∷◌, ◌++◌, true, false, min, Option, some, none}
use space_emu.Base.Bytes.{to_bytes, from_bytes}
use space_emu.Alu.Helpers.{sext32}
use space_emu.Device.{Reply}
use space_emu.Memory.{Buffer}
use space_emu.Memory.Safety.{read_at, write_at}
use space_emu.Tests.{user}
use space_emu.Virtio.{World, Ran, done, aborted, undefined, out_of_rounds}
use space_emu.Virtio.Block.{BlockDevice, virtual_block_recv_request}
use space_emu.Virtio.Disk.{Stream, bf_mode_snapshot, block_device_init}
use space_emu.Virtio.Init.{virtio_init}
use space_emu.Virtio.Notify.{queue_notify, notify_loop}
use space_emu.Virtio.Queue.{desc_of, get_desc, get_desc_rw_size}

abbrev Machine : Type 0
Machine = World (BlockDevice (Unit {0}) × Buffer)

-- A RAM at 0x1000.
abbrev load : Machine → ℕ → ℕ → Reply Machine
load w a n = record { state = w; bytes = read_at w.rest.1 n (a - 0x1000); ok = true }

abbrev store : Machine → ℕ → List ℕ → Reply Machine
store w a src = record {
  state = record w { rest = (w.rest.0, write_at w.rest.1 (a - 0x1000) src) };
  bytes = [];
  ok = true;
}

abbrev no_bytes : Stream (Unit {0})
no_bytes = record { fread = λ f place n. []; fwrite = λ f place bytes. f }

abbrev entry : ℕ → ℕ → ℕ → ℕ → List ℕ
entry addr len flags next =
    to_bytes 8 addr ++ (to_bytes 4 len ++ (to_bytes 2 flags ++ to_bytes 2 next))

-- A header of zeros, which asks for a read, and five bytes to be written. The available ring, of
-- which the driver has filled the last of 65536 entries, is at 0x1800, the used ring at 0x1900.
abbrev asked : Machine
asked = record {
  device = record (virtio_init 1 2 8) {
    queue = λ i. record {
      ready = true;
      num = 16;
      last_avail_idx = 65535;
      desc_addr = 0x1000;
      avail_addr = 0x1800;
      used_addr = 0x1900;
      manual_recv = false;
    };
  };
  cpu = user;
  rest = (
    record {
      bf = block_device_init tt 2048 bf_mode_snapshot;
      req_in_progress = false;
      req = record { type = 7; buf = []; write_size = 0; queue_idx = 0; desc_idx = 0 };
    },
    write_at (λ i. 0) 0 (entry 0x1100 16 1 1 ++ entry 0x1200 5 2 0),
  );
}

-- The index of the queue, the five bytes written, and the count and first entry of the used ring.
abbrev seen : Ran (BlockDevice (Unit {0}) × Buffer) Unit → Option (ℕ × List ℕ × List ℕ)
seen (done w u) =
    some ((w.device.queue 0).last_avail_idx, read_at w.rest.1 5 0x200, read_at w.rest.1 10 0x902)
seen aborted = none
seen undefined = none
seen out_of_rounds = none

-- No whole sector is asked for, so that what is copied is the buffer as it was and the status 0.
queue_notify_test :
    seen (
      queue_notify min load
        (λ w. 0 ∷ 0 ∷ 0 ∷ 0 ∷ [])
        4
        (virtual_block_recv_request no_bytes min load store
          (λ w. [])
          (λ n. 9 ∷ 9 ∷ 9 ∷ 9 ∷ 9 ∷ [])
          4)
        0
        asked)
    ≡ some (0, 9 ∷ 9 ∷ 9 ∷ 9 ∷ 0 ∷ [], 1 ∷ 0 ∷ 0 ∷ 0 ∷ 0 ∷ 0 ∷ 5 ∷ 0 ∷ 0 ∷ 0 ∷ [])
unfolding write_at read_at to_bytes from_bytes desc_of get_desc sext32 queue_notify notify_loop
    get_desc_rw_size virtual_block_recv_request block_device_init space_emu.Memory.update
    space_emu.Virtio.Ram.virtio_memcpy_from_ram space_emu.Virtio.Ram.from_ram_loop
    space_emu.Virtio.Ram.virtio_memcpy_to_ram space_emu.Virtio.Ram.to_ram_loop
    space_emu.Virtio.Notify.receive space_emu.Virtio.Notify.fetch_desc_idx
    space_emu.Virtio.Notify.next_avail space_emu.Virtio.Block.after_header
    space_emu.Virtio.Block.serve space_emu.Virtio.Block.recv_in space_emu.Virtio.Block.finish_in
    space_emu.Virtio.Block.virtual_block_req_end space_emu.Virtio.Block.answer
    space_emu.Virtio.Block.set_block space_emu.Virtio.Copy.virtual_memcpy_from_queue
    space_emu.Virtio.Copy.virtual_memcpy_to_queue space_emu.Virtio.Copy.virtual_memcpy_to_from_queue
    space_emu.Virtio.Copy.copy_loop space_emu.Virtio.Copy.copy_from space_emu.Virtio.Copy.copy_found
    space_emu.Virtio.Copy.copy_written space_emu.Virtio.Copy.move
    space_emu.Virtio.Copy.virtual_consume_desc space_emu.Virtio.Queue.find_write
    space_emu.Virtio.Queue.find_offset space_emu.Virtio.Queue.read_size_loop
    space_emu.Virtio.Queue.write_size_loop space_emu.Virtio.Disk.bf_read_async
    space_emu.Virtio.Disk.read_in space_emu.Virtio.Disk.read_sectors space_emu.Virtio.set_irq
    space_emu.Virtio.set_queue space_emu.Plic.plic_set_irq
queue_notify_test = refl
