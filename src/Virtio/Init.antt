-- ===== src/Virtio/Init.antt =====
-- virtio_interface.c and virtio_block_device.c: how a device is set up. `le` are the functions of
-- the utility library for integers in a buffer.
use space_emu.Base.{ℕ, ◌==◌, true, false, [], some, if◌then◌else◌}
use space_emu.Base.Word.{u32, ◌>>>◌}
use space_emu.Iomap.{AddressItem}
use space_emu.Virtio.{World, VirtioDevice, virtio_page_size}
use space_emu.Virtio.Registers.{LittleEndian, virtual_io_reset, virtual_mmio_read}
use space_emu.Virtio.Registers.{virtual_mmio_write}
use space_emu.Virtio.Disk.{Mode, block_device_init, bf_get_sector_count}
use space_emu.Virtio.Block.{BlockDevice}

-- The fields that `virtio_init` sets, all others being 0.
unfoldable pub virtio_init : ℕ → ℕ → ℕ → VirtioDevice
unfolding virtual_io_reset
virtio_init irq_num device_id config_space_size = virtual_io_reset (record {
  irq_num = irq_num;
  int_status = 0;
  status = 0;
  device_features_select = 0;
  queue_select = 0;
  queue = λ i. record {
    ready = false;
    num = 0;
    last_avail_idx = 0;
    desc_addr = 0;
    avail_addr = 0;
    used_addr = 0;
    manual_recv = false;
  };
  device_id = device_id;
  vendor_id = 0xffff;
  device_features = 0;
  config_space_size = config_space_size;
  config_space = λ i. 0;
})

-- The device and its disk, from a stream of `file_size` bytes that was opened.
unfoldable pub virtual_block_device_init :
    {F : Type 0} → LittleEndian → F → ℕ → Mode → ℕ → VirtioDevice × BlockDevice F
unfolding virtio_init block_device_init bf_get_sector_count
virtual_block_device_init le f file_size mode irq_num =
    let bf = block_device_init f file_size mode in
    let device = virtio_init irq_num 2 8 in
    let nb_sectors = bf_get_sector_count bf in
    let space = le.put_le32 device.config_space 0 (u32 nb_sectors) in
    (
      record device { config_space = le.put_le32 space 4 (u32 (nb_sectors >>> 32)) },
      record {
        bf = bf;
        req_in_progress = false;
        req = record { type = 0; buf = []; write_size = 0; queue_idx = 0; desc_idx = 0 };
      },
    )

-- The console has a window whose size may change, and its first queue is filled by the host.
unfoldable pub virtual_console_device_init : ℕ → VirtioDevice
unfolding virtio_init
virtual_console_device_init irq_num =
    let device = virtio_init irq_num 3 4 in
    record device {
      device_features = 1;
      queue =
          λ i. if i == 0 then record (device.queue 0) { manual_recv = true } else device.queue i;
    }

-- The handler of a device, as `virtio_init` registers it. Its buffer holds `old` before a read.
unfoldable pub virtio_item :
    {M : Type 0} → LittleEndian → ℕ → (ℕ → ℕ) → (World M → ℕ → World M) → AddressItem (World M)
unfolding virtual_mmio_read virtual_mmio_write
virtio_item le start old notify = record {
  start_address = start;
  size = virtio_page_size;
  init = λ w. some w;
  read_bytes = λ w src n. some (virtual_mmio_read le start old w src n);
  write_bytes = λ w src dst. some (virtual_mmio_write le start notify w src dst);
}
