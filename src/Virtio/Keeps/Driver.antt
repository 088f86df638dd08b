-- ===== src/Virtio/Keeps/Driver.antt =====
-- virtio_interface.c: what every write of the driver to the registers of the block device keeps,
-- with the requests that a notification serves.
use space_emu.Base.{ℕ, ◌+◌, ◌%◌, ◌^◌, true, ◌!=◌, ◌≡◌, arith}
use space_emu.Base.{List, bit_or}
use space_emu.Base.Bits.Step.{bit_or_step}
use space_emu.Device.{Reply}
use space_emu.Virtio.{World, set_irq, set_queue}
use space_emu.Virtio.Notify.{next_avail}
use space_emu.Virtio.Disk.{Stream}
use space_emu.Virtio.Block.{BlockDevice}
use space_emu.Virtio.Keeps.{DeviceKeeps, raise_used}
use space_emu.Virtio.Registers.{LittleEndian, virtual_mmio_write}
use space_emu.Virtio.Registers.Line.{IsLine, set_irq-IsLine, virtual_mmio_write-IsLine}
use space_emu.Virtio.Keeps.Block.{block_notify, block_notify-keeps}
use space_emu.Virtio.Registers.Valid.{IsRegistered, virtual_mmio_write-IsRegistered}
use space_emu.Virtio.Registers.Valid.{set_queue-IsRegistered}

raised-used : (a : ℕ) → (bit_or a 1 != 0) ≡ true
raised-used a = ground (arith, bit_or_step a 1)

module _ {F M : Type 0} (stream : Stream F) (min_int : ℕ → ℕ → ℕ)
    (read : World (BlockDevice F × M) → ℕ → ℕ → Reply (World (BlockDevice F × M)))
    (write : World (BlockDevice F × M) → ℕ → List ℕ → Reply (World (BlockDevice F × M)))
    (stale : World (BlockDevice F × M) → List ℕ) (fresh : ℕ → List ℕ) (rounds : ℕ)
    (le : LittleEndian) (start : ℕ) where
  -- A property that the physical accesses keep.
  abbrev pub ReadKeeps : (World (BlockDevice F × M) → Type 0) → Type 0
  ReadKeeps P = (w : World (BlockDevice F × M)) (a n : ℕ) → P w → P (read w a n).state

  abbrev pub WriteKeeps : (World (BlockDevice F × M) → Type 0) → Type 0
  WriteKeeps P =
      (w : World (BlockDevice F × M)) (a : ℕ) (src : List ℕ) → P w → P (write w a src).state

  raise_used-IsLine : (w : World (BlockDevice F × M)) → IsLine w → IsLine (raise_used w)
  raise_used-IsLine w h =
      let raised = record w {
        device = record (w.device) { int_status = bit_or w.device.int_status 1 };
      } in
      set_irq-IsLine raised true h.positive h.bounded (raised-used w.device.int_status)

  -- If the physical accesses keep the line of the block device as its interrupt status says, so
  -- does every write of the driver to its registers, of any size and at any place, with all the
  -- requests that a notification serves.
  pub block_write-IsLine :
      (w : World (BlockDevice F × M)) (src : List ℕ) (dst : ℕ)
      → ReadKeeps IsLine
      → WriteKeeps IsLine
      → IsLine w
      → IsLine
          (virtual_mmio_write le start
            (block_notify stream min_int read write stale fresh rounds)
            w
            src
            dst).state
  unfolding next_avail set_queue
  block_write-IsLine w src dst keep_read keep_write h =
      let keep : DeviceKeeps min_int read write stale IsLine = record {
        keep_read = keep_read;
        keep_write = keep_write;
        keep_next =
            λ v queue_idx k. record { positive = k.positive; bounded = k.bounded; line = k.line };
        keep_raise = raise_used-IsLine;
      } in
      virtual_mmio_write-IsLine (block_notify stream min_int read write stale fresh rounds)
        (block_notify-keeps stream min_int read write stale fresh rounds IsLine keep
          (λ v b k. record { positive = k.positive; bounded = k.bounded; line = k.line }))
        le start w src dst h

  -- If the physical accesses keep the selected queue one of the eight and every ring at a size
  -- that is a power of two, so does every write of the driver to the registers of the block
  -- device, of any size and at any place, with all the requests that a notification serves.
  pub block_write-IsRegistered :
      (w : World (BlockDevice F × M)) (src : List ℕ) (dst : ℕ)
      → ReadKeeps IsRegistered
      → WriteKeeps IsRegistered
      → IsRegistered w
      → IsRegistered
          (virtual_mmio_write le start
            (block_notify stream min_int read write stale fresh rounds)
            w
            src
            dst).state
  unfolding next_avail set_irq
  block_write-IsRegistered w src dst keep_read keep_write h =
      let keep : DeviceKeeps min_int read write stale IsRegistered = record {
        keep_read = keep_read;
        keep_write = keep_write;
        keep_next = λ v queue_idx k.
            set_queue-IsRegistered v queue_idx
              (λ qs. record qs { last_avail_idx = (qs.last_avail_idx + 1) % 2 ^ 16 }) (λ qs l. l) k;
        keep_raise = λ v k. record { selected = k.selected; rings = k.rings };
      } in
      virtual_mmio_write-IsRegistered (block_notify stream min_int read write stale fresh rounds)
        (block_notify-keeps stream min_int read write stale fresh rounds IsRegistered keep
          (λ v b k. record { selected = k.selected; rings = k.rings }))
        le start w src dst h
