-- ===== src/Virtio/Registers.antt =====
-- virtio_interface.c: the registers of a device, read and written by words. The handler and the
-- buffer are never NULL.
pub mod Words
pub mod Addresses
pub mod Line
pub mod RingSize
pub mod Valid
use space_emu.Base.{ℕ, ◌+◌, ◌-◌, ◌^◌, ◌%◌, bit_and, bit_or, Bool, false, ltb, leb, ◌==◌}
use space_emu.Base.{◌!=◌, ◌&&◌, if◌then◌else◌, switch, List, [], ◌∷◌}
use space_emu.Base.Word.{lnot, u8, u32, u64, sub64, ◌<<<◌, ◌>>>◌}
use space_emu.Device.{Reply, read_words, write_words}
use space_emu.Memory.{Buffer}
use space_emu.Virtio.{VirtioDevice, QueueState, World, set_irq, set_queue, max_queue, max_queue_num}

unfoldable pub reset_queue : QueueState → QueueState
reset_queue qs = record qs {
  ready = false;
  num = max_queue_num;
  desc_addr = 0;
  avail_addr = 0;
  used_addr = 0;
  last_avail_idx = 0;
}

unfoldable pub virtual_io_reset : VirtioDevice → VirtioDevice
virtual_io_reset device = record device {
  status = 0;
  queue_select = 0;
  device_features_select = 0;
  int_status = 0;
  queue = λ i. if ltb i max_queue then reset_queue (device.queue i) else device.queue i;
}

-- The functions of the utility library for integers in a buffer.
pub record LittleEndian : Type 0 where
  pub get_le16 : Buffer → ℕ → ℕ
  pub get_le32 : Buffer → ℕ → ℕ
  pub put_le16 : Buffer → ℕ → ℕ → Buffer
  pub put_le32 : Buffer → ℕ → ℕ → Buffer

-- `offset < device->config_space_size - k`, in uint32_t.
unfoldable pub in_config : VirtioDevice → ℕ → ℕ → Bool
in_config device offset k = ltb offset ((device.config_space_size + 2 ^ 32 - k) % 2 ^ 32)

abbrev set_config : VirtioDevice → Buffer → VirtioDevice
set_config device space = record device { config_space = space }

module _ (le : LittleEndian) where
  -- `size` is 4 in every call, so that the call of `abort` is left out.
  unfoldable pub virtual_config_read : VirtioDevice → ℕ → ℕ → ℕ
  unfolding switch in_config
  virtual_config_read device offset size =
      switch size
        ((1, if in_config device offset 0 then device.config_space offset else 0)
          ∷ (2, if in_config device offset 1 then le.get_le16 device.config_space offset else 0)
          ∷ (4, if in_config device offset 3 then le.get_le32 device.config_space offset else 0)
          ∷ [])
        0

  unfoldable pub virtual_config_write : VirtioDevice → ℕ → ℕ → ℕ → VirtioDevice
  unfolding switch in_config
  virtual_config_write device offset value size =
      let space = device.config_space in
      switch size
        ((
          1,
          if in_config device offset 0
              then set_config device (λ i. if i == offset then u8 value else space i)
              else device,
        )
          ∷ (
            2,
            if in_config device offset 1
                then set_config device (le.put_le16 space offset value)
                else device,
          )
          ∷ (
            4,
            if in_config device offset 3
                then set_config device (le.put_le32 space offset value)
                else device,
          )
          ∷ [])
        device

abbrev pub selected : VirtioDevice → QueueState
selected device = device.queue device.queue_select

abbrev pub bit : Bool → ℕ
bit b = if b then 1 else 0

-- A register below VIRTIO_MMIO_CONFIG.
unfoldable pub read_register : VirtioDevice → ℕ → ℕ
unfolding switch
read_register device offset =
    let features =
      switch device.device_features_select ((0, device.device_features) ∷ (1, 1) ∷ []) 0 in
    let qs = selected device in
    switch offset
      ((0x000, 0x74726976)
        ∷ (0x004, 2)
        ∷ (0x008, device.device_id)
        ∷ (0x00c, device.vendor_id)
        ∷ (0x010, features)
        ∷ (0x014, device.device_features_select)
        ∷ (0x030, device.queue_select)
        ∷ (0x034, max_queue_num)
        ∷ (0x038, qs.num)
        ∷ (0x080, u32 qs.desc_addr)
        ∷ (0x090, u32 qs.avail_addr)
        ∷ (0x0a0, u32 qs.used_addr)
        ∷ (0x084, u32 (qs.desc_addr >>> 32))
        ∷ (0x094, u32 (qs.avail_addr >>> 32))
        ∷ (0x0a4, u32 (qs.used_addr >>> 32))
        ∷ (0x044, bit qs.ready)
        ∷ (0x060, device.int_status)
        ∷ (0x070, device.status)
        ∷ (0x0fc, 0)
        ∷ [])
      0

-- `*addr` after `set_low32` and `set_high32`.
unfoldable pub set_low32 : ℕ → ℕ → ℕ
set_low32 addr value = bit_or (bit_and addr (lnot 64 0xffff_ffff)) value

unfoldable pub set_high32 : ℕ → ℕ → ℕ
set_high32 addr value = bit_or (bit_and addr 0xffff_ffff) (u64 (value <<< 32))

module _ {M : Type 0} where
  -- A change of the queue that is selected.
  abbrev on_selected : World M → (QueueState → QueueState) → World M
  on_selected w f = set_queue w w.device.queue_select f

  unfoldable pub write_status : World M → ℕ → World M
  unfolding set_irq
  write_status w value =
      let w' = record w { device = record (w.device) { status = value } } in
      if value == 0 then record (set_irq w' false) { device = virtual_io_reset w'.device } else w'

  unfoldable pub write_interrupt_ack : World M → ℕ → World M
  unfolding set_irq
  write_interrupt_ack w value =
      let w' = record w {
        device = record (w.device) { int_status = bit_and w.device.int_status (lnot 32 value) };
      } in
      if w'.device.int_status == 0 then set_irq w' false else w'

  -- The registers below VIRTIO_MMIO_CONFIG that may be written; `notify` is `queue_notify`.
  unfoldable pub write_cases : (World M → ℕ → World M) → World M → ℕ → List (ℕ × World M)
  unfolding set_queue
  write_cases notify w value =
      let device = w.device in
      (0x014, record w { device = record device { device_features_select = value } })
      ∷ (
        0x030,
        if ltb value max_queue
            then record w { device = record device { queue_select = value } }
            else w,
      )
      ∷ (
        0x038,
        if bit_and value ((value + 2 ^ 32 - 1) % 2 ^ 32) == 0 && ltb 0 value
            then on_selected w (λ qs. record qs { num = value })
            else w,
      )
      ∷ (0x080, on_selected w (λ qs. record qs { desc_addr = set_low32 qs.desc_addr value }))
      ∷ (0x090, on_selected w (λ qs. record qs { avail_addr = set_low32 qs.avail_addr value }))
      ∷ (0x0a0, on_selected w (λ qs. record qs { used_addr = set_low32 qs.used_addr value }))
      ∷ (0x084, on_selected w (λ qs. record qs { desc_addr = set_high32 qs.desc_addr value }))
      ∷ (0x094, on_selected w (λ qs. record qs { avail_addr = set_high32 qs.avail_addr value }))
      ∷ (0x0a4, on_selected w (λ qs. record qs { used_addr = set_high32 qs.used_addr value }))
      ∷ (0x070, write_status w value)
      ∷ (0x044, on_selected w (λ qs. record qs { ready = bit_and value 1 != 0 }))
      ∷ (0x050, if ltb value max_queue then notify w value else w)
      ∷ (0x064, write_interrupt_ack w value)
      ∷ []

  unfoldable pub write_register : (World M → ℕ → World M) → World M → ℕ → ℕ → World M
  unfolding switch write_cases
  write_register notify w offset value = switch offset (write_cases notify w value) w

  -- The handler starts at `start_address`. Of the configuration the value is returned as the
  -- number of bytes, and nothing is stored at `dst`: the word there stays `old round`.
  module _ (le : LittleEndian) (start_address : ℕ) where
    unfoldable pub virtual_mmio_read_sub : (ℕ → ℕ) → ℕ → World M → ℕ → World M × ℕ × ℕ
    virtual_mmio_read_sub old round w src =
        let offset = u32 (sub64 src start_address) in
        if leb 0x100 offset
        then (w, old round, virtual_config_read le w.device (offset - 0x100) 4)
        else (w, read_register w.device offset, 4)

    unfoldable pub virtual_mmio_read : (ℕ → ℕ) → World M → ℕ → ℕ → Reply (World M)
    virtual_mmio_read old w src size = read_words (virtual_mmio_read_sub old) w src size

    unfoldable pub virtual_mmio_write_sub : (World M → ℕ → World M) → World M → ℕ → ℕ → World M × ℕ
    virtual_mmio_write_sub notify w value dst =
        let offset = u32 (sub64 dst start_address) in
        if leb 0x100 offset
        then (record w { device = virtual_config_write le w.device (offset - 0x100) value 4 }, 4)
        else (write_register notify w offset value, 4)

    unfoldable pub virtual_mmio_write :
        (World M → ℕ → World M) → World M → List ℕ → ℕ → Reply (World M)
    virtual_mmio_write notify w src dst = write_words (virtual_mmio_write_sub notify) w src dst
