-- ===== src/Virtio/Registers/Valid.antt =====
-- virtio_interface.c: what the registers of a device hold, and the size of a ring.
use space_emu.Base.{ℕ, ◌+◌, ◌-◌, ◌%◌, ◌^◌, ◌<◌, ◌≡◌, refl}
use space_emu.Base.{arith, true}
use space_emu.Base.{List, bit_and, ltb, leb, ◌==◌, ◌&&◌, Bool-cases, inl, inr, if◌then◌else◌}
use space_emu.Virtio.Registers.RingSize.{IsRingSize, ring_size}
use space_emu.Virtio.{World, max_queue, QueueState, VirtioDevice, set_queue, set_irq}
use space_emu.Base.{either, switch_all, switch, ◌!=◌}
use space_emu.Base.Word.{lnot, u32, sub64}
use space_emu.Device.Laws.{write_words_keeps_word}
use space_emu.Virtio.Registers.{LittleEndian, write_cases, write_register, write_status}
use space_emu.Virtio.Registers.{write_interrupt_ack}
use space_emu.Virtio.Registers.{virtual_mmio_write, virtual_mmio_write_sub, virtual_config_write}
use space_emu.Virtio.Registers.{virtual_io_reset, reset_queue, in_config, set_low32, set_high32}

-- The queue that is selected is one of the eight, and every ring has a size the driver may set.
pub record IsRegistered {M : Type 0} (w : World M) : Type 0 where
  pub selected : w.device.queue_select < max_queue
  pub rings : (i : ℕ) → i < max_queue → IsRingSize (w.device.queue i).num

module _ {M : Type 0} where
  pub set_queue-IsRegistered :
      (w : World M) (i : ℕ) (f : QueueState → QueueState)
      → ((qs : QueueState) → IsRingSize qs.num → IsRingSize (f qs).num)
      → IsRegistered w
      → IsRegistered (set_queue w i f)
  unfolding set_queue
  set_queue-IsRegistered w i f k h = record {
    selected = h.selected;
    rings = λ j small.
        either (λ (qs : QueueState). IsRingSize qs.num) (j == i)
          (k (w.device.queue j) (h.rings j small)) (h.rings j small);
  }

  write_status-IsRegistered :
      (w : World M) (value : ℕ) → IsRegistered w → IsRegistered (write_status w value)
  unfolding write_status set_irq virtual_io_reset reset_queue
  write_status-IsRegistered w value h =
      either IsRegistered (value == 0)
        (record {
          selected = omega arith;
          rings = λ j small.
              let first : ltb j max_queue ≡ true = ground arith in rw first (4, omega arith, refl);
        })
        (record { selected = h.selected; rings = h.rings })

  write_interrupt_ack-IsRegistered :
      (w : World M) (value : ℕ) → IsRegistered w → IsRegistered (write_interrupt_ack w value)
  unfolding write_interrupt_ack set_irq
  write_interrupt_ack-IsRegistered w value h =
      either IsRegistered (bit_and w.device.int_status (lnot 32 value) == 0)
        (record { selected = h.selected; rings = h.rings })
        (record { selected = h.selected; rings = h.rings })

  module _ (notify : World M → ℕ → World M)
      (keep : (w : World M) (queue_idx : ℕ)
        → IsRegistered w
        → IsRegistered (notify w queue_idx)) where
    -- The register for the size of the ring.
    num-IsRegistered :
        (w : World M) (value : ℕ)
        → value < 2 ^ 32
        → IsRegistered w
        → IsRegistered (
            if bit_and value ((value + 2 ^ 32 - 1) % 2 ^ 32) == 0 && ltb 0 value
            then set_queue w w.device.queue_select (λ qs. record qs { num = value })
            else w)
    num-IsRegistered w value small h =
        elim (Bool-cases (bit_and value ((value + 2 ^ 32 - 1) % 2 ^ 32) == 0 && ltb 0 value)) [
          | inl e ↦ rw e (
              set_queue-IsRegistered w w.device.queue_select (λ qs. record qs { num = value })
                (λ qs k. ring_size value small e) h)
          | inr e ↦ rw e h
        ]

    select-IsRegistered :
        (w : World M) (value : ℕ)
        → IsRegistered w
        → IsRegistered (
            if ltb value max_queue
            then record w { device = record (w.device) { queue_select = value } }
            else w)
    select-IsRegistered w value h = elim (Bool-cases (ltb value max_queue)) [
      | inl e ↦ rw e (record { selected = ground (arith, e); rings = h.rings })
      | inr e ↦ rw e h
    ]

    write_register-IsRegistered :
        (w : World M) (offset value : ℕ)
        → value < 2 ^ 32
        → IsRegistered w
        → IsRegistered (write_register notify w offset value)
    unfolding write_register write_cases
    write_register-IsRegistered w offset value small h =
        switch_all IsRegistered offset (write_cases notify w value)
          (
            record { selected = h.selected; rings = h.rings },
            (
              select-IsRegistered w value h,
              (
                num-IsRegistered w value small h,
                (
                  set_queue-IsRegistered w w.device.queue_select
                      (λ qs. record qs { desc_addr = set_low32 qs.desc_addr value }) (λ qs k. k) h,
                  (
                    set_queue-IsRegistered w w.device.queue_select
                        (λ qs. record qs { avail_addr = set_low32 qs.avail_addr value }) (λ qs k. k)
                        h,
                    (
                      set_queue-IsRegistered w w.device.queue_select
                          (λ qs. record qs { used_addr = set_low32 qs.used_addr value }) (λ qs k. k)
                          h,
                      (
                        set_queue-IsRegistered w w.device.queue_select
                            (λ qs. record qs { desc_addr = set_high32 qs.desc_addr value })
                            (λ qs k. k) h,
                        (
                          set_queue-IsRegistered w w.device.queue_select
                              (λ qs. record qs { avail_addr = set_high32 qs.avail_addr value })
                              (λ qs k. k) h,
                          (
                            set_queue-IsRegistered w w.device.queue_select
                                (λ qs. record qs { used_addr = set_high32 qs.used_addr value })
                                (λ qs k. k) h,
                            (
                              write_status-IsRegistered w value h,
                              (
                                set_queue-IsRegistered w w.device.queue_select
                                    (λ qs. record qs { ready = bit_and value 1 != 0 }) (λ qs k. k)
                                    h,
                                (
                                  either IsRegistered (ltb value max_queue) (keep w value h) h,
                                  (write_interrupt_ack-IsRegistered w value h, tt),
                                ),
                              ),
                            ),
                          ),
                        ),
                      ),
                    ),
                  ),
                ),
              ),
            ),
          )
          h

    module _ (le : LittleEndian) (start : ℕ) where
      write_sub-IsRegistered :
          (w : World M) (value dst : ℕ)
          → value < 2 ^ 32
          → IsRegistered w
          → IsRegistered (virtual_mmio_write_sub le start notify w value dst).0
      unfolding virtual_mmio_write_sub virtual_config_write switch
      write_sub-IsRegistered w value dst small h =
          let offset = u32 (sub64 dst start) in
          either (λ (r : World M × ℕ). IsRegistered r.0) (leb 0x100 offset)
            (either (λ (d : VirtioDevice). IsRegistered (record w { device = d }))
              (in_config w.device (offset - 0x100) 3)
              (record { selected = h.selected; rings = h.rings }) h)
            (write_register-IsRegistered w offset value small h)

      pub virtual_mmio_write-IsRegistered :
          (w : World M) (src : List ℕ) (dst : ℕ)
          → IsRegistered w
          → IsRegistered (virtual_mmio_write le start notify w src dst).state
      unfolding virtual_mmio_write
      virtual_mmio_write-IsRegistered w src dst h =
          write_words_keeps_word IsRegistered (virtual_mmio_write_sub le start notify)
            write_sub-IsRegistered w src dst h
