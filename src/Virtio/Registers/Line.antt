-- ===== src/Virtio/Registers/Line.antt =====
-- virtio_interface.c: the interrupt of a device and its line to the interrupt controller.
use space_emu.Base.{ℕ, ◌+◌, ◌-◌, ◌%◌, ◌^◌, ◌<◌, ◌≤◌, ◌≡◌, ap, ◌∙◌, sym, arith, true, false, Bool}
use space_emu.Base.{List, bit_and, leb, ltb, ◌==◌, ◌!=◌, ◌&&◌, Bool-cases, inl, inr}
use space_emu.Base.{switch_all, either, switch}
use space_emu.Base.Bits.{has_bit, has_bit-bit_and, has_bit-bit_or, has_bit-lnot, has_bit-pow}
use space_emu.Base.Bits.{eq_of_bits, has_bit_zero}
use space_emu.Base.Word.{lnot, u32, sub64}
use space_emu.Cpu.{CpuState}
use space_emu.Device.Laws.{write_words_keeps}
use space_emu.Plic.{plic_set_irq}
use space_emu.Plic.Claim.{pending-update_mip}
use space_emu.Virtio.{World, VirtioDevice, set_irq, set_queue, max_queue}
use space_emu.Virtio.Registers.{LittleEndian, write_cases, write_register, write_status}
use space_emu.Virtio.Registers.{write_interrupt_ack}
use space_emu.Virtio.Registers.{virtual_mmio_write, virtual_mmio_write_sub, virtual_config_write}
use space_emu.Virtio.Registers.{virtual_io_reset, in_config}

-- The source of the device is pending exactly if its interrupt status is not 0.
pub record IsLine {M : Type 0} (w : World M) : Type 0 where
  pub positive : 0 < w.device.irq_num
  pub bounded : w.device.irq_num ≤ 32
  pub line : has_bit w.cpu.plic_pending_irq (w.device.irq_num - 1) ≡ (w.device.int_status != 0)

pending-plic_set_irq :
    (s : CpuState) (n : ℕ) (flag : Bool)
    → 0 < n
    → n ≤ 32
    → has_bit (plic_set_irq s n flag).plic_pending_irq (n - 1) ≡ flag
unfolding plic_set_irq
pending-plic_set_irq s n true h k =
    ap (λ p. has_bit p (n - 1)) (pending-update_mip _)
    ∙ ground (
      arith,
      has_bit-bit_or s.plic_pending_irq (2 ^ (n - 1)) (n - 1),
      has_bit-pow (n - 1) (n - 1),
    )
pending-plic_set_irq s n false h k =
    ap (λ p. has_bit p (n - 1)) (pending-update_mip _)
    ∙ ground (
      arith,
      has_bit-bit_and s.plic_pending_irq (lnot 32 (2 ^ (n - 1))) (n - 1),
      has_bit-lnot 32 (2 ^ (n - 1)) (n - 1),
      has_bit-pow (n - 1) (n - 1),
    )

zero-and : (a : ℕ) → bit_and 0 a ≡ 0
zero-and a = eq_of_bits _ _ λ i. ground (arith, has_bit-bit_and 0 a i, has_bit_zero i)

module _ {M : Type 0} where
  -- After the line is set to what the status says.
  pub set_irq-IsLine :
      (w : World M) (level : Bool)
      → 0 < w.device.irq_num
      → w.device.irq_num ≤ 32
      → (w.device.int_status != 0) ≡ level
      → IsLine (set_irq w level)
  unfolding set_irq
  set_irq-IsLine w level h k e = record {
    positive = h;
    bounded = k;
    line = pending-plic_set_irq w.cpu w.device.irq_num level h k ∙ sym e;
  }

  write_status-IsLine : (w : World M) (value : ℕ) → IsLine w → IsLine (write_status w value)
  unfolding write_status set_irq virtual_io_reset
  write_status-IsLine w value h = elim (Bool-cases (value == 0)) [
    | inl e ↦ rw e (record {
      positive = h.positive;
      bounded = h.bounded;
      line = pending-plic_set_irq w.cpu w.device.irq_num false h.positive h.bounded;
    })
    | inr e ↦ rw e (record { positive = h.positive; bounded = h.bounded; line = h.line })
  ]

  write_interrupt_ack-IsLine :
      (w : World M) (value : ℕ) → IsLine w → IsLine (write_interrupt_ack w value)
  unfolding write_interrupt_ack
  write_interrupt_ack-IsLine w value h =
      let status = bit_and w.device.int_status (lnot 32 value) in
      let w' = record w { device = record (w.device) { int_status = status } } in
      elim (Bool-cases (status == 0)) [
        | inl e ↦ rw e (set_irq-IsLine w' false h.positive h.bounded (ground (arith, e)))
        | inr e ↦ rw e (record {
          positive = h.positive;
          bounded = h.bounded;
          line = h.line ∙ ground (arith, e, zero-and (lnot 32 value));
        })
      ]

  module _ (notify : World M → ℕ → World M)
      (keep : (w : World M) (queue_idx : ℕ) → IsLine w → IsLine (notify w queue_idx)) where
    write_register-IsLine :
        (w : World M) (offset value : ℕ) → IsLine w → IsLine (write_register notify w offset value)
    unfolding write_register write_cases set_queue
    write_register-IsLine w offset value h =
        switch_all IsLine offset (write_cases notify w value)
          (
            record { positive = h.positive; bounded = h.bounded; line = h.line },
            (
              either IsLine (ltb value max_queue)
                  (record { positive = h.positive; bounded = h.bounded; line = h.line }) h,
              (
                either IsLine (bit_and value ((value + 2 ^ 32 - 1) % 2 ^ 32) == 0 && ltb 0 value)
                    (record { positive = h.positive; bounded = h.bounded; line = h.line }) h,
                (
                  record { positive = h.positive; bounded = h.bounded; line = h.line },
                  (
                    record { positive = h.positive; bounded = h.bounded; line = h.line },
                    (
                      record { positive = h.positive; bounded = h.bounded; line = h.line },
                      (
                        record { positive = h.positive; bounded = h.bounded; line = h.line },
                        (
                          record { positive = h.positive; bounded = h.bounded; line = h.line },
                          (
                            record { positive = h.positive; bounded = h.bounded; line = h.line },
                            (
                              write_status-IsLine w value h,
                              (
                                record {
                                  positive = h.positive;
                                  bounded = h.bounded;
                                  line = h.line;
                                },
                                (
                                  either IsLine (ltb value max_queue) (keep w value h) h,
                                  (write_interrupt_ack-IsLine w value h, tt),
                                ),
                              ),
                            ),
                          ),
                        ),
                      ),
                    ),
                  ),
                ),
              ),
            ),
          )
          h

    module _ (le : LittleEndian) (start : ℕ) where
      config-IsLine :
          (w : World M) (offset value : ℕ)
          → IsLine w
          → IsLine (record w { device = virtual_config_write le w.device offset value 4 })
      unfolding virtual_config_write switch
      config-IsLine w offset value h =
          either (λ (d : VirtioDevice). IsLine (record w { device = d }))
            (in_config w.device offset 3)
            (record { positive = h.positive; bounded = h.bounded; line = h.line }) h

      write_sub-IsLine :
          (w : World M) (value dst : ℕ)
          → IsLine w
          → IsLine (virtual_mmio_write_sub le start notify w value dst).0
      unfolding virtual_mmio_write_sub
      write_sub-IsLine w value dst h =
          let offset = u32 (sub64 dst start) in
          either (λ (r : World M × ℕ). IsLine r.0) (leb 0x100 offset)
            (config-IsLine w (offset - 0x100) value h) (write_register-IsLine w offset value h)

      -- If a notification keeps the line as the interrupt status says, so does every write to the
      -- registers, of any size and at any place.
      pub virtual_mmio_write-IsLine :
          (w : World M) (src : List ℕ) (dst : ℕ)
          → IsLine w
          → IsLine (virtual_mmio_write le start notify w src dst).state
      unfolding virtual_mmio_write
      virtual_mmio_write-IsLine w src dst h =
          write_words_keeps IsLine (virtual_mmio_write_sub le start notify) write_sub-IsLine w src
            dst h
