-- ===== src/Virtio/Console.antt =====
-- virtio_interface.c: the requests of the virtio console, and how the host's input reaches its
-- first queue. What is printed is kept after the rest of the machine's state.
use space_emu.Base.{ℕ, ◌/◌, ◌^◌, bit_or, Bool, true, false, ◌==◌, ◌!=◌}
use space_emu.Base.{if◌then◌else◌, List, ◌++◌, none, some}
use space_emu.Base.Bytes.{from_bytes}
use space_emu.Base.Word.{u8, add64}
use space_emu.Device.{Reply}
use space_emu.Translate.Vaddr.{take}
use space_emu.Virtio.{World, done, Exec, pure, ◌>>=◌, overlay}
use space_emu.Virtio.{set_irq, get_queue}
use space_emu.Virtio.Queue.{get_desc_rw_size}
use space_emu.Virtio.Copy.{virtual_memcpy_to_queue, virtual_memcpy_from_queue, virtual_consume_desc}
use space_emu.Virtio.Notify.{next_avail, avail_entry}

-- A change of the size of the window is an interrupt for a change of the configuration.
unfoldable pub virtio_console_resize_event : {M : Type 0} → World M → ℕ → ℕ → World M
unfolding set_irq
virtio_console_resize_event w width height =
    let space = w.device.config_space in
    set_irq
      (record w {
        device = record (w.device) {
          config_space = λ i.
              if i == 0
              then u8 width
              else if i == 1
              then u8 (width / 2 ^ 8)
              else if i == 2
              then u8 height
              else if i == 3
              then u8 (height / 2 ^ 8)
              else space i;
          int_status = bit_or w.device.int_status 2;
        };
      })
      true

-- `fresh n` are the bytes of a buffer from `malloc`, which has one for every size.
module _ {M : Type 0} (min_int : ℕ → ℕ → ℕ)
    (read : World (List ℕ × M) → ℕ → ℕ → Reply (World (List ℕ × M)))
    (write : World (List ℕ × M) → ℕ → List ℕ → Reply (World (List ℕ × M)))
    (stale : World (List ℕ × M) → List ℕ) (fresh : ℕ → List ℕ) (rounds : ℕ) where
  abbrev print : List ℕ → Exec (List ℕ × M) Unit
  print text w = done (record w { rest = (w.rest.0 ++ text, w.rest.1) }) tt

  abbrev consume : ℕ → ℕ → ℕ → Exec (List ℕ × M) Unit
  consume queue_idx desc_idx desc_len w =
      done (virtual_consume_desc min_int read write w queue_idx desc_idx desc_len) tt

  unfoldable pub virtio_console_recv_request : ℕ → ℕ → ℕ → ℕ → Exec (List ℕ × M) Bool
  unfolding virtual_memcpy_from_queue virtual_consume_desc
  virtio_console_recv_request queue_idx desc_idx read_size write_size = elim (queue_idx == 1) [
    | false ↦ pure true
    | true ↦
        (λ w.
          virtual_memcpy_from_queue min_int read write rounds (stale w) (fresh read_size) queue_idx
            desc_idx 0 read_size w)
        >>= λ copied. print copied.1 >>= λ _. consume queue_idx desc_idx 0 >>= λ _. pure true
  ]

  -- `avail_idx`
  abbrev read_avail_idx : Exec (List ℕ × M) ℕ
  read_avail_idx w =
      let r = read w (add64 (w.device.queue 0).avail_addr 2) 2 in
      done r.state (from_bytes (overlay r.bytes (take 2 (stale w))))

  -- `desc_idx`, of which only two bytes are read.
  abbrev read_desc_idx : Exec (List ℕ × M) ℕ
  read_desc_idx w =
      let r = read w (avail_entry (w.device.queue 0)) 2 in
      done r.state (from_bytes (overlay r.bytes (take 4 (stale w))))

  unfoldable pub virtio_console_can_write_data : Exec (List ℕ × M) Bool
  unfolding from_bytes
  virtio_console_can_write_data = get_queue 0 >>= λ qs. elim qs.ready [
    | false ↦ pure false
    | true ↦ read_avail_idx >>= λ avail_idx.
        get_queue 0 >>= λ qs'. pure (qs'.last_avail_idx != avail_idx)
  ]

  -- With a chain from the first queue, or 0 if there is none.
  abbrev with_chain : (ℕ → Exec (List ℕ × M) ℕ) → Exec (List ℕ × M) ℕ
  with_chain f = get_queue 0 >>= λ qs. elim qs.ready [
    | false ↦ pure 0
    | true ↦ read_avail_idx >>= λ avail_idx. get_queue 0 >>= λ qs'.
        elim (qs'.last_avail_idx == avail_idx) [ true ↦ pure 0 | false ↦ read_desc_idx >>= f ]
  ]

  unfoldable pub virtio_console_get_write_len : Exec (List ℕ × M) ℕ
  unfolding from_bytes get_desc_rw_size
  virtio_console_get_write_len = with_chain λ desc_idx.
      (λ w. get_desc_rw_size min_int read rounds (stale w) 0 desc_idx w) >>= λ sizes. elim sizes [
        | none ↦ pure 0
        | some (read_size, write_size) ↦ pure write_size
      ]

  unfoldable pub virtio_console_write_data : List ℕ → ℕ → Exec (List ℕ × M) ℕ
  unfolding from_bytes virtual_memcpy_to_queue virtual_consume_desc next_avail
  virtio_console_write_data buf buf_len = with_chain λ desc_idx.
      (λ w. virtual_memcpy_to_queue min_int read write rounds (stale w) 0 desc_idx 0 buf buf_len w)
      >>= λ copied.
          consume 0 desc_idx buf_len >>= λ _. λ w. done (next_avail min_int read stale w 0) buf_len
