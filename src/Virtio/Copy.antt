-- ===== src/Virtio/Copy.antt =====
-- virtio_interface.c: copies between a buffer and the bytes of a chain of descriptors, and the
-- entry of a chain in the used ring.
pub mod Gather
use space_emu.Base.{ℕ, zero, suc, ◌+◌, ◌*◌, ◌^◌, bit_and, bit_or, Bool, true, false, ◌==◌}
use space_emu.Base.{ltb, List, ◌++◌, Option, none, some}
use space_emu.Base.Bytes.{from_bytes, to_bytes}
use space_emu.Base.Word.{u32, add64}
use space_emu.Alu.Helpers.{sext32}
use space_emu.Device.{Reply}
use space_emu.Translate.Vaddr.{take, drop}
use space_emu.Virtio.{World, done, out_of_rounds, undefined, Exec, pure, ◌>>=◌, overlay}
use space_emu.Virtio.{set_irq, QueueState}
use space_emu.Virtio.Ram.{virtio_memcpy_from_ram, virtio_memcpy_to_ram}
use space_emu.Virtio.Queue.{desc_of, has_next, is_write, same, sub32, get_desc, find_write}
use space_emu.Virtio.Queue.{find_offset}

-- Where `index` points in a ring of `num` entries.
abbrev pub ring_slot : ℕ → ℕ → ℕ
ring_slot index num = bit_and index (sub32 num 1)

-- The bytes of a round come before those of the rounds that follow.
abbrev pub prepend : {M : Type 0} → List ℕ → Exec M (Bool × List ℕ) → Exec M (Bool × List ℕ)
prepend moved m = m >>= λ r. pure (r.0, moved ++ r.1)

module _ {M : Type 0} (min_int : ℕ → ℕ → ℕ) (read : World M → ℕ → ℕ → Reply (World M))
    (write : World M → ℕ → List ℕ → Reply (World M)) where
  -- The bytes of a round; the buffer's part is returned as it is after it.
  unfoldable pub move : Bool → World M → ℕ → List ℕ → ℕ → World M × List ℕ
  unfolding virtio_memcpy_from_ram virtio_memcpy_to_ram
  move true w addr part len = (virtio_memcpy_to_ram min_int write w addr part len, part)
  move false w addr part len = virtio_memcpy_from_ram min_int read w part addr len

  -- The third loop: whether 0 is returned rather than -1, and the buffer as it is left. A length
  -- that is negative as an int leads out of the buffer.
  unfoldable pub copy_loop : ℕ → Bool → ℕ → List ℕ → ℕ → ℕ → List ℕ → Exec M (Bool × List ℕ)
  unfolding get_desc desc_of move
  copy_loop zero to_queue queue_idx bytes offset count buf w = out_of_rounds
  copy_loop (suc left) to_queue queue_idx bytes offset count buf w =
      let d = desc_of bytes in
      let len = min_int count (sub32 d.len offset) in
      let (w', moved) = move to_queue w (add64 d.addr (sext32 offset)) (take len buf) len in
      let count' = sub32 count len in
      let offset' = u32 (offset + len) in
      let follow : ℕ → List ℕ → Exec M (Bool × List ℕ) =
        λ o b. prepend moved (copy_loop left to_queue queue_idx b o count' (drop len buf)) in
      let stop : Bool → Exec M (Bool × List ℕ) = λ ok. pure (ok, moved ++ drop len buf) in
      elim (count' == 0) [
        | true ↦ stop true w'
        | false ↦ elim (ltb len (2 ^ 31)) [
          | false ↦ undefined
          | true ↦ elim (offset' == d.len) [
            | false ↦ follow offset' bytes w'
            | true ↦ elim (has_next d) [
              | false ↦ stop false w'
              | true ↦
                  (let (w'', bytes') = get_desc min_int read w' bytes queue_idx d.next in
                    elim (same (is_write (desc_of bytes')) to_queue) [
                      | false ↦ stop false w''
                      | true ↦ follow 0 bytes' w''
                    ])
            ]
          ]
        ]
      ]

  -- From where the second loop has come, or the return -1.
  unfoldable pub copy_found :
      ℕ → Bool → ℕ → ℕ → List ℕ → Option (List ℕ × ℕ) → Exec M (Bool × List ℕ)
  unfolding copy_loop
  copy_found rounds to_queue queue_idx count buf none = pure (false, buf)
  copy_found rounds to_queue queue_idx count buf (some (bytes, offset)) =
      copy_loop rounds to_queue queue_idx bytes offset count buf

  unfoldable pub copy_from : ℕ → Bool → ℕ → ℕ → ℕ → List ℕ → List ℕ → Exec M (Bool × List ℕ)
  unfolding find_offset copy_found
  copy_from rounds to_queue queue_idx offset count buf bytes =
      find_offset min_int read rounds to_queue queue_idx bytes offset
      >>= copy_found rounds to_queue queue_idx count buf

  unfoldable pub copy_written : ℕ → ℕ → ℕ → ℕ → List ℕ → Option (List ℕ) → Exec M (Bool × List ℕ)
  unfolding copy_from
  copy_written rounds queue_idx offset count buf none = pure (false, buf)
  copy_written rounds queue_idx offset count buf (some bytes) =
      copy_from rounds true queue_idx offset count buf bytes

  -- With `rounds` rounds for each loop.
  unfoldable pub virtual_memcpy_to_from_queue :
      ℕ → List ℕ → Bool → ℕ → ℕ → ℕ → ℕ → List ℕ → Exec M (Bool × List ℕ)
  unfolding get_desc find_write copy_from copy_written
  virtual_memcpy_to_from_queue rounds old to_queue queue_idx desc_idx offset count buf w =
      elim (count == 0) [
        | true ↦ done w (true, buf)
        | false ↦
            (let (w', bytes) = get_desc min_int read w old queue_idx desc_idx in
              elim to_queue [
                | true ↦
                    (find_write min_int read rounds queue_idx bytes
                        >>= copy_written rounds queue_idx offset count buf)
                      w'
                | false ↦ copy_from rounds false queue_idx offset count buf bytes w'
              ])
      ]

  unfoldable pub virtual_memcpy_to_queue :
      ℕ → List ℕ → ℕ → ℕ → ℕ → List ℕ → ℕ → Exec M (Bool × List ℕ)
  virtual_memcpy_to_queue rounds old queue_idx desc_idx offset buf count =
      virtual_memcpy_to_from_queue rounds old true queue_idx desc_idx offset count buf

  unfoldable pub virtual_memcpy_from_queue :
      ℕ → List ℕ → List ℕ → ℕ → ℕ → ℕ → ℕ → Exec M (Bool × List ℕ)
  virtual_memcpy_from_queue rounds old buf queue_idx desc_idx offset count =
      virtual_memcpy_to_from_queue rounds old false queue_idx desc_idx offset count buf

  -- `index` is 0 before two of its bytes are read.
  unfoldable pub virtual_consume_desc : World M → ℕ → ℕ → ℕ → World M
  unfolding to_bytes from_bytes set_irq
  virtual_consume_desc w queue_idx desc_idx desc_len =
      let qs : World M → QueueState = λ v. v.device.queue queue_idx in
      let addr = add64 (qs w).used_addr 2 in
      let r = read w addr 2 in
      let index = from_bytes (overlay r.bytes (to_bytes 4 0)) in
      let w1 = (write r.state addr (to_bytes 2 (u32 (index + 1)))).state in
      let entry = add64 (add64 (qs w1).used_addr 4) (u32 (ring_slot index (qs w1).num * 8)) in
      let w2 = (write w1 entry (to_bytes 4 desc_idx)).state in
      let w3 = (write w2 (add64 entry 4) (to_bytes 4 desc_len)).state in
      set_irq
        (record w3 { device = record (w3.device) { int_status = bit_or w3.device.int_status 1 } })
        true
