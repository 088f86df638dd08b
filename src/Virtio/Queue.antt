-- ===== src/Virtio/Queue.antt =====
-- virtio_interface.c: descriptors and the chains they make. Numbers of int and uint32_t are given
-- by their 32 bits. The loops along a chain end only if the chain does, and are given rounds.
pub mod Sizes
use space_emu.Base.{ℕ, zero, suc, ◌+◌, ◌-◌, ◌*◌, ◌%◌, ◌^◌, bit_and, Bool, true, false, ◌!=◌}
use space_emu.Base.{ltb, if◌then◌else◌, List, not, Option, none, some}
use space_emu.Base.Bytes.{from_bytes}
use space_emu.Base.Word.{u32, u64, add64}
use space_emu.Alu.Helpers.{sext32}
use space_emu.Device.{Reply}
use space_emu.Translate.Vaddr.{take, drop}
use space_emu.Virtio.{World, done, out_of_rounds, Exec}
use space_emu.Virtio.Ram.{virtio_memcpy_from_ram}

-- `virtual_io_desc_t`
pub record Desc : Type 0 where
  pub addr : ℕ
  pub len : ℕ
  pub flags : ℕ
  pub next : ℕ

-- The bytes of a descriptor in memory order.
unfoldable pub desc_of : List ℕ → Desc
unfolding from_bytes
desc_of bytes = record {
  addr = from_bytes (take 8 bytes);
  len = from_bytes (take 4 (drop 8 bytes));
  flags = from_bytes (take 2 (drop 12 bytes));
  next = from_bytes (take 2 (drop 14 bytes));
}

-- VRING_DESC_F_NEXT and VRING_DESC_F_WRITE
abbrev pub has_next : Desc → Bool
has_next d = bit_and d.flags 1 != 0

abbrev pub is_write : Desc → Bool
is_write d = bit_and d.flags 2 != 0

-- The difference of two numbers of 32 bits.
abbrev pub sub32 : ℕ → ℕ → ℕ
sub32 a b = (a + 2 ^ 32 - b) % 2 ^ 32

abbrev pub same : Bool → Bool → Bool
same a b = if a then b else not b

module _ {M : Type 0} (min_int : ℕ → ℕ → ℕ) (read : World M → ℕ → ℕ → Reply (World M)) where
  -- The bytes that the local variable holds before are `old`.
  unfoldable pub get_desc : World M → List ℕ → ℕ → ℕ → World M × List ℕ
  unfolding virtio_memcpy_from_ram
  get_desc w old queue_idx desc_idx =
      virtio_memcpy_from_ram min_int read w old
        (add64 (w.device.queue queue_idx).desc_addr (u64 (sext32 desc_idx * 16))) 16

  -- The second loop: the readable descriptors are behind. `none` is the return -1.
  unfoldable pub write_size_loop : ℕ → ℕ → ℕ → List ℕ → ℕ → Exec M (Option (ℕ × ℕ))
  unfolding get_desc desc_of
  write_size_loop zero queue_idx read_size bytes write_size w = out_of_rounds
  write_size_loop (suc left) queue_idx read_size bytes write_size w =
      let d = desc_of bytes in
      let write_size' = u32 (write_size + d.len) in
      elim (is_write d) [
        | false ↦ done w none
        | true ↦ elim (has_next d) [
          | false ↦ done w (some (read_size, write_size'))
          | true ↦
              (let (w', bytes') = get_desc w bytes queue_idx d.next in
                write_size_loop left queue_idx read_size bytes' write_size' w')
        ]
      ]

  unfoldable pub read_size_loop : ℕ → ℕ → ℕ → List ℕ → Exec M (Option (ℕ × ℕ))
  unfolding get_desc desc_of write_size_loop
  read_size_loop zero queue_idx read_size bytes w = out_of_rounds
  read_size_loop (suc left) queue_idx read_size bytes w =
      let d = desc_of bytes in
      elim (is_write d) [
        | true ↦ write_size_loop (suc left) queue_idx read_size bytes 0 w
        | false ↦ elim (has_next d) [
          | false ↦ done w (some (d.len, 0))
          | true ↦
              (let (w', bytes') = get_desc w bytes queue_idx d.next in
                read_size_loop left queue_idx d.len bytes' w')
        ]
      ]

  -- The sizes to read and to write, in `rounds` rounds.
  unfoldable pub get_desc_rw_size : ℕ → List ℕ → ℕ → ℕ → Exec M (Option (ℕ × ℕ))
  unfolding get_desc read_size_loop
  get_desc_rw_size rounds old queue_idx desc_idx w =
      let (w', bytes) = get_desc w old queue_idx desc_idx in
      read_size_loop rounds queue_idx 0 bytes w'

  -- The first loop of `virtual_memcpy_to_from_queue`: on to a descriptor to be written.
  unfoldable pub find_write : ℕ → ℕ → List ℕ → Exec M (Option (List ℕ))
  unfolding get_desc desc_of
  find_write zero queue_idx bytes w = out_of_rounds
  find_write (suc left) queue_idx bytes w =
      let d = desc_of bytes in
      elim (is_write d) [
        | true ↦ done w (some bytes)
        | false ↦ elim (has_next d) [
          | false ↦ done w none
          | true ↦
              (let (w', bytes') = get_desc w bytes queue_idx d.next in
                find_write left queue_idx bytes' w')
        ]
      ]

  -- The second loop: on to the descriptor in which `offset` lies; `offset = desc.len` sets it to
  -- the length of the descriptor that is left.
  unfoldable pub find_offset : ℕ → Bool → ℕ → List ℕ → ℕ → Exec M (Option (List ℕ × ℕ))
  unfolding get_desc desc_of
  find_offset zero to_queue queue_idx bytes offset w = out_of_rounds
  find_offset (suc left) to_queue queue_idx bytes offset w =
      let d = desc_of bytes in
      elim (same (is_write d) to_queue) [
        | false ↦ done w none
        | true ↦ elim (ltb offset d.len) [
          | true ↦ done w (some (bytes, offset))
          | false ↦ elim (has_next d) [
            | false ↦ done w none
            | true ↦
                (let (w', bytes') = get_desc w bytes queue_idx d.next in
                  find_offset left to_queue queue_idx bytes' d.len w')
          ]
        ]
      ]
