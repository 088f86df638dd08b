-- ===== src/Virtio/Ram.antt =====
-- virtio_interface.c: copies between a buffer of the device and physical memory. What the accesses
-- return is not tested. A count is an int, and the rounds are as many as the bytes.
pub mod Whole
use space_emu.Base.{ℕ, zero, suc, ◌-◌, ◌%◌, true, false, List, ◌++◌}
use space_emu.Base.Word.{add64}
use space_emu.Device.{Reply}
use space_emu.Translate.Vaddr.{take, drop}
use space_emu.Virtio.{World, overlay, positive, virtio_page_size}

-- The bytes of a round.
abbrev pub chunk : (ℕ → ℕ → ℕ) → ℕ → ℕ → ℕ
chunk min_int count addr = min_int count (virtio_page_size - addr % virtio_page_size)

module _ {M : Type 0} (min_int : ℕ → ℕ → ℕ) where
  module _ (read : World M → ℕ → ℕ → Reply (World M)) where
    -- `buf` holds `old` before.
    unfoldable pub from_ram_loop : ℕ → World M → List ℕ → ℕ → ℕ → World M × List ℕ
    from_ram_loop zero w old addr count = (w, old)
    from_ram_loop (suc left) w old addr count = elim (positive count) [
      | false ↦ (w, old)
      | true ↦
          (let len = chunk min_int count addr in
            let r = read w addr len in
            let (w', rest) =
              from_ram_loop left r.state (drop len old) (add64 addr len) (count - len) in
            (w', overlay r.bytes (take len old) ++ rest))
    ]

    unfoldable pub virtio_memcpy_from_ram : World M → List ℕ → ℕ → ℕ → World M × List ℕ
    virtio_memcpy_from_ram w old addr count = from_ram_loop count w old addr count

  module _ (write : World M → ℕ → List ℕ → Reply (World M)) where
    unfoldable pub to_ram_loop : ℕ → World M → ℕ → List ℕ → ℕ → World M
    to_ram_loop zero w addr buf count = w
    to_ram_loop (suc left) w addr buf count = elim (positive count) [
      | false ↦ w
      | true ↦
          (let len = chunk min_int count addr in
            to_ram_loop left (write w addr (take len buf)).state (add64 addr len) (drop len buf)
              (count - len))
    ]

    unfoldable pub virtio_memcpy_to_ram : World M → ℕ → List ℕ → ℕ → World M
    virtio_memcpy_to_ram w addr buf count = to_ram_loop count w addr buf count
