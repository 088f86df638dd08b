-- ===== src/Virtio/Board/Used.antt =====
-- virtio_interface.c: `virtual_consume_desc` with its ring in the RAM of the board.
use space_emu.Base.{ℕ, ◌+◌, ◌-◌, ◌*◌, ◌%◌, ◌^◌, ◌<◌, ◌≤◌, ◌≡◌, refl, arith, ◌∙◌, ap, true}
use space_emu.Base.Bytes.{to_bytes, from_bytes, length-to_bytes}
use space_emu.Base.Word.{u32, add64}
use space_emu.Board.{Board}
use space_emu.Cpu.{CpuState}
use space_emu.Memory.{Buffer, ram_base_addr, memory_size}
use space_emu.Memory.Safety.{read_at, write_at}
use space_emu.Virtio.{VirtioDevice, overlay}
use space_emu.Virtio.Board.{world_read, world_write, with_ram, board-RamBus}
use space_emu.Virtio.Copy.{virtual_consume_desc}
use space_emu.Virtio.Keeps.{raise_used}
use space_emu.Virtio.Registers.RingSize.{IsRingSize, ring_slot-IsRingSize}
use native.Mathlib.Nat.{mod-lt, one-le-pow}

-- The number of chains that were returned, in the used ring at `used`.
abbrev pub used_count : Buffer → ℕ → ℕ
used_count mem used = from_bytes (read_at mem 2 (used + 2))

-- A ring of `num` entries with one more: the count goes up in its 16 bits, and the entry at the
-- old count holds the chain and its length.
abbrev pub push_used : Buffer → ℕ → ℕ → ℕ → ℕ → Buffer
push_used mem used num desc_idx desc_len =
    let entry = used + 4 + used_count mem used % num * 8 in
    write_at
      (write_at (write_at mem (used + 2) (to_bytes 2 (used_count mem used + 1))) entry
        (to_bytes 4 desc_idx))
      (entry + 4) (to_bytes 4 desc_len)

used_count-lt : (mem : Buffer) (used : ℕ) → used_count mem used < 2 ^ 16
unfolding read_at from_bytes
used_count-lt mem used = omega arith

-- The two bytes are read over a zero of four.
index_of :
    (mem : Buffer) (used : ℕ)
    → from_bytes (overlay (read_at mem 2 (used + 2)) (to_bytes 4 0)) ≡ used_count mem used
unfolding read_at from_bytes to_bytes
index_of mem used = refl

IsRingSize-positive : (num : ℕ) → IsRingSize num → 0 < num
IsRingSize-positive num (k, small, p) = omega (arith, p, one-le-pow k 2 (omega arith))

module _ {B : Type 0} (min_int : ℕ → ℕ → ℕ) (ctz32 : ℕ → ℕ) (real : ℕ → ℕ) (device : VirtioDevice)
    (cpu : CpuState) (own : B) (board : Board) where
  store :
      (mem : Buffer) (a k n value : ℕ)
      → ram_base_addr + k ≡ a
      → a + n < ram_base_addr + memory_size
      → (world_write ctz32 real
          (with_ram ctz32 real device cpu own board mem)
          a
          (to_bytes n value)).state
        ≡ with_ram ctz32 real device cpu own board (write_at mem k (to_bytes n value))
  store mem a k n value e high =
      let pos : a - ram_base_addr ≡ k = omega arith in
      ap (λ r. r.state)
        ((board-RamBus ctz32 real device cpu own board).on_write mem a (to_bytes n value)
          (omega arith) (omega (arith, length-to_bytes n value)))
      ∙ ap (λ p. with_ram ctz32 real device cpu own board (write_at mem p (to_bytes n value))) pos

  load :
      (mem : Buffer) (a k n : ℕ)
      → ram_base_addr + k ≡ a
      → a + n < ram_base_addr + memory_size
      → world_read ctz32 real (with_ram ctz32 real device cpu own board mem) a n ≡ record {
        state = with_ram ctz32 real device cpu own board mem;
        bytes = read_at mem n k;
        ok = true;
      }
  load mem a k n e high =
      let pos : a - ram_base_addr ≡ k = omega arith in
      (board-RamBus ctz32 real device cpu own board).on_read mem a n (omega arith) high
      ∙ ap
          (λ p. record {
            state = with_ram ctz32 real device cpu own board mem;
            bytes = read_at mem n p;
            ok = true;
          })
          pos

  -- On the board, with the whole used ring in the RAM, before its last byte, and a size that
  -- the driver may set: a chain is returned by one more entry in the ring and a raised
  -- interrupt, and nothing else changes.
  pub consume-push_used :
      (mem : Buffer) (queue_idx desc_idx desc_len : ℕ)
      → ram_base_addr ≤ (device.queue queue_idx).used_addr
      → (device.queue queue_idx).used_addr + 4 + (device.queue queue_idx).num * 8
        < ram_base_addr + memory_size
      → IsRingSize (device.queue queue_idx).num
      → virtual_consume_desc min_int
          (world_read ctz32 real)
          (world_write ctz32 real)
          (with_ram ctz32 real device cpu own board mem)
          queue_idx
          desc_idx
          desc_len
        ≡ raise_used (
            with_ram ctz32 real device cpu own board (
              push_used mem
                ((device.queue queue_idx).used_addr - ram_base_addr)
                (device.queue queue_idx).num
                desc_idx
                desc_len))
  unfolding virtual_consume_desc
  consume-push_used mem queue_idx desc_idx desc_len low high size =
      let u = (device.queue queue_idx).used_addr in
      let num = (device.queue queue_idx).num in
      let k = u - ram_base_addr in
      let count = used_count mem k in
      let small = used_count-lt mem k in
      let pos = IsRingSize-positive num size in
      let below = mod-lt count pos in
      let entry = k + 4 + count % num * 8 in
      let e1 : add64 u 2 ≡ u + 2 = omega arith in
      let e2 : u32 (count + 1) ≡ count + 1 = omega (arith, small) in
      let slot = ring_slot-IsRingSize count num size in
      let e3 : add64 (add64 u 4) (u32 (count % num * 8)) ≡ u + 4 + count % num * 8 =
        omega (arith, below) in
      let e4 : add64 (u + 4 + count % num * 8) 4 ≡ u + 4 + count % num * 8 + 4 =
        omega (arith, below) in
      let r = load mem (u + 2) (k + 2) 2 (omega arith) (omega arith) in
      let mem1 = write_at mem (k + 2) (to_bytes 2 (count + 1)) in
      let s1 = store mem (u + 2) (k + 2) 2 (count + 1) (omega arith) (omega arith) in
      let s2 =
        store mem1 (u + 4 + count % num * 8) entry 4 desc_idx (omega arith)
          (omega (arith, below)) in
      let mem2 = write_at mem1 entry (to_bytes 4 desc_idx) in
      let s3 =
        store mem2 (u + 4 + count % num * 8 + 4) (entry + 4) 4 desc_len (omega arith)
          (omega (arith, below)) in
      rw (e1, r) (rw (index_of mem k, e2, s1) (rw (slot, e3, s2) (rw (e4, s3) refl)))
