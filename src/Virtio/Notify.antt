-- ===== src/Virtio/Notify.antt =====
-- virtio_interface.c: `queue_notify` takes the chains that the driver has made available.
-- `recv` is the device's function to receive one, and tells whether it returned 0 or more.
use space_emu.Base.{ℕ, zero, suc, ◌+◌, ◌*◌, ◌%◌, ◌^◌, Bool, true, false, ◌==◌, if◌then◌else◌, List}
use space_emu.Base.{Option, none, some}
use space_emu.Base.Bytes.{from_bytes, to_bytes}
use space_emu.Base.Word.{u32, add64}
use space_emu.Device.{Reply}
use space_emu.Translate.Vaddr.{take}
use space_emu.Virtio.{World, done, out_of_rounds, Exec, pure, ◌>>=◌, abort, overlay}
use space_emu.Virtio.{set_queue, QueueState}
use space_emu.Virtio.Queue.{get_desc_rw_size}
use space_emu.Virtio.Copy.{ring_slot}

-- The entry of the available ring for the next chain.
abbrev pub avail_entry : QueueState → ℕ
avail_entry qs = add64 (add64 qs.avail_addr 4) (u32 (ring_slot qs.last_avail_idx qs.num * 2))

-- `stale` is what the local variables hold before they are set.
module _ {M : Type 0} (min_int : ℕ → ℕ → ℕ) (read : World M → ℕ → ℕ → Reply (World M))
    (stale : World M → List ℕ) where
  unfoldable pub next_avail : World M → ℕ → World M
  unfolding set_queue
  next_avail w queue_idx =
      set_queue w queue_idx (λ qs. record qs { last_avail_idx = (qs.last_avail_idx + 1) % 2 ^ 16 })

  -- `*desc_idx` holds the bytes `old` before; a refused read makes it 0.
  unfoldable pub fetch_desc_idx : World M → ℕ → List ℕ → World M × List ℕ
  unfolding to_bytes
  fetch_desc_idx w queue_idx old =
      let r = read w (avail_entry (w.device.queue queue_idx)) 2 in
      (r.state, if r.ok then overlay r.bytes old else to_bytes 4 0)

  module _ (rounds : ℕ) (recv : ℕ → ℕ → ℕ → ℕ → Exec M Bool) where
    -- The device receives a chain whose sizes are known, and the others are passed over. The loop
    -- ends, with `false`, if it returns less than 0.
    unfoldable pub receive : ℕ → ℕ → Option (ℕ × ℕ) → Exec M Bool
    receive queue_idx desc_idx none = pure true
    receive queue_idx desc_idx (some (read_size, write_size)) =
        recv queue_idx desc_idx read_size write_size

    -- The `while` loop, and `left` more rounds of it.
    unfoldable pub notify_loop : ℕ → ℕ → ℕ → List ℕ → Exec M Unit
    unfolding from_bytes next_avail fetch_desc_idx get_desc_rw_size receive
    notify_loop zero queue_idx avail_idx old w = out_of_rounds
    notify_loop (suc left) queue_idx avail_idx old w =
        elim ((w.device.queue queue_idx).last_avail_idx == avail_idx) [
          | true ↦ done w tt
          | false ↦
              (let (w1, bytes) = fetch_desc_idx w queue_idx old in
                let desc_idx = from_bytes bytes in
                (get_desc_rw_size min_int read rounds (stale w1) queue_idx desc_idx
                    >>= receive queue_idx desc_idx
                    >>= λ received v. elim received [
                      | true ↦ notify_loop left queue_idx avail_idx bytes (next_avail v queue_idx)
                      | false ↦ done v tt
                    ])
                  w1)
        ]

    unfoldable pub queue_notify : ℕ → Exec M Unit
    unfolding from_bytes notify_loop
    queue_notify queue_idx w =
        let qs = w.device.queue queue_idx in
        elim qs.manual_recv [
          | true ↦ done w tt
          | false ↦
              (let r = read w (add64 qs.avail_addr 2) 2 in
                elim r.ok [
                  | false ↦ abort r.state
                  | true ↦
                      notify_loop rounds queue_idx (from_bytes (overlay r.bytes (take 2 (stale w))))
                        (take 4 (stale w)) r.state
                ])
        ]
