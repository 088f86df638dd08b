-- ===== src/Virtio/Keeps/Block.antt =====
-- virtio_interface.c: a property of the machine through the requests of the block device.
use space_emu.Base.{ℕ, ◌-◌, ◌/◌, ◌^◌, Bool, true, false, ◌==◌, ltb, leb, ◌&&◌}
use space_emu.Base.{List, [], ◌∷◌, ◌++◌, Option, none, some}
use space_emu.Base.Bytes.{from_bytes}
use space_emu.Device.{Reply}
use space_emu.Translate.Vaddr.{take, drop}
use space_emu.Virtio.{World, Ran, done, aborted, undefined, out_of_rounds, pure, positive}
use space_emu.Virtio.Copy.{virtual_memcpy_to_queue, virtual_memcpy_from_queue, virtual_consume_desc}
use space_emu.Virtio.Notify.{queue_notify}
use space_emu.Virtio.Disk.{Stream, BlockDeviceFile, sector_size, bf_write_async}
use space_emu.Virtio.Block.{BlockDevice, block_status, set_block, answer, virtual_block_req_end}
use space_emu.Virtio.Block.{finish_in, finish_out, recv_in, recv_out, serve, after_header}
use space_emu.Virtio.Block.{virtual_block_recv_request}
use space_emu.Virtio.Keeps.{DeviceKeeps, Keeps, After, bind-Keeps, branch}
use space_emu.Virtio.Keeps.Queues.{to_from_queue-Keeps, consume-keeps, queue_notify-Keeps}

-- Where a function ends, whether it returned or not.
ended :
    {M A : Type 0} (P : World M → Type 0) (r : Ran M A) (w : World M)
    → P w
    → After P r
    → P (elim r as (λ _. World M) [
      | done w' a ↦ w'
      | aborted ↦ w
      | undefined ↦ w
      | out_of_rounds ↦ w
    ])
ended P (done w' a) w h k = k
ended P aborted w h k = h
ended P undefined w h k = h
ended P out_of_rounds w h k = h

module _ {F M : Type 0} (stream : Stream F) (min_int : ℕ → ℕ → ℕ)
    (read : World (BlockDevice F × M) → ℕ → ℕ → Reply (World (BlockDevice F × M)))
    (write : World (BlockDevice F × M) → ℕ → List ℕ → Reply (World (BlockDevice F × M)))
    (stale : World (BlockDevice F × M) → List ℕ) (fresh : ℕ → List ℕ) (rounds : ℕ) where
  -- `queue_notify` of the block device; a call that does not return ends the emulator, and leaves
  -- the machine as it was.
  unfoldable pub block_notify : World (BlockDevice F × M) → ℕ → World (BlockDevice F × M)
  unfolding queue_notify virtual_block_recv_request
  block_notify w queue_idx =
      let recv = virtual_block_recv_request stream min_int read write stale fresh rounds in
      elim (queue_notify min_int read stale rounds recv queue_idx w) [
        | done w' u ↦ w'
        | aborted ↦ w
        | undefined ↦ w
        | out_of_rounds ↦ w
      ]

  module _ (P : World (BlockDevice F × M) → Type 0) (keep : DeviceKeeps min_int read write stale P)
      (keep_block : (w : World (BlockDevice F × M)) (b : BlockDevice F)
        → P w
        → P (record w { rest = (b, w.rest.1) })) where
    set_block-Keeps :
        (f : BlockDevice F → BlockDevice F)
        → Keeps P (set_block stream min_int read write stale fresh rounds f)
    unfolding set_block
    set_block-Keeps f w h = keep_block w (f w.rest.0) h

    answer-Keeps :
        (queue_idx desc_idx : ℕ) (buf : List ℕ) (count : ℕ)
        → Keeps P (answer stream min_int read write stale fresh rounds queue_idx desc_idx buf count)
    unfolding answer virtual_memcpy_to_queue
    answer-Keeps queue_idx desc_idx buf count w h =
        bind-Keeps P
          (virtual_memcpy_to_queue min_int read write rounds (stale w) queue_idx desc_idx 0 buf
            count)
          (λ copied v. done (virtual_consume_desc min_int read write v queue_idx desc_idx count) tt)
          (to_from_queue-Keeps min_int read write stale P keep rounds (stale w) true queue_idx
            desc_idx 0 count buf)
          (λ copied v k. consume-keeps min_int read write stale P keep v queue_idx desc_idx count k)
          w h

    req_end-Keeps :
        (ret : Bool)
        → Keeps P (virtual_block_req_end stream min_int read write stale fresh rounds ret)
    unfolding virtual_block_req_end
    req_end-Keeps ret w h =
        let req = w.rest.0.req in
        let whole = take (req.write_size - 1) req.buf ++ (block_status ret ∷ []) in
        branch (After P) (req.type == 0)
          (branch (After P) (positive req.write_size)
            (bind-Keeps P
              (answer stream min_int read write stale fresh rounds req.queue_idx req.desc_idx whole
                req.write_size)
              (λ u.
                set_block stream min_int read write stale fresh rounds
                  (λ b. record b { req = record (b.req) { buf = [] } }))
              (answer-Keeps req.queue_idx req.desc_idx whole req.write_size)
              (λ u. set_block-Keeps (λ b. record b { req = record (b.req) { buf = [] } })) w h)
            tt)
          (branch (After P) (req.type == 1)
            (answer-Keeps req.queue_idx req.desc_idx (block_status ret ∷ []) 1 w h) tt)

    finish_in-Keeps :
        (write_size : ℕ) (o : Option (Bool × List ℕ))
        → Keeps P (finish_in stream min_int read write stale fresh rounds write_size o)
    unfolding finish_in set_block
    finish_in-Keeps write_size none w h = tt
    finish_in-Keeps write_size (some (ret, buf)) w h =
        let b = w.rest.0 in
        let b' : BlockDevice F = record b {
          req = record (b.req) { buf = buf; write_size = write_size };
        } in
        req_end-Keeps ret (record w { rest = (b', w.rest.1) }) (keep_block w b' h)

    finish_out-Keeps :
        (o : Option (Bool × BlockDeviceFile F))
        → Keeps P (finish_out stream min_int read write stale fresh rounds o)
    unfolding finish_out set_block
    finish_out-Keeps none w h = tt
    finish_out-Keeps (some (ret, bf)) w h =
        let b' : BlockDevice F = record (w.rest.0) { bf = bf } in
        req_end-Keeps ret (record w { rest = (b', w.rest.1) }) (keep_block w b' h)

    serve-Keeps :
        (type sector_num queue_idx desc_idx read_size write_size : ℕ)
        → Keeps P (
            serve stream min_int read write stale fresh rounds type sector_num queue_idx desc_idx
              read_size write_size)
    unfolding serve recv_in recv_out virtual_memcpy_from_queue
    serve-Keeps type sector_num queue_idx desc_idx read_size write_size w h =
        let len = read_size - 16 in
        branch (After P) (type == 0)
          (branch (After P) (positive write_size) (finish_in-Keeps write_size _ w h) tt)
          (branch (After P) (type == 1)
            (branch (After P) (positive write_size && (leb 16 read_size && ltb read_size (2 ^ 31)))
              (bind-Keeps P
                (virtual_memcpy_from_queue min_int read write rounds (stale w) (fresh len) queue_idx
                  desc_idx 16 len)
                (λ copied v.
                  finish_out stream min_int read write stale fresh rounds
                    (bf_write_async stream v.rest.0.bf sector_num copied.1 (len / sector_size)) v)
                (to_from_queue-Keeps min_int read write stale P keep rounds (stale w) false
                  queue_idx desc_idx 16 len (fresh len))
                (λ copied v k.
                  finish_out-Keeps
                    (bf_write_async stream v.rest.0.bf sector_num copied.1 (len / sector_size)) v k)
                w h)
              tt)
            h)

    after_header-Keeps :
        (queue_idx desc_idx read_size write_size : ℕ) (ok : Bool) (header : List ℕ)
        → Keeps P (
            after_header stream min_int read write stale fresh rounds queue_idx desc_idx read_size
              write_size ok header)
    unfolding after_header set_block
    after_header-Keeps queue_idx desc_idx read_size write_size false header w h = h
    after_header-Keeps queue_idx desc_idx read_size write_size true header w h =
        let type = from_bytes (take 4 header) in
        let sector_num = from_bytes (take 8 (drop 8 header)) in
        let b = w.rest.0 in
        let b' : BlockDevice F = record b {
          req = record (b.req) { type = type; queue_idx = queue_idx; desc_idx = desc_idx };
        } in
        bind-Keeps P
          (serve stream min_int read write stale fresh rounds type sector_num queue_idx desc_idx
            read_size write_size)
          (λ u. pure true) (serve-Keeps type sector_num queue_idx desc_idx read_size write_size)
          (λ u v k. k) (record w { rest = (b', w.rest.1) }) (keep_block w b' h)

    pub recv_request-Keeps :
        (queue_idx desc_idx read_size write_size : ℕ)
        → Keeps P (
            virtual_block_recv_request stream min_int read write stale fresh rounds queue_idx
              desc_idx read_size write_size)
    unfolding virtual_block_recv_request virtual_memcpy_from_queue
    recv_request-Keeps queue_idx desc_idx read_size write_size w h =
        branch (After P) w.rest.0.req_in_progress h (
          bind-Keeps P
            (virtual_memcpy_from_queue min_int read write rounds (stale w) (take 16 (stale w))
              queue_idx desc_idx 0 16)
            (λ header.
              after_header stream min_int read write stale fresh rounds queue_idx desc_idx read_size
                write_size header.0 header.1)
            (to_from_queue-Keeps min_int read write stale P keep rounds (stale w) false queue_idx
              desc_idx 0 16 (take 16 (stale w)))
            (λ header. after_header-Keeps queue_idx desc_idx read_size write_size header.0 header.1)
            w h)

    pub block_notify-keeps :
        (w : World (BlockDevice F × M)) (queue_idx : ℕ) → P w → P (block_notify w queue_idx)
    unfolding block_notify
    block_notify-keeps w queue_idx h =
        let recv = virtual_block_recv_request stream min_int read write stale fresh rounds in
        ended P (queue_notify min_int read stale rounds recv queue_idx w) w h (
          queue_notify-Keeps min_int read write stale P keep rounds recv recv_request-Keeps
            queue_idx w h)
