-- ===== src/Virtio/Keeps/Queues.antt =====
-- virtio_interface.c: a property of the machine through the copies, the used ring and
-- `queue_notify`.
use space_emu.Base.{ℕ, zero, suc, ◌+◌, ◌==◌, ◌^◌, Bool, true, false, ltb, List, ◌++◌}
use space_emu.Base.{Option, none, some}
use space_emu.Base.Bytes.{from_bytes}
use space_emu.Base.Word.{add64, u32}
use space_emu.Alu.Helpers.{sext32}
use space_emu.Device.{Reply}
use space_emu.Translate.Vaddr.{take, drop}
use space_emu.Virtio.{World, Exec, pure, overlay}
use space_emu.Virtio.Ram.{virtio_memcpy_from_ram, virtio_memcpy_to_ram}
use space_emu.Virtio.Queue.{get_desc, desc_of, is_write, has_next, get_desc_rw_size, find_write}
use space_emu.Virtio.Queue.{find_offset, same, sub32}
use space_emu.Virtio.Copy.{move, copy_loop, copy_found, copy_from, copy_written, prepend}
use space_emu.Virtio.Copy.{virtual_memcpy_to_from_queue, virtual_consume_desc}
use space_emu.Virtio.Notify.{next_avail, fetch_desc_idx, receive, notify_loop, queue_notify}
use space_emu.Virtio.Keeps.{DeviceKeeps, Keeps, After, bind-Keeps, branch, from_ram_loop-keeps}
use space_emu.Virtio.Keeps.{to_ram_loop-keeps, get_desc-keeps, get_desc_rw_size-Keeps}
use space_emu.Virtio.Keeps.{find_write-Keeps, find_offset-Keeps}

module _ {M : Type 0} (min_int : ℕ → ℕ → ℕ) (read : World M → ℕ → ℕ → Reply (World M))
    (write : World M → ℕ → List ℕ → Reply (World M)) (stale : World M → List ℕ)
    (P : World M → Type 0) (keep : DeviceKeeps min_int read write stale P) where
  move-keeps :
      (to_queue : Bool) (w : World M) (addr : ℕ) (part : List ℕ) (len : ℕ)
      → P w
      → P (move min_int read write to_queue w addr part len).0
  unfolding move virtio_memcpy_from_ram virtio_memcpy_to_ram
  move-keeps true w addr part len h =
      to_ram_loop-keeps min_int read write stale P keep len w addr part len h
  move-keeps false w addr part len h =
      from_ram_loop-keeps min_int read write stale P keep len w part addr len h

  prepend-Keeps :
      (moved : List ℕ) (m : Exec M (Bool × List ℕ)) → Keeps P m → Keeps P (prepend moved m)
  prepend-Keeps moved m k = bind-Keeps P m (λ r. pure (r.0, moved ++ r.1)) k (λ r w h. h)

  copy_loop-Keeps :
      (left : ℕ) (to_queue : Bool) (queue_idx : ℕ) (bytes : List ℕ) (offset count : ℕ)
      (buf : List ℕ)
      → Keeps P (copy_loop min_int read write left to_queue queue_idx bytes offset count buf)
  unfolding copy_loop
  copy_loop-Keeps zero to_queue queue_idx bytes offset count buf w h = tt
  copy_loop-Keeps (suc left) to_queue queue_idx bytes offset count buf w h =
      let d = desc_of bytes in
      let len = min_int count (sub32 d.len offset) in
      let count' = sub32 count len in
      let offset' = u32 (offset + len) in
      let moved =
        move min_int read write to_queue w (add64 d.addr (sext32 offset)) (take len buf) len in
      let h1 = move-keeps to_queue w (add64 d.addr (sext32 offset)) (take len buf) len h in
      let step = get_desc min_int read moved.0 bytes queue_idx d.next in
      let h2 = get_desc-keeps min_int read write stale P keep moved.0 bytes queue_idx d.next h1 in
      branch (After P) (count' == 0) h1 (
        branch (After P) (ltb len (2 ^ 31))
          (branch (After P) (offset' == d.len)
            (branch (After P) (has_next d)
              (branch (After P) (same (is_write (desc_of step.1)) to_queue)
                (prepend-Keeps moved.1 _
                  (copy_loop-Keeps left to_queue queue_idx step.1 0 count' (drop len buf)) step.0
                  h2)
                h2)
              h1)
            (prepend-Keeps moved.1 _
              (copy_loop-Keeps left to_queue queue_idx bytes offset' count' (drop len buf)) moved.0
              h1))
          tt)

  copy_found-Keeps :
      (rounds : ℕ) (to_queue : Bool) (queue_idx count : ℕ) (buf : List ℕ) (o : Option (List ℕ × ℕ))
      → Keeps P (copy_found min_int read write rounds to_queue queue_idx count buf o)
  unfolding copy_found
  copy_found-Keeps rounds to_queue queue_idx count buf none w h = h
  copy_found-Keeps rounds to_queue queue_idx count buf (some (bytes, offset)) w h =
      copy_loop-Keeps rounds to_queue queue_idx bytes offset count buf w h

  copy_from-Keeps :
      (rounds : ℕ) (to_queue : Bool) (queue_idx offset count : ℕ) (buf bytes : List ℕ)
      → Keeps P (copy_from min_int read write rounds to_queue queue_idx offset count buf bytes)
  unfolding copy_from
  copy_from-Keeps rounds to_queue queue_idx offset count buf bytes =
      bind-Keeps P (find_offset min_int read rounds to_queue queue_idx bytes offset)
        (copy_found min_int read write rounds to_queue queue_idx count buf)
        (find_offset-Keeps min_int read write stale P keep rounds to_queue queue_idx bytes offset)
        (copy_found-Keeps rounds to_queue queue_idx count buf)

  copy_written-Keeps :
      (rounds queue_idx offset count : ℕ) (buf : List ℕ) (o : Option (List ℕ))
      → Keeps P (copy_written min_int read write rounds queue_idx offset count buf o)
  unfolding copy_written
  copy_written-Keeps rounds queue_idx offset count buf none w h = h
  copy_written-Keeps rounds queue_idx offset count buf (some bytes) w h =
      copy_from-Keeps rounds true queue_idx offset count buf bytes w h

  pub to_from_queue-Keeps :
      (rounds : ℕ) (old : List ℕ) (to_queue : Bool) (queue_idx desc_idx offset count : ℕ)
      (buf : List ℕ)
      → Keeps P (
          virtual_memcpy_to_from_queue min_int read write rounds old to_queue queue_idx desc_idx
            offset count buf)
  unfolding virtual_memcpy_to_from_queue
  to_from_queue-Keeps rounds old to_queue queue_idx desc_idx offset count buf w h =
      let first = get_desc min_int read w old queue_idx desc_idx in
      let h1 = get_desc-keeps min_int read write stale P keep w old queue_idx desc_idx h in
      let writing =
        bind-Keeps P (find_write min_int read rounds queue_idx first.1)
          (copy_written min_int read write rounds queue_idx offset count buf)
          (find_write-Keeps min_int read write stale P keep rounds queue_idx first.1)
          (copy_written-Keeps rounds queue_idx offset count buf) in
      branch (After P) (count == 0) h (
        branch (After P) to_queue (writing first.0 h1)
          (copy_from-Keeps rounds false queue_idx offset count buf first.1 first.0 h1))

  pub consume-keeps :
      (w : World M) (queue_idx desc_idx desc_len : ℕ)
      → P w
      → P (virtual_consume_desc min_int read write w queue_idx desc_idx desc_len)
  unfolding virtual_consume_desc
  consume-keeps w queue_idx desc_idx desc_len h = keep.keep_raise _ (
      keep.keep_write _ _ _
        (keep.keep_write _ _ _ (keep.keep_write _ _ _ (keep.keep_read w _ 2 h))))

  fetch-keeps :
      (w : World M) (queue_idx : ℕ) (old : List ℕ)
      → P w
      → P (fetch_desc_idx min_int read stale w queue_idx old).0
  unfolding fetch_desc_idx
  fetch-keeps w queue_idx old h = keep.keep_read w _ 2 h

  module _ (rounds : ℕ) (recv : ℕ → ℕ → ℕ → ℕ → Exec M Bool)
      (keep_recv : (q d r s : ℕ) → Keeps P (recv q d r s)) where
    receive-Keeps :
        (queue_idx desc_idx : ℕ) (o : Option (ℕ × ℕ))
        → Keeps P (receive min_int read stale rounds recv queue_idx desc_idx o)
    unfolding receive
    receive-Keeps queue_idx desc_idx none w h = h
    receive-Keeps queue_idx desc_idx (some (read_size, write_size)) w h =
        keep_recv queue_idx desc_idx read_size write_size w h

    notify_loop-Keeps :
        (left queue_idx avail_idx : ℕ) (old : List ℕ)
        → Keeps P (notify_loop min_int read stale rounds recv left queue_idx avail_idx old)
    unfolding notify_loop
    notify_loop-Keeps zero queue_idx avail_idx old w h = tt
    notify_loop-Keeps (suc left) queue_idx avail_idx old w h =
        let fetched = fetch_desc_idx min_int read stale w queue_idx old in
        let desc_idx = from_bytes fetched.1 in
        let sized =
          bind-Keeps P (get_desc_rw_size min_int read rounds (stale fetched.0) queue_idx desc_idx)
            (receive min_int read stale rounds recv queue_idx desc_idx)
            (get_desc_rw_size-Keeps min_int read write stale P keep rounds (stale fetched.0)
              queue_idx desc_idx)
            (receive-Keeps queue_idx desc_idx) in
        branch (After P) ((w.device.queue queue_idx).last_avail_idx == avail_idx) h (
          bind-Keeps P _ _ sized
            (λ received v k.
              branch (After P) received
                (notify_loop-Keeps left queue_idx avail_idx fetched.1
                  (next_avail min_int read stale v queue_idx) (keep.keep_next v queue_idx k))
                k)
            fetched.0 (fetch-keeps w queue_idx old h))

    pub queue_notify-Keeps :
        (queue_idx : ℕ) → Keeps P (queue_notify min_int read stale rounds recv queue_idx)
    unfolding queue_notify
    queue_notify-Keeps queue_idx w h =
        let qs = w.device.queue queue_idx in
        let r = read w (add64 qs.avail_addr 2) 2 in
        branch (After P) qs.manual_recv h (
          branch (After P) r.ok
            (notify_loop-Keeps rounds queue_idx (from_bytes (overlay r.bytes (take 2 (stale w))))
              (take 4 (stale w)) r.state (keep.keep_read w (add64 qs.avail_addr 2) 2 h))
            tt)
