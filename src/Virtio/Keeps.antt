-- ===== src/Virtio/Keeps.antt =====
-- virtio_interface.c: a property of the machine that the accesses, the rings and the interrupt of
-- a device keep, carried through everything that the device does with its queues.
pub mod Queues
pub mod Block
pub mod Driver
use space_emu.Base.{ℕ, zero, suc, ◌+◌, ◌-◌, Bool, true, false, ltb, List}
use space_emu.Base.{bit_or}
use space_emu.Base.Word.{add64, u32}
use space_emu.Device.{Reply}
use space_emu.Translate.Vaddr.{take, drop}
use space_emu.Virtio.{World, Ran, done, aborted, undefined, out_of_rounds, Exec, ◌>>=◌, positive}
use space_emu.Virtio.{set_irq, continue}
use space_emu.Virtio.Ram.{from_ram_loop, to_ram_loop, virtio_memcpy_from_ram}
use space_emu.Virtio.Ram.{chunk}
use space_emu.Virtio.Queue.{get_desc, desc_of, is_write, has_next, write_size_loop, read_size_loop}
use space_emu.Virtio.Queue.{get_desc_rw_size, find_write, find_offset, same}
use space_emu.Virtio.Notify.{next_avail}

-- A status with the bit of the used ring set, and the line raised.
abbrev pub raise_used : {M : Type 0} → World M → World M
raise_used w =
    set_irq (record w { device = record (w.device) { int_status = bit_or w.device.int_status 1 } })
      true

-- What the device does beside its accesses.
pub record DeviceKeeps {M : Type 0} (min_int : ℕ → ℕ → ℕ) (read : World M → ℕ → ℕ → Reply (World M))
    (write : World M → ℕ → List ℕ → Reply (World M)) (stale : World M → List ℕ)
    (P : World M → Type 0) : Type 0 where
  pub keep_read : (w : World M) (a n : ℕ) → P w → P (read w a n).state
  pub keep_write : (w : World M) (a : ℕ) (src : List ℕ) → P w → P (write w a src).state
  pub keep_next :
      (w : World M) (queue_idx : ℕ) → P w → P (next_avail min_int read stale w queue_idx)
  pub keep_raise : (w : World M) → P w → P (raise_used w)

module _ {M : Type 0} (P : World M → Type 0) where
  -- A function that returns leaves a machine with the property.
  abbrev pub After : {A : Type 0} → Ran M A → Type 0
  After (done w a) = P w
  After aborted = Unit
  After undefined = Unit
  After out_of_rounds = Unit

  abbrev pub Keeps : {A : Type 0} → Exec M A → Type 0
  Keeps m = (w : World M) → P w → After (m w)

  continue-After :
      {A B : Type 0} (r : Ran M A) (f : A → Exec M B)
      → After r
      → ((a : A) → Keeps (f a))
      → After (continue r f)
  continue-After (done w a) f h k = k a w h
  continue-After aborted f h k = tt
  continue-After undefined f h k = tt
  continue-After out_of_rounds f h k = tt

  pub bind-Keeps :
      {A B : Type 0} (m : Exec M A) (f : A → Exec M B)
      → Keeps m
      → ((a : A) → Keeps (f a))
      → Keeps (m >>= f)
  bind-Keeps m f h k w p = continue-After (m w) f (h w p) k

-- Both sides of a branch.
pub branch {κ} :
    {R : Type 0} (Q : R → Type κ) (b : Bool) {x y : R}
    → Q x
    → Q y
    → Q (elim b as (λ _. R) [ true ↦ x | false ↦ y ])
branch Q true h k = h
branch Q false h k = k

module _ {M : Type 0} (min_int : ℕ → ℕ → ℕ) (read : World M → ℕ → ℕ → Reply (World M))
    (write : World M → ℕ → List ℕ → Reply (World M)) (stale : World M → List ℕ)
    (P : World M → Type 0) (keep : DeviceKeeps min_int read write stale P) where
  pub from_ram_loop-keeps :
      (left : ℕ) (w : World M) (old : List ℕ) (addr count : ℕ)
      → P w
      → P (from_ram_loop min_int read left w old addr count).0
  unfolding from_ram_loop
  from_ram_loop-keeps zero w old addr count h = h
  from_ram_loop-keeps (suc left) w old addr count h =
      let len = chunk min_int count addr in
      let rest =
        from_ram_loop-keeps left (read w addr len).state (drop len old) (add64 addr len)
          (count - len) (keep.keep_read w addr len h) in
      branch (λ (r : World M × List ℕ). P r.0) (positive count) rest h

  pub to_ram_loop-keeps :
      (left : ℕ) (w : World M) (addr : ℕ) (buf : List ℕ) (count : ℕ)
      → P w
      → P (to_ram_loop min_int write left w addr buf count)
  unfolding to_ram_loop
  to_ram_loop-keeps zero w addr buf count h = h
  to_ram_loop-keeps (suc left) w addr buf count h =
      let len = chunk min_int count addr in
      let rest =
        to_ram_loop-keeps left (write w addr (take len buf)).state (add64 addr len) (drop len buf)
          (count - len) (keep.keep_write w addr (take len buf) h) in
      branch P (positive count) rest h

  pub get_desc-keeps :
      (w : World M) (old : List ℕ) (queue_idx desc_idx : ℕ)
      → P w
      → P (get_desc min_int read w old queue_idx desc_idx).0
  unfolding get_desc virtio_memcpy_from_ram
  get_desc-keeps w old queue_idx desc_idx h = from_ram_loop-keeps 16 w old _ 16 h

  write_size_loop-Keeps :
      (left queue_idx read_size : ℕ) (bytes : List ℕ) (write_size : ℕ)
      → Keeps P (write_size_loop min_int read left queue_idx read_size bytes write_size)
  unfolding write_size_loop
  write_size_loop-Keeps zero queue_idx read_size bytes write_size w h = tt
  write_size_loop-Keeps (suc left) queue_idx read_size bytes write_size w h =
      let d = desc_of bytes in
      let step = get_desc min_int read w bytes queue_idx d.next in
      let rest =
        write_size_loop-Keeps left queue_idx read_size step.1 (u32 (write_size + d.len)) step.0
          (get_desc-keeps w bytes queue_idx d.next h) in
      branch (After P) (is_write d) (branch (After P) (has_next d) rest h) h

  read_size_loop-Keeps :
      (left queue_idx read_size : ℕ) (bytes : List ℕ)
      → Keeps P (read_size_loop min_int read left queue_idx read_size bytes)
  unfolding read_size_loop
  read_size_loop-Keeps zero queue_idx read_size bytes w h = tt
  read_size_loop-Keeps (suc left) queue_idx read_size bytes w h =
      let d = desc_of bytes in
      let step = get_desc min_int read w bytes queue_idx d.next in
      let rest =
        read_size_loop-Keeps left queue_idx d.len step.1 step.0
          (get_desc-keeps w bytes queue_idx d.next h) in
      branch (After P) (is_write d)
        (write_size_loop-Keeps (suc left) queue_idx read_size bytes 0 w h)
        (branch (After P) (has_next d) rest h)

  pub get_desc_rw_size-Keeps :
      (rounds : ℕ) (old : List ℕ) (queue_idx desc_idx : ℕ)
      → Keeps P (get_desc_rw_size min_int read rounds old queue_idx desc_idx)
  unfolding get_desc_rw_size
  get_desc_rw_size-Keeps rounds old queue_idx desc_idx w h =
      let first = get_desc min_int read w old queue_idx desc_idx in
      read_size_loop-Keeps rounds queue_idx 0 first.1 first.0
        (get_desc-keeps w old queue_idx desc_idx h)

  pub find_write-Keeps :
      (left queue_idx : ℕ) (bytes : List ℕ) → Keeps P (find_write min_int read left queue_idx bytes)
  unfolding find_write
  find_write-Keeps zero queue_idx bytes w h = tt
  find_write-Keeps (suc left) queue_idx bytes w h =
      let d = desc_of bytes in
      let step = get_desc min_int read w bytes queue_idx d.next in
      let rest =
        find_write-Keeps left queue_idx step.1 step.0 (get_desc-keeps w bytes queue_idx d.next h) in
      branch (After P) (is_write d) h (branch (After P) (has_next d) rest h)

  pub find_offset-Keeps :
      (left : ℕ) (to_queue : Bool) (queue_idx : ℕ) (bytes : List ℕ) (offset : ℕ)
      → Keeps P (find_offset min_int read left to_queue queue_idx bytes offset)
  unfolding find_offset
  find_offset-Keeps zero to_queue queue_idx bytes offset w h = tt
  find_offset-Keeps (suc left) to_queue queue_idx bytes offset w h =
      let d = desc_of bytes in
      let step = get_desc min_int read w bytes queue_idx d.next in
      let rest =
        find_offset-Keeps left to_queue queue_idx step.1 d.len step.0
          (get_desc-keeps w bytes queue_idx d.next h) in
      branch (After P) (same (is_write d) to_queue)
        (branch (After P) (ltb offset d.len) h (branch (After P) (has_next d) rest h)) h
