-- ===== src/Virtio/Registers/Addresses.antt =====
-- virtio_interface.c: the addresses of the parts of a queue, written and read by halves.
use space_emu.Base.{ℕ, ◌+◌, ◌/◌, ◌%◌, ◌^◌, ◌<◌, ◌≤◌, ◌≡◌, refl, ap, ◌∙◌, arith, true, false}
use space_emu.Base.{List, [], ◌++◌, switch, leb, ◌==◌, Bool-cases, inl, inr}
use mathlib.Core.Path.{fun_ext}
use space_emu.Base.Bytes.{to_bytes}
use space_emu.Base.Word.{u32, sub64, ◌>>>◌}
use space_emu.Clint.Timer.{low_word}
use space_emu.Device.{Reply, read_words, write_words, read_loop, write_loop}
use space_emu.Virtio.{VirtioDevice, World, QueueState, set_queue}
use space_emu.Virtio.Registers.Words.{set_high32-set_low32, words}
use space_emu.Virtio.Registers.{selected, LittleEndian, write_cases, read_register, write_register}
use space_emu.Virtio.Registers.{set_low32}
use space_emu.Virtio.Registers.{set_high32}
use space_emu.Virtio.Registers.{virtual_mmio_read, virtual_mmio_write, virtual_mmio_read_sub}
use space_emu.Virtio.Registers.{virtual_mmio_write_sub}

abbrev reply : {S : Type 0} → S → List ℕ → Reply S
reply s bytes = record { state = s; bytes = bytes; ok = true }

-- The three parts of a queue.
pub data Part : Type 0 where
  descriptors available used : Part

abbrev pub place : Part → ℕ
place descriptors = 0x080
place available = 0x090
place used = 0x0a0

abbrev address : Part → QueueState → ℕ
address descriptors qs = qs.desc_addr
address available qs = qs.avail_addr
address used qs = qs.used_addr

abbrev pub set_address : Part → ℕ → QueueState → QueueState
set_address descriptors v qs = record qs { desc_addr = v }
set_address available v qs = record qs { avail_addr = v }
set_address used v qs = record qs { used_addr = v }

-- Two changes of one queue are one.
set_queue-set_queue :
    {M : Type 0} (w : World M) (i : ℕ) (f g h : QueueState → QueueState)
    → ((qs : QueueState) → g (f qs) ≡ h qs)
    → set_queue (set_queue w i f) i g ≡ set_queue w i h
unfolding set_queue
set_queue-set_queue w i f g h e =
    ap (λ q. record w { device = record (w.device) { queue = q } })
      (fun_ext λ j. elim (Bool-cases (j == i)) [
        | inl same ↦ rw same (e (w.device.queue j))
        | inr other ↦ rw other refl
      ])

pub set_queue-same :
    {M : Type 0} (w : World M) (i : ℕ) (f : QueueState → QueueState)
    → (set_queue w i f).device.queue i ≡ f (w.device.queue i)
unfolding set_queue
set_queue-same w i f = let self : (i == i) ≡ true = ground arith in rw self refl

module _ {M : Type 0} (le : LittleEndian) (start : ℕ) (fits : start + 4096 ≤ 2 ^ 64)
    (notify : World M → ℕ → World M) where
  write_sub-register :
      (w : World M) (value k : ℕ)
      → k < 0x100
      → virtual_mmio_write_sub le start notify w value (start + k)
        ≡ (write_register notify w k value, 4)
  unfolding virtual_mmio_write_sub
  write_sub-register w value k h =
      let offset : u32 (sub64 (start + k) start) ≡ k = omega arith in
      let below : leb 0x100 k ≡ false = ground arith in rw offset (rw below refl)

  write_pair :
      (w : World M) (v k : ℕ)
      → k + 4 < 0x100
      → v < 2 ^ 64
      → virtual_mmio_write le start notify w (to_bytes 8 v) (start + k) ≡ record {
        state = write_register notify (write_register notify w k (v % 2 ^ 32)) (k + 4) (v / 2 ^ 32);
        bytes = [];
        ok = true;
      }
  unfolding virtual_mmio_write write_words write_loop to_bytes
  write_pair w v k h l =
      let next : (start + k + 4) % 2 ^ 64 ≡ start + (k + 4) = omega arith in
      let high : v / 256 / 256 / 256 / 256 ≡ v / 2 ^ 32 = omega arith in
      let small : v / 2 ^ 32 % 2 ^ 32 ≡ v / 2 ^ 32 = omega arith in
      let w1 = write_register notify w k (v % 2 ^ 32) in
      rw (low_word v, write_sub-register w (v % 2 ^ 32) k (omega arith))
        (rw
          (
            next,
            low_word (v / 256 / 256 / 256 / 256),
            high,
            small,
            write_sub-register w1 (v / 2 ^ 32) (k + 4) h,
          )
          refl)

  read_pair :
      (old : ℕ → ℕ) (w : World M) (k : ℕ)
      → k + 4 < 0x100
      → virtual_mmio_read le start old w (start + k) 8 ≡ record {
        state = w;
        bytes =
            to_bytes 4 (read_register w.device k) ++ to_bytes 4 (read_register w.device (k + 4));
        ok = true;
      }
  unfolding virtual_mmio_read read_words read_loop virtual_mmio_read_sub to_bytes
  read_pair old w k h =
      let next : (start + k + 4) % 2 ^ 64 ≡ start + (k + 4) = omega arith in
      let offset : u32 (sub64 (start + k) start) ≡ k = omega arith in
      let offset' : u32 (sub64 (start + (k + 4)) start) ≡ k + 4 = omega arith in
      let below : leb 0x100 k ≡ false = ground arith in
      let below' : leb 0x100 (k + 4) ≡ false = ground arith in
      rw (next, offset, offset', below, below') refl

  -- What the registers of a part do.
  record Halves (part : Part) : Type 0 where
    below : place part + 4 < 0x100
    low :
        (w : World M) (value : ℕ)
        → write_register notify w (place part) value
          ≡ set_queue w w.device.queue_select
              (λ qs. set_address part (set_low32 (address part qs) value) qs)
    high :
        (w : World M) (value : ℕ)
        → write_register notify w (place part + 4) value
          ≡ set_queue w w.device.queue_select
              (λ qs. set_address part (set_high32 (address part qs) value) qs)
    read_low : (d : VirtioDevice) → read_register d (place part) ≡ u32 (address part (selected d))
    read_high :
        (d : VirtioDevice)
        → read_register d (place part + 4) ≡ u32 (address part (selected d) >>> 32)
    again :
        (a b : ℕ) (qs : QueueState)
        → set_address part a (set_address part b qs) ≡ set_address part a qs
    found : (a : ℕ) (qs : QueueState) → address part (set_address part a qs) ≡ a

  halves : (part : Part) → Halves part
  unfolding write_register write_cases read_register switch
  halves descriptors = record {
    below = omega arith;
    low = λ w value. refl;
    high = λ w value. refl;
    read_low = λ d. refl;
    read_high = λ d. refl;
    again = λ a b qs. refl;
    found = λ a qs. refl;
  }
  halves available = record {
    below = omega arith;
    low = λ w value. refl;
    high = λ w value. refl;
    read_low = λ d. refl;
    read_high = λ d. refl;
    again = λ a b qs. refl;
    found = λ a qs. refl;
  }
  halves used = record {
    below = omega arith;
    low = λ w value. refl;
    high = λ w value. refl;
    read_low = λ d. refl;
    read_high = λ d. refl;
    again = λ a b qs. refl;
    found = λ a qs. refl;
  }

  -- With the registers below 2 ^ 64, a write of eight bytes to the address of a part of a
  -- queue is accepted, sets that address of the queue that is selected and changes nothing
  -- else, and a read of the eight bytes then gives them back.
  pub virtual_mmio_read-virtual_mmio_write :
      (old : ℕ → ℕ) (w : World M) (part : Part) (v : ℕ)
      → v < 2 ^ 64
      → let after = set_queue w w.device.queue_select (set_address part v) in
        (virtual_mmio_write le start notify w (to_bytes 8 v) (start + place part)
          ≡ record { state = after; bytes = []; ok = true })
        × (virtual_mmio_read le start old after (start + place part) 8
            ≡ record { state = after; bytes = to_bytes 8 v; ok = true })
  unfolding set_queue
  virtual_mmio_read-virtual_mmio_write old w part v h =
      let r = halves part in
      let i = w.device.queue_select in
      let half : QueueState → QueueState =
        λ qs. set_address part (set_low32 (address part qs) (v % 2 ^ 32)) qs in
      let second : QueueState → QueueState =
        λ qs. set_address part (set_high32 (address part qs) (v / 2 ^ 32)) qs in
      let after = set_queue w i (set_address part v) in
      let both : (qs : QueueState) → second (half qs) ≡ set_address part v qs = λ qs.
        let low = set_low32 (address part qs) (v % 2 ^ 32) in
        ap (λ a. set_address part (set_high32 a (v / 2 ^ 32)) (half qs)) (r.found low qs)
        ∙ r.again (set_high32 low (v / 2 ^ 32)) low qs
        ∙ ap (λ a. set_address part a qs) (set_high32-set_low32 (address part qs) v h) in
      let same : selected after.device ≡ set_address part v (selected w.device) =
        set_queue-same w i (set_address part v) in
      let value : address part (selected after.device) ≡ v =
        ap (address part) same ∙ r.found v (selected w.device) in
      (
        write_pair w v (place part) r.below h
            ∙ ap (λ s. reply s [])
                (ap (λ x. write_register notify x (place part + 4) (v / 2 ^ 32))
                    (r.low w (v % 2 ^ 32))
                  ∙ r.high (set_queue w i half) (v / 2 ^ 32)
                  ∙ set_queue-set_queue w i half second (set_address part v) both),
        read_pair old after (place part) r.below
            ∙ ap (λ bs. reply after bs)
                (ap (λ a. to_bytes 4 a ++ to_bytes 4 (read_register after.device (place part + 4)))
                    (r.read_low after.device ∙ ap u32 value)
                  ∙ ap (λ a. to_bytes 4 (u32 v) ++ to_bytes 4 a)
                      (r.read_high after.device ∙ ap (λ a. u32 (a >>> 32)) value)
                  ∙ words v h),
      )
