-- ===== src/Virtio/Copy/Gather.antt =====
-- virtio_interface.c: a copy out of a chain of descriptors against the bytes of its parts.
use space_emu.Base.{ℕ, zero, suc, ◌+◌, ◌-◌, ◌^◌, ◌<◌, ◌≤◌, ◌≡◌, refl, ap, ◌∙◌, arith, true, false}
use space_emu.Base.{some, List, [], ◌∷◌, ◌++◌, leb, ltb, ◌==◌, if◌then◌else◌, inl, inr, ◌⊎◌}
use space_emu.Base.Bytes.{length}
use space_emu.Base.Word.{u32, add64}
use space_emu.Alu.Helpers.{sext32}
use space_emu.Device.{Reply}
use space_emu.Memory.{Buffer}
use space_emu.Memory.Safety.{read_at}
use space_emu.Translate.Vaddr.{take, drop}
use space_emu.Virtio.{World, IsMinInt, done}
use space_emu.Virtio.Lists.{length-take, length-drop, drop_all}
use mathlib.Core.List.{append-nil}
use space_emu.Virtio.Queue.{Desc, desc_of, is_write, get_desc, sub32, find_offset}
use space_emu.Virtio.Queue.Sizes.{Chain, descs}
use space_emu.Virtio.Copy.{copy_loop, copy_from, copy_found, virtual_memcpy_to_from_queue}
use space_emu.Virtio.Copy.{virtual_memcpy_from_queue, move}
use space_emu.Virtio.Ram.Whole.{RamBus, from_ram-whole}
use space_emu.Virtio.Ram.{virtio_memcpy_from_ram}

-- `count` bytes of the parts one after the other, from `offset` in the first on.
unfoldable pub gather : Buffer → ℕ → ℕ → ℕ → List Desc → List ℕ
gather mem base offset count [] = []
gather mem base offset count (d ∷ ds) =
    let here = d.len - offset in
    let rest = gather mem base 0 (count - here) ds in
    if leb count here
    then read_at mem count (d.addr + offset - base)
    else read_at mem here (d.addr + offset - base) ++ rest

-- The parts are to be read, lie in the RAM, and hold `count` bytes from `offset` on.
unfoldable pub Holds : ℕ → ℕ → ℕ → ℕ → List Desc → Type 0
Holds base size offset count [] = ⊥
Holds base size offset count (d ∷ ds) =
    (is_write d ≡ false)
    × (d.len < 2 ^ 31)
    × (offset ≤ d.len)
    × (base ≤ d.addr)
    × (d.addr + d.len < base + size)
    × (((leb count (d.len - offset)) ≡ true)
        ⊎ ((leb count (d.len - offset) ≡ false) × Holds base size 0 (count - (d.len - offset)) ds))

sext32_small : (a : ℕ) → a < 2 ^ 31 → sext32 a ≡ a
unfolding sext32
sext32_small a h =
    let low : u32 a ≡ a = omega arith in
    let below : ltb a (2 ^ 31) ≡ true = ground arith in rw (low, below) refl

module _ {M : Type 0} (min_int : ℕ → ℕ → ℕ) (is_min : IsMinInt min_int)
    (read : World M → ℕ → ℕ → Reply (World M)) (write : World M → ℕ → List ℕ → Reply (World M))
    (base size : ℕ) (world : Buffer → World M) (ram : RamBus read write base size world)
    (mem : Buffer) (queue_idx : ℕ) where
  -- A round reads what is left of its descriptor, or of the count.
  move-read :
      (d : Desc) (offset len : ℕ) (part : List ℕ)
      → base ≤ d.addr
      → d.addr + d.len < base + size
      → d.len < 2 ^ 31
      → offset + len ≤ d.len
      → length part ≡ len
      → move min_int read write false (world mem) (add64 d.addr (sext32 offset)) part len
        ≡ (world mem, read_at mem len (d.addr + offset - base))
  unfolding move
  move-read d offset len part low high small fits e =
      let fit64 = ram.fits in
      let place : add64 d.addr (sext32 offset) ≡ d.addr + offset =
        ap (λ x. add64 d.addr x) (sext32_small offset (omega arith)) ∙ omega arith in
      ap (λ a. virtio_memcpy_from_ram min_int read (world mem) part a len) place
      ∙ from_ram-whole min_int is_min read write base size world ram mem part (d.addr + offset) len
          (omega arith) (omega arith) (omega arith) e

  copy_loop-gather :
      (left : ℕ) (bytes : List ℕ) (rest : List (List ℕ)) (offset count : ℕ) (buf : List ℕ)
      → length rest < left
      → 0 < count
      → count < 2 ^ 31
      → length buf ≡ count
      → Chain min_int read (world mem) queue_idx (bytes ∷ rest)
      → Holds base size offset count (descs (bytes ∷ rest))
      → copy_loop min_int read write left false queue_idx bytes offset count buf (world mem)
        ≡ done (world mem) (true, gather mem base offset count (descs (bytes ∷ rest)))
  unfolding copy_loop gather Holds descs
  copy_loop-gather zero bytes rest offset count buf l pos small e c (r, s, t, u, v, o) =
      absurd (omega arith)
  copy_loop-gather (suc left) bytes rest offset count buf l pos small e c (r, s, t, u, v, inl all) =
      let d = desc_of bytes in
      let all' : count ≤ d.len - offset = ground (arith, all) in
      let here : sub32 d.len offset ≡ d.len - offset = omega arith in
      let len : min_int count (d.len - offset) ≡ count =
        is_min count (d.len - offset) small (omega arith) ∙ omega arith in
      let part = length-take count buf (omega arith) in
      let moved = move-read d offset count (take count buf) u v s (omega arith) part in
      let none_left : sub32 count count ≡ 0 = omega arith in
      let rest_none : drop count buf ≡ [] = drop_all count buf (omega arith) in
      rw (here, len, none_left, copy_loop)
        (rw (here, len)
          (rw (moved, rest_none) (rw all (ap (λ bs. done (world mem) (true, bs)) (append-nil _)))))
  copy_loop-gather (suc left) bytes [] offset count buf l pos small e c
        (r, s, t, u, v, inr (more, held)) =
      elim held [ ]
  copy_loop-gather (suc left) bytes (bytes' ∷ rest) offset count buf l pos small e c
        (r, s, t, u, v, inr (more, held)) =
      let d = desc_of bytes in
      let n = d.len - offset in
      let more' : n < count = ground (arith, more) in
      let here : sub32 d.len offset ≡ n = omega arith in
      let len : min_int count n ≡ n = is_min count n small (omega arith) ∙ omega arith in
      let part = length-take n buf (omega arith) in
      let moved = move-read d offset n (take n buf) u v s (omega arith) part in
      let some_left : sub32 count n ≡ count - n = omega arith in
      let not_done : (count - n == 0) ≡ false = ground (arith, more') in
      let short : ltb n (2 ^ 31) ≡ true = ground arith in
      let at_end : u32 (offset + n) ≡ d.len = omega arith in
      let ended : (d.len == d.len) ≡ true = ground arith in
      let ih =
        copy_loop-gather left bytes' rest 0 (count - n) (drop n buf) (omega arith) (omega arith)
          (omega arith) (omega (arith, length-drop n buf)) c.2 held in
      rw (here, len, some_left, not_done, copy_loop)
        (rw (here, len, short, copy_loop)
          (rw (here, len, at_end, ended, copy_loop)
            (rw (c.0, copy_loop)
              (rw (here, len, moved, c.1, held.0, copy_loop)
                (rw (here, len, moved) (rw (c.1, some_left, ih) (rw more refl)))))))

  find_offset-first :
      (rounds : ℕ) (bytes : List ℕ) (offset : ℕ)
      → 0 < rounds
      → is_write (desc_of bytes) ≡ false
      → offset < (desc_of bytes).len
      → find_offset min_int read rounds false queue_idx bytes offset (world mem)
        ≡ done (world mem) (some (bytes, offset))
  unfolding find_offset
  find_offset-first zero bytes offset pos r h = absurd (omega arith)
  find_offset-first (suc left) bytes offset pos r h =
      let inside : ltb offset (desc_of bytes).len ≡ true = ground (arith, h) in
      rw (r, find_offset) (rw (inside, find_offset) refl)

  -- With a `min_int` that is the minimum, accesses that reach a RAM, a chain of descriptors
  -- that ends and that the reads find where it is, as many rounds as it has descriptors, and
  -- parts that are to be read, lie in the RAM and hold the bytes asked for from an offset
  -- inside the first: the copy succeeds, and the buffer holds the bytes of the parts, in
  -- order.
  pub from_queue-gather :
      (rounds : ℕ) (old bytes : List ℕ) (rest : List (List ℕ)) (desc_idx offset count : ℕ)
      (buf : List ℕ)
      → length (bytes ∷ rest) ≤ rounds
      → 0 < count
      → count < 2 ^ 31
      → length buf ≡ count
      → get_desc min_int read (world mem) old queue_idx desc_idx ≡ (world mem, bytes)
      → Chain min_int read (world mem) queue_idx (bytes ∷ rest)
      → offset < (desc_of bytes).len
      → Holds base size offset count (descs (bytes ∷ rest))
      → virtual_memcpy_from_queue min_int read write rounds old buf queue_idx desc_idx offset count
          (world mem)
        ≡ done (world mem) (true, gather mem base offset count (descs (bytes ∷ rest)))
  unfolding virtual_memcpy_from_queue virtual_memcpy_to_from_queue copy_from copy_found Holds descs
  from_queue-gather rounds old bytes rest desc_idx offset count buf l pos small e first c h held =
      let some_bytes : (count == 0) ≡ false = ground (arith, pos) in
      let found = find_offset-first rounds bytes offset (omega arith) held.0 h in
      let copied =
        copy_loop-gather rounds bytes rest offset count buf (omega arith) pos small e c held in
      rw (some_bytes, virtual_memcpy_to_from_queue) (rw (first, get_desc) (rw (found, copied) refl))

  find_offset-second :
      (rounds : ℕ) (bytes bytes' : List ℕ) (rest : List (List ℕ)) (offset : ℕ)
      → 1 < rounds
      → Chain min_int read (world mem) queue_idx (bytes ∷ bytes' ∷ rest)
      → is_write (desc_of bytes) ≡ false
      → is_write (desc_of bytes') ≡ false
      → (desc_of bytes).len ≤ offset
      → (desc_of bytes).len < (desc_of bytes').len
      → find_offset min_int read rounds false queue_idx bytes offset (world mem)
        ≡ done (world mem) (some (bytes', (desc_of bytes).len))
  unfolding find_offset
  find_offset-second zero bytes bytes' rest offset pos c r s low high = absurd (omega arith)
  find_offset-second (suc left) bytes bytes' rest offset pos c r s low high =
      let outside : ltb offset (desc_of bytes).len ≡ false = ground (arith, low) in
      let then_first = find_offset-first left bytes' (desc_of bytes).len (omega arith) s high in
      rw (r, find_offset)
        (rw (outside, find_offset) (rw (c.0, find_offset) (rw (c.1, get_desc) then_first)))

  -- With the same accesses and rounds as for a copy from the first descriptor, for an offset
  -- that is not inside it, a second descriptor that is longer, and parts from there on that
  -- are to be read, lie in the RAM and hold the bytes: the bytes copied are those of the
  -- second descriptor from the length of the first on, whatever the offset is.
  pub from_queue-second :
      (rounds : ℕ) (old bytes bytes' : List ℕ) (rest : List (List ℕ)) (desc_idx offset count : ℕ)
      (buf : List ℕ)
      → length (bytes ∷ bytes' ∷ rest) ≤ rounds
      → 0 < count
      → count < 2 ^ 31
      → length buf ≡ count
      → get_desc min_int read (world mem) old queue_idx desc_idx ≡ (world mem, bytes)
      → Chain min_int read (world mem) queue_idx (bytes ∷ bytes' ∷ rest)
      → is_write (desc_of bytes) ≡ false
      → (desc_of bytes).len ≤ offset
      → (desc_of bytes).len < (desc_of bytes').len
      → Holds base size (desc_of bytes).len count (descs (bytes' ∷ rest))
      → virtual_memcpy_from_queue min_int read write rounds old buf queue_idx desc_idx offset count
          (world mem)
        ≡ done (world mem) (true, gather mem base (desc_of bytes).len count (descs (bytes' ∷ rest)))
  unfolding virtual_memcpy_from_queue virtual_memcpy_to_from_queue copy_from copy_found Holds descs
  from_queue-second rounds old bytes bytes' rest desc_idx offset count buf l pos small e first c r
        low high held =
      let some_bytes : (count == 0) ≡ false = ground (arith, pos) in
      let found =
        find_offset-second rounds bytes bytes' rest offset (omega arith) c r held.0 low high in
      let copied =
        copy_loop-gather rounds bytes' rest (desc_of bytes).len count buf (omega arith) pos small e
          c.2 held in
      rw (some_bytes, virtual_memcpy_to_from_queue) (rw (first, get_desc) (rw (found, copied) refl))
