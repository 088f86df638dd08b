-- ===== src/Virtio/Ram/Whole.antt =====
-- virtio_interface.c: copies by pages against one access to the RAM.
use space_emu.Base.{ℕ, zero, suc, ◌+◌, ◌-◌, ◌%◌, ◌^◌, ◌<◌, ◌≤◌, ◌≡◌, refl, ap, ◌∙◌, arith, true}
use space_emu.Base.{List, [], ◌∷◌, ◌++◌, min}
use space_emu.Base.Bytes.{length}
use space_emu.Base.Word.{add64}
use space_emu.Device.{Reply}
use space_emu.Memory.{Buffer, update}
use space_emu.Memory.Safety.{read_at, write_at}
use space_emu.Translate.Vaddr.{take, drop}
use space_emu.Virtio.{World, IsMinInt, positive, virtio_page_size, overlay}
use space_emu.Virtio.Lists.{overlay_all, length-take, length-drop, take-drop}
use space_emu.Virtio.Ram.{from_ram_loop, to_ram_loop, virtio_memcpy_from_ram, virtio_memcpy_to_ram}
use space_emu.Virtio.Ram.{chunk}

-- The accesses reach a RAM of `size` bytes at `base`: `world mem` is the machine when it holds
-- `mem`. As in the table of iomap.c, an access ends before the last byte.
pub record RamBus {M : Type 0} (read : World M → ℕ → ℕ → Reply (World M))
    (write : World M → ℕ → List ℕ → Reply (World M)) (base size : ℕ) (world : Buffer → World M)
    : Type 0 where
  pub fits : base + size < 2 ^ 64
  pub on_read :
      (mem : Buffer) (a n : ℕ)
      → base ≤ a
      → a + n < base + size
      → read (world mem) a n
        ≡ record { state = world mem; bytes = read_at mem n (a - base); ok = true }
  pub on_write :
      (mem : Buffer) (a : ℕ) (src : List ℕ)
      → base ≤ a
      → a + length src < base + size
      → write (world mem) a src
        ≡ record { state = world (write_at mem (a - base) src); bytes = []; ok = true }

pub length-read_at : (mem : Buffer) (n p : ℕ) → length (read_at mem n p) ≡ n
unfolding read_at
length-read_at mem zero p = refl
length-read_at mem (suc n) p = ap suc (length-read_at mem n (p + 1))

read_at-split :
    (mem : Buffer) (n k p : ℕ) → read_at mem n p ++ read_at mem k (p + n) ≡ read_at mem (n + k) p
unfolding read_at
read_at-split mem zero k p =
    let e : p + 0 ≡ p = omega arith in let z : 0 + k ≡ k = omega arith in rw (e, z) refl
read_at-split mem (suc n) k p =
    let e : p + suc n ≡ p + 1 + n = omega arith in
    let z : suc n + k ≡ suc (n + k) = omega arith in
    rw e (rw z (ap (λ xs. mem p ∷ xs) (read_at-split mem n k (p + 1))))

write_at-split :
    (mem : Buffer) (p : ℕ) (xs ys : List ℕ)
    → write_at (write_at mem p xs) (p + length xs) ys ≡ write_at mem p (xs ++ ys)
unfolding write_at
write_at-split mem p [] ys = let e : p + 0 ≡ p = omega arith in rw e refl
write_at-split mem p (x ∷ xs) ys =
    let e : p + suc (length xs) ≡ p + 1 + length xs = omega arith in
    rw e (write_at-split (update mem p x) (p + 1) xs ys)

-- A round takes at least one byte, and no more than are left.
record Round (min_int : ℕ → ℕ → ℕ) (count addr : ℕ) : Type 0 where
  some_bytes : 0 < chunk min_int count addr
  not_more : chunk min_int count addr ≤ count

chunk-Round :
    (min_int : ℕ → ℕ → ℕ)
    → IsMinInt min_int
    → (count addr : ℕ) → 0 < count
    → count < 2 ^ 31
    → Round min_int count addr
chunk-Round min_int is_min count addr pos small =
    let page = virtio_page_size - addr % virtio_page_size in
    let e : chunk min_int count addr ≡ min count page = is_min count page small (omega arith) in
    record { some_bytes = omega (arith, e); not_more = omega (arith, e) }

positive-small : (count : ℕ) → 0 < count → count < 2 ^ 31 → positive count ≡ true
positive-small count h k = ground arith

module _ {M : Type 0} (min_int : ℕ → ℕ → ℕ) (is_min : IsMinInt min_int)
    (read : World M → ℕ → ℕ → Reply (World M)) (write : World M → ℕ → List ℕ → Reply (World M))
    (base size : ℕ) (world : Buffer → World M) (ram : RamBus read write base size world) where
  from_ram_loop-whole :
      (left : ℕ) (mem : Buffer) (old : List ℕ) (addr count : ℕ)
      → count ≤ left
      → base ≤ addr
      → addr + count < base + size
      → count < 2 ^ 31
      → length old ≡ count
      → from_ram_loop min_int read left (world mem) old addr count
        ≡ (world mem, read_at mem count (addr - base))
  unfolding from_ram_loop
  from_ram_loop-whole zero mem [] addr zero b low high small len = unfold read_at in refl
  from_ram_loop-whole zero mem (x ∷ old) addr zero b low high small len = absurd (omega arith)
  from_ram_loop-whole zero mem old addr (suc count) b low high small len = absurd (omega arith)
  from_ram_loop-whole (suc left) mem [] addr zero b low high small len = unfold read_at in refl
  from_ram_loop-whole (suc left) mem (x ∷ old) addr zero b low high small len = absurd (omega arith)
  from_ram_loop-whole (suc left) mem old addr (suc count) b low high small len =
      let n = chunk min_int (suc count) addr in
      let round = chunk-Round min_int is_min (suc count) addr (omega arith) small in
      let next : add64 addr n ≡ addr + n = omega (arith, ram.fits, round.not_more) in
      let answer = ram.on_read mem addr n low (omega (arith, round.not_more)) in
      let ih =
        from_ram_loop-whole left mem (drop n old) (addr + n) (suc count - n)
          (omega (arith, round.some_bytes)) (omega arith) (omega (arith, round.not_more))
          (omega arith) (omega (arith, length-drop n old)) in
      let part = length-take n old (omega (arith, round.not_more)) in
      let bytes = read_at mem n (addr - base) in
      let replaced : overlay bytes (take n old) ≡ bytes =
        overlay_all bytes (take n old) (omega (arith, part, length-read_at mem n (addr - base))) in
      let there : addr + n - base ≡ addr - base + n = omega arith in
      let whole : n + (suc count - n) ≡ suc count = omega (arith, round.not_more) in
      rw (positive-small (suc count) (omega arith) small, from_ram_loop)
        (rw (next, answer)
          (rw (ih, replaced)
            (ap (λ bs. (world mem, bs))
              (ap (λ p. bytes ++ read_at mem (suc count - n) p) there
                ∙ read_at-split mem n (suc count - n) (addr - base)
                ∙ ap (λ k. read_at mem k (addr - base)) whole))))

  to_ram_loop-whole :
      (left : ℕ) (mem : Buffer) (addr : ℕ) (buf : List ℕ) (count : ℕ)
      → count ≤ left
      → base ≤ addr
      → addr + count < base + size
      → count < 2 ^ 31
      → length buf ≡ count
      → to_ram_loop min_int write left (world mem) addr buf count
        ≡ world (write_at mem (addr - base) buf)
  unfolding to_ram_loop
  to_ram_loop-whole zero mem addr [] zero b low high small len = unfold write_at in refl
  to_ram_loop-whole zero mem addr (x ∷ buf) zero b low high small len = absurd (omega arith)
  to_ram_loop-whole zero mem addr buf (suc count) b low high small len = absurd (omega arith)
  to_ram_loop-whole (suc left) mem addr [] zero b low high small len = unfold write_at in refl
  to_ram_loop-whole (suc left) mem addr (x ∷ buf) zero b low high small len = absurd (omega arith)
  to_ram_loop-whole (suc left) mem addr buf (suc count) b low high small len =
      let n = chunk min_int (suc count) addr in
      let round = chunk-Round min_int is_min (suc count) addr (omega arith) small in
      let next : add64 addr n ≡ addr + n = omega (arith, ram.fits, round.not_more) in
      let part = length-take n buf (omega (arith, round.not_more)) in
      let answer = ram.on_write mem addr (take n buf) low (omega (arith, round.not_more, part)) in
      let mem1 = write_at mem (addr - base) (take n buf) in
      let ih =
        to_ram_loop-whole left mem1 (addr + n) (drop n buf) (suc count - n)
          (omega (arith, round.some_bytes)) (omega arith) (omega (arith, round.not_more))
          (omega arith) (omega (arith, length-drop n buf)) in
      let there : addr + n - base ≡ addr - base + length (take n buf) = omega (arith, part) in
      rw (positive-small (suc count) (omega arith) small, to_ram_loop)
        (rw (next, answer)
          (ih
            ∙ ap world (
                ap (λ p. write_at mem1 p (drop n buf)) there
                ∙ write_at-split mem (addr - base) (take n buf) (drop n buf)
                ∙ ap (λ bs. write_at mem (addr - base) bs) (take-drop n buf))))

  pub from_ram-whole :
      (mem : Buffer) (old : List ℕ) (addr count : ℕ)
      → base ≤ addr
      → addr + count < base + size
      → count < 2 ^ 31
      → length old ≡ count
      → virtio_memcpy_from_ram min_int read (world mem) old addr count
        ≡ (world mem, read_at mem count (addr - base))
  unfolding virtio_memcpy_from_ram
  from_ram-whole mem old addr count low high small len =
      from_ram_loop-whole count mem old addr count (omega arith) low high small len

  pub to_ram-whole :
      (mem : Buffer) (addr : ℕ) (buf : List ℕ)
      → base ≤ addr
      → addr + length buf < base + size
      → length buf < 2 ^ 31
      → virtio_memcpy_to_ram min_int write (world mem) addr buf (length buf)
        ≡ world (write_at mem (addr - base) buf)
  unfolding virtio_memcpy_to_ram
  to_ram-whole mem addr buf low high small =
      to_ram_loop-whole (length buf) mem addr buf (length buf) (omega arith) low high small refl
