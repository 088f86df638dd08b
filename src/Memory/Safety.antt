-- ===== src/Memory/Safety.antt =====
-- memory.c through the table of iomap.c: accesses inside the buffer, and past it.
use space_emu.Base.{ℕ, zero, suc, ◌+◌, ◌-◌, ◌^◌, ◌<◌, ◌≤◌, ◌≡◌, ◌⊎◌, Bool, true, false, ◌&&◌, ltb}
use space_emu.Base.{leb, if◌then◌else◌}
use space_emu.Base.{List, [], ◌∷◌, none, some, arith, refl, inl, ap, ◌∙◌}
use space_emu.Base.Word.{add64, sub64}
use space_emu.Base.Bytes.{length}
use space_emu.Iomap.{AddressItem, find_item, check_in, read_bytes, write_bytes}
use space_emu.Memory.{Buffer, update, store_loop, load_loop, memory_write, memory_read, memory_item}
use space_emu.Memory.{low_ram_size}

-- The bytes of `bs` stored from `pos` on.
unfoldable pub write_at : Buffer → ℕ → List ℕ → Buffer
write_at entity pos [] = entity
write_at entity pos (b ∷ bs) = write_at (update entity pos b) (pos + 1) bs

unfoldable pub read_at : Buffer → ℕ → ℕ → List ℕ
read_at entity zero pos = []
read_at entity (suc n) pos = entity pos ∷ read_at entity n (pos + 1)

module _ (size : ℕ) (size_lt : size < 2 ^ 64) where
  store_loop-in_bounds :
      (entity : Buffer) (pos : ℕ) (bs : List ℕ)
      → pos + length bs ≤ size
      → store_loop size entity pos bs ≡ some (write_at entity pos bs)
  unfolding store_loop write_at
  store_loop-in_bounds entity pos [] h = refl
  store_loop-in_bounds entity pos (b ∷ bs) h =
      let ih = store_loop-in_bounds (update entity pos b) (pos + 1) bs (omega arith) in
      let next : add64 pos 1 ≡ pos + 1 = omega arith in ground (arith, ih, next)

  load_loop-in_bounds :
      (entity : Buffer) (n pos : ℕ)
      → pos + n ≤ size
      → load_loop size entity n pos ≡ some (read_at entity n pos)
  unfolding load_loop read_at
  load_loop-in_bounds entity zero pos h = refl
  load_loop-in_bounds entity (suc n) pos h =
      let ih = load_loop-in_bounds entity n (pos + 1) (omega arith) in
      let next : add64 pos 1 ≡ pos + 1 = omega arith in ground (arith, ih, next)

write_at-outside :
    (entity : Buffer) (pos : ℕ) (bs : List ℕ) (j : ℕ)
    → (ltb j pos ≡ true) ⊎ (leb (pos + length bs) j ≡ true)
    → write_at entity pos bs j ≡ entity j
unfolding write_at update
write_at-outside entity pos [] j h = refl
write_at-outside entity pos (b ∷ bs) j h =
    ground (arith, write_at-outside (update entity pos b) (pos + 1) bs j)

pub read_at-write_at :
    (entity : Buffer) (pos : ℕ) (bs : List ℕ)
    → read_at (write_at entity pos bs) (length bs) pos ≡ bs
unfolding read_at write_at
read_at-write_at entity pos [] = refl
read_at-write_at entity pos (b ∷ bs) =
    let rest = read_at-write_at (update entity pos b) (pos + 1) bs in
    let first = write_at-outside (update entity pos b) (pos + 1) bs pos (inl (ground arith)) in
    let here : update entity pos b pos ≡ b = unfold update in ground arith in rw (rest, first, here)

module _ (start size : ℕ) (fits : start + size < 2 ^ 64) where
  pub memory_write-in_bounds :
      (entity : Buffer) (address : ℕ) (src : List ℕ)
      → start ≤ address
      → address + length src < start + size
      → memory_write size start entity src address
        ≡ some (record { state = write_at entity (address - start) src; bytes = []; ok = true })
  unfolding memory_write
  memory_write-in_bounds entity address src low high =
      let offset : sub64 address start ≡ address - start = omega arith in
      let stored =
        store_loop-in_bounds size (omega arith) entity (address - start) src (omega arith) in
      let valid : leb (sub64 (add64 address (length src)) start) size ≡ true = ground arith in
      rw (valid, offset, stored)

  pub memory_read-in_bounds :
      (entity : Buffer) (address n : ℕ)
      → start ≤ address
      → address + n < start + size
      → memory_read size start entity address n
        ≡ some (record { state = entity; bytes = read_at entity n (address - start); ok = true })
  unfolding memory_read
  memory_read-in_bounds entity address n low high =
      let offset : sub64 address start ≡ address - start = omega arith in
      let loaded =
        load_loop-in_bounds size (omega arith) entity n (address - start) (omega arith) in
      let valid : leb (sub64 (add64 address n) start) size ≡ true = ground arith in
      rw (valid, offset, loaded)

module _ {S : Type 0} (items : List (AddressItem S)) (s : S) (address : ℕ) where
  read_bytes-found :
      (n : ℕ) (x : AddressItem S)
      → find_item items address n ≡ some x
      → read_bytes items s address n ≡ x.read_bytes s address n
  unfolding read_bytes
  read_bytes-found n x e = rw (e, read_bytes)

  write_bytes-found :
      (src : List ℕ) (x : AddressItem S)
      → find_item items address (length src) ≡ some x
      → write_bytes items s address (length src) src ≡ x.write_bytes s src address
  unfolding write_bytes
  write_bytes-found src x e = rw (e, write_bytes)

item_read :
    (start size : ℕ) (m : Bool) (entity : Buffer) (address n : ℕ)
    → (memory_item size start m).read_bytes entity address n
      ≡ memory_read size start entity address n
unfolding memory_item
item_read start size m entity address n = refl

item_write :
    (start size : ℕ) (m : Bool) (entity : Buffer) (src : List ℕ) (address : ℕ)
    → (memory_item size start m).write_bytes entity src address
      ≡ memory_write size start entity src address
unfolding memory_item
item_write start size m entity src address = refl

module _ (items : List (AddressItem Buffer)) (start size : ℕ) (malloc_succeeds : Bool) where
  -- An access inside a range of RAM whose end does not wrap, before its last byte, by a table
  -- whose item for it is that range's: a write succeeds without touching a byte outside the
  -- buffer or outside the access, and a read of the same bytes gives them back.
  pub read_bytes-write_bytes :
      (entity : Buffer) (address : ℕ) (src : List ℕ)
      → start + size < 2 ^ 64
      → start ≤ address
      → address + length src < start + size
      → find_item items address (length src) ≡ some (memory_item size start malloc_succeeds)
      → (after : Buffer) × (write_bytes items entity address (length src) src
          ≡ some (record { state = after; bytes = []; ok = true }))
        × (read_bytes items after address (length src)
            ≡ some (record { state = after; bytes = src; ok = true }))
        × ((j : ℕ)
            → (if leb (address - start) j && ltb j (address - start + length src)
                then entity j
                else after j)
              ≡ entity j)
  read_bytes-write_bytes entity address src fits low high found =
      let pos = address - start in
      let size_lt : size < 2 ^ 64 = omega arith in
      let offset : sub64 address start ≡ pos = omega arith in
      let inside : pos + length src ≤ size = omega arith in
      let stored = memory_write-in_bounds start size fits entity address src low high in
      let after = write_at entity pos src in
      let loaded = memory_read-in_bounds start size fits after address (length src) low high in
      (
        after,
        write_bytes-found items entity address src (memory_item size start malloc_succeeds) found
            ∙ item_write start size malloc_succeeds entity src address
            ∙ stored,
        read_bytes-found items after address (length src) (memory_item size start malloc_succeeds)
              found
            ∙ item_read start size malloc_succeeds after address (length src)
            ∙ loaded
            ∙ ap (λ bytes. some (record { state = after; bytes = bytes; ok = true }))
                (read_at-write_at entity pos src),
        λ j. ground (arith, write_at-outside entity pos src j),
      )

wrap_found :
    (malloc_succeeds : Bool) (items : List (AddressItem Buffer)) (address size : ℕ)
    → address < 2 ^ 64
    → 2 ^ 64 ≤ address + size
    → address + size < 2 ^ 64 + low_ram_size
    → find_item (memory_item low_ram_size 0 malloc_succeeds ∷ items) address size
      ≡ some (memory_item low_ram_size 0 malloc_succeeds)
unfolding find_item check_in memory_item
wrap_found malloc_succeeds items address size a b c =
    let first : leb 0 address ≡ true = ground arith in
    let last : leb (add64 address size) 0xffff ≡ true = ground arith in rw (first, last)

wrap_read :
    (entity : Buffer) (address size : ℕ)
    → low_ram_size ≤ address
    → address < 2 ^ 64
    → 2 ^ 64 ≤ address + size
    → address + size < 2 ^ 64 + low_ram_size
    → memory_read low_ram_size 0 entity address size ≡ none
unfolding memory_read
wrap_read entity address zero o a b c = absurd (omega arith)
wrap_read entity address (suc n) o a b c =
    let valid : leb (sub64 (add64 address (suc n)) 0) low_ram_size ≡ true = ground arith in
    let outside : ltb (sub64 address 0) low_ram_size ≡ false = ground arith in rw (valid, outside)

-- In a table that begins with the low RAM, at address 0, an access from above the low RAM whose
-- end wraps past 2 ^ 64 and comes to lie in the low RAM passes the table and the bounds check,
-- and reads outside the buffer.
pub read_bytes_wrap :
    (malloc_succeeds : Bool) (items : List (AddressItem Buffer)) (entity : Buffer)
    (address size : ℕ)
    → low_ram_size ≤ address
    → address < 2 ^ 64
    → 2 ^ 64 ≤ address + size
    → address + size < 2 ^ 64 + low_ram_size
    → read_bytes (memory_item low_ram_size 0 malloc_succeeds ∷ items) entity address size ≡ none
read_bytes_wrap malloc_succeeds items entity address size o a b c =
    let low = memory_item low_ram_size 0 malloc_succeeds in
    let found : find_item (low ∷ items) address size ≡ some low =
      wrap_found malloc_succeeds items address size a b c in
    read_bytes-found (low ∷ items) entity address size low found
    ∙ item_read 0 low_ram_size malloc_succeeds entity address size
    ∙ wrap_read entity address size o a b c
