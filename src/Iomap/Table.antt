-- ===== src/Iomap/Table.antt =====
-- iomap.c: registration, and the ranges of the table.
use space_emu.Base.{ℕ, zero, suc, ◌+◌, ◌^◌, ◌<◌, ◌≤◌, ◌≡◌, ◌⊎◌, inl, inr, false}
use space_emu.Base.{List, [], ◌∷◌, Option, none, some, arith, Bool-cases}
use space_emu.Base.Bytes.{length}
use space_emu.Iomap.{fill_slot, AddressItem, check_overlap, register_loop, register_address_manager}
use space_emu.Iomap.{address_item_count}

module _ {S : Type 0} where
  -- A range that is not empty and does not reach past the end of the address space.
  abbrev pub IsRange : AddressItem S → Type 0
  IsRange x = (0 < x.size) × (x.start_address + x.size < 2 ^ 64)

  abbrev pub Apart : AddressItem S → AddressItem S → Type 0
  Apart x y =
      (x.start_address + x.size ≤ y.start_address) ⊎ (y.start_address + y.size ≤ x.start_address)

  abbrev pub ApartFrom : AddressItem S → List (AddressItem S) → Type 0
  ApartFrom x [] = Unit
  ApartFrom x (y ∷ ys) = Apart x y × ApartFrom x ys

  -- Every item is a range, and any two are apart.
  abbrev pub IsTable : List (AddressItem S) → Type 0
  IsTable [] = Unit
  IsTable (x ∷ xs) = IsRange x × ApartFrom x xs × IsTable xs

  check_overlap-Apart :
      (x y : AddressItem S) → IsRange x → IsRange y → check_overlap x y ≡ false → Apart x y
  unfolding check_overlap
  check_overlap-Apart x y p q h = ground arith

  ApartFrom-fill_slot :
      (s : S) (x item : AddressItem S)
      → Apart x item
      → (o : Option S) → ApartFrom x (fill_slot s item o).1
  unfolding fill_slot
  ApartFrom-fill_slot s x item a none = tt
  ApartFrom-fill_slot s x item a (some s') = (a, tt)

  fill_slot-IsTable :
      (s : S) (item : AddressItem S)
      → IsRange item
      → (o : Option S) → IsTable (fill_slot s item o).1
  unfolding fill_slot
  fill_slot-IsTable s item r none = tt
  fill_slot-IsTable s item r (some s') = (r, tt, tt)

  fill_slot-length :
      (left : ℕ) (s : S) (item : AddressItem S) (o : Option S)
      → length (fill_slot s item o).1 ≤ suc left
  unfolding fill_slot
  fill_slot-length left s item none = omega arith
  fill_slot-length left s item (some s') = omega arith

  ApartFrom-register_loop :
      (left : ℕ) (s : S) (x : AddressItem S) (items : List (AddressItem S)) (item : AddressItem S)
      → Apart x item
      → ApartFrom x items
      → ApartFrom x (register_loop left s items item).1
  unfolding register_loop
  ApartFrom-register_loop zero s x items item a h = h
  ApartFrom-register_loop (suc left) s x [] item a h = ApartFrom-fill_slot s x item a (item.init s)
  ApartFrom-register_loop (suc left) s x (y ∷ ys) item a h =
      let ih = ApartFrom-register_loop left s x ys item a h.1 in
      elim (Bool-cases (check_overlap y item)) [ inl e ↦ rw e h | inr e ↦ rw e (h.0, ih) ]

  register_loop-IsTable :
      (left : ℕ) (s : S) (items : List (AddressItem S)) (item : AddressItem S)
      → IsRange item
      → IsTable items
      → IsTable (register_loop left s items item).1
  unfolding register_loop
  register_loop-IsTable zero s items item r t = t
  register_loop-IsTable (suc left) s [] item r t = fill_slot-IsTable s item r (item.init s)
  register_loop-IsTable (suc left) s (y ∷ ys) item r t =
      let ih = register_loop-IsTable left s ys item r t.2 in
      elim (Bool-cases (check_overlap y item)) [
        | inl e ↦ rw e t
        | inr e ↦ rw e (
          t.0,
          ApartFrom-register_loop left s y ys item (check_overlap-Apart y item t.0 r e) t.1,
          ih,
        )
      ]

  register_loop-length :
      (left : ℕ) (s : S) (items : List (AddressItem S)) (item : AddressItem S)
      → length items ≤ left
      → length (register_loop left s items item).1 ≤ left
  unfolding register_loop
  register_loop-length zero s items item h = h
  register_loop-length (suc left) s [] item h = fill_slot-length left s item (item.init s)
  register_loop-length (suc left) s (y ∷ ys) item h =
      let ih = register_loop-length left s ys item (omega arith) in
      elim (Bool-cases (check_overlap y item)) [ inl e ↦ rw e h | inr e ↦ rw e (omega arith) ]

-- Registering a range in a table of ranges that are apart, within its slots, keeps the table
-- within its slots and its ranges apart.
pub register_address_manager-IsTable :
    {S : Type 0} (s : S) (items : List (AddressItem S)) (item : AddressItem S)
    → IsRange item
    → IsTable items
    → length items ≤ address_item_count
    → let t = register_address_manager s items item in
      IsTable t.1 × (length t.1 ≤ address_item_count)
unfolding register_address_manager
register_address_manager-IsTable s items item r t h = (
  register_loop-IsTable address_item_count s items item r t,
  register_loop-length address_item_count s items item h,
)
