-- ===== src/Iomap.antt =====
-- iomap.c: the table of address ranges and its devices, and the dispatch of physical accesses.
-- An item's functions work on the state `S` of all devices; `none` is an access that C leaves
-- undefined. A fault of `init` leaves the state as it is.
pub mod Table
pub mod Dispatch
use space_emu.Base.{ℕ, zero, suc, Bool, false, ◌&&◌, ◌||◌, ltb, leb, if◌then◌else◌, not}
use space_emu.Base.{List, [], ◌∷◌, Option, none, some}
use space_emu.Base.Word.{add64, sub64}
use space_emu.Device.{Reply}

-- `address_item_t`; its state pointer and its buffer are part of `S`.
pub record AddressItem (S : Type 0) : Type 0 where
  pub start_address : ℕ
  pub size : ℕ
  pub init : S → Option S
  pub read_bytes : S → ℕ → ℕ → Option (Reply S)
  pub write_bytes : S → List ℕ → ℕ → Option (Reply S)

-- ADDRESS_ITEM_COUNT
abbrev pub address_item_count : ℕ
address_item_count = 1024

-- The last address of an item, in uint64_t.
abbrev pub last_address : {S : Type 0} → AddressItem S → ℕ
last_address item = sub64 (add64 item.start_address item.size) 1

unfoldable pub check_overlap : {S : Type 0} → AddressItem S → AddressItem S → Bool
check_overlap item0 item1 =
    not
      (ltb (last_address item0) item1.start_address || ltb (last_address item1) item0.start_address)

-- The end of the access is `start + size`, cut to 64 bits.
unfoldable pub check_in : {S : Type 0} → AddressItem S → ℕ → ℕ → Bool
check_in item0 start size =
    leb item0.start_address start && leb (add64 start size) (last_address item0)

-- The first empty slot, by what `init` returned.
unfoldable pub fill_slot : {S : Type 0} → S → AddressItem S → Option S → S × List (AddressItem S)
fill_slot s item none = (s, [])
fill_slot s item (some s') = (s', item ∷ [])

-- The loop over the slots, with those left; the table ends at its first empty slot.
unfoldable pub register_loop :
    {S : Type 0} → ℕ → S → List (AddressItem S) → AddressItem S → S × List (AddressItem S)
register_loop zero s items item = (s, items)
register_loop (suc left) s [] item = fill_slot s item (item.init s)
register_loop (suc left) s (x ∷ xs) item =
    let rest = register_loop left s xs item in
    if check_overlap x item then (s, x ∷ xs) else (rest.0, x ∷ rest.1)

unfoldable pub register_address_manager :
    {S : Type 0} → S → List (AddressItem S) → AddressItem S → S × List (AddressItem S)
register_address_manager s items item = register_loop address_item_count s items item

-- The first item that holds the whole access.
unfoldable pub find_item : {S : Type 0} → List (AddressItem S) → ℕ → ℕ → Option (AddressItem S)
find_item [] address size = none
find_item (x ∷ xs) address size =
    if check_in x address size then some x else find_item xs address size

-- The return -1.
abbrev pub refused : {S : Type 0} → S → Option (Reply S)
refused s = some (record { state = s; bytes = []; ok = false })

unfoldable pub write_bytes :
    {S : Type 0} → List (AddressItem S) → S → ℕ → ℕ → List ℕ → Option (Reply S)
write_bytes items s address size src = elim (find_item items address size) [
  | none ↦ refused s
  | some item ↦ item.write_bytes s src address
]

unfoldable pub read_bytes : {S : Type 0} → List (AddressItem S) → S → ℕ → ℕ → Option (Reply S)
read_bytes items s address size = elim (find_item items address size) [
  | none ↦ refused s
  | some item ↦ item.read_bytes s address size
]
