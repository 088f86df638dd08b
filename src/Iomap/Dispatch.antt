-- ===== src/Iomap/Dispatch.antt =====
-- iomap.c: which item answers an access.
use space_emu.Base.{ℕ, ◌+◌, ◌^◌, ◌<◌, ◌≤◌, ◌≡◌, ◌⊎◌, inl, inr, true, false, ◌&&◌, ltb, leb}
use space_emu.Base.{List, [], ◌∷◌, some, arith, sym}
use mathlib.Core.Path.{subst, ap}
use space_emu.Iomap.{AddressItem, check_in, find_item}
use space_emu.Iomap.Table.{IsRange, Apart, ApartFrom, IsTable}

module _ {S : Type 0} where
  -- Without a wrap of its end, an access is in an item exactly if it starts in the range and ends
  -- before the last byte: the access that ends with the range is refused.
  pub check_in_lem :
      (x : AddressItem S) (address size : ℕ)
      → IsRange x
      → address + size < 2 ^ 64
      → check_in x address size
        ≡ leb x.start_address address && ltb (address + size) (x.start_address + x.size)
  unfolding check_in
  check_in_lem x address size r h = ground arith

  -- The item is one of the table.
  abbrev pub Among : AddressItem S → List (AddressItem S) → Type 0
  Among x [] = ⊥
  Among x (y ∷ ys) = (x ≡ y) ⊎ Among x ys

  check_in-Apart :
      (x y : AddressItem S) (address size : ℕ)
      → IsRange x
      → IsRange y
      → Apart x y
      → address + size < 2 ^ 64
      → check_in x address size ≡ true
      → check_in y address size ≡ false
  unfolding check_in
  check_in-Apart x y address size p q a h e = ground arith

  Among-IsRange :
      (items : List (AddressItem S)) (x : AddressItem S) → IsTable items → Among x items → IsRange x
  Among-IsRange [] x t m = elim m [ ]
  Among-IsRange (y ∷ ys) x t (inl same) = subst IsRange (sym same) t.0
  Among-IsRange (y ∷ ys) x t (inr later) = Among-IsRange ys x t.2 later

  Among-Apart :
      (items : List (AddressItem S)) (x y : AddressItem S)
      → ApartFrom y items
      → Among x items
      → Apart y x
  Among-Apart [] x y a m = elim m [ ]
  Among-Apart (z ∷ zs) x y a (inl same) = subst (Apart y) (sym same) a.0
  Among-Apart (z ∷ zs) x y a (inr later) = Among-Apart zs x y a.1 later

  Among-find_item :
      (items : List (AddressItem S)) (x : AddressItem S) (address size : ℕ)
      → IsTable items
      → Among x items
      → address + size < 2 ^ 64
      → check_in x address size ≡ true
      → find_item items address size ≡ some x
  unfolding find_item
  Among-find_item [] x address size t m h e = elim m [ ]
  Among-find_item (y ∷ ys) x address size t (inl same) h e =
      let e' = subst (λ z. check_in z address size ≡ true) same e in rw e' (ap some (sym same))
  Among-find_item (y ∷ ys) x address size t (inr later) h e =
      let apart = Among-Apart ys x y t.1 later in
      let range = Among-IsRange ys x t.2 later in
      let miss =
        check_in-Apart x y address size range t.0 (elim apart [ inl p ↦ inr p | inr p ↦ inl p ]) h
          e in
      rw miss (Among-find_item ys x address size t.2 later h e)

-- In a table of ranges that are apart, an access whose end does not wrap is answered by the
-- item of the table in which it starts and before whose last byte it ends, wherever that item
-- stands.
pub find_item-Among :
    {S : Type 0} (items : List (AddressItem S)) (x : AddressItem S) (address size : ℕ)
    → IsTable items
    → Among x items
    → address + size < 2 ^ 64
    → x.start_address ≤ address
    → address + size < x.start_address + x.size
    → find_item items address size ≡ some x
find_item-Among items x address size t m h low high =
    Among-find_item items x address size t m h
      (ground (arith, check_in_lem x address size (Among-IsRange items x t m) h))

-- An access that starts in a range and ends with its last byte is refused by the item.
pub check_in_last_byte :
    {S : Type 0} (x : AddressItem S) (address size : ℕ)
    → IsRange x
    → x.start_address ≤ address
    → address + size ≡ x.start_address + x.size
    → check_in x address size ≡ false
check_in_last_byte x address size r low e = ground (arith, check_in_lem x address size r)
