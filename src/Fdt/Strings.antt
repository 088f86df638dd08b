-- ===== src/Fdt/Strings.antt =====
-- fdt.c: the table of the names of properties.
use space_emu.Base.{ℕ, zero, suc, ◌+◌, ◌<◌, ◌≤◌, ◌≡◌, ◌⊎◌, refl, arith, true, Bool-cases}
use space_emu.Base.{if◌then◌else◌, List, [], ◌∷◌, ◌++◌, Option, none, some, inl, inr, ap, sym, ◌∙◌}
use mathlib.Core.List.{append-nil, append_assoc}
use mathlib.Core.Path.{subst}
use space_emu.Base.Bytes.{length}
use space_emu.Fdt.{FdtState, c_string, after_string, same_string, find_string}
use space_emu.Fdt.{fdt_get_string_offset, joined}

-- Characters, without the 0 that ends a string.
abbrev pub IsString : List ℕ → Type 0
IsString [] = Unit
IsString (c ∷ cs) = (0 < c) × IsString cs

abbrev pub AllStrings : List (List ℕ) → Type 0
AllStrings [] = Unit
AllStrings (n ∷ ns) = IsString n × AllStrings ns

-- The bytes from an offset on.
unfoldable pub from_offset : ℕ → List ℕ → List ℕ
from_offset zero bs = bs
from_offset (suc n) [] = []
from_offset (suc n) (b ∷ bs) = from_offset n bs

c_string-ended : (n rest : List ℕ) → IsString n → c_string (n ++ (0 ∷ rest)) ≡ n
unfolding c_string
c_string-ended [] rest h = refl
c_string-ended (zero ∷ cs) rest h = absurd (omega arith)
c_string-ended (suc c ∷ cs) rest h = ap (λ xs. suc c ∷ xs) (c_string-ended cs rest h.1)

after_string-ended : (n rest : List ℕ) → IsString n → after_string (n ++ (0 ∷ rest)) ≡ rest
unfolding after_string
after_string-ended [] rest h = refl
after_string-ended (zero ∷ cs) rest h = absurd (omega arith)
after_string-ended (suc c ∷ cs) rest h = after_string-ended cs rest h.1

same_string_lem : (a b : List ℕ) → same_string a b ≡ true → a ≡ b
unfolding same_string
same_string_lem [] [] e = refl
same_string_lem [] (y ∷ ys) e = absurd (ground (arith, e))
same_string_lem (x ∷ xs) [] e = absurd (ground (arith, e))
same_string_lem (x ∷ xs) (y ∷ ys) e =
    let first : x ≡ y = ground (arith, e) in
    let rest : same_string xs ys ≡ true = ground (arith, e) in
    ap (λ z. z ∷ xs) first ∙ ap (λ zs. y ∷ zs) (same_string_lem xs ys rest)

pub from_offset-append :
    (n : List ℕ) (j k : ℕ) (rest : List ℕ)
    → j ≡ length n + k
    → from_offset j (n ++ rest) ≡ from_offset k rest
unfolding from_offset
from_offset-append [] j k rest e = ap (λ i. from_offset i rest) (omega (arith, e))
from_offset-append (c ∷ cs) zero k rest e = absurd (omega arith)
from_offset-append (c ∷ cs) (suc j) k rest e = from_offset-append cs j k rest (omega arith)

pub length-append : (n rest : List ℕ) → length (n ++ rest) ≡ length n + length rest
length-append [] rest = omega arith
length-append (c ∷ cs) rest = omega (arith, length-append cs rest)

find_string-first :
    (left pos : ℕ) (n rest name : List ℕ)
    → IsString n
    → find_string (suc left) pos (n ++ (0 ∷ rest)) name
      ≡ (if same_string n name then some pos else find_string left (pos + (length n + 1)) rest name)
unfolding find_string
find_string-first left pos [] rest name h =
    rw (c_string-ended [] rest h, after_string-ended [] rest h) refl
find_string-first left pos (c ∷ cs) rest name h =
    rw (c_string-ended (c ∷ cs) rest h, after_string-ended (c ∷ cs) rest h) refl

find_string-empty : (left pos : ℕ) (name : List ℕ) → find_string left pos [] name ≡ none
unfolding find_string
find_string-empty zero pos name = refl
find_string-empty (suc left) pos name = refl

module _ (name : List ℕ) where
  -- The name is not in the table, or stands at an offset past `pos`.
  abbrev Found : ℕ → List (List ℕ) → Option ℕ → Type 0
  Found pos names o =
      (o ≡ none)
      ⊎ ((off : ℕ) × (o ≡ some (pos + off)) × (c_string (from_offset off (joined names)) ≡ name))

  find_string-Found :
      (names : List (List ℕ)) (left pos : ℕ)
      → AllStrings names
      → length (joined names) ≤ left
      → Found pos names (find_string left pos (joined names) name)
  unfolding joined
  find_string-Found [] left pos a h = inl (find_string-empty left pos name)
  find_string-Found (n ∷ ns) zero pos a h = absurd (omega (arith, length-append n (0 ∷ joined ns)))
  find_string-Found (n ∷ ns) (suc left) pos a h =
      let step = find_string-first left pos n (joined ns) name a.0 in
      let next = pos + (length n + 1) in
      elim (Bool-cases (same_string n name)) [
        | inl e ↦
            let here : find_string (suc left) pos (n ++ (0 ∷ joined ns)) name ≡ some (pos + 0) =
              ground (arith, step, e) in
            inr (
              0,
              here,
              unfold from_offset in c_string-ended n (joined ns) a.0 ∙ same_string_lem n name e,
            )
        | inr e ↦
            let later : find_string (suc left) pos (n ++ (0 ∷ joined ns)) name
                ≡ find_string left next (joined ns) name =
              ground (arith, step, e) in
            let ih =
              find_string-Found ns left next a.1 (omega (arith, length-append n (0 ∷ joined ns))) in
            elim ih [
              | inl missing ↦ inl (later ∙ missing)
              | inr (off, found, there) ↦
                  let moved : from_offset (length n + suc off) (n ++ (0 ∷ joined ns))
                      ≡ from_offset (suc off) (0 ∷ joined ns) =
                    from_offset-append n (length n + suc off) (suc off) (0 ∷ joined ns) refl in
                  inr (
                    length n + suc off,
                    later ∙ found ∙ ap some (omega arith),
                    ap c_string moved ∙ (unfold from_offset in there),
                  )
            ]
      ]

joined-append :
    (names : List (List ℕ)) (name : List ℕ)
    → joined (names ++ (name ∷ [])) ≡ joined names ++ (name ++ (0 ∷ []))
unfolding joined
joined-append [] name = refl
joined-append (n ∷ ns) name =
    ap (λ bs. n ++ (0 ∷ bs)) (joined-append ns name)
    ∙ sym (append_assoc n (0 ∷ joined ns) (name ++ (0 ∷ [])))

AllStrings-append :
    (names : List (List ℕ)) (name : List ℕ)
    → AllStrings names
    → IsString name
    → AllStrings (names ++ (name ∷ []))
AllStrings-append [] name a h = (h, tt)
AllStrings-append (n ∷ ns) name a h = (a.0, AllStrings-append ns name a.1 h)

-- The table of the state is made of these strings.
pub record IsTableOf (s : FdtState) (names : List (List ℕ)) : Type 0 where
  pub table : s.string_table ≡ joined names
  pub strings : AllStrings names

module _ (s : FdtState) (names : List (List ℕ)) (name : List ℕ) where
  -- A state whose table has the strings of `names` and perhaps more, with `name` at the offset.
  abbrev pub Interned : FdtState × ℕ → Type 0
  Interned (t, off) =
      (more : List (List ℕ)) × IsTableOf t (names ++ more)
      × (c_string (from_offset off t.string_table) ≡ name)
      × (t.tab ≡ s.tab)
      × (t.open_node_count ≡ s.open_node_count)

  abbrev search : Option ℕ
  search = find_string (length s.string_table) 0 s.string_table name

  added :
      search ≡ none → IsTableOf s names → IsString name → Interned (fdt_get_string_offset s name)
  added e h c =
      let end : from_offset (length s.string_table) (s.string_table ++ (name ++ (0 ∷ [])))
          ≡ name ++ (0 ∷ []) =
        from_offset-append s.string_table (length s.string_table) 0 (name ++ (0 ∷ [])) (omega arith)
        ∙ (unfold from_offset in refl) in
      let result : fdt_get_string_offset s name ≡ (
        record s { string_table = s.string_table ++ (name ++ (0 ∷ [])) },
        length s.string_table,
      ) =
        unfold fdt_get_string_offset in rw (e, fdt_get_string_offset) refl in
      subst Interned (sym result) (
        name ∷ [],
        record {
          table = ap (λ bs. bs ++ (name ++ (0 ∷ []))) h.table ∙ sym (joined-append names name);
          strings = AllStrings-append names name h.strings c;
        },
        ap c_string end ∙ c_string-ended name [] c,
        refl,
        refl,
      )

  known :
      (off : ℕ)
      → search ≡ some off
      → c_string (from_offset off (joined names)) ≡ name
      → IsTableOf s names
      → Interned (fdt_get_string_offset s name)
  known off e there h =
      let result : fdt_get_string_offset s name ≡ (s, off) =
        unfold fdt_get_string_offset in rw (e, fdt_get_string_offset) refl in
      subst Interned (sym result) (
        [],
        record {
          table = h.table ∙ ap joined (sym (append-nil names));
          strings = subst AllStrings (sym (append-nil names)) h.strings;
        },
        ap (λ bs. c_string (from_offset off bs)) h.table ∙ there,
        refl,
        refl,
      )

  -- In a state whose table is made of strings that each end with a 0, the offset given for a
  -- name is that of the name in the table afterwards; the table still begins with the strings
  -- that it had, nothing else of the state changes, and what follows them are strings again.
  pub fdt_get_string_offset_lem :
      IsTableOf s names → IsString name → Interned (fdt_get_string_offset s name)
  fdt_get_string_offset_lem h c =
      let at_table : search ≡ find_string (length s.string_table) 0 (joined names) name =
        ap (λ bs. find_string (length s.string_table) 0 bs name) h.table in
      elim (find_string-Found name names (length s.string_table) 0 h.strings
        (omega (arith, ap length h.table))) [
          | inl e ↦ added (at_table ∙ e) h c
          | inr (off, e, there) ↦ known off (at_table ∙ e ∙ ap some (omega arith)) there h
        ]
