-- ===== src/Tests/Trees.antt =====
-- The device tree.
use space_emu.Base.{ℕ, ◌+◌, ◌≡◌, ◌%◌, refl, arith, List, [], ◌∷◌, ◌++◌, some}
use space_emu.Base.Bytes.{length}
use space_emu.Fdt.{FdtState, fdt_init, fdt_put32, fdt_begin_node, fdt_end_node, fdt_prop_u32}
use space_emu.Fdt.{fdt_get_string_offset, fdt_output}
use space_emu.Fdt.{to_eight, zeros}
use space_emu.Fdt.Layout.{HasWords, fdt_output-layout}
use space_emu.Fdt.Strings.{IsTableOf, Interned, from_offset, fdt_get_string_offset_lem}

-- A table with the names "a" and "bc".
abbrev two_names : FdtState
two_names = record { tab = []; open_node_count = 0; string_table = 97 ∷ 0 ∷ 98 ∷ 99 ∷ 0 ∷ [] }

abbrev names : List (List ℕ)
names = (97 ∷ []) ∷ (98 ∷ 99 ∷ []) ∷ []

two_names-IsTableOf : IsTableOf two_names names
two_names-IsTableOf = record {
  table = unfold space_emu.Fdt.joined in refl;
  strings = ((omega arith, tt), ((omega arith, (omega arith, tt)), tt));
}

fdt_get_string_offset_lem_example :
    Interned two_names names (98 ∷ 99 ∷ []) (fdt_get_string_offset two_names (98 ∷ 99 ∷ []))
fdt_get_string_offset_lem_example =
    fdt_get_string_offset_lem two_names names (98 ∷ 99 ∷ []) two_names-IsTableOf
      (omega arith, (omega arith, tt))

-- The parameter that turns words around is not looked at: a word stays as it is.
abbrev tree : FdtState
tree =
    fdt_end_node (λ v. v)
      (fdt_prop_u32 (λ v. v) (fdt_begin_node (λ v. v) fdt_init (99 ∷ 112 ∷ 117 ∷ [])) (97 ∷ []) 7)

tree_closed : tree.open_node_count ≡ 0
unfolding fdt_end_node fdt_prop_u32 fdt_begin_node fdt_init space_emu.Fdt.fdt_prop_tab_u32
tree_closed = refl

fdt_output-layout_example :
    let structure = (fdt_put32 (λ v. v) tree 9).tab in
    let len = length structure in
    (bytes : List ℕ) × (padded : List ℕ) × (size : ℕ) × (reserved : ℕ) × (names : ℕ) × (fdt_output
        (λ v. v)
        tree
      ≡ some (bytes, size))
    × HasWords
        (λ v. v)
        bytes
        0
        (0xd00d_feed
          ∷ size
          ∷ 40
          ∷ names
          ∷ reserved
          ∷ 17
          ∷ 16
          ∷ 0
          ∷ length tree.string_table
          ∷ len
          ∷ [])
    × (length bytes ≡ size)
    × (size % 8 ≡ 0)
    × (reserved % 8 ≡ 0)
    × (from_offset 40 bytes ≡ structure ++ padded)
    × (from_offset reserved bytes ≡ zeros 16 ++ from_offset names bytes)
    × (from_offset names bytes
        ≡ tree.string_table ++ zeros (to_eight (names + length tree.string_table)))
fdt_output-layout_example = fdt_output-layout (λ v. v) tree tree_closed
