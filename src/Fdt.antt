-- ===== src/Fdt.antt =====
-- fdt.c: the device tree that the machine hands to the kernel, as it is written: the words of the
-- structure, in memory order, and the table of the names of properties. `be32` is `cpu_to_be32` of
-- the utility library; a string is its characters without the 0. Memory is always there to be
-- allocated.
pub mod Strings
pub mod Layout
use space_emu.Base.{ℕ, zero, suc, ◌+◌, ◌-◌, ◌*◌, ◌%◌, ◌^◌, Bool, true, false, ◌==◌, ◌&&◌}
use space_emu.Base.{if◌then◌else◌}
use space_emu.Base.{List, [], ◌∷◌, ◌++◌, Option, none, some}
use space_emu.Base.Bytes.{length, to_bytes}
use space_emu.Base.Word.{u32, ◌>>>◌}

-- `fdt_state_t`: the bytes of `tab`, the nodes that are open, in int, and the bytes of
-- `string_table`.
pub record FdtState : Type 0 where
  pub tab : List ℕ
  pub open_node_count : ℕ
  pub string_table : List ℕ

unfoldable pub fdt_init : FdtState
fdt_init = record { tab = []; open_node_count = 0; string_table = [] }

abbrev pub zeros : ℕ → List ℕ
zeros zero = []
zeros (suc n) = 0 ∷ zeros n

-- `memset` up to the next word: `-len & 3` bytes.
abbrev pub padding : ℕ → ℕ
padding len = (4 - len % 4) % 4

unfoldable pub fdt_put_data : FdtState → List ℕ → FdtState
fdt_put_data s bytes = record s { tab = s.tab ++ (bytes ++ zeros (padding (length bytes))) }

-- The characters before the first 0, and what follows that 0.
unfoldable pub c_string : List ℕ → List ℕ
c_string [] = []
c_string (zero ∷ bs) = []
c_string (suc c ∷ bs) = suc c ∷ c_string bs

unfoldable pub after_string : List ℕ → List ℕ
after_string [] = []
after_string (zero ∷ bs) = bs
after_string (suc c ∷ bs) = after_string bs

-- `!strcmp`
unfoldable pub same_string : List ℕ → List ℕ → Bool
same_string [] [] = true
same_string [] (b ∷ bs) = false
same_string (a ∷ xs) [] = false
same_string (a ∷ xs) (b ∷ bs) = a == b && same_string xs bs

-- The loop over the table, from `pos`, with the part of the table that is left; every round takes
-- at least one byte of it.
unfoldable pub find_string : ℕ → ℕ → List ℕ → List ℕ → Option ℕ
find_string zero pos table name = none
find_string (suc left) pos [] name = none
find_string (suc left) pos (b ∷ bs) name =
    let here = c_string (b ∷ bs) in
    let rest = find_string left (pos + (length here + 1)) (after_string (b ∷ bs)) name in
    if same_string here name then some pos else rest

-- The offset of the name, which is added to the table if it is not in it.
unfoldable pub fdt_get_string_offset : FdtState → List ℕ → FdtState × ℕ
unfolding find_string
fdt_get_string_offset s name = elim (find_string (length s.string_table) 0 s.string_table name) [
  | none ↦ (record s { string_table = s.string_table ++ (name ++ (0 ∷ [])) }, length s.string_table)
  | some pos ↦ (s, pos)
]

-- Strings, each with its 0, as `fdt_prop_tab_str` collects them.
unfoldable pub joined : List (List ℕ) → List ℕ
joined [] = []
joined (str ∷ strs) = str ++ (0 ∷ joined strs)

-- `while((pos & 7) != 0)`
abbrev pub to_eight : ℕ → ℕ
to_eight pos = (8 - pos % 8) % 8

-- The offsets of the list of reserved ranges and of the names, and the size of the whole.
abbrev pub off_mem_rsvmap : ℕ → ℕ
off_mem_rsvmap dt_struct_size = 40 + dt_struct_size + to_eight (40 + dt_struct_size)

abbrev pub off_dt_strings : ℕ → ℕ
off_dt_strings dt_struct_size = off_mem_rsvmap dt_struct_size + 16

abbrev pub totalsize : ℕ → ℕ → ℕ
totalsize dt_struct_size dt_strings_size =
    let pos = off_dt_strings dt_struct_size + dt_strings_size in pos + to_eight pos

-- The ten words of the header in their order in memory, with the sizes of the structure and the
-- table of names.
abbrev pub header_words : ℕ → ℕ → List ℕ
header_words dt_struct_size dt_strings_size =
    0xd00d_feed
    ∷ totalsize dt_struct_size dt_strings_size
    ∷ 40
    ∷ off_dt_strings dt_struct_size
    ∷ off_mem_rsvmap dt_struct_size
    ∷ 17
    ∷ 16
    ∷ 0
    ∷ dt_strings_size
    ∷ dt_struct_size
    ∷ []

module _ (be32 : ℕ → ℕ) where
  unfoldable pub fdt_put32 : FdtState → ℕ → FdtState
  fdt_put32 s value = record s { tab = s.tab ++ to_bytes 4 (be32 (u32 value)) }

  unfoldable pub fdt_begin_node : FdtState → List ℕ → FdtState
  unfolding fdt_put32 fdt_put_data
  fdt_begin_node s name =
      let s' = fdt_put_data (fdt_put32 s 1) (name ++ (0 ∷ [])) in
      record s' { open_node_count = (s'.open_node_count + 1) % 2 ^ 32 }

  unfoldable pub fdt_end_node : FdtState → FdtState
  unfolding fdt_put32
  fdt_end_node s =
      let s' = fdt_put32 s 2 in
      record s' { open_node_count = (s'.open_node_count + 2 ^ 32 - 1) % 2 ^ 32 }

  -- FDT_PROP, the length of the value and the offset of the name.
  unfoldable pub prop_head : FdtState → List ℕ → ℕ → FdtState
  unfolding fdt_put32 fdt_get_string_offset
  prop_head s prop_name len =
      let (s', offset) = fdt_get_string_offset (fdt_put32 (fdt_put32 s 3) len) prop_name in
      fdt_put32 s' offset

  unfoldable pub fdt_prop : FdtState → List ℕ → List ℕ → FdtState
  unfolding prop_head fdt_put_data
  fdt_prop s prop_name bytes = fdt_put_data (prop_head s prop_name (length bytes)) bytes

  unfoldable pub put_words : FdtState → List ℕ → FdtState
  put_words s [] = s
  put_words s (w ∷ ws) = put_words (fdt_put32 s w) ws

  unfoldable pub fdt_prop_tab_u32 : FdtState → List ℕ → List ℕ → FdtState
  unfolding prop_head put_words
  fdt_prop_tab_u32 s prop_name tab = put_words (prop_head s prop_name (length tab * 4)) tab

  unfoldable pub fdt_prop_u32 : FdtState → List ℕ → ℕ → FdtState
  fdt_prop_u32 s prop_name value = fdt_prop_tab_u32 s prop_name (value ∷ [])

  unfoldable pub fdt_prop_tab_u64 : FdtState → List ℕ → ℕ → FdtState
  fdt_prop_tab_u64 s prop_name value =
      fdt_prop_tab_u32 s prop_name ((value >>> 32) ∷ u32 value ∷ [])

  unfoldable pub fdt_prop_tab_u64_2 : FdtState → List ℕ → ℕ → ℕ → FdtState
  fdt_prop_tab_u64_2 s prop_name v0 v1 =
      fdt_prop_tab_u32 s prop_name ((v0 >>> 32) ∷ u32 v0 ∷ (v1 >>> 32) ∷ u32 v1 ∷ [])

  unfoldable pub fdt_prop_str : FdtState → List ℕ → List ℕ → FdtState
  fdt_prop_str s prop_name str = fdt_prop s prop_name (str ++ (0 ∷ []))

  unfoldable pub fdt_prop_tab_str : FdtState → List ℕ → List (List ℕ) → FdtState
  unfolding joined
  fdt_prop_tab_str s prop_name strs = fdt_prop s prop_name (joined strs)

  unfoldable pub fdt_header : ℕ → ℕ → List ℕ
  unfolding put_words fdt_put32
  fdt_header dt_struct_size dt_strings_size =
      (put_words (record { tab = []; open_node_count = 0; string_table = [] })
        (header_words dt_struct_size dt_strings_size)).tab

  -- The header, the structure, the empty list of reserved ranges and the names, with the return;
  -- `none` where the assertion fails.
  unfoldable pub fdt_output : FdtState → Option (List ℕ × ℕ)
  unfolding fdt_put32 fdt_header
  fdt_output s =
      let structure = (fdt_put32 s 9).tab in
      let len = length structure in
      let strings = s.string_table in
      let bytes =
        fdt_header len (length strings)
        ++ (structure
            ++ (zeros (to_eight (40 + len))
                ++ (zeros 16
                    ++ (strings ++ zeros (to_eight (off_dt_strings len + length strings)))))) in
      if s.open_node_count == 0 then some (bytes, totalsize len (length strings)) else none
