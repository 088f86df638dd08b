-- ===== src/Fdt/Layout.antt =====
-- fdt.c: the layout of the tree that is written out.
use space_emu.Base.{ℕ, zero, suc, ◌+◌, ◌-◌, ◌*◌, ◌%◌, ◌≡◌, refl, arith, List, [], ◌∷◌, ◌++◌, some}
use space_emu.Base.{◌∙◌, sym, ap}
use space_emu.Translate.Vaddr.{take}
use space_emu.Base.Bytes.{length, to_bytes, length-to_bytes}
use space_emu.Base.Word.{u32}
use space_emu.Fdt.{FdtState, zeros, fdt_put32, put_words, fdt_output, fdt_header, header_words}
use space_emu.Fdt.{to_eight, off_mem_rsvmap, off_dt_strings, totalsize}
use space_emu.Fdt.Strings.{length-append, from_offset, from_offset-append}

length-zeros : (n : ℕ) → length (zeros n) ≡ n
length-zeros zero = refl
length-zeros (suc n) = omega (arith, length-zeros n)

module _ (be32 : ℕ → ℕ) where
  length-fdt_put32 :
      (s : FdtState) (value : ℕ) → length (fdt_put32 be32 s value).tab ≡ length s.tab + 4
  unfolding fdt_put32
  length-fdt_put32 s value = omega (
    arith,
    length-append s.tab (to_bytes 4 (be32 (u32 value))),
    length-to_bytes 4 (be32 (u32 value)),
  )

  length-put_words :
      (s : FdtState) (ws : List ℕ) → length (put_words be32 s ws).tab ≡ length s.tab + length ws * 4
  unfolding put_words
  length-put_words s [] = omega arith
  length-put_words s (w ∷ ws) =
      omega (arith, length-put_words (fdt_put32 be32 s w) ws, length-fdt_put32 s w)

  length-fdt_header : (m n : ℕ) → length (fdt_header be32 m n) ≡ 40
  unfolding fdt_header
  length-fdt_header m n =
      length-put_words (record { tab = []; open_node_count = 0; string_table = [] })
        (header_words m n)

  -- The words `ws` stand in `bytes` from `offset` on, each in its four bytes in the order of the
  -- header.
  abbrev pub HasWords : List ℕ → ℕ → List ℕ → Type 0
  HasWords bytes offset [] = Unit
  HasWords bytes offset (w ∷ ws) =
      (take 4 (from_offset offset bytes) ≡ to_bytes 4 (be32 (u32 w)))
      × HasWords bytes (offset + 4) ws

  -- The header that is written, word by word.
  header_stands :
      (len names_len : ℕ) (rest : List ℕ)
      → HasWords (fdt_header be32 len names_len ++ rest) 0 (
          0xd00d_feed
          ∷ totalsize len names_len
          ∷ 40
          ∷ off_dt_strings len
          ∷ off_mem_rsvmap len
          ∷ 17
          ∷ 16
          ∷ 0
          ∷ names_len
          ∷ len
          ∷ [])
  unfolding fdt_header put_words fdt_put32 to_bytes from_offset
  header_stands len names_len rest =
      (refl, (refl, (refl, (refl, (refl, (refl, (refl, (refl, (refl, (refl, tt))))))))))

  -- If no node is open, the tree is written with the size that is returned. It begins with
  -- the ten words of the header: the magic number, that size, the offsets of the structure
  -- (40), of the names and of the reserved ranges, the versions 17 and 16, the boot processor
  -- 0, and the sizes of the names and of the structure. The structure stands at offset 40,
  -- the reserved ranges, which are one empty entry, at the offset in the header, and the
  -- names, with their padding, last, at the offset in the header; the size and the offset of
  -- the reserved ranges are multiples of 8.
  pub fdt_output-layout :
      (s : FdtState)
      → s.open_node_count ≡ 0
      → let structure = (fdt_put32 be32 s 9).tab in
        let len = length structure in
        (bytes : List ℕ) × (padded : List ℕ) × (size : ℕ) × (reserved : ℕ) × (names : ℕ)
        × (fdt_output be32 s ≡ some (bytes, size))
        × HasWords bytes 0 (
            0xd00d_feed
            ∷ size
            ∷ 40
            ∷ names
            ∷ reserved
            ∷ 17
            ∷ 16
            ∷ 0
            ∷ length s.string_table
            ∷ len
            ∷ [])
        × (length bytes ≡ size)
        × (size % 8 ≡ 0)
        × (reserved % 8 ≡ 0)
        × (from_offset 40 bytes ≡ structure ++ padded)
        × (from_offset reserved bytes ≡ zeros 16 ++ from_offset names bytes)
        × (from_offset names bytes
            ≡ s.string_table ++ zeros (to_eight (names + length s.string_table)))
  unfolding fdt_output
  fdt_output-layout s closed =
      let structure = (fdt_put32 be32 s 9).tab in
      let strings = s.string_table in
      let len = length structure in
      let header = fdt_header be32 len (length strings) in
      let tail = strings ++ zeros (to_eight (off_dt_strings len + length strings)) in
      let reserved = zeros 16 ++ tail in
      let padded = zeros (to_eight (40 + len)) ++ reserved in
      let bytes = header ++ (structure ++ padded) in
      let head = length-fdt_header len (length strings) in
      let at_reserved : from_offset (off_mem_rsvmap len) bytes ≡ reserved =
        from_offset-append header (off_mem_rsvmap len) (off_mem_rsvmap len - 40)
          (structure ++ padded) (omega (arith, head))
        ∙ from_offset-append structure (off_mem_rsvmap len - 40) (to_eight (40 + len)) padded
            (omega arith)
        ∙ from_offset-append (zeros (to_eight (40 + len))) (to_eight (40 + len)) 0 reserved
            (omega (arith, length-zeros (to_eight (40 + len))))
        ∙ (unfold from_offset in refl) in
      let at_names : from_offset (off_dt_strings len) bytes ≡ tail =
        from_offset-append header (off_dt_strings len) (off_dt_strings len - 40)
          (structure ++ padded) (omega (arith, head))
        ∙ from_offset-append structure (off_dt_strings len - 40) (to_eight (40 + len) + 16) padded
            (omega arith)
        ∙ from_offset-append (zeros (to_eight (40 + len))) (to_eight (40 + len) + 16) 16 reserved
            (omega (arith, length-zeros (to_eight (40 + len))))
        ∙ from_offset-append (zeros 16) 16 0 tail refl
        ∙ (unfold from_offset in refl) in
      (
        bytes,
        padded,
        totalsize len (length strings),
        off_mem_rsvmap len,
        off_dt_strings len,
        rw closed refl,
        header_stands len (length strings) (structure ++ padded),
        omega (
          arith,
          head,
          length-append header (structure ++ padded),
          length-append structure padded,
          length-append (zeros (to_eight (40 + len))) reserved,
          length-zeros (to_eight (40 + len)),
          length-append (zeros 16) tail,
          length-append strings (zeros (to_eight (off_dt_strings len + length strings))),
          length-zeros (to_eight (off_dt_strings len + length strings)),
        ),
        omega arith,
        omega arith,
        from_offset-append header 40 0 (structure ++ padded) (omega (arith, head))
            ∙ (unfold from_offset in refl),
        at_reserved ∙ ap (λ bs. zeros 16 ++ bs) (sym at_names),
        at_names,
      )
