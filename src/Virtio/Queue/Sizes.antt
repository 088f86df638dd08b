-- ===== src/Virtio/Queue/Sizes.antt =====
-- virtio_interface.c: `get_desc_rw_size` against the list of the descriptors of the chain.
use space_emu.Base.{ℕ, zero, suc, ◌+◌, ◌<◌, ◌≤◌, ◌≡◌, refl, arith, true, false}
use space_emu.Base.{List, [], ◌∷◌, Option, none, some, Bool-cases, inl, inr, if◌then◌else◌}
use space_emu.Base.Word.{u32}
use space_emu.Base.Bytes.{length}
use space_emu.Device.{Reply}
use space_emu.Virtio.{World, done}
use space_emu.Virtio.Queue.{Desc, desc_of, has_next, is_write, get_desc, write_size_loop}
use space_emu.Virtio.Queue.{read_size_loop, get_desc_rw_size}

-- The sum of the lengths, cut to 32 bits, if all are to be written.
unfoldable pub writes : ℕ → List Desc → Option ℕ
writes total [] = some total
writes total (d ∷ ds) = if is_write d then writes (u32 (total + d.len)) ds else none

abbrev paired : ℕ → Option ℕ → Option (ℕ × ℕ)
paired read_size none = none
paired read_size (some total) = some (read_size, total)

-- The length of the last descriptor before the first to be written, and the sum from there on.
unfoldable pub sizes : ℕ → List Desc → Option (ℕ × ℕ)
sizes read_size [] = some (read_size, 0)
sizes read_size (d ∷ ds) =
    if is_write d then paired read_size (writes 0 (d ∷ ds)) else sizes d.len ds

-- The descriptors, each from its bytes.
unfoldable pub descs : List (List ℕ) → List Desc
descs [] = []
descs (bytes ∷ rest) = desc_of bytes ∷ descs rest

module _ {M : Type 0} (min_int : ℕ → ℕ → ℕ) (read : World M → ℕ → ℕ → Reply (World M)) (w : World M)
    (queue_idx : ℕ) where
  -- The bytes of the descriptors of a chain that ends, in memory that the reads leave as it is. A
  -- descriptor is read over the bytes of the one before.
  abbrev pub Chain : List (List ℕ) → Type 0
  Chain [] = ⊥
  Chain (bytes ∷ []) = has_next (desc_of bytes) ≡ false
  Chain (bytes ∷ bytes' ∷ rest) =
      (has_next (desc_of bytes) ≡ true)
      × (get_desc min_int read w bytes queue_idx (desc_of bytes).next ≡ (w, bytes'))
      × Chain (bytes' ∷ rest)

  write_size_loop-writes :
      (left read_size total : ℕ) (bytes : List ℕ) (rest : List (List ℕ))
      → length rest < left
      → Chain (bytes ∷ rest)
      → write_size_loop min_int read left queue_idx read_size bytes total w
        ≡ done w (paired read_size (writes total (descs (bytes ∷ rest))))
  unfolding write_size_loop writes descs
  write_size_loop-writes zero read_size total bytes rest h c = absurd (omega arith)
  write_size_loop-writes (suc left) read_size total bytes [] h c =
      elim (Bool-cases (is_write (desc_of bytes))) [
        | inl e ↦ rw (e, write_size_loop) (rw (c, write_size_loop) refl)
        | inr e ↦ rw (e, write_size_loop) refl
      ]
  write_size_loop-writes (suc left) read_size total bytes (bytes' ∷ rest) h c =
      let total' = u32 (total + (desc_of bytes).len) in
      let ih = write_size_loop-writes left read_size total' bytes' rest (omega arith) c.2 in
      elim (Bool-cases (is_write (desc_of bytes))) [
        | inl e ↦ rw (e, write_size_loop) (rw (c.0, write_size_loop) (rw (c.1, get_desc) ih))
        | inr e ↦ rw (e, write_size_loop) refl
      ]

  read_size_loop-sizes :
      (left read_size : ℕ) (bytes : List ℕ) (rest : List (List ℕ))
      → length rest < left
      → Chain (bytes ∷ rest)
      → read_size_loop min_int read left queue_idx read_size bytes w
        ≡ done w (sizes read_size (descs (bytes ∷ rest)))
  unfolding read_size_loop sizes descs
  read_size_loop-sizes zero read_size bytes rest h c = absurd (omega arith)
  read_size_loop-sizes (suc left) read_size bytes [] h c =
      let writes' = write_size_loop-writes (suc left) read_size 0 bytes [] h c in
      elim (Bool-cases (is_write (desc_of bytes))) [
        | inl e ↦ rw (e, read_size_loop) writes'
        | inr e ↦ rw (e, read_size_loop) (rw (c, read_size_loop) refl)
      ]
  read_size_loop-sizes (suc left) read_size bytes (bytes' ∷ rest) h c =
      let writes' = write_size_loop-writes (suc left) read_size 0 bytes (bytes' ∷ rest) h c in
      let ih = read_size_loop-sizes left (desc_of bytes).len bytes' rest (omega arith) c.2 in
      elim (Bool-cases (is_write (desc_of bytes))) [
        | inl e ↦ rw (e, read_size_loop) writes'
        | inr e ↦ rw (e, read_size_loop) (rw (c.0, read_size_loop) (rw (c.1, get_desc) ih))
      ]

  -- In memory that the reads leave as it is, for a chain that ends and as many rounds as it
  -- has descriptors, the sizes are those of the list of the descriptors: the length of the
  -- last one before the first to be written, and the sum of the lengths from there on, if
  -- they are all to be written.
  pub get_desc_rw_size-sizes :
      (rounds desc_idx : ℕ) (old bytes : List ℕ) (rest : List (List ℕ))
      → length (bytes ∷ rest) ≤ rounds
      → get_desc min_int read w old queue_idx desc_idx ≡ (w, bytes)
      → Chain (bytes ∷ rest)
      → get_desc_rw_size min_int read rounds old queue_idx desc_idx w
        ≡ done w (sizes 0 (descs (bytes ∷ rest)))
  unfolding get_desc_rw_size
  get_desc_rw_size-sizes rounds desc_idx old bytes rest h first c =
      rw (first, get_desc) (read_size_loop-sizes rounds 0 bytes rest (omega arith) c)
