-- ===== src/Virtio/Disk/Snapshot.antt =====
-- virtio_block_device.c: a disk in mode SNAPSHOT, as `main` sets it up.
use space_emu.Base.{ℕ, zero, suc, ◌+◌, ◌*◌, ◌^◌, ◌<◌, ◌≤◌, ◌≡◌, ◌⊎◌, inl, inr, refl, ap, ◌∙◌, arith}
use space_emu.Base.{true, false, ◌==◌, ltb, leb, List, [], ◌∷◌, ◌++◌, some}
use space_emu.Base.Bytes.{length}
use space_emu.Base.Word.{add64}
use space_emu.Translate.Vaddr.{take, drop}
use space_emu.Virtio.Lists.{overlay_all, length-take, length-drop, take-drop}
use space_emu.Virtio.Disk.{Stream, BlockDeviceFile, bf_mode_snapshot, sector_size, set_sector}
use space_emu.Virtio.Disk.{read_sector, read_sectors, write_sectors, bf_read_async, bf_write_async}
use space_emu.Virtio.Disk.{read_in, write_in}

true_of_lt : (a b : ℕ) → a < b → ltb a b ≡ true
true_of_lt a b h = ground arith

-- The disk after a write inside it.
unfoldable stored : {F : Type 0} → BlockDeviceFile F → ℕ → ℕ → List ℕ → BlockDeviceFile F
unfolding set_sector
stored bf zero sector_num buf = bf
stored bf (suc left) sector_num buf =
    stored (set_sector bf sector_num (take sector_size buf)) left (sector_num + 1)
      (drop sector_size buf)

-- All but the table is as before.
record SameFile {F : Type 0} (bf after : BlockDeviceFile F) : Type 0 where
  file : after.f ≡ bf.f
  sectors : after.nb_sectors ≡ bf.nb_sectors
  mode : after.mode ≡ bf.mode

module _ {F : Type 0} where
  stored-SameFile :
      (bf : BlockDeviceFile F) (left sector_num : ℕ) (buf : List ℕ)
      → SameFile bf (stored bf left sector_num buf)
  unfolding stored set_sector
  stored-SameFile bf zero sector_num buf = record { file = refl; sectors = refl; mode = refl }
  stored-SameFile bf (suc left) sector_num buf =
      let bf1 = set_sector bf sector_num (take sector_size buf) in
      let ih = stored-SameFile bf1 left (sector_num + 1) (drop sector_size buf) in
      record { file = ih.file; sectors = ih.sectors; mode = ih.mode }

  set_sector-same :
      (bf : BlockDeviceFile F) (sector_num : ℕ) (bytes : List ℕ)
      → (set_sector bf sector_num bytes).sector_table sector_num ≡ some bytes
  unfolding set_sector
  set_sector-same bf sector_num bytes =
      let self : (sector_num == sector_num) ≡ true = ground arith in rw self refl

  stored-outside :
      (bf : BlockDeviceFile F) (left sector_num : ℕ) (buf : List ℕ) (j : ℕ)
      → (ltb j sector_num ≡ true) ⊎ (leb (sector_num + left) j ≡ true)
      → (stored bf left sector_num buf).sector_table j ≡ bf.sector_table j
  unfolding stored set_sector
  stored-outside bf zero sector_num buf j o = refl
  stored-outside bf (suc left) sector_num buf j o =
      let bf1 = set_sector bf sector_num (take sector_size buf) in
      let o' : (ltb j (sector_num + 1) ≡ true) ⊎ (leb (sector_num + 1 + left) j ≡ true) = elim o [
        | inl p ↦ inl (ground (arith, p))
        | inr p ↦ inr (ground (arith, p))
      ] in
      let other : (j == sector_num) ≡ false = ground arith in
      stored-outside bf1 left (sector_num + 1) (drop sector_size buf) j o' ∙ rw other refl

  module _ (stream : Stream F) where
    write_sectors-stored :
        (bf : BlockDeviceFile F) (left sector_num : ℕ) (buf : List ℕ)
        → bf.nb_sectors < 2 ^ 64
        → sector_num + left ≤ bf.nb_sectors
        → write_sectors stream bf left sector_num buf ≡ some (stored bf left sector_num buf)
    unfolding write_sectors stored set_sector
    write_sectors-stored bf zero sector_num buf fits h = refl
    write_sectors-stored bf (suc left) sector_num buf fits h =
        let bf1 = set_sector bf sector_num (take sector_size buf) in
        let next : add64 sector_num 1 ≡ sector_num + 1 = omega arith in
        let below : ltb sector_num bf.nb_sectors ≡ true = ground arith in
        let ih =
          write_sectors-stored bf1 left (sector_num + 1) (drop sector_size buf) fits
            (omega arith) in
        rw (below, write_sectors) (rw next ih)

    -- A sector of the table, whole, replaces what was in the buffer.
    read_sector-table :
        (bf : BlockDeviceFile F) (f : F) (sector_num : ℕ) (old bytes : List ℕ)
        → bf.sector_table sector_num ≡ some bytes
        → length old ≤ length bytes
        → read_sector stream bf f sector_num old ≡ bytes
    unfolding read_sector
    read_sector-table bf f sector_num old bytes e h = rw (e, read_sector) (overlay_all bytes old h)

    read_sectors-stored :
        (bf : BlockDeviceFile F) (left sector_num : ℕ) (buf : List ℕ) (f : F) (old : List ℕ)
        → bf.nb_sectors < 2 ^ 64
        → sector_num + left ≤ bf.nb_sectors
        → length buf ≡ left * sector_size
        → length old ≡ left * sector_size
        → read_sectors stream (stored bf left sector_num buf) f left sector_num old ≡ some buf
    unfolding read_sectors stored
    read_sectors-stored bf zero sector_num [] f [] fits h p q = refl
    read_sectors-stored bf zero sector_num [] f (o ∷ old) fits h p q = absurd (omega arith)
    read_sectors-stored bf zero sector_num (b ∷ buf) f old fits h p q = absurd (omega arith)
    read_sectors-stored bf (suc left) sector_num buf f old fits h p q =
        let part = take sector_size buf in
        let bf1 = set_sector bf sector_num part in
        let after = stored bf1 left (sector_num + 1) (drop sector_size buf) in
        let same = stored-SameFile bf1 left (sector_num + 1) (drop sector_size buf) in
        let count : bf1.nb_sectors ≡ bf.nb_sectors = unfold set_sector in refl in
        let next : add64 sector_num 1 ≡ sector_num + 1 = omega arith in
        let below : ltb sector_num after.nb_sectors ≡ true =
          ap (λ n. ltb sector_num n) (same.sectors ∙ count)
          ∙ true_of_lt sector_num bf.nb_sectors (omega arith) in
        let here : bf1.sector_table sector_num ≡ some part = set_sector-same bf sector_num part in
        let entry : after.sector_table sector_num ≡ some part =
          stored-outside bf1 left (sector_num + 1) (drop sector_size buf) sector_num
            (inl (true_of_lt sector_num (sector_num + 1) (omega arith)))
          ∙ here in
        let whole : length part ≡ sector_size = length-take sector_size buf (omega arith) in
        let old_part = length-take sector_size old (omega arith) in
        let shorter : length (take sector_size old) ≤ length part =
          omega (arith, whole, old_part) in
        let first =
          read_sector-table after f sector_num (take sector_size old) part entry shorter in
        let ih =
          read_sectors-stored bf1 left (sector_num + 1) (drop sector_size buf) f
            (drop sector_size old) (omega (arith, count)) (omega (arith, count))
            (omega (arith, length-drop sector_size buf))
            (omega (arith, length-drop sector_size old)) in
        rw (below, read_sectors)
          (rw next (
            rw (ih, read_sectors)
              (ap some (ap (λ xs. xs ++ drop sector_size buf) first ∙ take-drop sector_size buf))))

    -- On a disk in mode SNAPSHOT whose file is open, a write of whole sectors inside the
    -- disk succeeds and leaves the file and every other sector as they were, and a read of
    -- the same sectors then gives the bytes written.
    pub bf_read_async-bf_write_async :
        (bf : BlockDeviceFile F) (f : F) (sector_num size : ℕ) (buf old : List ℕ)
        → bf.mode ≡ bf_mode_snapshot
        → bf.f ≡ some f
        → bf.nb_sectors < 2 ^ 64
        → sector_num + size ≤ bf.nb_sectors
        → length buf ≡ size * sector_size
        → length old ≡ size * sector_size
        → (after : BlockDeviceFile F) × (bf_write_async stream bf sector_num buf size
            ≡ some (true, after))
          × (after.f ≡ some f)
          × ((j : ℕ)
              → (ltb j sector_num ≡ true) ⊎ (leb (sector_num + size) j ≡ true)
              → after.sector_table j ≡ bf.sector_table j)
          × (bf_read_async stream after sector_num old size ≡ some (true, buf))
    unfolding bf_write_async bf_read_async write_in read_in
    bf_read_async-bf_write_async bf f sector_num size buf old snapshot file fits h p q =
        let after = stored bf size sector_num buf in
        let same = stored-SameFile bf size sector_num buf in
        let inside : ltb bf.nb_sectors (add64 sector_num size) ≡ false = ground arith in
        let written = write_sectors-stored bf size sector_num buf fits h in
        let back = read_sectors-stored bf size sector_num buf f old fits h p q in
        (
          after,
          ap (λ m. write_in stream bf.f m bf sector_num buf size) snapshot
              ∙ ap (λ o. write_in stream o bf_mode_snapshot bf sector_num buf size) file
              ∙ rw (inside, write_in) (rw (written, write_in) refl),
          same.file ∙ file,
          λ j o. stored-outside bf size sector_num buf j o,
          ap (λ m. read_in stream after.f m after sector_num old size) (same.mode ∙ snapshot)
              ∙ ap (λ o. read_in stream o bf_mode_snapshot after sector_num old size)
                  (same.file ∙ file)
              ∙ rw (back, read_in) refl,
        )
