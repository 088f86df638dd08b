-- ===== src/Virtio/Disk.antt =====
-- virtio_block_device.c: the disk in a file, and its sectors. The stream is a parameter: `fread`
-- gives the bytes it finds at a place, and `fwrite` stores some. Memory is always there to be
-- allocated.
pub mod Snapshot
use space_emu.Base.{ℕ, zero, suc, ◌*◌, ◌/◌, Bool, true, false, ◌==◌, ltb}
use space_emu.Base.{if◌then◌else◌, List, ◌++◌, Option, none, some}
use space_emu.Base.Word.{add64, u64}
use space_emu.Translate.Vaddr.{take, drop}
use space_emu.Virtio.{overlay}

-- SECTOR_SIZE
abbrev pub sector_size : ℕ
sector_size = 512

-- `block_device_mode_enum`
pub data Mode : Type 0 where
  bf_mode_ro bf_mode_rw bf_mode_snapshot : Mode

pub record Stream (F : Type 0) : Type 0 where
  pub fread : F → ℕ → ℕ → List ℕ
  pub fwrite : F → ℕ → List ℕ → F

-- `block_device_file_t`; a sector that was not written since the start is `none` in the table.
pub record BlockDeviceFile (F : Type 0) : Type 0 where
  pub f : Option F
  pub nb_sectors : ℕ
  pub mode : Mode
  pub sector_table : ℕ → Option (List ℕ)

unfoldable pub bf_get_sector_count : {F : Type 0} → BlockDeviceFile F → ℕ
bf_get_sector_count bf = bf.nb_sectors

unfoldable pub set_sector : {F : Type 0} → BlockDeviceFile F → ℕ → List ℕ → BlockDeviceFile F
set_sector bf sector_num bytes = record bf {
  sector_table = λ i. if i == sector_num then some bytes else bf.sector_table i;
}

module _ {F : Type 0} (stream : Stream F) where
  abbrev sector_place : ℕ → ℕ
  sector_place sector_num = u64 (sector_num * sector_size)

  -- A sector as a snapshot has it, stored over `old`.
  unfoldable pub read_sector : BlockDeviceFile F → F → ℕ → List ℕ → List ℕ
  read_sector bf f sector_num old = elim (bf.sector_table sector_num) [
    | none ↦ overlay (stream.fread f (sector_place sector_num) sector_size) old
    | some bytes ↦ overlay bytes old
  ]

  -- The loop over the sectors, with those left; past the table C leaves the read undefined.
  unfoldable pub read_sectors : BlockDeviceFile F → F → ℕ → ℕ → List ℕ → Option (List ℕ)
  unfolding read_sector
  read_sectors bf f zero sector_num buf = some buf
  read_sectors bf f (suc left) sector_num buf = elim (ltb sector_num bf.nb_sectors) [
    | false ↦ none
    | true ↦ elim (read_sectors bf f left (add64 sector_num 1) (drop sector_size buf)) [
      | none ↦ none
      | some rest ↦ some (read_sector bf f sector_num (take sector_size buf) ++ rest)
    ]
  ]

  -- The buffer as it is left, and whether 0 is returned rather than -1.
  unfoldable pub read_in :
      Option F → Mode → BlockDeviceFile F → ℕ → List ℕ → ℕ → Option (Bool × List ℕ)
  unfolding read_sectors
  read_in none mode bf sector_num buf size = some (false, buf)
  read_in (some f) bf_mode_snapshot bf sector_num buf size =
      elim (read_sectors bf f size sector_num buf) [ none ↦ none | some bytes ↦ some (true, bytes) ]
  read_in (some f) bf_mode_ro bf sector_num buf size =
      some (true, overlay (stream.fread f (sector_place sector_num) (size * sector_size)) buf)
  read_in (some f) bf_mode_rw bf sector_num buf size =
      some (true, overlay (stream.fread f (sector_place sector_num) (size * sector_size)) buf)

  -- `size` is a count of sectors that is not negative.
  unfoldable pub bf_read_async : BlockDeviceFile F → ℕ → List ℕ → ℕ → Option (Bool × List ℕ)
  unfolding read_in
  bf_read_async bf sector_num buf size = read_in bf.f bf.mode bf sector_num buf size

  -- Likewise for a write; it stops at the first sector past the table.
  unfoldable pub write_sectors : BlockDeviceFile F → ℕ → ℕ → List ℕ → Option (BlockDeviceFile F)
  unfolding set_sector
  write_sectors bf zero sector_num buf = some bf
  write_sectors bf (suc left) sector_num buf = elim (ltb sector_num bf.nb_sectors) [
    | false ↦ none
    | true ↦
        write_sectors (set_sector bf sector_num (take sector_size buf)) left (add64 sector_num 1)
          (drop sector_size buf)
  ]

  -- The stream of a disk in mode RW is there.
  unfoldable pub write_in :
      Option F → Mode → BlockDeviceFile F → ℕ → List ℕ → ℕ → Option (Bool × BlockDeviceFile F)
  unfolding write_sectors
  write_in file bf_mode_ro bf sector_num buf size = some (false, bf)
  write_in none bf_mode_rw bf sector_num buf size = none
  write_in (some f) bf_mode_rw bf sector_num buf size =
      let f' = stream.fwrite f (sector_place sector_num) (take (size * sector_size) buf) in
      some (true, record bf { f = some f' })
  write_in file bf_mode_snapshot bf sector_num buf size =
      elim (ltb bf.nb_sectors (add64 sector_num size)) [
        | true ↦ some (false, bf)
        | false ↦ elim (write_sectors bf size sector_num buf) [
          | none ↦ none
          | some bf' ↦ some (true, bf')
        ]
      ]

  unfoldable pub bf_write_async :
      BlockDeviceFile F → ℕ → List ℕ → ℕ → Option (Bool × BlockDeviceFile F)
  unfolding write_in
  bf_write_async bf sector_num buf size = write_in bf.f bf.mode bf sector_num buf size

-- A stream of `file_size` bytes that was opened, for `mode`.
unfoldable pub block_device_init : {F : Type 0} → F → ℕ → Mode → BlockDeviceFile F
block_device_init f file_size mode = record {
  f = some f;
  nb_sectors = file_size / 512;
  mode = mode;
  sector_table = λ i. none;
}
