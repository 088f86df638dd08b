-- ===== src/Memory.antt =====
-- memory.c: a range of RAM behind its bounds check. The buffer is a function from offsets to
-- bytes; an offset past its size is outside the allocation, where an access is undefined.
pub mod Safety
use space_emu.Base.{ℕ, zero, suc, ◌*◌, ◌^◌, Bool, true, false, ◌==◌, ltb, leb, if◌then◌else◌, not}
use space_emu.Base.{List, [], ◌∷◌, Option, none, some}
use space_emu.Base.Word.{add64, sub64}
use space_emu.Base.Bytes.{length}
use space_emu.Device.{Reply}
use space_emu.Iomap.{AddressItem}

-- RAM_BASE_ADDR, MEMORY_SIZE and LOW_RAM_SIZE
abbrev pub ram_base_addr : ℕ
ram_base_addr = 0x8000_0000

abbrev pub memory_size : ℕ
memory_size = 256 * 2 ^ 20

abbrev pub low_ram_size : ℕ
low_ram_size = 0x10000

abbrev pub Buffer : Type 0
Buffer = ℕ → ℕ

unfoldable pub check_valid : ℕ → ℕ → Bool
check_valid max size = leb size max

unfoldable pub update : Buffer → ℕ → ℕ → Buffer
update entity pos value j = if j == pos then value else entity j

-- A buffer that is there is kept; else one is allocated, if `malloc` succeeds, and cleared. The
-- function returns whether there is a buffer afterwards.
unfoldable pub memory_init : Bool → Option Buffer → Option Buffer
memory_init malloc_succeeds (some entity) = some entity
memory_init true none = some (λ _. 0)
memory_init false none = none

module _ (size : ℕ) where
  -- `*ptr++ = *src++`, byte by byte.
  unfoldable pub store_loop : Buffer → ℕ → List ℕ → Option Buffer
  store_loop entity pos [] = some entity
  store_loop entity pos (b ∷ bs) =
      let rest = store_loop (update entity pos b) (add64 pos 1) bs in
      if ltb pos size then rest else none

  -- `*dst++ = *ptr++`, with the bytes left.
  unfoldable pub load_loop : Buffer → ℕ → ℕ → Option (List ℕ)
  load_loop entity zero pos = some []
  load_loop entity (suc left) pos =
      let rest = load_loop entity left (add64 pos 1) in
      if ltb pos size
      then elim rest [ none ↦ none | some bytes ↦ some (entity pos ∷ bytes) ]
      else none

  module _ (start : ℕ) where
    unfoldable pub memory_write : Buffer → List ℕ → ℕ → Option (Reply Buffer)
    unfolding check_valid store_loop
    memory_write entity src dst =
        if not (check_valid size (sub64 (add64 dst (length src)) start))
        then some (record { state = entity; bytes = []; ok = false })
        else elim (store_loop entity (sub64 dst start) src) [
          | none ↦ none
          | some entity' ↦ some (record { state = entity'; bytes = []; ok = true })
        ]

    unfoldable pub memory_read : Buffer → ℕ → ℕ → Option (Reply Buffer)
    unfolding check_valid load_loop
    memory_read entity src n =
        if not (check_valid size (sub64 (add64 src n) start))
        then some (record { state = entity; bytes = []; ok = false })
        else elim (load_loop entity n (sub64 src start)) [
          | none ↦ none
          | some bytes ↦ some (record { state = entity; bytes = bytes; ok = true })
        ]

    -- The item of this range, which has no buffer before it is registered.
    unfoldable pub memory_item : Bool → AddressItem Buffer
    unfolding memory_init
    memory_item malloc_succeeds = record {
      start_address = start;
      size = size;
      init = λ _. memory_init malloc_succeeds none;
      read_bytes = memory_read;
      write_bytes = memory_write;
    }
