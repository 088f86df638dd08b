-- ===== src/Translate/Vaddr.antt =====
-- iomap.c: reads, writes and fetches at virtual addresses, `read_vaddr`, `write_vaddr` and
-- `code_vaddr`. The three differ in the access they translate for, in the exceptions they record
-- and in the physical access, so one loop serves them; its rounds are one more than the size,
-- and every round but the last takes at least a byte.
pub mod Answer
pub mod Rounds
use space_emu.Base.{ℕ, zero, suc, ◌+◌, ◌-◌, ◌^◌, bit_and, Bool, true, false, leb, ◌==◌}
use space_emu.Base.{if◌then◌else◌}
use space_emu.Base.{List, [], ◌∷◌, ◌++◌, some}
use space_emu.Base.Word.{add64}
use space_emu.Base.Bytes.{length}
use space_emu.Cpu.{CpuState}
use space_emu.Device.{Reply}
use space_emu.Translate.{Translation, fault, undefined, physical, address_translate, pte_r_mask}
use space_emu.Translate.{pte_w_mask, pte_x_mask}

-- CAUSE_FAULT_FETCH, CAUSE_FAULT_LOAD, CAUSE_FAULT_STORE and the page faults
abbrev pub cause_fault_fetch : ℕ
cause_fault_fetch = 1

abbrev pub cause_fault_load : ℕ
cause_fault_load = 5

abbrev pub cause_fault_store : ℕ
cause_fault_store = 7

abbrev pub cause_fetch_page_fault : ℕ
cause_fetch_page_fault = 12

abbrev pub cause_load_page_fault : ℕ
cause_load_page_fault = 13

abbrev pub cause_store_page_fault : ℕ
cause_store_page_fault = 15

-- The processor, the devices, the bytes read, and whether the access returned a size; `defined`
-- is false after a translation that C leaves undefined.
pub record Access (M : Type 0) : Type 0 where
  pub cpu : CpuState
  pub memory : M
  pub bytes : List ℕ
  pub ok : Bool
  pub defined : Bool

-- The exception that a refused access leaves for the instruction to raise.
unfoldable pub record_fault : CpuState → ℕ → ℕ → CpuState
record_fault s tval cause = record s { pending_tval = tval; pending_exception = some cause }

-- The bytes from `offset` on, `n` of them.
abbrev pub drop : ℕ → List ℕ → List ℕ
drop zero xs = xs
drop (suc n) [] = []
drop (suc n) (x ∷ xs) = drop n xs

abbrev pub take : ℕ → List ℕ → List ℕ
take zero xs = []
take (suc n) [] = []
take (suc n) (x ∷ xs) = x ∷ take n xs

module _ {M : Type 0} (translate : CpuState → ℕ → M → M × Translation)
    (bus : M → ℕ → ℕ → ℕ → Reply M) (fault_cause page_cause : ℕ) where
  -- A physical access of `size` bytes that ends the call.
  unfoldable pub last_part : CpuState → ℕ → Reply M → ℕ → Access M
  unfolding record_fault
  last_part s vaddress r cause = record {
    cpu = if r.ok then s else record_fault s vaddress cause;
    memory = r.state;
    bytes = r.bytes;
    ok = r.ok;
    defined = true;
  }

  -- What follows the recursive call: a fault of it is recorded again, as a page fault at the
  -- address it started from.
  unfoldable pub join_parts : List ℕ → ℕ → Access M → Access M
  unfolding record_fault
  join_parts bytes vaddress a = record {
    cpu = if a.ok then a.cpu else record_fault a.cpu vaddress page_cause;
    memory = a.memory;
    bytes = bytes ++ a.bytes;
    ok = a.ok;
    defined = a.defined;
  }

  -- `offset` bytes are done. The loop has no round 0.
  unfoldable pub vaddr_loop : ℕ → CpuState → M → ℕ → ℕ → ℕ → Access M
  unfolding last_part join_parts record_fault
  vaddr_loop zero s m vaddress offset size = record {
    cpu = s;
    memory = m;
    bytes = [];
    ok = false;
    defined = false;
  }
  vaddr_loop (suc left) s m vaddress offset size =
      let (m', translation) = translate s vaddress m in
      let in_page = 2 ^ 12 - bit_and vaddress (2 ^ 12 - 1) in
      elim translation [
        | fault ↦ record {
          cpu = record_fault s vaddress page_cause;
          memory = m';
          bytes = [];
          ok = false;
          defined = true;
        }
        | undefined ↦ record { cpu = s; memory = m'; bytes = []; ok = false; defined = false }
        | physical p ↦
            let part = bus m' p offset in_page in
            let rest =
              vaddr_loop left s part.state (add64 vaddress in_page) (offset + in_page)
                (size - in_page) in
            if p == vaddress
            then last_part s vaddress (bus m' p offset size) fault_cause
            else if leb size in_page
            then last_part s vaddress (bus m' p offset size) page_cause
            else if part.ok
            then join_parts part.bytes (add64 vaddress in_page) rest
            else last_part s vaddress part page_cause
      ]

module _ {M : Type 0} (read : M → ℕ → ℕ → Reply M) (write : M → ℕ → List ℕ → Reply M) where
  unfoldable pub read_vaddr : CpuState → M → ℕ → ℕ → Access M
  read_vaddr s m vaddress size =
      vaddr_loop (λ s' va. address_translate read write s' va pte_r_mask)
        (λ m' p offset n. read m' p n) cause_fault_load cause_load_page_fault (size + 1) s m
        vaddress 0 size

  unfoldable pub write_vaddr : CpuState → M → ℕ → List ℕ → Access M
  write_vaddr s m vaddress src =
      vaddr_loop (λ s' va. address_translate read write s' va pte_w_mask)
        (λ m' p offset n. write m' p (take n (drop offset src))) cause_fault_store
        cause_store_page_fault (length src + 1) s m vaddress 0 (length src)

  unfoldable pub code_vaddr : CpuState → M → ℕ → ℕ → Access M
  code_vaddr s m vaddress size =
      vaddr_loop (λ s' va. address_translate read write s' va pte_x_mask)
        (λ m' p offset n. read m' p n) cause_fault_fetch cause_fetch_page_fault (size + 1) s m
        vaddress 0 size
