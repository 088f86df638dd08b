-- ===== src/Translate.antt =====
-- iomap.c, from `pte_format_t` on: the walk of the page tables. Memory is reached by the physical
-- accesses `read` and `write`, which work on the state `M` of all devices; a read that is refused
-- leaves the entry in the walk's buffer as it was.
pub mod Walk
pub mod Vaddr
pub mod Keeps
use space_emu.Base.{ℕ, zero, suc, ◌+◌, ◌-◌, ◌*◌, ◌/◌, ◌^◌, bit_and, bit_or, Bool, ◌&&◌, ◌||◌, ◌==◌}
use space_emu.Base.{◌!=◌, not, ltb, if◌then◌else◌}
use space_emu.Base.{List, switch, [], ◌∷◌}
use space_emu.Base.Word.{u64, ◌<<<◌, ◌>>>◌}
use space_emu.Base.Bytes.{to_bytes, from_bytes}
use space_emu.Cpu.{CpuState}
use space_emu.Device.{Reply}

-- PTE_V_MASK, PTE_R_MASK, PTE_W_MASK, PTE_X_MASK, PTE_U_MASK, PTE_A_MASK and PTE_D_MASK
abbrev pub pte_v_mask : ℕ
pte_v_mask = 2 ^ 0

abbrev pub pte_r_mask : ℕ
pte_r_mask = 2 ^ 1

abbrev pub pte_w_mask : ℕ
pte_w_mask = 2 ^ 2

abbrev pub pte_x_mask : ℕ
pte_x_mask = 2 ^ 3

abbrev pub pte_u_mask : ℕ
pte_u_mask = 2 ^ 4

abbrev pub pte_a_mask : ℕ
pte_a_mask = 2 ^ 6

abbrev pub pte_d_mask : ℕ
pte_d_mask = 2 ^ 7

-- `pte_format_t`, less `mode`, which nothing reads, and `pagesize`, which is always 4096; the
-- number of levels is that of the rounds.
pub record PteFormat : Type 0 where
  pub ppn : ℕ
  pub ptesize : ℕ
  pub ppn_width : ℕ
  pub levels : ℕ
  pub vpn : ℕ → ℕ
  pub va_offset : ℕ
  pub access : ℕ
  pub pte_ppn_mask : ℕ

-- A walk ends with -1, with an address, or at a superpage, whose mask is computed by a shift past
-- the width of the word, which C leaves undefined.
pub data Translation : Type 0 where
  fault : Translation
  undefined : Translation
  physical : ℕ → Translation

-- The U bit against the mode of the access.
unfoldable pub allows_mode : CpuState → ℕ → ℕ → Bool
allows_mode s priv pte =
    if priv == 1
    then not (bit_and pte pte_u_mask != 0 && bit_and s.mstatus (2 ^ 18) == 0)
    else bit_and pte pte_u_mask != 0

-- The access bits of an entry; MXR makes an executable page readable.
unfoldable pub access_bits : CpuState → ℕ → ℕ
access_bits s pte =
    let xwr = bit_and pte (bit_or (bit_or pte_r_mask pte_w_mask) pte_x_mask) in
    if bit_and s.mstatus (2 ^ 19) != 0 then bit_or xwr (xwr >>> 2) else xwr

-- The entry with its accessed bit and, for a write, its dirty bit.
unfoldable pub mark_entry : ℕ → ℕ → ℕ
mark_entry access pte =
    let accessed = bit_or pte pte_a_mask in
    if access == pte_w_mask then bit_or accessed pte_d_mask else accessed

unfoldable pub need_write : ℕ → ℕ → Bool
need_write access pte =
    bit_and pte pte_a_mask == 0 || (bit_and pte pte_d_mask == 0 && access == pte_w_mask)

unfoldable pub page_number : PteFormat → ℕ → ℕ
page_number ft pte = bit_and pte ft.pte_ppn_mask >>> 10

module _ {M : Type 0} (read : M → ℕ → ℕ → Reply M) (write : M → ℕ → List ℕ → Reply M)
    (s : CpuState) where
  -- A leaf at level `i`, whose entry stands at `pte_addr`.
  unfoldable pub leaf : PteFormat → ℕ → ℕ → M → ℕ → ℕ → M × Translation
  leaf ft priv i m pte_addr pte =
      let marked = mark_entry ft.access pte in
      let m' =
        if need_write ft.access pte
        then (write m pte_addr (to_bytes ft.ptesize marked)).state
        else m in
      if not (allows_mode s priv pte)
      then (m, fault)
      else if bit_and (access_bits s pte) ft.access == 0
      then (m, fault)
      else if i != 0
      then if bit_and (page_number ft marked) (2 ^ (ft.ppn_width * i) - 1) != 0
        then (m', fault)
        else (m', undefined)
      else (m', physical (bit_or (u64 (page_number ft marked <<< 12)) ft.va_offset))

  -- The entry after a read of its bytes over the old ones.
  unfoldable pub load_entry : PteFormat → ℕ → Reply M → ℕ
  load_entry ft pte r =
      if r.ok then pte / 256 ^ ft.ptesize * 256 ^ ft.ptesize + from_bytes r.bytes else pte

  -- The loop, with the levels left, the table's page and the buffer of the entry.
  unfoldable pub walk : PteFormat → ℕ → ℕ → M → ℕ → ℕ → M × Translation
  walk ft priv zero m base pte = (m, fault)
  walk ft priv (suc i) m base pte =
      let pte_addr = u64 (base * 4096 + ft.vpn i * ft.ptesize) in
      let r = read m pte_addr ft.ptesize in
      let pte' = load_entry ft pte r in
      let next = walk ft priv i r.state (page_number ft pte') pte' in
      if bit_and pte' pte_v_mask == 0
      then (r.state, fault)
      else if bit_and pte' pte_r_mask == 0 && bit_and pte' pte_x_mask == 0
      then next
      else leaf ft priv i r.state pte_addr pte'

  unfoldable pub translate_action : PteFormat → ℕ → M → M × Translation
  unfolding walk
  translate_action ft priv m = walk ft priv ft.levels m ft.ppn 0

  -- Bits `9 n + 12` and on of an address, for the 64-bit modes.
  unfoldable pub sv_format : ℕ → ℕ → ℕ → ℕ → PteFormat
  sv_format levels ppn inst access = record {
    ppn = ppn;
    ptesize = 8;
    ppn_width = 9;
    levels = levels;
    vpn = λ n. bit_and (inst >>> (12 + 9 * n)) 0x1ff;
    va_offset = bit_and inst 0xfff;
    access = access;
    pte_ppn_mask = u64 ((2 ^ 64 - 1) >>> 10 <<< 20) >>> 10;
  }

  unfoldable pub sv32_format : ℕ → ℕ → ℕ → PteFormat
  sv32_format ppn inst access = record {
    ppn = ppn;
    ptesize = 4;
    ppn_width = 10;
    levels = 2;
    vpn = λ n. bit_and (inst >>> (12 + 10 * n)) 0x3ff;
    va_offset = bit_and inst 0xfff;
    access = access;
    pte_ppn_mask = (2 ^ 32 - 1) >>> 10 <<< 10;
  }

  -- The mode whose rights count: with MPRV, that of MPP, but not for a fetch.
  unfoldable pub effective_priv : ℕ → ℕ
  effective_priv access =
      if bit_and s.mstatus (2 ^ 17) != 0 && access != pte_x_mask
      then bit_and (s.mstatus >>> 11) 3
      else s.priv

  unfoldable pub address_translate : ℕ → ℕ → M → M × Translation
  unfolding switch effective_priv translate_action sv_format sv32_format
  address_translate inst access m =
      let priv = effective_priv access in
      let ppn = bit_and s.satp (2 ^ 44 - 1) in
      if priv == 3
      then (m, physical (if ltb s.xlen 64 then bit_and inst (2 ^ s.xlen - 1) else inst))
      else switch (bit_and (s.satp >>> 60) 0xf)
          ((0, (m, physical inst))
            ∷ (1, translate_action (sv32_format ppn inst access) priv m)
            ∷ (8, translate_action (sv_format 3 ppn inst access) priv m)
            ∷ (9, translate_action (sv_format 4 ppn inst access) priv m)
            ∷ [])
          (m, fault)
