-- ===== src/Regs/Csr/Write.antt =====
-- `csr_write` of regs.c: `none` is the return of -1, which leaves the state as it is. The other
-- returns are 0, 1 (the register width has changed) and 2 (the address space has changed).
use space_emu.Base.{Bool, ℕ, ◌+◌, ◌-◌, ◌^◌, bit_and, bit_or, ◌&&◌}
use space_emu.Base.{switch, [], ◌∷◌, ◌||◌, ◌==◌, ◌!=◌, leb, if◌then◌else◌, Option, some, none}
use space_emu.Base.Word.{lnot, ◌<<<◌, ◌>>>◌}
use space_emu.Cpu.{CpuState, mip_ssip, mip_msip, mip_stip, mip_mtip, mip_seip}
use space_emu.Regs.Status.{set_mstatus, sstatus_mask, get_base_from_xlen}

-- `(old & ~mask) | (val & mask)`.
unfoldable pub merge : ℕ → ℕ → ℕ → ℕ
merge old mask val = bit_or (bit_and old (lnot 64 mask)) (bit_and val mask)

-- COUNTEREN_MASK: the cycle and the instruction counter.
abbrev pub counteren_mask : ℕ
counteren_mask = 5

-- The exceptions up to CAUSE_STORE_PAGE_FAULT can be delegated.
abbrev pub medeleg_mask : ℕ
medeleg_mask = 2 ^ 16 - 1

abbrev pub mideleg_mask : ℕ
mideleg_mask = mip_ssip + mip_stip + mip_seip

abbrev pub mie_mask : ℕ
mie_mask = mip_msip + mip_mtip + mip_ssip + mip_stip + mip_seip

abbrev pub mip_mask : ℕ
mip_mask = mip_ssip + mip_stip

unfoldable pub set_frm : CpuState → ℕ → CpuState
set_frm s val = record s { frm = if leb 5 val then 0 else val }

-- The new `satp`: an unknown translation mode keeps the old one.
unfoldable pub satp_value : ℕ → ℕ → ℕ
satp_value old val =
    let new_mode = bit_and (val >>> 60) 0xf in
    let mode = if new_mode == 0 || leb 8 new_mode && leb new_mode 9 then new_mode else old >>> 60 in
    bit_or (bit_and val (2 ^ 44 - 1)) (mode <<< 60)

abbrev Reply : Type 0
Reply = Option (ℕ × CpuState)

abbrev done : CpuState → Reply
done s = some (0, s)

-- The width that a write to `misa` names.
abbrev pub misa_mxl : CpuState → ℕ → ℕ
misa_mxl s val = bit_and (val >>> (s.xlen - 2)) 3

-- It is known, and not the current one.
abbrev pub allows_mxl : CpuState → ℕ → Bool
unfolding get_base_from_xlen
allows_mxl s val =
    leb 1 (misa_mxl s val)
    && leb (misa_mxl s val) (get_base_from_xlen 64)
    && s.mxl != misa_mxl s val

unfoldable pub set_mxl : CpuState → ℕ → CpuState
set_mxl s new_mxl = record s { mxl = new_mxl; xlen = 1 <<< (new_mxl + 4) }

unfoldable pub write_misa : CpuState → ℕ → Reply
write_misa s val = if allows_mxl s val then some (1, set_mxl s (misa_mxl s val)) else done s

module _ (s : CpuState) (csr val : ℕ) where
  unfoldable pub write_machine : Reply
  unfolding write_misa set_mxl get_base_from_xlen
  write_machine =
      switch csr
        ((0x300, done (set_mstatus s val))
          ∷ (0x301, write_misa s val)
          ∷ (0x302, done (record s { medeleg = merge s.medeleg medeleg_mask val }))
          ∷ (0x303, done (record s { mideleg = merge s.mideleg mideleg_mask val }))
          ∷ (0x304, done (record s { mie = merge s.mie mie_mask val }))
          ∷ (0x305, done (record s { mtvec = val }))
          ∷ (0x306, done (record s { mcounteren = bit_and val counteren_mask }))
          ∷ (0x340, done (record s { mscratch = val }))
          ∷ (0x341, done (record s { mepc = bit_and val (lnot 64 1) }))
          ∷ (0x342, done (record s { mcause = val }))
          ∷ (0x343, done (record s { mtval = val }))
          ∷ (0x344, done (record s { mip = merge s.mip mip_mask val }))
          ∷ [])
        none

  unfoldable pub write_supervisor : Reply
  unfolding write_machine
  write_supervisor =
      switch csr
        ((0x100, done (set_mstatus s (merge s.mstatus sstatus_mask val)))
          ∷ (0x104, done (record s { mie = merge s.mie s.mideleg val }))
          ∷ (0x105, done (record s { stvec = val }))
          ∷ (0x106, done (record s { scounteren = bit_and val counteren_mask }))
          ∷ (0x140, done (record s { sscratch = val }))
          ∷ (0x141, done (record s { sepc = bit_and val (lnot 64 1) }))
          ∷ (0x142, done (record s { scause = val }))
          ∷ (0x143, done (record s { stval = val }))
          ∷ (0x144, done (record s { mip = merge s.mip s.mideleg val }))
          ∷ (0x180, some (2, record s { satp = satp_value s.satp val }))
          ∷ [])
        write_machine

  -- A write to a float register turns the unit on (FS becomes 3).
  unfoldable pub csr_write : Reply
  unfolding write_supervisor set_frm
  csr_write =
      switch csr
        ((0x001, done (record s { fflags = bit_and val 0x1f; fs = 3 }))
          ∷ (0x002, done (record (set_frm s (bit_and val 7)) { fs = 3 }))
          ∷ (
            0x003,
            done (record (set_frm s (bit_and (val >>> 5) 7)) { fflags = bit_and val 0x1f; fs = 3 }),
          )
          ∷ [])
        write_supervisor
