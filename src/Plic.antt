-- ===== src/Plic.antt =====
-- plic.c: the platform interrupt controller. `ctz32`, of the utility library, is a parameter.
pub mod Sync
pub mod Claim
pub mod Gateway
pub mod Progress
use space_emu.Base.{ℕ, ◌+◌, ◌-◌, ◌^◌, ◌%◌, bit_and, bit_or, Bool, ◌==◌, ◌!=◌, ltb, if◌then◌else◌}
use space_emu.Base.{List}
use space_emu.Base.Word.{lnot, sub64}
use space_emu.Cpu.{CpuState, set_mip, reset_mip, mip_seip, mip_meip}
use space_emu.Device.{Reply, read_words, write_words}

-- PLIC_BASE_ADDR
abbrev pub plic_base_addr : ℕ
plic_base_addr = 0x4010_0000

-- PLIC_HART_BASE + 4, the claim register
abbrev pub claim_offset : ℕ
claim_offset = 0x200004

-- The sources that are pending and not being served.
unfoldable pub open_irqs : CpuState → ℕ
open_irqs s = bit_and s.plic_pending_irq (lnot 32 s.plic_served_irq)

unfoldable pub update_mip : CpuState → CpuState
unfolding set_mip reset_mip
update_mip s =
    if open_irqs s != 0
    then set_mip s (bit_or mip_meip mip_seip)
    else reset_mip s (bit_or mip_meip mip_seip)

-- `irq_num` is from 1 to 32.
unfoldable pub plic_set_irq : CpuState → ℕ → Bool → CpuState
plic_set_irq s irq_num flag =
    let mask = 2 ^ (irq_num - 1) in
    let pending =
      if flag then bit_or s.plic_pending_irq mask else bit_and s.plic_pending_irq (lnot 32 mask) in
    update_mip (record s { plic_pending_irq = pending })

module _ (ctz32 : ℕ → ℕ) where
  -- A read of the claim register takes the lowest open source and marks it served.
  unfoldable pub plic_claim : CpuState → CpuState × ℕ
  plic_claim s =
      let mask = open_irqs s in
      let i = ctz32 mask in
      if mask != 0
      then (update_mip (record s { plic_served_irq = bit_or s.plic_served_irq (2 ^ i) }), i + 1)
      else (s, 0)

  unfoldable pub plic_read_sub : ℕ → CpuState → ℕ → CpuState × ℕ × ℕ
  plic_read_sub round s src =
      let offset = sub64 src plic_base_addr in
      if offset == claim_offset
      then (let (s', result) = plic_claim s in (s', result, 4))
      else (s, 0, 4)

  unfoldable pub plic_read : CpuState → ℕ → ℕ → Reply CpuState
  plic_read s src size = read_words plic_read_sub s src size

-- `value--` is in uint32_t.
unfoldable pub plic_complete : CpuState → ℕ → CpuState
plic_complete s value =
    let value' = (value + 2 ^ 32 - 1) % 2 ^ 32 in
    if ltb value' 32
    then update_mip
        (record s { plic_served_irq = bit_and s.plic_served_irq (lnot 32 (2 ^ value')) })
    else s

unfoldable pub plic_write_sub : CpuState → ℕ → ℕ → CpuState × ℕ
plic_write_sub s value dst =
    let offset = sub64 dst plic_base_addr in
    if offset == claim_offset then (plic_complete s value, 4) else (s, 4)

unfoldable pub plic_write : CpuState → List ℕ → ℕ → Reply CpuState
plic_write s src dst = write_words plic_write_sub s src dst
