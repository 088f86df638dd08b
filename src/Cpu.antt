-- ===== src/Cpu.antt =====
-- The processor state of regs.h, the constants of riscv_definations.h that the other parts
-- share, and the inline functions on the interrupt-pending word.
use space_emu.Base.{ℕ, ◌^◌, bit_and, bit_or, Bool, false, ◌&&◌, Option}
use space_emu.Base.{◌!=◌, if◌then◌else◌}
use space_emu.Base.Word.{lnot}

-- `cpu_state_t`, with XLEN = FLEN = 64. The `plic_irq` table holds, for each number from 1 to
-- 31, the callback `plic_set_irq` and that number: its callers call `plic_set_irq` directly.
-- `pending_exception` is `none` for -1.
pub record CpuState : Type 0 where
  pub pc : ℕ
  pub regs : ℕ → ℕ
  pub fp_reg : ℕ → ℕ
  pub fflags : ℕ
  pub frm : ℕ
  pub xlen : ℕ
  pub power_down_flag : Bool
  pub priv : ℕ
  pub fs : ℕ
  pub mxl : ℕ
  pub cycles : ℕ
  pub rtc_start_time : ℕ
  pub mtimecmp : ℕ
  pub plic_pending_irq : ℕ
  pub plic_served_irq : ℕ
  pub htif_tohost : ℕ
  pub htif_fromhost : ℕ
  pub pending_exception : Option ℕ
  pub pending_tval : ℕ
  pub mstatus : ℕ
  pub mtvec : ℕ
  pub mscratch : ℕ
  pub mepc : ℕ
  pub mcause : ℕ
  pub mtval : ℕ
  pub mhartid : ℕ
  pub misa : ℕ
  pub mie : ℕ
  pub mip : ℕ
  pub medeleg : ℕ
  pub mideleg : ℕ
  pub mcounteren : ℕ
  pub stvec : ℕ
  pub sscratch : ℕ
  pub sepc : ℕ
  pub scause : ℕ
  pub stval : ℕ
  pub satp : ℕ
  pub scounteren : ℕ
  pub load_res : ℕ

-- PRIV_U, PRIV_S, PRIV_M
abbrev pub priv_u : ℕ
priv_u = 0

abbrev pub priv_s : ℕ
priv_s = 1

abbrev pub priv_m : ℕ
priv_m = 3

-- Bit positions of `mip` and `mie`: MIP_SSIP and so on are `1 <<` these.
abbrev pub mip_ssip : ℕ
mip_ssip = 2 ^ 1

abbrev pub mip_msip : ℕ
mip_msip = 2 ^ 3

abbrev pub mip_stip : ℕ
mip_stip = 2 ^ 5

abbrev pub mip_mtip : ℕ
mip_mtip = 2 ^ 7

abbrev pub mip_seip : ℕ
mip_seip = 2 ^ 9

abbrev pub mip_meip : ℕ
mip_meip = 2 ^ 11

-- `set_mip` also wakes a processor that waits for an interrupt, if one is now pending and
-- enabled.
unfoldable pub set_mip : CpuState → ℕ → CpuState
set_mip s mask =
    let mip' = bit_or s.mip mask in
    record s {
      mip = mip';
      power_down_flag =
          if s.power_down_flag && bit_and mip' s.mie != 0 then false else s.power_down_flag;
    }

unfoldable pub reset_mip : CpuState → ℕ → CpuState
reset_mip s mask = record s { mip = bit_and s.mip (lnot 32 mask) }
