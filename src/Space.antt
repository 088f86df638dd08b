-- ===== src/Space.antt =====
-- space.c: the reset state of the processor.
pub mod Reachable
use space_emu.Base.{ℕ, ◌^◌, bit_or, false, none}
use space_emu.Base.Word.{u64, ◌<<<◌}
use space_emu.Cpu.{CpuState, priv_m}
use space_emu.Regs.Status.{get_base_from_xlen}

-- MCPUID_SUPER, MCPUID_USER, MCPUID_I, MCPUID_M, MCPUID_A, MCPUID_C, and with 64-bit floats
-- MCPUID_F and MCPUID_D
abbrev misa_bits : ℕ
misa_bits = bit_or (2 ^ 18) (
    bit_or (2 ^ 20)
      (bit_or (2 ^ 8) (bit_or (2 ^ 12) (bit_or (2 ^ 0) (bit_or (2 ^ 2) (bit_or (2 ^ 5) (2 ^ 3)))))))

unfoldable pub cpu_state_reset : CpuState
unfolding get_base_from_xlen
cpu_state_reset = record {
  pc = 0x1000;
  regs = λ _. 0;
  fp_reg = λ _. 0;
  fflags = 0;
  frm = 0;
  xlen = 64;
  power_down_flag = false;
  priv = priv_m;
  fs = 0;
  mxl = get_base_from_xlen 64;
  cycles = 0;
  rtc_start_time = 0;
  mtimecmp = 0;
  plic_pending_irq = 0;
  plic_served_irq = 0;
  htif_tohost = 0;
  htif_fromhost = 0;
  pending_exception = none;
  pending_tval = 0;
  mstatus = bit_or (u64 (get_base_from_xlen 64 <<< 32)) (u64 (get_base_from_xlen 64 <<< 34));
  mtvec = 0;
  mscratch = 0;
  mepc = 0;
  mcause = 0;
  mtval = 0;
  mhartid = 0;
  misa = misa_bits;
  mie = 0;
  mip = 0;
  medeleg = 0;
  mideleg = 0;
  mcounteren = 0;
  stvec = 0;
  sscratch = 0;
  sepc = 0;
  scause = 0;
  stval = 0;
  satp = 0;
  scounteren = 0;
  load_res = 0;
}
