-- ===== src/Tests/Registers.antt =====
-- Writes to control registers, and the arithmetic of the instructions.
use space_emu.Base.{ℕ, ◌^◌, ◌≤◌, ◌-◌, ◌≡◌, true, if◌then◌else◌, ◌==◌, ◌&&◌, ◌||◌, refl, arith}
use space_emu.Base.{bit_and, some, switch}
use space_emu.Base.Bits.{has_bit}
use space_emu.Cpu.{CpuState}
use space_emu.Alu.{op32_value}
use space_emu.Alu.Helpers.{mulhu, sext32}
use space_emu.Alu.Mulhu.{mulhu_lem}
use space_emu.Alu.Results.{op32_value-IsExtended}
use space_emu.Regs.Csr.Read.{csr_read}
use space_emu.Regs.Csr.Write.{csr_write}
use space_emu.Regs.Csr.ReadBack.{csr_read-csr_write_mstatus}
use space_emu.Regs.Csr.Views.{sstatus_plain, csr_write_sstatus, csr_read-csr_write_sie}
use space_emu.Regs.Status.Mask.{allows_widths}
use space_emu.Regs.Valid.{IsValid}
use space_emu.Regs.Valid.Writes.{csr_write-IsValid}
use space_emu.Space.{cpu_state_reset}
use space_emu.Space.Reachable.{cpu_state_reset-IsValid}

reset-priv : (cpu_state_reset.priv ≡ 3) × (cpu_state_reset.xlen ≡ 64) × (1 ≤ cpu_state_reset.priv)
unfolding cpu_state_reset
reset-priv = (refl, refl, omega arith)

abbrev scratch : CpuState
scratch = record cpu_state_reset { mscratch = 7 }

-- A write to `mscratch`.
csr_write-IsValid_example : IsValid scratch
unfolding csr_write switch cpu_state_reset
csr_write-IsValid_example =
    csr_write-IsValid {s = cpu_state_reset} {t = scratch} {code = 0} 0x340 7 cpu_state_reset-IsValid
      refl

csr_write_sstatus_example :
    (t : CpuState) × (csr_write cpu_state_reset 0x100 0xff ≡ some (0, t))
    × ((i : ℕ)
        → has_bit t.mstatus i ≡ (
            if has_bit sstatus_plain i || ((i == 32 || i == 33) && allows_widths 0xff)
            then has_bit 0xff i
            else has_bit cpu_state_reset.mstatus i))
csr_write_sstatus_example = csr_write_sstatus cpu_state_reset 0xff cpu_state_reset-IsValid

csr_read-csr_write_sie_example :
    (t : CpuState) × (csr_write cpu_state_reset 0x104 0x222 ≡ some (0, t))
    × (csr_read 0 t 0x104 true ≡ some (bit_and 0x222 cpu_state_reset.mideleg))
    × ((i : ℕ)
        → has_bit t.mie i ≡ (
            if has_bit cpu_state_reset.mideleg i
            then has_bit 0x222 i
            else has_bit cpu_state_reset.mie i))
csr_read-csr_write_sie_example =
    csr_read-csr_write_sie 0 cpu_state_reset 0x222 cpu_state_reset-IsValid reset-priv.2

-- The bits of FS.
csr_read-csr_write_mstatus_example :
    (t : CpuState) × (r : ℕ) × (csr_write cpu_state_reset 0x300 0x6000 ≡ some (0, t))
    × (csr_read 0 t 0x300 true ≡ some r)
    × (has_bit r 13 ≡ has_bit 0x6000 13)
csr_read-csr_write_mstatus_example =
    csr_read-csr_write_mstatus 0 cpu_state_reset 0x6000 13 cpu_state_reset-IsValid reset-priv.0
      reset-priv.1 (omega arith)

mulhu_lem_example : mulhu (2 ^ 63) 6 ≡ 3
mulhu_lem_example = mulhu_lem (2 ^ 63) 6 (omega arith) (omega arith)

-- `addw` of two values whose sum leaves the 32-bit signed range.
op32_value-IsExtended_example : 2 ^ 64 - 2 ^ 31 ≡ sext32 (2 ^ 64 - 2 ^ 31)
unfolding op32_value switch
op32_value-IsExtended_example =
    op32_value-IsExtended 0 0 (2 ^ 31 - 1) 1 (2 ^ 64 - 2 ^ 31) (unfold sext32 in refl)
