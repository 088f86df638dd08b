-- ===== src/Tests/Devices.antt =====
-- The interrupt controller, the timer and the host interface.
use space_emu.Base.{◌^◌, ◌+◌, ◌*◌, ◌≡◌, true, false}
use space_emu.Base.{refl, arith, none, [], ◌∷◌}
use space_emu.Base.Bits.{has_bit}
use space_emu.Base.Bytes.{to_bytes}
use space_emu.Cpu.{CpuState}
use space_emu.Clint.{clint_base_addr, clint_write}
use space_emu.Clint.Timer.{clint_write_mtimecmp}
use space_emu.Htif.{Machine, htif_write, htif_base_addr}
use space_emu.Htif.Console.{putchar_high, htif_write_putchar}
use space_emu.Plic.{open_irqs}
use space_emu.Plic.Claim.{run, NotReturned, run-NotReturned, raise, claim}
use space_emu.Plic.Claim.{complete}
use space_emu.Plic.Sync.{IsSynced, serve, set_irq, serve-IsSynced}
use space_emu.Space.{cpu_state_reset}
use space_emu.Tests.{user, ctz32, counts}

user-IsSynced : IsSynced user
unfolding cpu_state_reset has_bit open_irqs
user-IsSynced = record { seip = refl; meip = refl }

serve-IsSynced_example : IsSynced (serve ctz32 user (set_irq 3 true))
serve-IsSynced_example = serve-IsSynced ctz32 user (set_irq 3 true) user-IsSynced

-- Sources 2 and 3 are pending and source 2 is served.
abbrev busy : CpuState
busy = record user { plic_pending_irq = 0b110; plic_served_irq = 0b010 }

run-NotReturned_example :
    NotReturned 1 (run ctz32 busy (claim ∷ raise 2 true ∷ complete 3 ∷ claim ∷ []))
unfolding has_bit
run-NotReturned_example =
    run-NotReturned ctz32 counts 1 busy (claim ∷ raise 2 true ∷ complete 3 ∷ claim ∷ [])
      (omega arith) refl (omega arith, omega arith, tt)

clint_write_mtimecmp_example :
    let r = clint_write user (to_bytes 8 (2 ^ 40 + 5)) (clint_base_addr + 0x4000) in
    (r.ok ≡ true) × (r.state.mtimecmp ≡ 2 ^ 40 + 5) × (has_bit r.state.mip 7 ≡ false)
clint_write_mtimecmp_example = clint_write_mtimecmp user (2 ^ 40 + 5) (omega arith)

abbrev far : CpuState
far = record user { mtimecmp = 2 ^ 40 }

abbrev booted : Machine
booted = record { cpu = user; console = []; exit_code = none }

htif_write_putchar_example :
    let t = htif_write booted (to_bytes 8 (65 + putchar_high * 2 ^ 32)) htif_base_addr in
    (t.ok ≡ true)
    × (t.state.exit_code ≡ none)
    × (t.state.console ≡ 65 ∷ [])
    × (t.state.cpu.htif_tohost ≡ 0)
htif_write_putchar_example = htif_write_putchar booted 65 refl (omega arith)
