-- ===== src/Regs/Trap/Vector.antt =====
-- Where an interrupt leads: the mode, the cause register and the entry point.
use space_emu.Base.{ℕ, ◌+◌, ◌*◌, ◌%◌, ◌^◌, ◌<◌, ◌≡◌, ◌≢◌, arith, bit_and, true, ◌&&◌}
use space_emu.Base.{leb, if◌then◌else◌, ◌==◌}
use space_emu.Base.Word.{lnot}
use space_emu.Base.Bits.{has_bit, has_bit-bit_or, shift_and_one}
use space_emu.Base.Bits.{bit_and_pow, bit_or_pow, bit_and_mask, has_bit-pow}
use space_emu.Cpu.{CpuState}
use space_emu.Regs.Trap.{raise_exception, trap_to_machine, trap_to_supervisor, is_delegated}
use space_emu.Regs.Trap.{is_interrupt}
use space_emu.Regs.Trap.{trap_pc, cause_value}

-- The number of an interrupt, marked as one.
module _ (irq : ℕ) (irq_lt : irq < 32) where
  marked-is_interrupt : is_interrupt (irq + 2 ^ 31) ≡ true
  unfolding is_interrupt
  marked-is_interrupt = ground (
    arith,
    bit_or_pow 31 irq (omega arith),
    bit_and_pow (irq + 2 ^ 31) 31,
    has_bit-bit_or irq (2 ^ 31) 31,
    has_bit-pow 31 31,
  )

  marked-is_delegated :
      (s : CpuState) → is_delegated s (irq + 2 ^ 31) ≡ leb s.priv 1 && has_bit s.mideleg irq
  unfolding is_delegated
  marked-is_delegated s =
      let e : bit_and (irq + 2 ^ 31) 63 ≡ irq = omega (arith, bit_and_mask 6 (irq + 2 ^ 31)) in
      ground (arith, marked-is_interrupt, e, shift_and_one s.mideleg irq)

  marked-cause_value : (s : CpuState) → s.xlen ≡ 64 → cause_value s (irq + 2 ^ 31) ≡ irq + 2 ^ 63
  unfolding cause_value
  marked-cause_value s x =
      let e : bit_and (irq + 2 ^ 31) 0x7fff_ffff ≡ irq =
        omega (arith, bit_and_mask 31 (irq + 2 ^ 31)) in
      ground (arith, marked-is_interrupt, e, bit_or_pow 63 irq (omega arith))

  -- The same at a width of 32 bits.
  pub marked-cause_value_32 :
      (s : CpuState) → s.xlen ≡ 32 → cause_value s (irq + 2 ^ 31) ≡ irq + 2 ^ 31
  unfolding cause_value
  marked-cause_value_32 s x =
      let e : bit_and (irq + 2 ^ 31) 0x7fff_ffff ≡ irq =
        omega (arith, bit_and_mask 31 (irq + 2 ^ 31)) in
      ground (arith, marked-is_interrupt, e, bit_or_pow 31 irq (omega arith))

-- The entry point that a vector register names for interrupt `irq`.
abbrev pub vector : ℕ → ℕ → ℕ
vector tvec irq =
    if bit_and tvec 3 == 0
    then bit_and tvec (lnot 64 3)
    else (bit_and tvec (lnot 64 3) + 4 * irq) % 2 ^ 64

-- At a width of 64 bits an interrupt from user or supervisor mode that is delegated goes to
-- supervisor mode, with `sepc` and `scause` set; any other goes to machine mode, with `mepc`
-- and `mcause` set. The cause has its top bit set, and the entry is the one of that interrupt.
pub raise_exception_interrupt :
    (s : CpuState) (irq : ℕ)
    → irq < 32
    → s.xlen ≡ 64
    → let t = raise_exception s (irq + 2 ^ 31) 0 in
      let down = leb s.priv 1 && has_bit s.mideleg irq in
      (t.priv ≡ (if down then 1 else 3))
      × ((if down then t.sepc else t.mepc) ≡ s.pc)
      × ((if down then t.scause else t.mcause) ≡ irq + 2 ^ 63)
      × (t.pc ≡ vector (if down then s.stvec else s.mtvec) irq)
unfolding raise_exception trap_to_machine trap_to_supervisor
raise_exception_interrupt s irq below x =
    let d = marked-is_delegated irq below s in
    let c = marked-cause_value irq below s x in
    let i = marked-is_interrupt irq below in
    (ground (arith, d), ground (arith, d), ground (arith, d, c), ground (arith, d, c, i))

-- At a width of 32 bits and with a vectored table, the entry of an interrupt is 2 ^ 33 bytes
-- past the one of its number, cut to 64 bits.
pub trap_pc_narrow :
    (s : CpuState) (tvec irq : ℕ)
    → irq < 32
    → s.xlen ≡ 32
    → bit_and tvec 3 ≢ 0
    → trap_pc tvec (irq + 2 ^ 31) (cause_value s (irq + 2 ^ 31))
      ≡ (bit_and tvec (lnot 64 3) + 4 * irq + 2 ^ 33) % 2 ^ 64
unfolding trap_pc
trap_pc_narrow s tvec irq below x vectored =
    ground (arith, marked-is_interrupt irq below, marked-cause_value_32 irq below s x)
