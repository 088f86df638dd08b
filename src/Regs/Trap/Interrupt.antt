-- ===== src/Regs/Trap/Interrupt.antt =====
-- regs.c: the choice of an interrupt.
use space_emu.Base.{ℕ, zero, suc, ◌+◌, ◌-◌, ◌^◌, ◌<◌, ◌≤◌, ◌≡◌, arith, bit_and, bit_or, Bool, true}
use space_emu.Base.{false, ◌&&◌, ◌||◌}
use mathlib.Core.Path.{subst}
use space_emu.Base.{ltb, if◌then◌else◌, ◌==◌, ◌!=◌, inl, inr, Bool-cases, not, sym}
use space_emu.Base.Word.{lnot, ◌>>>◌}
use space_emu.Base.Bits.{has_bit, has_bit_above, has_bit-bit_and, has_bit-bit_or, has_bit-lnot}
use space_emu.Base.Bits.{shift_and_one}
use space_emu.Base.Bits.{bit_and_pow, bit_or_pow, has_bit_zero, lt_of_bits, eq_of_bits}
use space_emu.Base.Bits.{has_bit-ones, some_bit}
use space_emu.Cpu.{CpuState}
use space_emu.Regs.Valid.{IsValid}
use space_emu.Regs.Trap.{get_pending_irq_mask, first_set_bit, raise_interrupt, raise_exception}

-- The global enable of the current mode, for a delegated interrupt or one that is not.
abbrev pub mode_enables : CpuState → Bool → Bool
mode_enables s delegated =
    if s.priv == 3
    then has_bit s.mstatus 3 && not delegated
    else if s.priv == 1
    then has_bit s.mstatus 1 || not delegated
    else true

-- Interrupt `i` is pending, enabled, and the mode lets it in.
abbrev pub is_takeable : CpuState → ℕ → Bool
is_takeable s i = has_bit s.mie i && has_bit s.mip i && mode_enables s (has_bit s.mideleg i)

no_bits : (a : ℕ) → bit_and a 0 ≡ 0
no_bits a = eq_of_bits _ _ λ i. ground (arith, has_bit-bit_and a 0 i, has_bit_zero i)

pub has_bit-get_pending_irq_mask :
    (s : CpuState) (i : ℕ) → IsValid s → has_bit (get_pending_irq_mask s) i ≡ is_takeable s i
unfolding get_pending_irq_mask
has_bit-get_pending_irq_mask s i v =
    let low = lnot 32 s.mideleg in
    ground (
      arith,
      has_bit-bit_and s.mie s.mip i,
      has_bit-bit_and (bit_and s.mie s.mip) low i,
      has_bit-bit_and (bit_and s.mie s.mip) (bit_or low s.mideleg) i,
      has_bit-bit_and (bit_and s.mie s.mip) (2 ^ 32 - 1) i,
      has_bit-lnot 32 s.mideleg i,
      has_bit-bit_or low s.mideleg i,
      has_bit-ones 32 i,
      has_bit_above 32 s.mie i v.mie_lt,
      has_bit_zero i,
      bit_and_pow s.mstatus 3,
      bit_and_pow s.mstatus 1,
      no_bits (bit_and s.mie s.mip),
    )

-- The loop finds the first set bit of those left.
pub record IsFirst (mask i left r : ℕ) : Type 0 where
  pub found : has_bit mask r ≡ true
  above : i ≤ r
  below : r < i + left
  pub first : (j : ℕ) → i ≤ j → j < r → has_bit mask j ≡ false

pub first_set_bit-IsFirst :
    (left mask i k : ℕ)
    → i ≤ k
    → k < i + left
    → has_bit mask k ≡ true
    → IsFirst mask i left (first_set_bit left mask i)
unfolding first_set_bit
first_set_bit-IsFirst zero mask i k p q h = absurd (omega arith)
first_set_bit-IsFirst (suc left) mask i k p q h = elim (Bool-cases (has_bit mask i)) [
  | inl set ↦
      let e : (if bit_and (mask >>> i) 1 != 0 then i else first_set_bit left mask (i + 1)) ≡ i =
        ground (arith, shift_and_one mask i) in
      rw e (record {
        found = set;
        above = omega arith;
        below = omega arith;
        first = λ j a b. absurd (omega arith);
      })
  | inr clear ↦
      let e : (if bit_and (mask >>> i) 1 != 0 then i else first_set_bit left mask (i + 1))
          ≡ first_set_bit left mask (i + 1) =
        ground (arith, shift_and_one mask i) in
      let rest = first_set_bit-IsFirst left mask (i + 1) k (ground arith) (omega arith) h in
      rw e (record {
        found = rest.found;
        above = omega (arith, rest.above);
        below = omega (arith, rest.below);
        first = λ j a b. ground (arith, rest.first j);
      })
]

clear_below : {b : Bool} (r j : ℕ) → (j < r → b ≡ false) → (ltb j r && b) ≡ false
clear_below r j h = ground (arith, h)

-- What `raise_interrupt` does: nothing, if nothing can be taken, or the trap of interrupt `irq`.
pub data Taken (s : CpuState) : Bool × CpuState → Type 0 where
  idle : ((i : ℕ) → is_takeable s i ≡ false) → Taken s (false, s)
  taken :
      (irq : ℕ)
      → irq < 32
      → is_takeable s irq ≡ true
      → ((j : ℕ) → (ltb j irq && is_takeable s j) ≡ false)
      → Taken s (true, raise_exception s (irq + 2 ^ 31) 0)

module _ (s : CpuState) (v : IsValid s) where
  abbrev mask : ℕ
  mask = get_pending_irq_mask s

  mask-lt : mask < 2 ^ 32
  mask-lt =
      lt_of_bits 32 mask λ i p.
        ground (arith, has_bit-get_pending_irq_mask s i v, has_bit_above 32 s.mie i v.mie_lt p)

  idle_when_empty : mask ≡ 0 → Taken s (raise_interrupt s)
  unfolding raise_interrupt
  idle_when_empty z =
      let e : raise_interrupt s ≡ (false, s) = ground arith in
      subst (Taken s) (sym e)
        (idle λ i. ground (arith, has_bit-get_pending_irq_mask s i v, has_bit_zero i))

  Taken-when_set : (k : ℕ) → k < 32 → has_bit mask k ≡ true → Taken s (raise_interrupt s)
  unfolding raise_interrupt
  Taken-when_set k below set =
      let irq = first_set_bit 32 mask 0 in
      let f = first_set_bit-IsFirst 32 mask 0 k (omega arith) (omega arith) set in
      let e : raise_interrupt s ≡ (true, raise_exception s (irq + 2 ^ 31) 0) =
        ground (arith, bit_or_pow 31 irq (omega (arith, f.below)), has_bit_zero k) in
      subst (Taken s) (sym e) (
        taken irq (omega (arith, f.below))
          (ground (arith, f.found, has_bit-get_pending_irq_mask s irq v))
          (λ j.
            clear_below irq j
              (λ p. rw (sym (has_bit-get_pending_irq_mask s j v)) (f.first j (omega arith) p))))

-- In a valid state, an interrupt is taken exactly if one is pending, enabled and let in by the
-- mode; it is the one with the lowest number among those, and it goes through the trap entry
-- with its number.
pub raise_interrupt-Taken : (s : CpuState) → IsValid s → Taken s (raise_interrupt s)
raise_interrupt-Taken s v = elim (some_bit 32 (mask s v) (mask-lt s v)) [
  | inl z ↦ idle_when_empty s v z
  | inr (k, below, set) ↦ Taken-when_set s v k below set
]
