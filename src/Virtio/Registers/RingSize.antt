-- ===== src/Virtio/Registers/RingSize.antt =====
-- virtio_interface.c: the sizes that a ring may be set to, and where an index points in one.
use space_emu.Base.{ℕ, zero, suc, ◌+◌, ◌-◌, ◌*◌, ◌/◌, ◌%◌, ◌^◌, ◌<◌, ◌≤◌, ◌≡◌, ap, ◌∙◌, sym}
use space_emu.Base.{arith, true}
use space_emu.Base.{bit_and, ltb, ◌==◌, ◌&&◌, Bool-cases, inl, inr, min}
use space_emu.Virtio.Copy.{ring_slot}
use space_emu.Virtio.Queue.{sub32}
use space_emu.Base.Bits.Step.{bit_and_step}
use space_emu.Base.Bits.{has_bit-bit_and, eq_of_bits, bit_and_mask}
use native.Mathlib.Nat.{pow-suc, one-le-pow, pow-le-pow_right}

and_self : (a : ℕ) → bit_and a a ≡ a
and_self a = eq_of_bits _ _ λ i. ground (arith, has_bit-bit_and a a i)

odd_apart : (v : ℕ) → 1 < v → v % 2 ≡ 1 → 0 < bit_and v (v - 1)
odd_apart v h odd =
    let half : (v - 1) / 2 ≡ v / 2 = omega arith in
    let upper : bit_and (v / 2) ((v - 1) / 2) ≡ v / 2 =
      ap (λ x. bit_and (v / 2) x) half ∙ and_self (v / 2) in
    omega (arith, bit_and_step v (v - 1), upper)

even_half : (v : ℕ) → 0 < v → v % 2 ≡ 0 → bit_and v (v - 1) ≡ bit_and (v / 2) (v / 2 - 1) * 2
even_half v h even =
    let half : (v - 1) / 2 ≡ v / 2 - 1 = omega arith in
    bit_and_step v (v - 1)
    ∙ ap (λ x. bit_and (v / 2) x * 2 + min (v % 2) ((v - 1) % 2)) half
    ∙ omega arith

-- What `(value & (value - 1)) == 0` says of a number that is not 0.
power_fuel : (fuel v : ℕ) → v < fuel → 0 < v → bit_and v (v - 1) ≡ 0 → (k : ℕ) × (v ≡ 2 ^ k)
power_fuel zero v h pos e = absurd (omega arith)
power_fuel (suc fuel) v h pos e = elim (Bool-cases (v == 1)) [
  | inl one ↦ (0, ground (arith, one))
  | inr more ↦ elim (Bool-cases (v % 2 == 0)) [
    | inl even ↦
        (let digit : v % 2 ≡ 0 = ground (arith, even) in
          let half = even_half v pos digit in
          let large : 1 < v = ground (arith, more) in
          let (k, p) = power_fuel fuel (v / 2) (omega arith) (omega arith) (omega (arith, half)) in
          (suc k, omega (arith, p, pow-suc 2 k)))
    | inr odd ↦ absurd (ground (arith, odd_apart v (ground (arith, more)) (ground (arith, odd))))
  ]
]

pow-lt : (k : ℕ) → k < 32 → 2 ^ k < 2 ^ 32
pow-lt k h =
    let two : 0 < 2 = omega arith in
    let below : k ≤ 31 = omega arith in omega (arith, pow-le-pow_right two below)

exponent-lt : (k : ℕ) → 2 ^ k < 2 ^ 32 → k < 32
exponent-lt k h = elim (Bool-cases (ltb k 32)) [
  | inl e ↦ ground (arith, e)
  | inr e ↦
      (let two : 0 < 2 = omega arith in
        let above : 32 ≤ k = ground (arith, e) in
        absurd (omega (arith, pow-le-pow_right two above)))
]

-- What the driver may set a size of a ring to.
abbrev pub IsRingSize : ℕ → Type 0
IsRingSize num = (k : ℕ) × (k < 32) × (num ≡ 2 ^ k)

pub ring_size :
    (value : ℕ)
    → value < 2 ^ 32
    → (bit_and value ((value + 2 ^ 32 - 1) % 2 ^ 32) == 0 && ltb 0 value) ≡ true
    → IsRingSize value
ring_size value small e =
    let pos : 0 < value = ground (arith, e) in
    let less : (value + 2 ^ 32 - 1) % 2 ^ 32 ≡ value - 1 = omega arith in
    let apart : bit_and value (value - 1) ≡ 0 =
      ap (λ x. bit_and value x) (sym less) ∙ ground (arith, e) in
    let (k, p) = power_fuel (suc value) value (omega arith) pos apart in
    (k, exponent-lt k (omega (arith, p)), p)

-- The slot of a ring is the remainder by its size.
pub ring_slot-IsRingSize : (index num : ℕ) → IsRingSize num → ring_slot index num ≡ index % num
ring_slot-IsRingSize index num (k, small, p) =
    let low : 2 ^ k < 2 ^ 32 = pow-lt k small in
    let one : 1 ≤ 2 ^ k = one-le-pow k 2 (omega arith) in
    let mask : sub32 num 1 ≡ 2 ^ k - 1 = omega (arith, p) in
    ap (λ m. bit_and index m) mask ∙ bit_and_mask k index ∙ ap (λ n. index % n) (sym p)
