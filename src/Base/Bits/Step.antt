-- ===== src/Base/Bits/Step.antt =====
-- The lowest digit of a conjunction and of a disjunction of bits. The native operations are a
-- recursion on the digits, on fuel that is the first operand.
use Prim.Native.Nat.{ℕ, zero, suc, ◌+◌, ◌*◌, ◌/◌, ◌%◌, ◌≤◌, ◌<◌, min, max, bit_and, bit_or, bit_xor}
use Prim.Native.Nat.{digits, bitwise, differ, bit_and-bitwise, bit_or-bitwise, bit_xor-bitwise}
use mathlib.Core.Path.{◌≡◌, refl, ◌∙◌, ap}
use mathlib.Core.Logic.{◌⊎◌, inl, inr}
use native.Mathlib.Omega.{arith}

module _ (rest : ℕ → ℕ) (digit : ℕ → ℕ → ℕ) where
  -- One unit of fuel beyond the operand changes nothing.
  one_more :
      (fuel x y : ℕ) → x ≤ fuel → digits rest digit (suc fuel) x y ≡ digits rest digit fuel x y
  one_more zero zero y le = refl
  one_more (suc fuel) zero y le = refl
  one_more zero (suc x) y le = absurd (omega arith)
  one_more (suc fuel) (suc x) y le =
      let half = one_more fuel (suc x / 2) (y / 2) (omega arith) in
      ap (λ high. high * 2 + digit (suc x % 2) (y % 2)) half

  enough_fuel : (fuel x y : ℕ) → x ≤ fuel → digits rest digit fuel x y ≡ bitwise rest digit x y
  enough_fuel zero zero y le = refl
  enough_fuel zero (suc x) y le = absurd (omega arith)
  enough_fuel (suc fuel) x y le = elim (last_or_before le) [
    | inl before ↦ one_more fuel x y before ∙ enough_fuel fuel x y before
    | inr last ↦
        let same : suc fuel ≡ x = omega (arith, last) in ap (λ n. digits rest digit n x y) same
  ]
    where
      last_or_before : {n x : ℕ} → x ≤ suc n → (x ≤ n) ⊎ (x ≡ suc n)
      last_or_before le = ground (arith, le)

  lowest_digit :
      (x y : ℕ)
      → bitwise rest digit (suc x) y
        ≡ bitwise rest digit (suc x / 2) (y / 2) * 2 + digit (suc x % 2) (y % 2)
  lowest_digit x y =
      ap (λ high. high * 2 + digit (suc x % 2) (y % 2))
        (enough_fuel x (suc x / 2) (y / 2) (omega arith))

pub bit_and_step : (x y : ℕ) → bit_and x y ≡ bit_and (x / 2) (y / 2) * 2 + min (x % 2) (y % 2)
bit_and_step zero y = simp bit_and-bitwise (omega arith)
bit_and_step (suc x) y = simp bit_and-bitwise (lowest_digit (λ rest. 0) min x y)

pub bit_or_step : (x y : ℕ) → bit_or x y ≡ bit_or (x / 2) (y / 2) * 2 + max (x % 2) (y % 2)
bit_or_step zero y = simp bit_or-bitwise (omega arith)
bit_or_step (suc x) y = simp bit_or-bitwise (lowest_digit (λ rest. rest) max x y)

pub bit_xor_step : (x y : ℕ) → bit_xor x y ≡ bit_xor (x / 2) (y / 2) * 2 + differ (x % 2) (y % 2)
bit_xor_step zero y = simp bit_xor-bitwise (omega arith)
bit_xor_step (suc x) y = simp bit_xor-bitwise (lowest_digit (λ rest. rest) differ x y)

pub differ-digits : (x y : ℕ) → x < 2 → y < 2 → differ x y ≡ (x + y) % 2
differ-digits zero zero p q = refl
differ-digits zero (suc zero) p q = refl
differ-digits (suc zero) zero p q = refl
differ-digits (suc zero) (suc zero) p q = refl
differ-digits zero (suc (suc y)) p q = absurd (omega arith)
differ-digits (suc zero) (suc (suc y)) p q = absurd (omega arith)
differ-digits (suc (suc x)) y p q = absurd (omega arith)
