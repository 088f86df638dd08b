-- ===== src/Plic/Progress.antt =====
-- plic.c: every open source is claimed in the end.
use space_emu.Base.{ℕ, zero, suc, ◌+◌, ◌<◌, ◌≤◌, ◌≡◌, ◌⊎◌, arith, true, false, Bool-cases, ◌==◌}
use space_emu.Base.{List, [], ◌∷◌, inl, inr, ap}
use space_emu.Base.Bits.{has_bit}
use space_emu.Cpu.{CpuState}
use space_emu.Plic.{plic_claim}
use space_emu.Plic.Claim.{CountsTrailingZeros, Op, claim, run, is_open, plic_claim_lem}

unfoldable pub claims : ℕ → List Op
claims zero = []
claims (suc n) = claim ∷ claims n

abbrev pub Returned : ℕ → List ℕ → Type 0
Returned r [] = ⊥
Returned r (x ∷ xs) = (x ≡ r) ⊎ Returned r xs

module _ (ctz32 : ℕ → ℕ) (c : CountsTrailingZeros ctz32) where
  -- No source below `k` is open.
  claims-Returned :
      (n k i : ℕ) (s : CpuState)
      → i < 32
      → i < k + n
      → is_open s i ≡ true
      → ((j : ℕ) → j < k → is_open s j ≡ false)
      → Returned (i + 1) (run ctz32 s (claims n))
  unfolding run claims
  claims-Returned zero k i s lt enough e below = absurd (ground (arith, below i))
  claims-Returned (suc n) k i s lt enough e below = elim (plic_claim_lem ctz32 c s) [
    | inl (none_open, zero_returned, same) ↦ absurd (ground (arith, none_open i))
    | inr (first, returned, small, opened, least, pending, served) ↦
        elim (Bool-cases (first == i)) [
          | inl this ↦ inl (ground (arith, this, returned))
          | inr other ↦
              let t = (plic_claim ctz32 s).0 in
              let same_pending : (j : ℕ)
                  → has_bit t.plic_pending_irq j ≡ has_bit s.plic_pending_irq j =
                λ j. ap (λ w. has_bit w j) pending in
              let early : first < i = ground (arith, other, least i, e) in
              let later : k ≤ first = ground (arith, opened, below first) in
              inr (
                claims-Returned n (first + 1) i t lt (omega arith)
                  (ground (arith, same_pending i, served i, e, other))
                  (λ j p. ground (arith, same_pending j, served j, least j, opened)))
        ]
  ]

  -- With a `ctz32` that finds the lowest bit, an open source `i` is returned by one of the
  -- next `i + 1` claims, if nothing else is called.
  pub run-Returned :
      (i : ℕ) (s : CpuState)
      → i < 32
      → is_open s i ≡ true
      → Returned (i + 1) (run ctz32 s (claims (i + 1)))
  run-Returned i s lt e =
      claims-Returned (i + 1) 0 i s lt (omega arith) e (λ j p. absurd (omega arith))
