-- ===== src/Base/Switch.antt =====
-- The `switch` statement on a number whose cases end by `break` or `return`.
use Prim.Native.Nat.{ℕ}
use mathlib.Core.List.{List, [], ◌∷◌}
use mathlib.Core.Bool.{Bool, true, false}
use space_emu.Base.Tests.{◌==◌, if◌then◌else◌}

module _ {ℓ} {A : Type ℓ} where
  -- The cases with their labels, and the default.
  unfoldable pub switch : ℕ → List (ℕ × A) → A → A
  switch n [] otherwise = otherwise
  switch n ((label, a) ∷ rest) otherwise = if n == label then a else switch n rest otherwise

  abbrev pub AllCases {κ} : (A → Type κ) → List (ℕ × A) → Type κ
  AllCases P [] = Unit
  AllCases P ((label, a) ∷ rest) = P a × AllCases P rest

  -- Likewise for a conditional.
  pub either {κ} : (P : A → Type κ) (b : Bool) {x y : A} → P x → P y → P (if b then x else y)
  either P true p q = p
  either P false p q = q

  -- What holds in every case and by default holds of the statement.
  pub switch_all {κ} :
      (P : A → Type κ) (n : ℕ) (cases : List (ℕ × A)) {otherwise : A}
      → AllCases P cases
      → P otherwise
      → P (switch n cases otherwise)
  unfolding switch
  switch_all P n [] h d = d
  switch_all P n ((label, a) ∷ rest) {otherwise = o} h d =
      either P (n == label) {x = a} {y = switch n rest o} h.0 (switch_all P n rest h.1 d)
