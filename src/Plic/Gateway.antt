-- ===== src/Plic/Gateway.antt =====
-- plic.c against an abstract controller, which knows of each source whether it is pending and
-- whether it is being served, and keeps no words of bits and no lines to the processor.
use space_emu.Base.{ℕ, zero, suc, ◌+◌, ◌-◌, ◌%◌, ◌^◌, ◌<◌, ◌≤◌, ◌≡◌, refl, arith, bit_and, bit_or}
use space_emu.Base.{Bool, true, false, Bool-cases, ltb, ◌==◌, ◌&&◌, not, if◌then◌else◌, List, []}
use space_emu.Base.{◌∷◌, Option, none, some, inl, inr, ap, ◌∙◌}
use space_emu.Base.Bits.{has_bit, has_bit-bit_or, has_bit-bit_and, has_bit-lnot, has_bit-pow}
use space_emu.Base.Word.{lnot}
use space_emu.Cpu.{CpuState}
use space_emu.Plic.{plic_claim, plic_complete, plic_set_irq}
use space_emu.Plic.Claim.{CountsTrailingZeros, Op, raise, claim, complete, run, plic_claim_lem}
use space_emu.Plic.Claim.{pending-update_mip, served-update_mip}

pub record Gateway : Type 0 where
  pub pending : ℕ → Bool
  pub serving : ℕ → Bool

abbrev at : (ℕ → Bool) → ℕ → Bool → ℕ → Bool
at f i b j = if j == i then b else f j

abbrev waits : Gateway → ℕ → Bool
waits g i = g.pending i && not (g.serving i)

-- The first source that waits, from `k` on, of `n`.
unfoldable pub first_waiting : ℕ → ℕ → Gateway → Option ℕ
first_waiting zero k g = none
first_waiting (suc n) k g =
    let rest = first_waiting n (k + 1) g in if waits g k then some k else rest

-- What the claims of a sequence of calls return. Source `i` has the number `i + 1`.
unfoldable pub answers : Gateway → List Op → List ℕ
answers g [] = []
answers g (raise n flag ∷ ops) = answers (record g { pending = at g.pending (n - 1) flag }) ops
answers g (claim ∷ ops) = elim (first_waiting 32 0 g) [
  | none ↦ 0 ∷ answers g ops
  | some i ↦ (i + 1) ∷ answers (record g { serving = at g.serving i true }) ops
]
answers g (complete value ∷ ops) =
    answers (record g { serving = at g.serving (value - 1) false }) ops

-- The words of the controller say what the abstract one knows.
pub record Represents (s : CpuState) (g : Gateway) : Type 0 where
  pub pending : (i : ℕ) → i < 32 → has_bit s.plic_pending_irq i ≡ g.pending i
  pub serving : (i : ℕ) → i < 32 → has_bit s.plic_served_irq i ≡ g.serving i

-- Sources are raised and completed by their numbers, 1 to 32.
abbrev pub Numbered : List Op → Type 0
Numbered [] = Unit
Numbered (raise n flag ∷ ops) = (0 < n) × (n ≤ 32) × Numbered ops
Numbered (claim ∷ ops) = Numbered ops
Numbered (complete value ∷ ops) = (0 < value) × (value ≤ 32) × Numbered ops

first_waiting-none :
    (n k : ℕ) (g : Gateway) → ((j : ℕ) → j < k + n → waits g j ≡ false) → first_waiting n k g ≡ none
unfolding first_waiting
first_waiting-none zero k g h = refl
first_waiting-none (suc n) k g h =
    let rest = first_waiting-none n (k + 1) g (λ j lt. h j (omega arith)) in
    let here = h k (omega arith) in rw here rest

first_waiting-some :
    (n k i : ℕ) (g : Gateway)
    → k ≤ i
    → i < k + n
    → waits g i ≡ true
    → ((j : ℕ) → j < i → waits g j ≡ false)
    → first_waiting n k g ≡ some i
unfolding first_waiting
first_waiting-some zero k i g low high e h = absurd (omega arith)
first_waiting-some (suc n) k i g low high e h = elim (Bool-cases (k == i)) [
  | inl same ↦ ground (arith, same, e)
  | inr differ ↦
      let rest = first_waiting-some n (k + 1) i g (ground (arith, differ)) (omega arith) e h in
      let here = h k (ground (arith, differ)) in rw here rest
]

raise-Represents :
    (s : CpuState) (g : Gateway) (n : ℕ) (flag : Bool)
    → 0 < n
    → n ≤ 32
    → Represents s g
    → Represents (plic_set_irq s n flag) (record g { pending = at g.pending (n - 1) flag })
unfolding plic_set_irq
raise-Represents s g n flag low high r = record {
  pending = λ i lt. ground (
    arith,
    r.pending i lt,
    pending-update_mip (record s {
      plic_pending_irq =
          if flag
          then bit_or s.plic_pending_irq (2 ^ (n - 1))
          else bit_and s.plic_pending_irq (lnot 32 (2 ^ (n - 1)));
    }),
    has_bit-bit_or s.plic_pending_irq (2 ^ (n - 1)) i,
    has_bit-bit_and s.plic_pending_irq (lnot 32 (2 ^ (n - 1))) i,
    has_bit-lnot 32 (2 ^ (n - 1)) i,
    has_bit-pow (n - 1) i,
  );
  serving = λ i lt. ap (λ w. has_bit w i) (served-update_mip _) ∙ r.serving i lt;
}

complete-Represents :
    (s : CpuState) (g : Gateway) (value : ℕ)
    → 0 < value
    → value ≤ 32
    → Represents s g
    → Represents (plic_complete s value) (record g { serving = at g.serving (value - 1) false })
unfolding plic_complete
complete-Represents s g value low high r =
    let number : (value + 2 ^ 32 - 1) % 2 ^ 32 ≡ value - 1 = omega arith in
    let known : ltb (value - 1) 32 ≡ true = ground arith in
    let cleared = bit_and s.plic_served_irq (lnot 32 (2 ^ (value - 1))) in
    rw (number, known)
      (record {
        pending = λ i lt. ap (λ w. has_bit w i) (pending-update_mip _) ∙ r.pending i lt;
        serving = λ i lt. ground (
          arith,
          r.serving i lt,
          served-update_mip (record s { plic_served_irq = cleared }),
          has_bit-bit_and s.plic_served_irq (lnot 32 (2 ^ (value - 1))) i,
          has_bit-lnot 32 (2 ^ (value - 1)) i,
          has_bit-pow (value - 1) i,
        );
      })

-- With a `ctz32` that finds the lowest bit, sources raised, lowered and completed by their
-- numbers 1 to 32, and a state that represents an abstract controller: in any sequence of calls
-- the claims return what those of the abstract controller return.
pub run-answers :
    (ctz32 : ℕ → ℕ) (s : CpuState) (g : Gateway) (ops : List Op)
    → CountsTrailingZeros ctz32
    → Numbered ops
    → Represents s g
    → run ctz32 s ops ≡ answers g ops
unfolding run answers
run-answers ctz32 s g [] c q r = refl
run-answers ctz32 s g (raise n flag ∷ ops) c q r =
    run-answers ctz32 (plic_set_irq s n flag) (record g { pending = at g.pending (n - 1) flag }) ops
      c q.2 (raise-Represents s g n flag q.0 q.1 r)
run-answers ctz32 s g (complete value ∷ ops) c q r =
    run-answers ctz32 (plic_complete s value)
      (record g { serving = at g.serving (value - 1) false }) ops c q.2
      (complete-Represents s g value q.0 q.1 r)
run-answers ctz32 s g (claim ∷ ops) c q r = elim (plic_claim_lem ctz32 c s) [
  | inl (none_open, zero_returned, same) ↦
      let idle =
        first_waiting-none 32 0 g
          (λ j lt. ground (arith, none_open j, r.pending j lt, r.serving j lt)) in
      let rest = run-answers ctz32 s g ops c q r in
      rw (idle, zero_returned, same, answers, run) (ap (λ rs. 0 ∷ rs) rest)
  | inr (i, returned, below, opened, first, pending, served) ↦
      let found =
        first_waiting-some 32 0 i g (omega arith) (omega arith)
          (ground (arith, opened, r.pending i below, r.serving i below))
          (λ j lt. ground (arith, first j, r.pending j (omega arith), r.serving j (omega arith))) in
      let next : Represents (plic_claim ctz32 s).0 (record g { serving = at g.serving i true }) =
        record {
          pending = λ j lt. ap (λ w. has_bit w j) pending ∙ r.pending j lt;
          serving = λ j lt. ground (arith, served j, r.serving j lt);
        } in
      let rest =
        run-answers ctz32 (plic_claim ctz32 s).0 (record g { serving = at g.serving i true }) ops c
          q next in
      rw (found, returned, answers, run) (ap (λ rs. (i + 1) ∷ rs) rest)
]
