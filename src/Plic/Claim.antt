-- ===== src/Plic/Claim.antt =====
-- plic.c: claims and completions of sources.
use space_emu.Base.{ℕ, ◌+◌, ◌-◌, ◌%◌, ◌^◌, ◌<◌, ◌≡◌, ◌≢◌, ◌⊎◌, arith, refl, bit_and, bit_or, Bool}
use space_emu.Base.{true, false, ◌==◌, ◌!=◌, ltb, ◌&&◌, ◌||◌, not}
use space_emu.Base.{List, [], ◌∷◌, Bool-cases, inl, inr}
use space_emu.Base.Word.{lnot}
use space_emu.Base.Bits.{has_bit, has_bit-bit_or, has_bit-bit_and, has_bit-lnot, has_bit-pow}
use space_emu.Base.Bits.{bit_and-lt, has_bit_zero}
use space_emu.Cpu.{CpuState}
use space_emu.Plic.{open_irqs, update_mip, plic_set_irq, plic_claim, plic_complete}

-- What the controller relies on in `ctz32`: on a word that is not 0, the number of its lowest bit.
pub record CountsTrailingZeros (ctz32 : ℕ → ℕ) : Type 0 where
  pub lowest : (a : ℕ) → a ≢ 0 → a < 2 ^ 32 → has_bit a (ctz32 a) ≡ true
  pub below : (a j : ℕ) → a ≢ 0 → a < 2 ^ 32 → j < ctz32 a → has_bit a j ≡ false

-- A source is open if it is pending and not served.
abbrev pub is_open : CpuState → ℕ → Bool
is_open s i = has_bit s.plic_pending_irq i && not (has_bit s.plic_served_irq i)

open_irqs-lt : (s : CpuState) → open_irqs s < 2 ^ 32
unfolding open_irqs
open_irqs-lt s = bit_and-lt 32 s.plic_pending_irq (lnot 32 s.plic_served_irq) (omega arith)

has_bit-open_irqs : (s : CpuState) (i : ℕ) → has_bit (open_irqs s) i ≡ ltb i 32 && is_open s i
unfolding open_irqs
has_bit-open_irqs s i = ground (
  arith,
  has_bit-bit_and s.plic_pending_irq (lnot 32 s.plic_served_irq) i,
  has_bit-lnot 32 s.plic_served_irq i,
)

pub served-update_mip : (s : CpuState) → (update_mip s).plic_served_irq ≡ s.plic_served_irq
unfolding update_mip
served-update_mip s = ground arith

pub pending-update_mip : (s : CpuState) → (update_mip s).plic_pending_irq ≡ s.plic_pending_irq
unfolding update_mip
pending-update_mip s = ground arith

-- The calls by which sources are raised, claimed and completed.
pub data Op : Type 0 where
  raise : ℕ → Bool → Op
  claim : Op
  complete : ℕ → Op

-- The words that the claims of a sequence of calls return.
unfoldable pub run : (ℕ → ℕ) → CpuState → List Op → List ℕ
run ctz32 s [] = []
run ctz32 s (raise n flag ∷ ops) = run ctz32 (plic_set_irq s n flag) ops
run ctz32 s (claim ∷ ops) = (plic_claim ctz32 s).1 ∷ run ctz32 (plic_claim ctz32 s).0 ops
run ctz32 s (complete value ∷ ops) = run ctz32 (plic_complete s value) ops

-- No call completes source `i`, whose number is `i + 1`.
abbrev pub NotCompleted : ℕ → List Op → Type 0
NotCompleted i [] = Unit
NotCompleted i (raise n flag ∷ ops) = NotCompleted i ops
NotCompleted i (claim ∷ ops) = NotCompleted i ops
NotCompleted i (complete value ∷ ops) = (value ≢ i + 1) × (value < 2 ^ 32) × NotCompleted i ops

abbrev pub NotReturned : ℕ → List ℕ → Type 0
NotReturned i [] = Unit
NotReturned i (r ∷ rs) = (r ≢ i + 1) × NotReturned i rs

pub served-plic_set_irq :
    (s : CpuState) (n : ℕ) (flag : Bool)
    → (plic_set_irq s n flag).plic_served_irq ≡ s.plic_served_irq
unfolding plic_set_irq
served-plic_set_irq s n flag = served-update_mip _

served-plic_complete :
    (i : ℕ) (s : CpuState) (value : ℕ)
    → i < 32
    → value ≢ i + 1
    → value < 2 ^ 32
    → has_bit s.plic_served_irq i ≡ true
    → has_bit (plic_complete s value).plic_served_irq i ≡ true
unfolding plic_complete
served-plic_complete i s value below ne small set =
    let value' = (value + 2 ^ 32 - 1) % 2 ^ 32 in
    let cleared = bit_and s.plic_served_irq (lnot 32 (2 ^ value')) in
    ground (
      arith,
      served-update_mip (record s { plic_served_irq = cleared }),
      has_bit-bit_and s.plic_served_irq (lnot 32 (2 ^ value')) i,
      has_bit-lnot 32 (2 ^ value') i,
      has_bit-pow value' i,
    )

module _ (ctz32 : ℕ → ℕ) (c : CountsTrailingZeros ctz32) where
  -- With a `ctz32` that finds the lowest bit, a claim returns 0 and changes nothing if no
  -- source is open; else it returns one more than the lowest open source, which is marked
  -- served, and leaves the pending and the other served bits as they are.
  pub plic_claim_lem :
      (s : CpuState)
      → let (t, r) = plic_claim ctz32 s in
        (((i : ℕ) → (ltb i 32 && is_open s i) ≡ false) × (r ≡ 0) × (t ≡ s))
        ⊎ ((i : ℕ) × (r ≡ i + 1)
            × (i < 32)
            × (is_open s i ≡ true)
            × ((j : ℕ) → (ltb j i && is_open s j) ≡ false)
            × (t.plic_pending_irq ≡ s.plic_pending_irq)
            × ((j : ℕ) → has_bit t.plic_served_irq j ≡ has_bit s.plic_served_irq j || j == i))
  unfolding plic_claim
  plic_claim_lem s = elim (Bool-cases (open_irqs s != 0)) [
    | inl some_open ↦
        let i = ctz32 (open_irqs s) in
        let ne : open_irqs s ≢ 0 = ground arith in
        let set = c.lowest (open_irqs s) ne (open_irqs-lt s) in
        let t : CpuState = record s { plic_served_irq = bit_or s.plic_served_irq (2 ^ i) } in
        rw some_open (
          inr (
            i,
            refl,
            ground (arith, set, has_bit-open_irqs s i),
            ground (arith, set, has_bit-open_irqs s i),
            (λ j. ground (
              arith,
              set,
              has_bit-open_irqs s i,
              has_bit-open_irqs s j,
              c.below (open_irqs s) j ne (open_irqs-lt s),
            )),
            pending-update_mip t,
            (λ j. ground (
              arith,
              served-update_mip t,
              has_bit-bit_or s.plic_served_irq (2 ^ i) j,
              has_bit-pow i j,
            )),
          ))
    | inr none_open ↦
        let e : open_irqs s ≡ 0 = ground arith in
        rw none_open
          (inl ((λ i. ground (arith, e, has_bit-open_irqs s i, has_bit_zero i)), refl, refl))
  ]

  claim_keeps_served :
      (i : ℕ) (s : CpuState)
      → has_bit s.plic_served_irq i ≡ true
      → ((plic_claim ctz32 s).1 ≢ i + 1) × (has_bit (plic_claim ctz32 s).0.plic_served_irq i ≡ true)
  claim_keeps_served i s h = elim (plic_claim_lem s) [
    | inl (none_open, zero_returned, same) ↦ (omega (arith, zero_returned), rw same h)
    | inr (k, returned, below, opened, first, pending, served) ↦
        (ground arith, ground (arith, served i))
  ]

  -- With a `ctz32` that finds the lowest bit, a source that is being served is returned by no
  -- claim of a sequence of calls that does not complete it, whatever else is raised, claimed
  -- and completed.
  pub run-NotReturned :
      (i : ℕ) (s : CpuState) (ops : List Op)
      → i < 32
      → has_bit s.plic_served_irq i ≡ true
      → NotCompleted i ops
      → NotReturned i (run ctz32 s ops)
  unfolding run
  run-NotReturned i s [] b h q = tt
  run-NotReturned i s (raise n flag ∷ ops) b h q =
      run-NotReturned i (plic_set_irq s n flag) ops b (rw (served-plic_set_irq s n flag) h) q
  run-NotReturned i s (claim ∷ ops) b h q =
      let (ne, kept) = claim_keeps_served i s h in
      (ne, run-NotReturned i (plic_claim ctz32 s).0 ops b kept q)
  run-NotReturned i s (complete value ∷ ops) b h q =
      run-NotReturned i (plic_complete s value) ops b (served-plic_complete i s value b q.0 q.1 h)
        q.2
