-- ===== src/Base/Bits.antt =====
-- Bit by bit: which bits the native operations set, at every position, and that a number is
-- known by its bits.
pub mod Step
use Step.{bit_or_step, bit_and_step, bit_xor_step, differ-digits}
use Prim.Native.Nat.{ℕ, zero, suc, ◌+◌, ◌-◌, ◌*◌, ◌/◌, ◌%◌, ◌^◌, ◌≤◌, ◌<◌, bit_and, bit_or, bit_xor}
use mathlib.Core.Path.{◌≡◌, refl, ◌∙◌, sym, ap}
use mathlib.Core.Bool.{Bool, true, false, not, ◌&&◌, ◌||◌}
use mathlib.Core.WellFounded
use native.Mathlib.Nat.{pow-suc, mod-lt, div-add-mod', mod-eq_of_lt, mul-add-mod_self_right}
use native.Mathlib.Nat.{zero-mod, one-le-pow, mul_comm, mul_assoc, div-one, mod-one}
use native.Mathlib.Nat.{div-div-eq-div-mul}
use native.Mathlib.Omega.{arith}
use mathlib.Core.Logic.{◌⊎◌, inl, inr}
use space_emu.Base.Tests.{Bool-cases, ◌==◌, ltb, if◌then◌else◌}
use space_emu.Base.Word.{lnot, ◌<<<◌, ◌>>>◌}

-- Bit `i` of `a`.
unfoldable pub has_bit : ℕ → ℕ → Bool
has_bit a zero = a % 2 == 1
has_bit a (suc i) = has_bit (a / 2) i

-- The same on a number that is twice another, plus a digit.
has_bit_double : (q d i : ℕ) → d < 2 → has_bit (q * 2 + d) (suc i) ≡ has_bit q i
unfolding has_bit
has_bit_double q d i h = let e : (q * 2 + d) / 2 ≡ q = omega arith in rw e

pub has_bit-bit_and : (a b i : ℕ) → has_bit (bit_and a b) i ≡ has_bit a i && has_bit b i
unfolding has_bit
has_bit-bit_and a b zero = ground (arith, bit_and_step a b)
has_bit-bit_and a b (suc i) =
    let e : bit_and a b / 2 ≡ bit_and (a / 2) (b / 2) = omega (arith, bit_and_step a b) in
    rw e (has_bit-bit_and (a / 2) (b / 2) i)

pub has_bit-bit_or : (a b i : ℕ) → has_bit (bit_or a b) i ≡ has_bit a i || has_bit b i
unfolding has_bit
has_bit-bit_or a b zero = ground (arith, bit_or_step a b)
has_bit-bit_or a b (suc i) =
    let e : bit_or a b / 2 ≡ bit_or (a / 2) (b / 2) = omega (arith, bit_or_step a b) in
    rw e (has_bit-bit_or (a / 2) (b / 2) i)

pub has_bit-bit_xor :
    (a b i : ℕ) → has_bit (bit_xor a b) i ≡ (if has_bit a i then not (has_bit b i) else has_bit b i)
unfolding has_bit
has_bit-bit_xor a b zero =
    ground (arith, bit_xor_step a b, differ-digits (a % 2) (b % 2) (omega arith) (omega arith))
has_bit-bit_xor a b (suc i) =
    let low = differ-digits (a % 2) (b % 2) (omega arith) (omega arith) in
    let e : bit_xor a b / 2 ≡ bit_xor (a / 2) (b / 2) = omega (arith, bit_xor_step a b, low) in
    rw e (has_bit-bit_xor (a / 2) (b / 2) i)

digit : (a : ℕ) → has_bit a 0 ≡ (a % 2 == 1)
unfolding has_bit
digit a = refl

pub has_bit_zero : (i : ℕ) → has_bit 0 i ≡ false
unfolding has_bit
has_bit_zero zero = refl
has_bit_zero (suc i) = has_bit_zero i

-- A remainder by twice a number, in terms of the half.
mod_double : (a p : ℕ) → 0 < p → a % (p * 2) ≡ a / 2 % p * 2 + a % 2
mod_double a p pos =
    let q = a / 2 / p in
    let r = a / 2 % p in
    let split : q * p + r ≡ a / 2 = div-add-mod' (a / 2) p in
    let whole : q * (p * 2) ≡ q * p * 2 = sym (mul_assoc q p 2) in
    let e : q * (p * 2) + (r * 2 + a % 2) ≡ a = omega (arith, split, whole) in
    let below : r * 2 + a % 2 < p * 2 = omega (arith, mod-lt (a / 2) pos) in
    ap (λ x. x % (p * 2)) (sym e)
    ∙ mul-add-mod_self_right q (p * 2) (r * 2 + a % 2)
    ∙ mod-eq_of_lt below

mod-two_pow : (w a : ℕ) → a % 2 ^ suc w ≡ a / 2 % 2 ^ w * 2 + a % 2
mod-two_pow w a = rw (pow-suc 2 w) (mod_double a (2 ^ w) (one-le-pow w 2 (omega arith)))

-- A cut to `w` bits keeps the bits below `w` and clears the others.
pub has_bit-mod : (w a i : ℕ) → has_bit (a % 2 ^ w) i ≡ ltb i w && has_bit a i
has_bit-mod zero a i = rw (mod-one a, has_bit_zero i) (ground arith)
has_bit-mod (suc w) a zero = unfold has_bit in ground (arith, mod-two_pow w a)
has_bit-mod (suc w) a (suc i) =
    let ih = has_bit-mod w (a / 2) i in
    let e = has_bit_double (a / 2 % 2 ^ w) (a % 2) i (omega arith) in
    rw (mod-two_pow w a, e, ih) (unfold has_bit in ground arith)

lnot-suc : (w a : ℕ) → lnot (suc w) a ≡ lnot w (a / 2) * 2 + (1 - a % 2)
lnot-suc w a =
    omega (
      arith,
      mod-two_pow w a,
      pow-suc 2 w,
      mod-lt (a / 2) {m = 2 ^ w} (one-le-pow w 2 (omega arith)),
    )

lnot-zero : (a : ℕ) → lnot 0 a ≡ 0
lnot-zero a = omega arith

-- `~a` in a type of `w` bits flips the bits below `w`.
pub has_bit-lnot : (w a i : ℕ) → has_bit (lnot w a) i ≡ ltb i w && not (has_bit a i)
has_bit-lnot zero a i = ap (λ x. has_bit x i) (lnot-zero a) ∙ has_bit_zero i ∙ ground arith
has_bit-lnot (suc w) a zero = unfold has_bit in ground (arith, lnot-suc w a)
has_bit-lnot (suc w) a (suc i) =
    let ih = has_bit-lnot w (a / 2) i in
    ap (λ x. has_bit x (suc i)) (lnot-suc w a)
    ∙ has_bit_double (lnot w (a / 2)) (1 - a % 2) i (omega arith)
    ∙ ih
    ∙ (unfold has_bit in ground arith)

has_bit_twice : (q i : ℕ) → has_bit (q * 2) i ≡ (if i == 0 then false else has_bit q (i - 1))
unfolding has_bit
has_bit_twice q zero = ground arith
has_bit_twice q (suc i) = ground (arith, has_bit_double q 0 i (omega arith))

-- A shift to the left moves bit `i` to `i + k`.
pub has_bit-shl : (k a i : ℕ) → has_bit (a <<< k) i ≡ (if ltb i k then false else has_bit a (i - k))
has_bit-shl zero a i = ground arith
has_bit-shl (suc k) a i =
    let ih = has_bit-shl k (a * 2) i in
    let e : a * 2 ^ suc k ≡ a * 2 * 2 ^ k =
      ap (λ x. a * x) (pow-suc 2 k ∙ mul_comm (2 ^ k) 2) ∙ sym (mul_assoc a 2 (2 ^ k)) in
    ground (arith, e, ih, has_bit_twice a (i - k))

pub has_bit-shr : (k a i : ℕ) → has_bit (a >>> k) i ≡ has_bit a (i + k)
unfolding has_bit
has_bit-shr zero a i = ground (arith, div-one a)
has_bit-shr (suc k) a i =
    let ih = has_bit-shr k a (suc i) in
    let e : a / 2 ^ suc k ≡ a / 2 ^ k / 2 =
      ap (λ x. a / x) (pow-suc 2 k) ∙ sym (div-div-eq-div-mul a (2 ^ k) 2) in
    let shift : suc i + k ≡ i + suc k = omega arith in
    ap (λ x. has_bit x i) e ∙ ih ∙ ap (has_bit a) shift

eq_of_bits_fuel : (n a b : ℕ) → a + b ≤ n → ((i : ℕ) → has_bit a i ≡ has_bit b i) → a ≡ b
unfolding has_bit
eq_of_bits_fuel zero a b p h = omega arith
eq_of_bits_fuel (suc n) a b p h =
    ground (arith, h 0, eq_of_bits_fuel n (a / 2) (b / 2) (omega arith) (λ i. h (suc i)))

-- A number is known by its bits.
pub eq_of_bits : (a b : ℕ) → ((i : ℕ) → has_bit a i ≡ has_bit b i) → a ≡ b
eq_of_bits a b h = eq_of_bits_fuel (a + b) a b (omega arith) h

pub lt_of_bits : (w a : ℕ) → ((i : ℕ) → w ≤ i → has_bit a i ≡ false) → a < 2 ^ w
lt_of_bits zero a h = omega (arith, eq_of_bits a 0 (λ i. h i (omega arith) ∙ sym (has_bit_zero i)))
lt_of_bits (suc w) a h =
    let ih = lt_of_bits w (a / 2) (λ i p. unfold has_bit in h (suc i) (omega arith)) in
    omega (arith, ih, pow-suc 2 w)

pub has_bit_above : (w a i : ℕ) → a < 2 ^ w → w ≤ i → has_bit a i ≡ false
has_bit_above w a i h p = ground (arith, has_bit-mod w a i, mod-eq_of_lt h)

pub has_bit-one : (i : ℕ) → has_bit 1 i ≡ (i == 0)
unfolding has_bit
has_bit-one zero = refl
has_bit-one (suc i) = has_bit_zero i ∙ ground arith

-- `1 << k` has bit `k` alone.
pub has_bit-pow : (k i : ℕ) → has_bit (2 ^ k) i ≡ (i == k)
has_bit-pow k i =
    let e : 2 ^ k ≡ 1 <<< k = omega arith in
    ground (arith, ap (λ x. has_bit x i) e, has_bit-shl k 1 i, has_bit-one (i - k))

-- `a & (1 << k)` is `1 << k` or 0, by bit `k`.
pub bit_and_pow : (a k : ℕ) → bit_and a (2 ^ k) ≡ (if has_bit a k then 2 ^ k else 0)
bit_and_pow a k =
    eq_of_bits _ _ λ i. ground (arith, has_bit-bit_and a (2 ^ k) i, has_bit-pow k i, has_bit_zero i)

-- `a & ((1 << k) - 1)` is the remainder by `1 << k`.
pub bit_and_mask : (k a : ℕ) → bit_and a (2 ^ k - 1) ≡ a % 2 ^ k
bit_and_mask k a =
    let e : 2 ^ k - 1 ≡ lnot k 0 = omega (arith, zero-mod (2 ^ k)) in
    let bits : (i : ℕ) → has_bit (bit_and a (lnot k 0)) i ≡ has_bit (a % 2 ^ k) i = λ i. ground (
      arith,
      has_bit-bit_and a (lnot k 0) i,
      has_bit-lnot k 0 i,
      has_bit_zero i,
      has_bit-mod k a i,
    ) in
    ap (bit_and a) e ∙ eq_of_bits _ _ bits

-- `(x >> i) & 1` is bit `i`, as a number.
pub shift_and_one : (a i : ℕ) → bit_and (a >>> i) 1 ≡ (if has_bit a i then 1 else 0)
shift_and_one a i = bit_and_mask 1 (a >>> i) ∙ low
  where
    low : (a >>> i) % 2 ≡ (if has_bit a i then 1 else 0)
    low = ground (arith, has_bit-shr i a 0, digit (a >>> i))

pub bit_and-lt : (w a b : ℕ) → b < 2 ^ w → bit_and a b < 2 ^ w
bit_and-lt w a b h =
    lt_of_bits w _ λ i p. ground (arith, has_bit-bit_and a b i, has_bit_above w b i h p)

pub bit_or-lt : (w a b : ℕ) → a < 2 ^ w → b < 2 ^ w → bit_or a b < 2 ^ w
bit_or-lt w a b h k =
    lt_of_bits w _
      λ i p. ground (arith, has_bit-bit_or a b i, has_bit_above w a i h p, has_bit_above w b i k p)

-- The bits of `a` are all bits of `m`.
abbrev pub IsWithin : ℕ → ℕ → Type 0
IsWithin a m = (i : ℕ) → has_bit a i ≡ true → has_bit m i ≡ true

or-add-and_fuel : (n a b : ℕ) → a + b ≤ n → bit_or a b + bit_and a b ≡ a + b
or-add-and_fuel zero a b h =
    let ea : a ≡ 0 = omega arith in let eb : b ≡ 0 = omega arith in rw (ea, eb)
or-add-and_fuel (suc n) a b h =
    omega
      (arith, bit_or_step a b, bit_and_step a b, or-add-and_fuel n (a / 2) (b / 2) (omega arith))

-- Together, `a | b` and `a & b` weigh as much as `a` and `b`.
pub bit_or-add-bit_and : (a b : ℕ) → bit_or a b + bit_and a b ≡ a + b
bit_or-add-bit_and a b = or-add-and_fuel (a + b) a b (omega arith)

-- Setting a bit above all others adds it.
pub bit_or_pow : (k a : ℕ) → a < 2 ^ k → bit_or a (2 ^ k) ≡ a + 2 ^ k
bit_or_pow k a h =
    ground
      (arith, bit_or-add-bit_and a (2 ^ k), bit_and_pow a k, has_bit_above k a k h (omega arith))

pub has_bit-ones : (w i : ℕ) → has_bit (2 ^ w - 1) i ≡ ltb i w
has_bit-ones w i =
    let e : 2 ^ w - 1 ≡ lnot w 0 = omega (arith, zero-mod (2 ^ w)) in
    ap (λ x. has_bit x i) e ∙ ground (arith, has_bit-lnot w 0 i, has_bit_zero i)

-- A number is 0 or has a bit set.
pub some_bit : (w a : ℕ) → a < 2 ^ w → (a ≡ 0) ⊎ ((k : ℕ) × (k < w) × (has_bit a k ≡ true))
unfolding has_bit
some_bit zero a h = inl (omega arith)
some_bit (suc w) a h =
    go (Bool-cases (a % 2 == 1)) (some_bit w (a / 2) (omega (arith, pow-suc 2 w)))
  where
    go :
        ((a % 2 == 1) ≡ true) ⊎ ((a % 2 == 1) ≡ false)
        → (a / 2 ≡ 0) ⊎ ((k : ℕ) × (k < w) × (has_bit (a / 2) k ≡ true))
        → (a ≡ 0) ⊎ ((k : ℕ) × (k < suc w) × (has_bit a k ≡ true))
    go (inl odd) rest = inr (zero, omega arith, odd)
    go (inr even) (inl z) = inl (ground arith)
    go (inr even) (inr (k, below, set)) = inr (suc k, omega arith, set)
