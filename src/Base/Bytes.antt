-- ===== src/Base/Bytes.antt =====
-- Little-endian bytes, as the emulator's host lays its integers out.
use Prim.Native.Nat.{ℕ, zero, suc, ◌+◌, ◌*◌, ◌/◌, ◌%◌, ◌^◌, ◌<◌}
use mathlib.Core.Path.{◌≡◌, refl, sym, ap, ◌∙◌}
use mathlib.Core.List.{List, [], ◌∷◌}
use native.Mathlib.Nat.{pow-suc, one-le-pow, mul_assoc, mod-lt, mod-eq_of_lt, div-add-mod'}
use native.Mathlib.Nat.{mul-add-mod_self_right}
use native.Mathlib.Omega.{arith}

abbrev pub length {ℓ} : {A : Type ℓ} → List A → ℕ
length [] = 0
length (x ∷ xs) = suc (length xs)

-- The `n` low bytes of a value.
unfoldable pub to_bytes : ℕ → ℕ → List ℕ
to_bytes zero a = []
to_bytes (suc n) a = (a % 256) ∷ to_bytes n (a / 256)

unfoldable pub from_bytes : List ℕ → ℕ
from_bytes [] = 0
from_bytes (b ∷ bs) = b % 256 + 256 * from_bytes bs

pub length-to_bytes : (n a : ℕ) → length (to_bytes n a) ≡ n
unfolding to_bytes
length-to_bytes zero a = refl
length-to_bytes (suc n) a = omega (arith, length-to_bytes n (a / 256))

-- A value that fits comes back from its bytes.
pub from_bytes-to_bytes : (n a : ℕ) → a < 256 ^ n → from_bytes (to_bytes n a) ≡ a
unfolding to_bytes from_bytes
from_bytes-to_bytes zero a h = omega arith
from_bytes-to_bytes (suc n) a h =
    omega (arith, from_bytes-to_bytes n (a / 256) (omega (arith, pow-suc 256 n)))

mod_byte : (a p : ℕ) → 0 < p → a % (p * 256) ≡ a / 256 % p * 256 + a % 256
mod_byte a p pos =
    let q = a / 256 / p in
    let r = a / 256 % p in
    let split : q * p + r ≡ a / 256 = div-add-mod' (a / 256) p in
    let whole : q * (p * 256) ≡ q * p * 256 = sym (mul_assoc q p 256) in
    let e : q * (p * 256) + (r * 256 + a % 256) ≡ a = omega (arith, split, whole) in
    let below : r * 256 + a % 256 < p * 256 = omega (arith, mod-lt (a / 256) pos) in
    ap (λ x. x % (p * 256)) (sym e)
    ∙ mul-add-mod_self_right q (p * 256) (r * 256 + a % 256)
    ∙ mod-eq_of_lt below

-- Of a number that is too large the bytes keep the low part.
pub from_bytes-to_bytes_mod : (n a : ℕ) → from_bytes (to_bytes n a) ≡ a % 256 ^ n
unfolding to_bytes from_bytes
from_bytes-to_bytes_mod zero a = omega arith
from_bytes-to_bytes_mod (suc n) a =
    let ih = from_bytes-to_bytes_mod n (a / 256) in
    let split = mod_byte a (256 ^ n) (one-le-pow n 256 (omega arith)) in
    let power : 256 ^ suc n ≡ 256 ^ n * 256 = pow-suc 256 n in rw power (omega (arith, ih, split))
