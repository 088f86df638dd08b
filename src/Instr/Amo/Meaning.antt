-- ===== src/Instr/Amo/Meaning.antt =====
-- What the atomic operations on words mean, on 32-bit words, and the values that OP_AMO computes
-- for them from the sign-extended word and the whole register.
use space_emu.Base.{ℕ, ◌+◌, ◌%◌, ◌^◌, ◌≡◌, refl, arith, bit_and, bit_or, bit_xor, ltb}
use space_emu.Base.{if◌then◌else◌, some, switch, Bool, true, false, ◌==◌}
use space_emu.Alu.Helpers.{sext32, slt}
use space_emu.Base.Bits.{eq_of_bits, has_bit-mod, has_bit-bit_and, has_bit-bit_or, has_bit-bit_xor}
use space_emu.Base.Word.{u32, add64}
use space_emu.Base.Bytes.{to_bytes}
use space_emu.Instr.Amo.{amo_w_value}

pub data AmoOp : Type 0 where
  swap add xor and or min max minu maxu : AmoOp

-- The number of the operation in the highest bits of the instruction.
abbrev pub funct5 : AmoOp → ℕ
funct5 swap = 1
funct5 add = 0
funct5 xor = 4
funct5 and = 12
funct5 or = 8
funct5 min = 16
funct5 max = 20
funct5 minu = 24
funct5 maxu = 28

-- The order of two words as signed numbers.
abbrev pub signed_rank : ℕ → ℕ
signed_rank x = (x + 2 ^ 31) % 2 ^ 32

-- The word that is stored, from the word in memory and the low word of the register.
abbrev pub meaning : AmoOp → ℕ → ℕ → ℕ
meaning swap x y = y
meaning add x y = (x + y) % 2 ^ 32
meaning xor x y = bit_xor x y
meaning and x y = bit_and x y
meaning or x y = bit_or x y
meaning min x y = if ltb (signed_rank x) (signed_rank y) then x else y
meaning max x y = if ltb (signed_rank y) (signed_rank x) then x else y
meaning minu x y = if ltb x y then x else y
meaning maxu x y = if ltb y x then x else y

u32-sext32 : (x : ℕ) → u32 (sext32 x) ≡ u32 x
unfolding sext32
u32-sext32 x = ground arith

slt-sext32 :
    (a b : ℕ) → slt (sext32 (sext32 a)) (sext32 b) ≡ ltb (signed_rank (u32 a)) (signed_rank (u32 b))
unfolding sext32
slt-sext32 a b = ground arith

slt-sext32_swapped :
    (a b : ℕ) → slt (sext32 b) (sext32 (sext32 a)) ≡ ltb (signed_rank (u32 b)) (signed_rank (u32 a))
unfolding sext32
slt-sext32_swapped a b = ground arith

u32-bit_and : (a b : ℕ) → u32 (bit_and a b) ≡ bit_and (u32 a) (u32 b)
u32-bit_and a b = eq_of_bits _ _ λ i. ground (
  arith,
  has_bit-mod 32 (bit_and a b) i,
  has_bit-mod 32 a i,
  has_bit-mod 32 b i,
  has_bit-bit_and a b i,
  has_bit-bit_and (u32 a) (u32 b) i,
)

u32-bit_or : (a b : ℕ) → u32 (bit_or a b) ≡ bit_or (u32 a) (u32 b)
u32-bit_or a b = eq_of_bits _ _ λ i. ground (
  arith,
  has_bit-mod 32 (bit_or a b) i,
  has_bit-mod 32 a i,
  has_bit-mod 32 b i,
  has_bit-bit_or a b i,
  has_bit-bit_or (u32 a) (u32 b) i,
)

u32-bit_xor : (a b : ℕ) → u32 (bit_xor a b) ≡ bit_xor (u32 a) (u32 b)
u32-bit_xor a b = eq_of_bits _ _ λ i. ground (
  arith,
  has_bit-mod 32 (bit_xor a b) i,
  has_bit-mod 32 a i,
  has_bit-mod 32 b i,
  has_bit-bit_xor a b i,
  has_bit-bit_xor (u32 a) (u32 b) i,
)

if-u32 : (c : Bool) (x y : ℕ) → u32 (if c then x else y) ≡ (if c then u32 x else u32 y)
if-u32 true x y = refl
if-u32 false x y = refl

-- What OP_AMO stores has the word that the operation means for its low word.
pub amo_w_value_lem :
    (op : AmoOp) (a b : ℕ)
    → (w : ℕ) × (amo_w_value (funct5 op) (sext32 a) b ≡ some w)
      × (u32 w ≡ meaning op (u32 a) (u32 b))
unfolding amo_w_value switch
amo_w_value_lem swap a b = (b, refl, refl)
amo_w_value_lem add a b =
    let w = add64 (sext32 a) b in (sext32 w, refl, omega (arith, u32-sext32 w, u32-sext32 a))
amo_w_value_lem xor a b =
    let w = bit_xor (sext32 a) b in
    (sext32 w, refl, rw (u32-sext32 w, u32-bit_xor (sext32 a) b, u32-sext32 a) refl)
amo_w_value_lem and a b =
    let w = bit_and (sext32 a) b in
    (sext32 w, refl, rw (u32-sext32 w, u32-bit_and (sext32 a) b, u32-sext32 a) refl)
amo_w_value_lem or a b =
    let w = bit_or (sext32 a) b in
    (sext32 w, refl, rw (u32-sext32 w, u32-bit_or (sext32 a) b, u32-sext32 a) refl)
amo_w_value_lem min a b =
    (_, refl, ground (arith, slt-sext32 a b, u32-sext32 a, u32-sext32 (sext32 a)))
amo_w_value_lem max a b =
    (_, refl, ground (arith, slt-sext32_swapped a b, u32-sext32 a, u32-sext32 (sext32 a)))
amo_w_value_lem minu a b = (_, refl, ground (arith, u32-sext32 a, u32-sext32 (sext32 a)))
amo_w_value_lem maxu a b = (_, refl, ground (arith, u32-sext32 a, u32-sext32 (sext32 a)))

-- Every operation has a case.
pub amo_w_value-legal : (op : AmoOp) → (v : ℕ) × (amo_w_value (funct5 op) 0 0 ≡ some v)
unfolding amo_w_value switch
amo_w_value-legal swap = (_, refl)
amo_w_value-legal add = (_, refl)
amo_w_value-legal xor = (_, refl)
amo_w_value-legal and = (_, refl)
amo_w_value-legal or = (_, refl)
amo_w_value-legal min = (_, refl)
amo_w_value-legal max = (_, refl)
amo_w_value-legal minu = (_, refl)
amo_w_value-legal maxu = (_, refl)

-- No operation has the number of a load or a store with a reservation.
pub funct5-plain : (op : AmoOp) → ((funct5 op == 2) ≡ false) × ((funct5 op == 3) ≡ false)
funct5-plain swap = (refl, refl)
funct5-plain add = (refl, refl)
funct5-plain xor = (refl, refl)
funct5-plain and = (refl, refl)
funct5-plain or = (refl, refl)
funct5-plain min = (refl, refl)
funct5-plain max = (refl, refl)
funct5-plain minu = (refl, refl)
funct5-plain maxu = (refl, refl)

-- Four bytes hold the low word.
pub to_bytes_word : (v : ℕ) → to_bytes 4 v ≡ to_bytes 4 (u32 v)
unfolding to_bytes
to_bytes_word v = ground arith
