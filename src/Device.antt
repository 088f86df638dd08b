-- ===== src/Device.antt =====
-- The loops by which plic.c, clint.c and htif.c cut an access into words of four bytes. Each
-- round calls the device's function for one word; the returns are added up in int_t, and the
-- access fails if the sum is not its size. The handler and the buffer are never NULL.
pub mod Laws
use space_emu.Base.{ℕ, zero, suc, ◌+◌, ◌-◌, ◌/◌, ◌^◌, Bool, ◌==◌, List, [], ◌∷◌, ◌++◌}
use space_emu.Base.Word.{add64}
use space_emu.Base.Bytes.{to_bytes, from_bytes, length}

-- The return -1, in uint64_t.
abbrev pub minus_one : ℕ
minus_one = 2 ^ 64 - 1

-- What an access leaves: the state, the bytes stored in the buffer (for a read), and whether it
-- returned its size rather than -1.
pub record Reply (S : Type 0) : Type 0 where
  pub state : S
  pub bytes : List ℕ
  pub ok : Bool

-- `while (cp_size >= 4)`, with the rounds left: the state, the bytes and the sum of the returns.
unfoldable pub read_loop : {S : Type 0} → (ℕ → S → ℕ → S × ℕ × ℕ) → ℕ → ℕ → S → ℕ → S × List ℕ × ℕ
read_loop sub zero round s src = (s, [], 0)
read_loop sub (suc left) round s src =
    let (s', word, ret) = sub round s src in
    let (s'', bytes, total) = read_loop sub left (round + 1) s' (add64 src 4) in
    (s'', to_bytes 4 word ++ bytes, add64 ret total)

unfoldable pub read_words : {S : Type 0} → (ℕ → S → ℕ → S × ℕ × ℕ) → S → ℕ → ℕ → Reply S
unfolding read_loop
read_words sub s src size =
    let (s', bytes, total) = read_loop sub (size / 4) 0 s src in
    record { state = s'; bytes = bytes; ok = total == size }

-- The loop of a write takes four bytes of the buffer a round.
unfoldable pub write_loop : {S : Type 0} → (S → ℕ → ℕ → S × ℕ) → S → List ℕ → ℕ → S × ℕ
write_loop sub s (a ∷ b ∷ c ∷ d ∷ rest) dst =
    let (s', ret) = sub s (from_bytes (a ∷ b ∷ c ∷ d ∷ [])) dst in
    let (s'', total) = write_loop sub s' rest (add64 dst 4) in (s'', add64 ret total)
write_loop sub s short dst = (s, 0)

unfoldable pub write_words : {S : Type 0} → (S → ℕ → ℕ → S × ℕ) → S → List ℕ → ℕ → Reply S
unfolding write_loop
write_words sub s src dst =
    let (s', total) = write_loop sub s src dst in
    record { state = s'; bytes = []; ok = total == length src }
