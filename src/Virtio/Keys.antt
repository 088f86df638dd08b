-- ===== src/Virtio/Keys.antt =====
-- console.c: `console_read` takes the characters typed and its escape character, C-a. The
-- buffer has a size that is positive.
use space_emu.Base.{ℕ, Bool, true, false, ◌==◌, ◌&&◌, leb, if◌then◌else◌, List, [], ◌∷◌, Option}
use space_emu.Base.{none, some, Bool-cases, inl, inr, ◌≡◌, ◌⊎◌, refl, arith}

-- What the loop leaves: the escape state and the characters that are passed on, or the end of the
-- emulator.
pub data Typed : Type 0 where
  passed : Bool → List ℕ → Typed
  terminated : Typed

abbrev pass : ℕ → Typed → Typed
pass ch (passed esc out) = passed esc (ch ∷ out)
pass ch terminated = terminated

-- The help that C-a h prints is left out.
unfoldable pub read_keys : Bool → List ℕ → Typed
read_keys esc [] = passed esc []
read_keys true (ch ∷ chs) = elim (ch == 0x78) [
  | true ↦ terminated
  | false ↦ elim (ch == 1) [ true ↦ pass ch (read_keys false chs) | false ↦ read_keys false chs ]
]
read_keys false (ch ∷ chs) = elim (ch == 1) [
  | true ↦ read_keys true chs
  | false ↦ pass ch (read_keys false chs)
]

-- `ret` characters were read, and `none` is an error of `read`; at the end of the input the
-- emulator ends.
unfoldable pub console_read : Bool → Option (List ℕ) → Typed
unfolding read_keys
console_read esc none = passed esc []
console_read esc (some []) = terminated
console_read esc (some (ch ∷ chs)) = read_keys esc (ch ∷ chs)

-- The size that the terminal answers with, if it does, and 80 by 25 if that is none.
unfoldable pub console_get_size : Option (ℕ × ℕ) → ℕ × ℕ
console_get_size none = (80, 25)
console_get_size (some (ws_col, ws_row)) =
    if leb 4 ws_col && leb 4 ws_row then (ws_col, ws_row) else (80, 25)

-- Each C-a typed twice.
unfoldable pub escape : List ℕ → List ℕ
escape [] = []
escape (ch ∷ chs) = if ch == 1 then 1 ∷ 1 ∷ escape chs else ch ∷ escape chs

-- What was typed with each C-a doubled is passed on as it was meant, without an end of the
-- emulator, and the escape state is off again.
pub read_keys-escape : (chs : List ℕ) → read_keys false (escape chs) ≡ passed false chs
unfolding read_keys escape
read_keys-escape [] = refl
read_keys-escape (ch ∷ chs) = go (Bool-cases (ch == 1)) (read_keys-escape chs)
  where
    go :
        ((ch == 1) ≡ true) ⊎ ((ch == 1) ≡ false)
        → read_keys false (escape chs) ≡ passed false chs
        → read_keys false (if ch == 1 then 1 ∷ 1 ∷ escape chs else ch ∷ escape chs)
          ≡ passed false (ch ∷ chs)
    go (inl e) ih = let same : ch ≡ 1 = ground (arith, e) in rw (e, read_keys) (rw (ih, same) refl)
    go (inr e) ih = rw (e, read_keys) (rw (e, ih) refl)
