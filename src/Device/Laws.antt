-- ===== src/Device/Laws.antt =====
-- Properties of the state that the loops by words carry along.
use space_emu.Base.{ℕ, zero, suc, ◌+◌, ◌/◌, ◌<◌, ◌^◌, arith, List, [], ◌∷◌}
use space_emu.Base.Word.{add64}
use space_emu.Base.Bytes.{from_bytes}
use space_emu.Device.{read_loop, read_words, write_loop, write_words}

four_bytes-lt : (a b c d : ℕ) → from_bytes (a ∷ b ∷ c ∷ d ∷ []) < 2 ^ 32
unfolding from_bytes
four_bytes-lt a b c d = omega arith

module _ {ℓ} {S : Type 0} (P : S → Type ℓ) where
  read_loop_keeps :
      (sub : ℕ → S → ℕ → S × ℕ × ℕ)
      → ((round : ℕ) (s : S) (src : ℕ) → P s → P (sub round s src).0)
      → (left round : ℕ) (s : S) (src : ℕ) → P s
      → P (read_loop sub left round s src).0
  unfolding read_loop
  read_loop_keeps sub keep zero round s src h = h
  read_loop_keeps sub keep (suc left) round s src h =
      read_loop_keeps sub keep left (round + 1) (sub round s src).0 (add64 src 4)
        (keep round s src h)

  pub read_words_keeps :
      (sub : ℕ → S → ℕ → S × ℕ × ℕ)
      → ((round : ℕ) (s : S) (src : ℕ) → P s → P (sub round s src).0)
      → (s : S) (src size : ℕ) → P s
      → P (read_words sub s src size).state
  unfolding read_words
  read_words_keeps sub keep s src size h = read_loop_keeps sub keep (size / 4) 0 s src h

  write_loop_keeps :
      (sub : S → ℕ → ℕ → S × ℕ)
      → ((s : S) (value dst : ℕ) → value < 2 ^ 32 → P s → P (sub s value dst).0)
      → (s : S) (src : List ℕ) (dst : ℕ) → P s
      → P (write_loop sub s src dst).0
  unfolding write_loop
  write_loop_keeps sub keep s [] dst h = h
  write_loop_keeps sub keep s (a ∷ []) dst h = h
  write_loop_keeps sub keep s (a ∷ b ∷ []) dst h = h
  write_loop_keeps sub keep s (a ∷ b ∷ c ∷ []) dst h = h
  write_loop_keeps sub keep s (a ∷ b ∷ c ∷ d ∷ rest) dst h =
      let word = from_bytes (a ∷ b ∷ c ∷ d ∷ []) in
      write_loop_keeps sub keep (sub s word dst).0 rest (add64 dst 4)
        (keep s word dst (four_bytes-lt a b c d) h)

  -- The values written are words.
  pub write_words_keeps_word :
      (sub : S → ℕ → ℕ → S × ℕ)
      → ((s : S) (value dst : ℕ) → value < 2 ^ 32 → P s → P (sub s value dst).0)
      → (s : S) (src : List ℕ) (dst : ℕ) → P s
      → P (write_words sub s src dst).state
  unfolding write_words
  write_words_keeps_word sub keep s src dst h = write_loop_keeps sub keep s src dst h

  pub write_words_keeps :
      (sub : S → ℕ → ℕ → S × ℕ)
      → ((s : S) (value dst : ℕ) → P s → P (sub s value dst).0)
      → (s : S) (src : List ℕ) (dst : ℕ) → P s
      → P (write_words sub s src dst).state
  write_words_keeps sub keep s src dst h =
      write_words_keeps_word sub (λ s' value dst' small k. keep s' value dst' k) s src dst h
