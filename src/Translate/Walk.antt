-- ===== src/Translate/Walk.antt =====
-- iomap.c: how a walk of the page tables may end.
use mathlib.Core.Path.{subst}
use native.Mathlib.Nat.{one-le-pow}
use space_emu.Base.{◌∙◌, sym, ◌/◌, ◌%◌}
use space_emu.Base.{ℕ, zero, suc, ◌+◌, ◌-◌, ◌*◌, ◌^◌, ◌≤◌, ◌≡◌, arith, bit_and, bit_or, Bool, true}
use space_emu.Base.{false, ◌&&◌, ◌||◌, ◌==◌, ◌!=◌, not, ltb, if◌then◌else◌}
use space_emu.Base.{List, Bool-cases, inl, inr}
use space_emu.Base.Word.{u64, ◌<<<◌, ◌>>>◌}
use space_emu.Base.Bytes.{from_bytes}
use space_emu.Base.Bits.{eq_of_bits, bit_and_mask}
use space_emu.Base.Bits.{has_bit, bit_and_pow, has_bit-bit_and, has_bit-bit_or, has_bit-shr}
use space_emu.Base.Bits.{has_bit-shl, has_bit-ones, has_bit-pow, has_bit-mod}
use space_emu.Cpu.{CpuState}
use space_emu.Device.{Reply}
use space_emu.Translate.{PteFormat, Translation, fault, undefined, physical, leaf, access_bits}
use space_emu.Translate.{allows_mode, mark_entry, page_number, load_entry, sv_format, walk}
use space_emu.Translate.{translate_action}

-- Read, write and fetch are the accesses 2 ^ 1, 2 ^ 2 and 2 ^ 3: an entry allows the one whose bit
-- it has, and a read of an executable page under MXR.
abbrev pub may_access : CpuState → ℕ → ℕ → Bool
may_access s k e = has_bit e k || (k == 1 && has_bit s.mstatus 19 && has_bit e 3)

-- The supervisor reaches a user's page under SUM only; another mode reaches user's pages only.
abbrev pub may_enter : CpuState → ℕ → ℕ → Bool
may_enter s priv e = if priv == 1 then not (has_bit e 4) || has_bit s.mstatus 18 else has_bit e 4

-- The address of a page of 4 KiB, by its bits: the offset's below, the entry's above.
abbrev pub address_bit : ℕ → ℕ → ℕ → Bool
address_bit inst e i = if ltb i 12 then has_bit inst i else ltb i 56 && has_bit e (i - 2)

-- A leaf is readable or executable.
abbrev pub is_leaf : ℕ → Bool
is_leaf e = has_bit e 1 || has_bit e 3

-- The page of an entry: its bits 10 to 53.
abbrev pub entry_page : ℕ → ℕ
entry_page e = (e >>> 10) % 2 ^ 44

abbrev pub is_permitted : CpuState → ℕ → ℕ → ℕ → Bool
is_permitted s priv k e = may_enter s priv e && may_access s k e

-- How a walk for access `2 ^ k` may end, where `Meets i e` says that it meets entry `e` at level
-- `i`: at an entry that is not valid, at a pointer where no level is left, at a leaf whose rights
-- do not suffice, at a leaf above level 0, aligned or not, or at a page.
pub data Outcome (s : CpuState) (priv k inst : ℕ) (Meets : ℕ → ℕ → Type 0)
    : Translation → Type 0 where
  invalid : (i e : ℕ) → Meets i e → has_bit e 0 ≡ false → Outcome s priv k inst Meets fault
  pointer :
      (e : ℕ)
      → Meets 0 e
      → has_bit e 0 ≡ true
      → is_leaf e ≡ false
      → Outcome s priv k inst Meets fault
  forbidden :
      (i e : ℕ)
      → Meets i e
      → has_bit e 0 ≡ true
      → is_leaf e ≡ true
      → is_permitted s priv k e ≡ false
      → Outcome s priv k inst Meets fault
  misaligned :
      (i e : ℕ)
      → Meets i e
      → has_bit e 0 ≡ true
      → is_leaf e ≡ true
      → is_permitted s priv k e ≡ true
      → (i == 0) ≡ false
      → (entry_page e % 2 ^ (9 * i) == 0) ≡ false
      → Outcome s priv k inst Meets fault
  superpage :
      (i e : ℕ)
      → Meets i e
      → has_bit e 0 ≡ true
      → is_leaf e ≡ true
      → is_permitted s priv k e ≡ true
      → (i == 0) ≡ false
      → (entry_page e % 2 ^ (9 * i) == 0) ≡ true
      → Outcome s priv k inst Meets undefined
  mapped :
      (e p : ℕ)
      → Meets 0 e
      → has_bit e 0 ≡ true
      → is_leaf e ≡ true
      → is_permitted s priv k e ≡ true
      → ((i : ℕ) → has_bit p i ≡ address_bit inst e i)
      → Outcome s priv k inst Meets (physical p)

-- A walk that goes on meets what the rest of it meets.
Outcome-below :
    {s : CpuState} {priv k inst : ℕ} {Below Meets : ℕ → ℕ → Type 0} {t : Translation}
    → ((i e : ℕ) → Below i e → Meets i e)
    → Outcome s priv k inst Below t
    → Outcome s priv k inst Meets t
Outcome-below h (invalid i e met a) = invalid i e (h i e met) a
Outcome-below h (pointer e met a b) = pointer e (h 0 e met) a b
Outcome-below h (forbidden i e met a b c) = forbidden i e (h i e met) a b c
Outcome-below h (misaligned i e met a b c d f) = misaligned i e (h i e met) a b c d f
Outcome-below h (superpage i e met a b c d f) = superpage i e (h i e met) a b c d f
Outcome-below h (mapped e p met a b c d) = mapped e p (h 0 e met) a b c d

module _ {M : Type 0} (read : M → ℕ → ℕ → Reply M) (inst : ℕ) where
  -- The read of the entry at level `i` of the table at page `base`: nine bits of the address
  -- choose one of its 512 entries of eight bytes.
  abbrev pub entry_read : ℕ → M → ℕ → Reply M
  entry_read i m base = read m ((base * 4096 + (inst >>> (12 + 9 * i)) % 512 * 8) % 2 ^ 64) 8

  -- The entry in memory, or the old one if the read is refused.
  abbrev pub entry_in : ℕ → Reply M → ℕ
  entry_in pte r = if r.ok then pte / 2 ^ 64 * 2 ^ 64 + from_bytes r.bytes else pte

  -- The entries of the tables in memory that the walk meets, with their levels: at each level
  -- the entry in the table, and, below a valid pointer, those of the table at its page.
  pub data Visits : ℕ → M → ℕ → ℕ → ℕ → ℕ → Type 0 where
    here :
        (i : ℕ) (m : M) (base pte : ℕ)
        → Visits (suc i) m base pte i (entry_in pte (entry_read i m base))
    below :
        (i : ℕ) (m : M) (base pte j e : ℕ)
        → has_bit (entry_in pte (entry_read i m base)) 0 ≡ true
        → is_leaf (entry_in pte (entry_read i m base)) ≡ false
        → Visits i
            (entry_read i m base).state
            (entry_page (entry_in pte (entry_read i m base)))
            (entry_in pte (entry_read i m base))
            j
            e
        → Visits (suc i) m base pte j e

access_bits_lem :
    (s : CpuState) (e k : ℕ) → 1 ≤ k → k ≤ 3 → has_bit (access_bits s e) k ≡ may_access s k e
unfolding access_bits
access_bits_lem s e k p q =
    let xwr = bit_and e 14 in
    ground (
      arith,
      bit_and_pow s.mstatus 19,
      has_bit-bit_or xwr (xwr >>> 2) k,
      has_bit-shr 2 xwr k,
      has_bit-bit_and e 14 k,
      has_bit-bit_and e 14 (k + 2),
      has_bit-shl 1 7 k,
      has_bit-shl 1 7 (k + 2),
      has_bit-ones 3 (k - 1),
      has_bit-ones 3 (k + 1),
    )

allows_mode_lem : (s : CpuState) (priv e : ℕ) → allows_mode s priv e ≡ may_enter s priv e
unfolding allows_mode
allows_mode_lem s priv e = ground (arith, bit_and_pow e 4, bit_and_pow s.mstatus 18)

mark_entry_above : (access e i : ℕ) → 10 ≤ i → has_bit (mark_entry access e) i ≡ has_bit e i
unfolding mark_entry
mark_entry_above access e i h = ground (
  arith,
  has_bit-bit_or e (2 ^ 6) i,
  has_bit-bit_or (bit_or e (2 ^ 6)) (2 ^ 7) i,
  has_bit-pow 6 i,
  has_bit-pow 7 i,
)

page_bits :
    (e i : ℕ) → has_bit (bit_and e ((2 ^ 44 - 1) <<< 10) >>> 10) i ≡ ltb i 44 && has_bit e (i + 10)
page_bits e i =
    let m = bit_and e ((2 ^ 44 - 1) <<< 10) in
    ground (
      arith,
      has_bit-shr 10 m i,
      has_bit-bit_and e ((2 ^ 44 - 1) <<< 10) (i + 10),
      has_bit-shl 10 (2 ^ 44 - 1) (i + 10),
      has_bit-ones 44 i,
    )

offset_bits : (inst i : ℕ) → has_bit (bit_and inst 0xfff) i ≡ ltb i 12 && has_bit inst i
offset_bits inst i = ground (arith, has_bit-bit_and inst 0xfff i, has_bit-ones 12 i)

join_bits :
    (inst e n i : ℕ)
    → ((j : ℕ) → has_bit n j ≡ ltb j 44 && has_bit e (j + 10))
    → has_bit (bit_or (u64 (n <<< 12)) (bit_and inst 0xfff)) i ≡ address_bit inst e i
join_bits inst e n i h = ground (
  arith,
  has_bit-bit_or (u64 (n <<< 12)) (bit_and inst 0xfff) i,
  has_bit-mod 64 (n <<< 12) i,
  has_bit-shl 12 n i,
  h (i - 12),
  offset_bits inst i,
)

module _ {M : Type 0} (read : M → ℕ → ℕ → Reply M) (write : M → ℕ → List ℕ → Reply M)
    (s : CpuState) where
  module _ (levels ppn inst k priv : ℕ) (low : 1 ≤ k) (high : k ≤ 3) where
    abbrev ft : PteFormat
    ft = sv_format read write s levels ppn inst (2 ^ k)

    has_access : (e : ℕ) → (bit_and (access_bits s e) (2 ^ k) == 0) ≡ not (may_access s k e)
    has_access e = ground (
      arith,
      bit_and_pow (access_bits s e) k,
      access_bits_lem s e k low high,
      one-le-pow k 2 (omega arith),
    )

    -- The page number of the marked entry.
    marked_bits :
        (e j : ℕ)
        → has_bit (page_number ft (mark_entry (2 ^ k) e)) j ≡ ltb j 44 && has_bit e (j + 10)
    unfolding page_number sv_format
    marked_bits e j =
        ground (arith, page_bits (mark_entry (2 ^ k) e) j, mark_entry_above (2 ^ k) e (j + 10))

    entry_page_bits : (e j : ℕ) → has_bit (entry_page e) j ≡ ltb j 44 && has_bit e (j + 10)
    entry_page_bits e j = ground (arith, has_bit-mod 44 (e >>> 10) j, has_bit-shr 10 e j)

    page_number_marked : (e : ℕ) → page_number ft (mark_entry (2 ^ k) e) ≡ entry_page e
    page_number_marked e = eq_of_bits _ _ λ j. marked_bits e j ∙ sym (entry_page_bits e j)

    page_number_lem : (e : ℕ) → page_number ft e ≡ entry_page e
    unfolding page_number sv_format
    page_number_lem e = eq_of_bits _ _ λ j. page_bits e j ∙ sym (entry_page_bits e j)

    module _ (Meets : ℕ → ℕ → Type 0) where
      leaf-Outcome :
          (i : ℕ) (m : M) (pte_addr e : ℕ)
          → Meets i e
          → has_bit e 0 ≡ true
          → is_leaf e ≡ true
          → Outcome s priv k inst Meets (leaf read write s ft priv i m pte_addr e).1
      unfolding leaf sv_format
      leaf-Outcome i m pte_addr e met valid ends =
          let page = page_number ft (mark_entry (2 ^ k) e) in
          elim (Bool-cases (allows_mode s priv e)) [
            | inr a ↦
                rw a (forbidden i e met valid ends (ground (arith, a, allows_mode_lem s priv e)))
            | inl a ↦ elim (Bool-cases (bit_and (access_bits s e) (2 ^ k) == 0)) [
              | inl b ↦ rw (a, b) (forbidden i e met valid ends (ground (arith, b, has_access e)))
              | inr b ↦
                  let rights : is_permitted s priv k e ≡ true =
                    ground (arith, a, b, allows_mode_lem s priv e, has_access e) in
                  elim (Bool-cases (i != 0)) [
                    | inl c ↦ elim (Bool-cases (bit_and page (2 ^ (9 * i) - 1) != 0)) [
                      | inl d ↦
                          rw (a, b, c, d)
                            (misaligned i e met valid ends rights (ground (arith, c))
                              (ground (arith, d, bit_and_mask (9 * i) page, page_number_marked e)))
                      | inr d ↦
                          rw (a, b, c, d)
                            (superpage i e met valid ends rights (ground (arith, c))
                              (ground (arith, d, bit_and_mask (9 * i) page, page_number_marked e)))
                    ]
                    | inr c ↦
                        let bottom : i ≡ 0 = ground (arith, c) in
                        rw (a, b, c)
                          (mapped e _ (subst (λ j. Meets j e) bottom met) valid ends rights
                            (λ j. join_bits inst e page j (marked_bits e)))
                  ]
            ]
          ]

      -- A level, where the rest of the walk is known.
      level-Outcome :
          (i : ℕ) (m : M) (base pte : ℕ)
          → let r = entry_read read inst i m base in
            let e = entry_in read inst pte r in
            Meets i e
            → (has_bit e 0 ≡ true
                → is_leaf e ≡ false
                → Outcome s priv k inst Meets
                    (walk read write s ft priv i r.state (page_number ft e) e).1)
            → Outcome s priv k inst Meets (walk read write s ft priv (suc i) m base pte).1
      unfolding walk load_entry sv_format
      level-Outcome i m base pte met rest =
          let r = entry_read read inst i m base in
          let e = entry_in read inst pte r in
          rw (bit_and_mask 9 (inst >>> (12 + 9 * i))) (elim (Bool-cases (bit_and e 1 == 0)) [
            | inl a ↦ rw a (invalid i e met (ground (arith, a, bit_and_pow e 0)))
            | inr a ↦
                let valid : has_bit e 0 ≡ true = ground (arith, a, bit_and_pow e 0) in
                elim (Bool-cases (bit_and e 2 == 0 && bit_and e 8 == 0)) [
                  | inl b ↦
                      rw (a, b) (rest valid (ground (arith, b, bit_and_pow e 1, bit_and_pow e 3)))
                  | inr b ↦
                      rw (a, b)
                        (leaf-Outcome i r.state _ e met valid
                          (ground (arith, b, bit_and_pow e 1, bit_and_pow e 3)))
                ]
          ])

    walk-Outcome :
        (i : ℕ) (m : M) (base pte : ℕ)
        → Outcome s priv k inst
            (Visits read inst (suc i) m base pte)
            (walk read write s ft priv (suc i) m base pte).1
    walk-Outcome zero m base pte =
        let met = here zero m base pte in
        level-Outcome (Visits read inst 1 m base pte) zero m base pte met
          (λ valid points. unfold walk in pointer _ met valid points)
    walk-Outcome (suc i) m base pte =
        let r = entry_read read inst (suc i) m base in
        let e = entry_in read inst pte r in
        level-Outcome (Visits read inst (suc (suc i)) m base pte) (suc i) m base pte
          (here (suc i) m base pte)
          (λ valid points. rw (page_number_lem e) (
            Outcome-below (λ j f. below (suc i) m base pte j f valid points)
              (walk-Outcome i r.state (entry_page e) e)))

  -- A walk of one level or more in a 64-bit mode, for a read, a write or a fetch, ends at an
  -- entry that it meets in the tables in memory, from the table at page `ppn` down: it is
  -- refused at one that is not valid, at a pointer at level 0, at a leaf that the mode may
  -- not use or that does not allow the access, and at a leaf above level 0 whose page is not
  -- aligned; an aligned one is a superpage; and an address is given only at a leaf at level 0
  -- that the mode may use and that allows the access, with the bits of the offset and of its
  -- page number. A read of an entry that is refused leaves the entry before it.
  pub translate_action-Outcome :
      (top ppn inst k priv : ℕ) (m : M)
      → 1 ≤ k
      → k ≤ 3
      → Outcome s priv k inst
          (Visits read inst (suc top) m ppn 0)
          (translate_action read write s
            (sv_format read write s (suc top) ppn inst (2 ^ k))
            priv
            m).1
  unfolding translate_action sv_format
  translate_action-Outcome top ppn inst k priv m low high =
      walk-Outcome (suc top) ppn inst k priv low high top m ppn 0
