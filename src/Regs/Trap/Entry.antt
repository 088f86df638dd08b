-- ===== src/Regs/Trap/Entry.antt =====
-- `mstatus` after the entry to a trap and after the return from one, bit by bit.
use space_emu.Base.{ℕ, ◌^◌, ◌<◌, ◌≡◌, arith, bit_and, bit_or, true, false, ◌&&◌, ◌||◌}
use space_emu.Base.{ltb, if◌then◌else◌, ◌==◌}
use space_emu.Base.Word.{lnot, ◌>>>◌, ◌<<<◌}
use space_emu.Base.Bits.{has_bit, has_bit-bit_or}
use space_emu.Base.Bits.{has_bit_above, has_bit-pow}
use space_emu.Regs.Trap.{machine_entry, supervisor_entry, mret_mstatus, sret_mstatus}
use space_emu.Regs.Trap.Bits.{has_bit-flag, has_bit-field, has_bit-clear, three}

-- Setting the bit `k` of a word to bit `j` of a word.
abbrev set_flag : ℕ → ℕ → ℕ → ℕ
set_flag a k flag = bit_or (bit_and a (lnot 64 (2 ^ k))) (flag <<< k)

has_bit-set_flag :
    (a b j k i : ℕ)
    → k < 64
    → has_bit (set_flag a k (bit_and (b >>> j) 1)) i
      ≡ (if i == k then has_bit b j else ltb i 64 && has_bit a i)
has_bit-set_flag a b j k i h = ground (
  arith,
  has_bit-bit_or (bit_and a (lnot 64 (2 ^ k))) (bit_and (b >>> j) 1 <<< k) i,
  has_bit-clear a (2 ^ k) i,
  has_bit-pow k i,
  has_bit-flag b j k i,
)

-- MPP is bits 11 and 12.
mpp_mask : (i : ℕ) → has_bit (3 <<< 11) i ≡ i == 11 || i == 12
mpp_mask i = ground (arith, has_bit-field 3 11 i (omega arith), three 0, three 1)

module _ (m : ℕ) (m_lt : m < 2 ^ 64) (p : ℕ) (p_lt : p < 4) where
  pub has_bit-machine_entry :
      (i : ℕ)
      → has_bit (machine_entry m p) i ≡ (
          if i == 3
          then false
          else if i == 7
          then has_bit m p
          else if i == 11
          then has_bit p 0
          else if i == 12
          then has_bit p 1
          else has_bit m i)
  unfolding machine_entry
  has_bit-machine_entry i =
      let m1 = set_flag m 7 (bit_and (m >>> p) 1) in
      let m2 = bit_or (bit_and m1 (lnot 64 (3 <<< 11))) (p <<< 11) in
      ground (
        arith,
        has_bit-clear m2 (2 ^ 3) i,
        has_bit-pow 3 i,
        has_bit-bit_or (bit_and m1 (lnot 64 (3 <<< 11))) (p <<< 11) i,
        has_bit-clear m1 (3 <<< 11) i,
        mpp_mask i,
        has_bit-field p 11 i p_lt,
        has_bit-set_flag m m p 7 i (omega arith),
        has_bit_above 64 m i m_lt,
      )

  pub has_bit-mret_mstatus :
      (i : ℕ)
      → has_bit (mret_mstatus m p) i ≡ (
          if i == 7
          then true
          else if i == 11 || i == 12
          then false
          else if i == p
          then has_bit m 7
          else has_bit m i)
  unfolding mret_mstatus
  has_bit-mret_mstatus i =
      let m1 = set_flag m p (bit_and (m >>> 7) 1) in
      ground (
        arith,
        has_bit-clear (bit_or m1 (2 ^ 7)) (3 <<< 11) i,
        mpp_mask i,
        has_bit-bit_or m1 (2 ^ 7) i,
        has_bit-pow 7 i,
        has_bit-set_flag m m 7 p i (omega arith),
        has_bit_above 64 m i m_lt,
      )

module _ (m : ℕ) (m_lt : m < 2 ^ 64) (p : ℕ) (p_lt : p < 2) where
  pub has_bit-supervisor_entry :
      (i : ℕ)
      → has_bit (supervisor_entry m p) i ≡ (
          if i == 1
          then false
          else if i == 5
          then has_bit m p
          else if i == 8
          then has_bit p 0
          else has_bit m i)
  unfolding supervisor_entry
  has_bit-supervisor_entry i =
      let m1 = set_flag m 5 (bit_and (m >>> p) 1) in
      let m2 = bit_or (bit_and m1 (lnot 64 (2 ^ 8))) (p <<< 8) in
      ground (
        arith,
        has_bit-clear m2 (2 ^ 1) i,
        has_bit-pow 1 i,
        has_bit-bit_or (bit_and m1 (lnot 64 (2 ^ 8))) (p <<< 8) i,
        has_bit-clear m1 (2 ^ 8) i,
        has_bit-pow 8 i,
        has_bit-field p 8 i (omega arith),
        has_bit_above 1 p 1 p_lt (omega arith),
        has_bit-set_flag m m p 5 i (omega arith),
        has_bit_above 64 m i m_lt,
      )

  pub has_bit-sret_mstatus :
      (i : ℕ)
      → has_bit (sret_mstatus m p) i ≡ (
          if i == 5
          then true
          else if i == 8
          then false
          else if i == p
          then has_bit m 5
          else has_bit m i)
  unfolding sret_mstatus
  has_bit-sret_mstatus i =
      let m1 = set_flag m p (bit_and (m >>> 5) 1) in
      ground (
        arith,
        has_bit-clear (bit_or m1 (2 ^ 5)) (2 ^ 8) i,
        has_bit-pow 8 i,
        has_bit-bit_or m1 (2 ^ 5) i,
        has_bit-pow 5 i,
        has_bit-set_flag m m 5 p i (omega arith),
        has_bit_above 64 m i m_lt,
      )
