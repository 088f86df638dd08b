-- ===== src/Plic/Sync.antt =====
-- plic.c: the external-interrupt bits of `mip` and the open sources.
use space_emu.Base.{Bool-cases, inl, inr, ltb, ◌==◌, ◌+◌, ◌-◌, ◌%◌, ℕ, ◌^◌, ◌≡◌, arith, refl, Bool}
use space_emu.Base.{true, ◌!=◌, List}
use space_emu.Base.Word.{lnot, sub64}
use space_emu.Base.Bits.{has_bit, has_bit-bit_or, has_bit-bit_and, has_bit-lnot}
use space_emu.Cpu.{CpuState}
use space_emu.Device.Laws.{read_words_keeps, write_words_keeps}
use space_emu.Plic.{plic_complete, plic_claim, plic_base_addr, claim_offset}
use space_emu.Plic.{open_irqs, update_mip, plic_set_irq, plic_read, plic_read_sub, plic_write}
use space_emu.Plic.{plic_write_sub}

-- MEIP and SEIP are set exactly if a source is pending and not served.
pub record IsSynced (s : CpuState) : Type 0 where
  pub seip : has_bit s.mip 9 ≡ (open_irqs s != 0)
  pub meip : has_bit s.mip 11 ≡ (open_irqs s != 0)

both_set : (has_bit 2560 9 ≡ true) × (has_bit 2560 11 ≡ true)
unfolding has_bit
both_set = (refl, refl)

open_irqs-update_mip : (s : CpuState) → open_irqs (update_mip s) ≡ open_irqs s
unfolding open_irqs update_mip
open_irqs-update_mip s = ground arith

pub update_mip-IsSynced : (s : CpuState) → IsSynced (update_mip s)
unfolding update_mip
update_mip-IsSynced s = record {
  seip = ground (
    arith,
    both_set,
    open_irqs-update_mip s,
    has_bit-bit_or s.mip 2560 9,
    has_bit-bit_and s.mip (lnot 32 2560) 9,
    has_bit-lnot 32 2560 9,
  );
  meip = ground (
    arith,
    both_set,
    open_irqs-update_mip s,
    has_bit-bit_or s.mip 2560 11,
    has_bit-bit_and s.mip (lnot 32 2560) 11,
    has_bit-lnot 32 2560 11,
  );
}

-- A call of the controller: a device moves its line, or the guest accesses the registers.
pub data Call : Type 0 where
  set_irq : ℕ → Bool → Call
  read : ℕ → ℕ → Call
  write : List ℕ → ℕ → Call

complete-IsSynced : (s : CpuState) (value : ℕ) → IsSynced s → IsSynced (plic_complete s value)
unfolding plic_complete
complete-IsSynced s value h = elim (Bool-cases (ltb ((value + 2 ^ 32 - 1) % 2 ^ 32) 32)) [
  | inl known ↦ rw known (update_mip-IsSynced _)
  | inr unknown ↦ rw unknown h
]

write_sub-IsSynced :
    (s : CpuState) (value dst : ℕ) → IsSynced s → IsSynced (plic_write_sub s value dst).0
unfolding plic_write_sub
write_sub-IsSynced s value dst h = elim (Bool-cases (sub64 dst plic_base_addr == claim_offset)) [
  | inl here ↦ rw here (complete-IsSynced s value h)
  | inr elsewhere ↦ rw elsewhere h
]

module _ (ctz32 : ℕ → ℕ) where
  unfoldable pub serve : CpuState → Call → CpuState
  serve s (set_irq n flag) = plic_set_irq s n flag
  serve s (read src size) = (plic_read ctz32 s src size).state
  serve s (write src dst) = (plic_write s src dst).state

  claim-IsSynced : (s : CpuState) → IsSynced s → IsSynced (plic_claim ctz32 s).0
  unfolding plic_claim
  claim-IsSynced s h = elim (Bool-cases (open_irqs s != 0)) [
    | inl some_open ↦ rw some_open (update_mip-IsSynced _)
    | inr none_open ↦ rw none_open h
  ]

  read_sub-IsSynced :
      (round : ℕ) (s : CpuState) (src : ℕ)
      → IsSynced s
      → IsSynced (plic_read_sub ctz32 round s src).0
  unfolding plic_read_sub
  read_sub-IsSynced round s src h = elim (Bool-cases (sub64 src plic_base_addr == claim_offset)) [
    | inl here ↦ rw here (claim-IsSynced s h)
    | inr elsewhere ↦ rw elsewhere h
  ]

  -- If the two external-interrupt bits of `mip` follow the open sources, they do after any
  -- call of the controller, at any address and of any size.
  pub serve-IsSynced : (s : CpuState) (c : Call) → IsSynced s → IsSynced (serve s c)
  unfolding serve plic_set_irq plic_read plic_write
  serve-IsSynced s (set_irq n flag) h = update_mip-IsSynced _
  serve-IsSynced s (read src size) h =
      read_words_keeps IsSynced (plic_read_sub ctz32) read_sub-IsSynced s src size h
  serve-IsSynced s (write src dst) h =
      write_words_keeps IsSynced plic_write_sub write_sub-IsSynced s src dst h
