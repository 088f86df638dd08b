-- ===== src/Translate/Vaddr/Rounds.antt =====
-- The rounds of an access at a virtual address: those the model allows are enough.
use space_emu.Base.{ℕ, zero, suc, ◌+◌, ◌-◌, ◌^◌, ◌<◌, ◌≡◌, refl, arith, bit_and, Bool-cases, leb}
use space_emu.Base.{inl, inr}
use space_emu.Base.Bits.{bit_and-lt}
use space_emu.Base.Word.{add64}
use space_emu.Cpu.{CpuState}
use space_emu.Device.{Reply}
use space_emu.Translate.{Translation}
use space_emu.Translate.Vaddr.Answer.{translation_cases}
use space_emu.Translate.Vaddr.{vaddr_loop}

module _ {M : Type 0} (translate : CpuState → ℕ → M → M × Translation)
    (bus : M → ℕ → ℕ → ℕ → Reply M) (fault_cause page_cause : ℕ) where
  -- With more rounds than the access has bytes, the number of rounds makes no difference: the
  -- loop has ended before, whatever the translation and the physical accesses answer.
  pub vaddr_loop_rounds :
      (left more : ℕ) (s : CpuState) (m : M) (vaddress offset size : ℕ)
      → size < left
      → size < more
      → vaddr_loop translate bus fault_cause page_cause left s m vaddress offset size
        ≡ vaddr_loop translate bus fault_cause page_cause more s m vaddress offset size
  unfolding vaddr_loop
  vaddr_loop_rounds zero more s m vaddress offset size h k = absurd (omega arith)
  vaddr_loop_rounds (suc left) zero s m vaddress offset size h k = absurd (omega arith)
  vaddr_loop_rounds (suc left) (suc more) s m vaddress offset size h k =
      let in_page = 2 ^ 12 - bit_and vaddress (2 ^ 12 - 1) in
      let some_room : 0 < in_page =
        omega (arith, bit_and-lt 12 vaddress (2 ^ 12 - 1) (omega arith)) in
      elim (translation_cases (translate s vaddress m).1) [
        | inl e ↦ rw (e, vaddr_loop) refl
        | inr (inl e) ↦ rw (e, vaddr_loop) refl
        | inr (inr (p, e)) ↦
            rw (e, vaddr_loop)
              (elim (Bool-cases (leb size in_page)) [
                | inl small ↦ rw small refl
                | inr large ↦
                    let part = bus (translate s vaddress m).0 p offset in_page in
                    let rest =
                      vaddr_loop_rounds left more s part.state (add64 vaddress in_page)
                        (offset + in_page) (size - in_page) (ground (arith, large))
                        (ground (arith, large)) in
                    rw rest refl
              ])
      ]
