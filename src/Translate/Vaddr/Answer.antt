-- ===== src/Translate/Vaddr/Answer.antt =====
-- iomap.c: what an access at a virtual address leaves of the processor.
use space_emu.Base.{ℕ, zero, suc, ◌+◌, ◌-◌, ◌^◌, ◌<◌, ◌≡◌, ◌⊎◌, refl, arith, bit_and, true, false}
use space_emu.Base.{leb, ◌==◌}
use space_emu.Base.{List, inl, inr, Bool-cases}
use space_emu.Base.Bits.{bit_and_mask}
use space_emu.Base.Bytes.{length}
use space_emu.Base.Word.{add64}
use space_emu.Cpu.{CpuState}
use space_emu.Device.{Reply}
use space_emu.Translate.{Translation, fault, undefined, physical, address_translate, pte_r_mask}
use space_emu.Translate.{pte_w_mask, pte_x_mask}
use space_emu.Translate.Vaddr.{Access, record_fault, last_part, join_parts, vaddr_loop, read_vaddr}
use space_emu.Translate.Vaddr.{write_vaddr, code_vaddr}

-- An access that is done leaves the processor as it is, and one that is refused records one of its
-- two exceptions and an address and changes nothing else; in the third case a translation ended
-- where C leaves it undefined.
pub data Answered {M : Type 0} (translate : CpuState → ℕ → M → M × Translation) (s : CpuState)
    (fault_cause page_cause : ℕ) (a : Access M) : Type 0 where
  done : a.ok ≡ true → a.cpu ≡ s → Answered translate s fault_cause page_cause a
  faulted :
      (tval cause : ℕ)
      → a.ok ≡ false
      → (cause ≡ fault_cause) ⊎ (cause ≡ page_cause)
      → a.cpu ≡ record_fault s tval cause
      → Answered translate s fault_cause page_cause a
  unknown :
      (va : ℕ) (m : M)
      → (translate s va m).1 ≡ undefined
      → a.ok ≡ false
      → a.cpu ≡ s
      → Answered translate s fault_cause page_cause a

pub translation_cases :
    (t : Translation) → (t ≡ fault) ⊎ ((t ≡ undefined) ⊎ ((p : ℕ) × (t ≡ physical p)))
translation_cases fault = inl refl
translation_cases undefined = inr (inl refl)
translation_cases (physical p) = inr (inr (p, refl))

module _ {M : Type 0} (translate : CpuState → ℕ → M → M × Translation)
    (bus : M → ℕ → ℕ → ℕ → Reply M) (fault_cause page_cause : ℕ) where
  last_part-Answered :
      (s : CpuState) (vaddress : ℕ) (r : Reply M) (cause : ℕ)
      → (cause ≡ fault_cause) ⊎ (cause ≡ page_cause)
      → Answered translate s fault_cause page_cause
          (last_part translate bus fault_cause page_cause s vaddress r cause)
  unfolding last_part
  last_part-Answered s vaddress r cause c = elim (Bool-cases r.ok) [
    | inl e ↦ done e (rw e refl)
    | inr e ↦ faulted vaddress cause e c (rw e refl)
  ]

  join_parts-Answered :
      (s : CpuState) (bytes : List ℕ) (vaddress : ℕ) (a : Access M)
      → Answered translate s fault_cause page_cause a
      → Answered translate s fault_cause page_cause
          (join_parts translate bus fault_cause page_cause bytes vaddress a)
  unfolding join_parts
  join_parts-Answered s bytes vaddress a (done ok same) = done ok (rw ok same)
  join_parts-Answered s bytes vaddress a (faulted tval cause failed c recorded) =
      faulted vaddress page_cause failed (inr refl)
        (rw (failed, recorded) (unfold record_fault in refl))
  join_parts-Answered s bytes vaddress a (unknown va m u failed same) =
      faulted vaddress page_cause failed (inr refl) (rw (failed, same) refl)

  vaddr_loop-Answered :
      (left : ℕ) (s : CpuState) (m : M) (vaddress offset size : ℕ)
      → size < left
      → Answered translate s fault_cause page_cause
          (vaddr_loop translate bus fault_cause page_cause left s m vaddress offset size)
  unfolding vaddr_loop
  vaddr_loop-Answered zero s m vaddress offset size h = absurd (omega arith)
  vaddr_loop-Answered (suc left) s m vaddress offset size h =
      let in_page = 2 ^ 12 - bit_and vaddress (2 ^ 12 - 1) in
      let positive : 0 < in_page = omega (arith, bit_and_mask 12 vaddress) in
      elim (translation_cases (translate s vaddress m).1) [
        | inl e ↦ rw (e, vaddr_loop) (faulted vaddress page_cause refl (inr refl) refl)
        | inr (inl e) ↦ rw (e, vaddr_loop) (unknown vaddress m e refl refl)
        | inr (inr (p, e)) ↦
            let m' = (translate s vaddress m).0 in
            let part = bus m' p offset in_page in
            elim (Bool-cases (p == vaddress)) [
              | inl a ↦
                  rw (e, a, vaddr_loop)
                    (last_part-Answered s vaddress (bus m' p offset size) fault_cause (inl refl))
              | inr a ↦ elim (Bool-cases (leb size in_page)) [
                | inl b ↦
                    rw (e, a, b, vaddr_loop)
                      (last_part-Answered s vaddress (bus m' p offset size) page_cause (inr refl))
                | inr b ↦ elim (Bool-cases part.ok) [
                  | inl c ↦
                      rw (e, a, b, c, vaddr_loop)
                        (join_parts-Answered s part.bytes (add64 vaddress in_page) _ (
                          vaddr_loop-Answered left s part.state (add64 vaddress in_page)
                            (offset + in_page) (size - in_page) (ground arith)))
                  | inr c ↦
                      rw (e, a, b, c, vaddr_loop) (faulted vaddress page_cause refl (inr refl) refl)
                ]
              ]
            ]
      ]

module _ {M : Type 0} (read : M → ℕ → ℕ → Reply M) (write : M → ℕ → List ℕ → Reply M) (s : CpuState)
    (m : M) (vaddress : ℕ) where
  read_vaddr-Answered :
      (size : ℕ)
      → Answered
          (λ s' va. address_translate read write s' va pte_r_mask)
          s
          5
          13
          (read_vaddr read write s m vaddress size)
  unfolding read_vaddr
  read_vaddr-Answered size =
      vaddr_loop-Answered _ _ 5 13 (size + 1) s m vaddress 0 size (omega arith)

  write_vaddr-Answered :
      (src : List ℕ)
      → Answered
          (λ s' va. address_translate read write s' va pte_w_mask)
          s
          7
          15
          (write_vaddr read write s m vaddress src)
  unfolding write_vaddr
  write_vaddr-Answered src =
      vaddr_loop-Answered _ _ 7 15 (length src + 1) s m vaddress 0 (length src) (omega arith)

  code_vaddr-Answered :
      (size : ℕ)
      → Answered
          (λ s' va. address_translate read write s' va pte_x_mask)
          s
          1
          12
          (code_vaddr read write s m vaddress size)
  unfolding code_vaddr
  code_vaddr-Answered size =
      vaddr_loop-Answered _ _ 1 12 (size + 1) s m vaddress 0 size (omega arith)

  -- A read, a write or a fetch at a virtual address that returns a size leaves the processor
  -- as it is; one that is refused records an address and the access's fault or page fault,
  -- and changes nothing else of the processor, unless a translation ends at a superpage.
  pub accesses-Answered :
      (size : ℕ) (src : List ℕ)
      → Answered
          (λ s' va. address_translate read write s' va pte_r_mask)
          s
          5
          13
          (read_vaddr read write s m vaddress size)
        × Answered
            (λ s' va. address_translate read write s' va pte_w_mask)
            s
            7
            15
            (write_vaddr read write s m vaddress src)
        × Answered
            (λ s' va. address_translate read write s' va pte_x_mask)
            s
            1
            12
            (code_vaddr read write s m vaddress size)
  accesses-Answered size src =
      (read_vaddr-Answered size, write_vaddr-Answered src, code_vaddr-Answered size)
