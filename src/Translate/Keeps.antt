-- ===== src/Translate/Keeps.antt =====
-- What every physical access keeps of the devices, a walk and an access at a virtual address keep.
use space_emu.Base.{ℕ, zero, suc, ◌+◌, ◌-◌, ◌*◌, ◌^◌, bit_and, leb, ◌==◌, ◌!=◌, ◌&&◌, not}
use space_emu.Base.{if◌then◌else◌, either, List, inl, inr, Bool-cases}
use space_emu.Base.Bytes.{to_bytes, length}
use space_emu.Base.Word.{u64, add64, ◌>>>◌}
use space_emu.Cpu.{CpuState}
use space_emu.Device.{Reply}
use space_emu.Translate.{PteFormat, Translation, leaf, walk, load_entry, mark_entry, need_write}
use space_emu.Translate.{page_number, translate_action, address_translate, sv_format, sv32_format}
use space_emu.Translate.{allows_mode, access_bits, effective_priv}
use space_emu.Translate.Vaddr.Answer.{translation_cases}
use space_emu.Translate.Vaddr.{vaddr_loop, last_part, join_parts, read_vaddr, write_vaddr}
use space_emu.Translate.Vaddr.{code_vaddr}

module _ {κ} {M : Type 0} (Q : M → Type κ) where
  module _ (translate : CpuState → ℕ → M → M × Translation) (bus : M → ℕ → ℕ → ℕ → Reply M)
      (keep_translate : (s : CpuState) (va : ℕ) (m : M) → Q m → Q (translate s va m).0)
      (keep_bus : (m : M) (p offset n : ℕ) → Q m → Q (bus m p offset n).state)
      (fault_cause page_cause : ℕ) where
    vaddr_loop_keeps :
        (left : ℕ) (s : CpuState) (m : M) (vaddress offset size : ℕ)
        → Q m
        → Q (vaddr_loop translate bus fault_cause page_cause left s m vaddress offset size).memory
    unfolding vaddr_loop
    vaddr_loop_keeps zero s m vaddress offset size q = q
    vaddr_loop_keeps (suc left) s m vaddress offset size q =
        let in_page = 2 ^ 12 - bit_and vaddress (2 ^ 12 - 1) in
        let m' = (translate s vaddress m).0 in
        let q' : Q m' = keep_translate s vaddress m q in
        elim (translation_cases (translate s vaddress m).1) [
          | inl e ↦ rw (e, vaddr_loop) q'
          | inr (inl e) ↦ rw (e, vaddr_loop) q'
          | inr (inr (p, e)) ↦
              let part = bus m' p offset in_page in
              let rest =
                vaddr_loop_keeps left s part.state (add64 vaddress in_page) (offset + in_page)
                  (size - in_page) (keep_bus m' p offset in_page q') in
              elim (Bool-cases (p == vaddress)) [
                | inl a ↦ rw (e, a, vaddr_loop) (unfold last_part in keep_bus m' p offset size q')
                | inr a ↦ elim (Bool-cases (leb size in_page)) [
                  | inl b ↦
                      rw (e, a, b, vaddr_loop) (unfold last_part in keep_bus m' p offset size q')
                  | inr b ↦ elim (Bool-cases part.ok) [
                    | inl c ↦ rw (e, a, b, c, vaddr_loop) (unfold join_parts in rest)
                    | inr c ↦
                        rw (e, a, b, c, vaddr_loop)
                          (unfold last_part in keep_bus m' p offset in_page q')
                  ]
                ]
              ]
        ]

  module _ (read : M → ℕ → ℕ → Reply M) (write : M → ℕ → List ℕ → Reply M)
      (keep_read : (m : M) (a n : ℕ) → Q m → Q (read m a n).state)
      (keep_write : (m : M) (a : ℕ) (bs : List ℕ) → Q m → Q (write m a bs).state)
      (s : CpuState) where
    abbrev Kept : M × Translation → Type κ
    Kept r = Q r.0

    leaf_keeps :
        (ft : PteFormat) (priv i : ℕ) (m : M) (addr pte : ℕ)
        → Q m
        → Kept (leaf read write s ft priv i m addr pte)
    unfolding leaf
    leaf_keeps ft priv i m addr pte q =
        let marked = mark_entry ft.access pte in
        let m' =
          if need_write ft.access pte
          then (write m addr (to_bytes ft.ptesize marked)).state
          else m in
        let q' : Q m' =
          either Q (need_write ft.access pte) (keep_write m addr (to_bytes ft.ptesize marked) q)
            q in
        either Kept (not (allows_mode s priv pte)) q (
          either Kept (bit_and (access_bits s pte) ft.access == 0) q (
            either Kept (i != 0)
              (either Kept (bit_and (page_number ft marked) (2 ^ (ft.ppn_width * i) - 1) != 0) q'
                q')
              q'))

    walk_keeps :
        (ft : PteFormat) (priv left : ℕ) (m : M) (base pte : ℕ)
        → Q m
        → Kept (walk read write s ft priv left m base pte)
    unfolding walk
    walk_keeps ft priv zero m base pte q = q
    walk_keeps ft priv (suc i) m base pte q =
        let addr = u64 (base * 4096 + ft.vpn i * ft.ptesize) in
        let r = read m addr ft.ptesize in
        let e = load_entry read write s ft pte r in
        let q' = keep_read m addr ft.ptesize q in
        either Kept (bit_and e 1 == 0) q' (
          either Kept (bit_and e 2 == 0 && bit_and e 8 == 0)
            (walk_keeps ft priv i r.state (page_number ft e) e q')
            (leaf_keeps ft priv i r.state addr e q'))

    pub address_translate_keeps :
        (va access : ℕ) (m : M) → Q m → Kept (address_translate read write s va access m)
    unfolding address_translate translate_action
    address_translate_keeps va access m q =
        let ppn = bit_and s.satp (2 ^ 44 - 1) in
        let mode = bit_and (s.satp >>> 60) 0xf in
        let walked : (ft : PteFormat)
            → Kept (translate_action read write s ft (effective_priv read write s access) m) =
          λ ft. walk_keeps ft (effective_priv read write s access) ft.levels m ft.ppn 0 q in
        either Kept (effective_priv read write s access == 3) q (
          either Kept (mode == 0) q (
            either Kept (mode == 1) (walked (sv32_format read write s ppn va access)) (
              either Kept (mode == 8) (walked (sv_format read write s 3 ppn va access))
                (either Kept (mode == 9) (walked (sv_format read write s 4 ppn va access)) q))))

  module _ (read : M → ℕ → ℕ → Reply M) (write : M → ℕ → List ℕ → Reply M)
      (keep_read : (m : M) (a n : ℕ) → Q m → Q (read m a n).state)
      (keep_write : (m : M) (a : ℕ) (bs : List ℕ) → Q m → Q (write m a bs).state) where
    pub read_vaddr_keeps :
        (s : CpuState) (m : M) (va n : ℕ) → Q m → Q (read_vaddr read write s m va n).memory
    unfolding read_vaddr
    read_vaddr_keeps s m va n q =
        vaddr_loop_keeps _ _
          (λ s' va' m'. address_translate_keeps read write keep_read keep_write s' va' _ m')
          (λ m' p offset k. keep_read m' p k) _ _ (n + 1) s m va 0 n q

    pub write_vaddr_keeps :
        (s : CpuState) (m : M) (va : ℕ) (src : List ℕ)
        → Q m
        → Q (write_vaddr read write s m va src).memory
    unfolding write_vaddr
    write_vaddr_keeps s m va src q =
        vaddr_loop_keeps _ _
          (λ s' va' m'. address_translate_keeps read write keep_read keep_write s' va' _ m')
          (λ m' p offset k. keep_write m' p _) _ _ (length src + 1) s m va 0 (length src) q

    pub code_vaddr_keeps :
        (s : CpuState) (m : M) (va n : ℕ) → Q m → Q (code_vaddr read write s m va n).memory
    unfolding code_vaddr
    code_vaddr_keeps s m va n q =
        vaddr_loop_keeps _ _
          (λ s' va' m'. address_translate_keeps read write keep_read keep_write s' va' _ m')
          (λ m' p offset k. keep_read m' p k) _ _ (n + 1) s m va 0 n q
