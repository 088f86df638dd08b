-- ===== src/Board/Keeps.antt =====
-- The devices of the board, as far as they change the processor: which properties of the
-- processor their accesses keep.
use space_emu.Base.{ℕ, ◌+◌, ◌-◌, ◌^◌, ◌%◌, ◌<◌, arith, bit_and, bit_or, Bool, Bool-cases, either}
use space_emu.Base.{switch_all, switch, ◌==◌, ◌!=◌, ◌&&◌, ltb, List, [], ◌∷◌, none, some, inl, inr}
use space_emu.Base.Word.{lnot, u32, u64, sub64, ◌<<<◌, ◌>>>◌}
use space_emu.Base.Bits.{bit_and-lt, bit_or-lt}
use space_emu.Base.Bytes.{length}
use space_emu.Clint.{clint_read, clint_write, clint_read_sub, clint_write_sub, write_mtimecmp_low}
use space_emu.Clint.{write_mtimecmp_high}
use space_emu.Cpu.{CpuState, set_mip, reset_mip, mip_meip, mip_seip, mip_mtip}
use space_emu.Device.{Reply}
use space_emu.Device.Laws.{read_words_keeps, write_words_keeps}
use space_emu.Htif.{Machine, htif_read, htif_write, htif_read_sub, htif_write_sub, htif_write_word}
use space_emu.Htif.{htif_cmd_handler, write_tohost_low, write_tohost_high, write_fromhost_low}
use space_emu.Htif.{write_fromhost_high, exit}
use space_emu.Plic.{plic_read, plic_write, plic_read_sub, plic_write_sub, plic_claim, plic_complete}
use space_emu.Plic.{update_mip, open_irqs}

-- `P` does not depend on what the devices of the board change; the new `mip` is within 32 bits if
-- the old one is.
pub record LinesKeep (P : CpuState → Type 0) : Type 0 where
  pub change :
      (s : CpuState) (m mtimecmp served tohost fromhost : ℕ) (down : Bool)
      → (s.mip < 2 ^ 32 → m < 2 ^ 32)
      → P s
      → P (record s {
        mip = m;
        mtimecmp = mtimecmp;
        plic_served_irq = served;
        htif_tohost = tohost;
        htif_fromhost = fromhost;
        power_down_flag = down;
      })

module _ {P : CpuState → Type 0} (keep : LinesKeep P) where
  update_mip-keeps : (s : CpuState) → P s → P (update_mip s)
  unfolding update_mip set_mip reset_mip
  update_mip-keeps s h =
      either P (open_irqs s != 0)
        (keep.change s _ _ _ _ _ _
          (λ lt. bit_or-lt 32 s.mip (bit_or mip_meip mip_seip) lt (omega arith)) h)
        (keep.change s _ _ _ _ _ _
          (λ lt. bit_and-lt 32 s.mip (lnot 32 (bit_or mip_meip mip_seip)) (omega arith)) h)

  plic_claim-keeps : (ctz32 : ℕ → ℕ) (s : CpuState) → P s → P (plic_claim ctz32 s).0
  unfolding plic_claim
  plic_claim-keeps ctz32 s h =
      either (λ (r : CpuState × ℕ). P r.0) (open_irqs s != 0)
        (update_mip-keeps _ (keep.change s _ _ _ _ _ _ (λ lt. lt) h)) h

  plic_complete-keeps : (s : CpuState) (value : ℕ) → P s → P (plic_complete s value)
  unfolding plic_complete
  plic_complete-keeps s value h =
      either P (ltb ((value + 2 ^ 32 - 1) % 2 ^ 32) 32)
        (update_mip-keeps _ (keep.change s _ _ _ _ _ _ (λ lt. lt) h)) h

  plic_read_sub-keeps :
      (ctz32 : ℕ → ℕ) (round : ℕ) (s : CpuState) (src : ℕ)
      → P s
      → P (plic_read_sub ctz32 round s src).0
  unfolding plic_read_sub
  plic_read_sub-keeps ctz32 round s src h =
      either (λ (r : CpuState × ℕ × ℕ). P r.0) (sub64 src 0x4010_0000 == 0x200004)
        (plic_claim-keeps ctz32 s h) h

  plic_write_sub-keeps : (s : CpuState) (value dst : ℕ) → P s → P (plic_write_sub s value dst).0
  unfolding plic_write_sub
  plic_write_sub-keeps s value dst h =
      either (λ (r : CpuState × ℕ). P r.0) (sub64 dst 0x4010_0000 == 0x200004)
        (plic_complete-keeps s value h) h

  clint_read_sub-keeps :
      (real : ℕ → ℕ) (round : ℕ) (s : CpuState) (src : ℕ)
      → P s
      → P (clint_read_sub real round s src).0
  unfolding clint_read_sub
  clint_read_sub-keeps real round s src h = h

  reset_mtip : (s : CpuState) → s.mip < 2 ^ 32 → (reset_mip s mip_mtip).mip < 2 ^ 32
  unfolding reset_mip
  reset_mtip s lt = bit_and-lt 32 s.mip (lnot 32 mip_mtip) (omega arith)

  clint_write_sub-keeps : (s : CpuState) (value dst : ℕ) → P s → P (clint_write_sub s value dst).0
  unfolding clint_write_sub switch write_mtimecmp_low write_mtimecmp_high reset_mip
  clint_write_sub-keeps s value dst h =
      either (λ (r : CpuState × ℕ). P r.0) (sub64 dst 0x0200_0000 == 0x4000)
        (keep.change s _ _ _ _ _ _ (reset_mtip s) h)
        (either (λ (r : CpuState × ℕ). P r.0) (sub64 dst 0x0200_0000 == 0x4004)
          (keep.change s _ _ _ _ _ _ (reset_mtip s) h) h)

  abbrev Kept : Machine → Type 0
  Kept m = P m.cpu

  sent :
      (m : Machine) (tohost fromhost : ℕ)
      → Kept m
      → P (record m.cpu { htif_tohost = tohost; htif_fromhost = fromhost })
  sent m tohost fromhost h = keep.change m.cpu _ _ _ _ _ _ (λ lt. lt) h

  htif_cmd_handler-keeps : (m : Machine) → Kept m → Kept (htif_cmd_handler m)
  unfolding htif_cmd_handler exit
  htif_cmd_handler-keeps m h =
      let tohost = m.cpu.htif_tohost in
      let device = u32 (tohost >>> 56) in
      let cmd = bit_and (u32 (tohost >>> 48)) 0xff in
      let answer = bit_or (u64 (device <<< 56)) (u64 (cmd <<< 48)) in
      elim (Bool-cases (tohost == 1)) [
        | inl a ↦ rw a h
        | inr a ↦ rw a (elim (Bool-cases (device == 1 && cmd == 1)) [
          | inl b ↦ rw b (sent m 0 answer h)
          | inr b ↦ rw b (elim (Bool-cases (device == 1 && cmd == 0)) [
            | inl c ↦ rw c (sent m 0 m.cpu.htif_fromhost h)
            | inr c ↦ rw c h
          ])
        ])
      ]

  write_tohost_low-keeps : (m : Machine) (value : ℕ) → Kept m → Kept (write_tohost_low m value)
  unfolding write_tohost_low exit
  write_tohost_low-keeps m value h =
      let tohost = bit_or (bit_and m.cpu.htif_tohost (lnot 32 0xffff_ffff)) value in
      let sent_low = sent m tohost m.cpu.htif_fromhost h in
      elim (Bool-cases (tohost == 1)) [ inl e ↦ rw e sent_low | inr e ↦ rw e sent_low ]

  write_tohost_high-keeps : (m : Machine) (value : ℕ) → Kept m → Kept (write_tohost_high m value)
  unfolding write_tohost_high
  write_tohost_high-keeps m value h =
      let tohost = bit_or (bit_and m.cpu.htif_tohost 0xffff_ffff) (u64 (value <<< 32)) in
      htif_cmd_handler-keeps (record m { cpu = record m.cpu { htif_tohost = tohost } })
        (sent m tohost m.cpu.htif_fromhost h)

  write_fromhost_low-keeps : (m : Machine) (value : ℕ) → Kept m → Kept (write_fromhost_low m value)
  unfolding write_fromhost_low
  write_fromhost_low-keeps m value h = sent m m.cpu.htif_tohost _ h

  write_fromhost_high-keeps :
      (m : Machine) (value : ℕ) → Kept m → Kept (write_fromhost_high m value)
  unfolding write_fromhost_high
  write_fromhost_high-keeps m value h = sent m m.cpu.htif_tohost _ h

  htif_write_word-keeps :
      (m : Machine) (value offset : ℕ) → Kept m → Kept (htif_write_word m value offset).0
  unfolding htif_write_word
  htif_write_word-keeps m value offset h =
      switch_all (λ (r : Machine × ℕ). Kept r.0) offset
        ((0, (write_tohost_low m value, 4))
          ∷ (4, (write_tohost_high m value, 4))
          ∷ (8, (write_fromhost_low m value, 4))
          ∷ (12, (write_fromhost_high m value, 4))
          ∷ [])
        (
          write_tohost_low-keeps m value h,
          (
            write_tohost_high-keeps m value h,
            (write_fromhost_low-keeps m value h, (write_fromhost_high-keeps m value h, tt)),
          ),
        )
        h

  htif_write_sub-keeps :
      (m : Machine) (value dst : ℕ) → Kept m → Kept (htif_write_sub m value dst).0
  unfolding htif_write_sub
  htif_write_sub-keeps m value dst h =
      elim m.exit_code
        as (λ o.
          Kept
            (elim o as (λ _. Machine × ℕ) [
              | none ↦ htif_write_word m value (sub64 dst 0x4000_8000)
              | some code ↦ (m, 4)
            ]).0) [ none ↦ htif_write_word-keeps m value (sub64 dst 0x4000_8000) h | some code ↦ h ]

  pub plic_read-keeps :
      (ctz32 : ℕ → ℕ) (s : CpuState) (src n : ℕ) → P s → P (plic_read ctz32 s src n).state
  unfolding plic_read
  plic_read-keeps ctz32 s src n h =
      read_words_keeps P (plic_read_sub ctz32) (plic_read_sub-keeps ctz32) s src n h

  pub plic_write-keeps :
      (s : CpuState) (src : List ℕ) (dst : ℕ) → P s → P (plic_write s src dst).state
  unfolding plic_write
  plic_write-keeps s src dst h = write_words_keeps P plic_write_sub plic_write_sub-keeps s src dst h

  pub clint_read-keeps :
      (real : ℕ → ℕ) (s : CpuState) (src n : ℕ) → P s → P (clint_read real s src n).state
  unfolding clint_read
  clint_read-keeps real s src n h =
      read_words_keeps P (clint_read_sub real) (clint_read_sub-keeps real) s src n h

  pub clint_write-keeps :
      (s : CpuState) (src : List ℕ) (dst : ℕ) → P s → P (clint_write s src dst).state
  unfolding clint_write
  clint_write-keeps s src dst h =
      write_words_keeps P clint_write_sub clint_write_sub-keeps s src dst h

  htif_read_sub-keeps :
      (round : ℕ) (m : Machine) (src : ℕ) → Kept m → Kept (htif_read_sub round m src).0
  unfolding htif_read_sub
  htif_read_sub-keeps round m src h = h

  pub htif_read-keeps : (m : Machine) (src n : ℕ) → Kept m → Kept (htif_read m src n).state
  unfolding htif_read
  htif_read-keeps m src n h =
      either (λ (r : Reply Machine). Kept r.state) (n != 4 && n != 8) h
        (read_words_keeps Kept htif_read_sub htif_read_sub-keeps m src n h)

  pub htif_write-keeps :
      (m : Machine) (src : List ℕ) (dst : ℕ) → Kept m → Kept (htif_write m src dst).state
  unfolding htif_write
  htif_write-keeps m src dst h =
      either (λ (r : Reply Machine). Kept r.state) (length src != 4 && length src != 8) h
        (write_words_keeps Kept htif_write_sub htif_write_sub-keeps m src dst h)
