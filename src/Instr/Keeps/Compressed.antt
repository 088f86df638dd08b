-- ===== src/Instr/Keeps/Compressed.antt =====
-- The compressed instructions.
use space_emu.Base.{ℕ, ◌≡◌, ◌≢◌, refl, arith, Bool, true, not, either, switch_all, ◌==◌, bit_and}
use space_emu.Base.{bit_or, List, ap}
use space_emu.Base.Bits.{has_bit, has_bit-bit_or, has_bit_zero}
use space_emu.Base.Word.{◌>>>◌}
use space_emu.Cpu.{CpuState}
use space_emu.Device.{Reply}
use space_emu.Instr.{Result, set_reg, write_reg}
use space_emu.Instr.Compressed.{high_reg, c_funct3}
use space_emu.Instr.Compressed.Quadrant0.{quadrant0, c_addi4spn, c_fld, c_lw, c_ld, c_fsd, c_sw}
use space_emu.Instr.Compressed.Quadrant0.{c_sd, imm_addi4spn}
use space_emu.Instr.Compressed.Quadrant1.{quadrant1, c_addi16sp, c_arith, c_misc_alu, c_branch}
use space_emu.Instr.Compressed.Quadrant1.{imm_addi16sp}
use space_emu.Instr.Compressed.Quadrant2.{quadrant2, c_slli, c_fldsp, c_lwsp, c_ldsp, c_jump}
use space_emu.Instr.Compressed.Quadrant2.{c_jump_and_link, c_register, c_fsdsp, c_swsp, c_sdsp}
use space_emu.Instr.Compressed.Quadrant2.{c_rs2}
use space_emu.Instr.Fields.{◌|||◌, rd}
use space_emu.Instr.Float.{Call}
use space_emu.Instr.Keeps.{Transfer, BusKeeps, Ends, write_reg-keeps, load-Ends, store-Ends}
use space_emu.Instr.Keeps.LoadStore.{set_float-keeps}
use space_emu.Instr.Keeps.System.{goto_exception-Ends}

-- A short register is not x0.
bit_or-8 : (a : ℕ) → bit_or a 8 ≢ 0
bit_or-8 a e =
    let eight : has_bit 8 3 ≡ true = unfold has_bit in refl in
    absurd (ground (arith, eight, has_bit-bit_or a 8 3, ap (λ x. has_bit x 3) e, has_bit_zero 3))

module _ {M : Type 0} {read : CpuState × M → ℕ → ℕ → Reply (CpuState × M)}
    {write : CpuState × M → ℕ → List ℕ → Reply (CpuState × M)} {softfp : Call → ℕ → ℕ × ℕ}
    {I F : CpuState → Type 0} (t : Transfer softfp I F) (b : BusKeeps read write I) (s : CpuState)
    (m : M) (inst : ℕ) (i : I s) where
  abbrev EndsHere : Result M → Type 0
  EndsHere r = Ends I F r

  to_short : (s' : CpuState) (a value : ℕ) → I s' → F (set_reg s' (bit_or a 8) value)
  to_short s' a value i' = t.to_reg s' _ value (bit_or-8 a) (t.enter s' i')

  -- A read that ends in a full register, a short one or a float register, and a write.
  pub quadrant0-Ends : EndsHere (quadrant0 read write s m inst)
  unfolding quadrant0 c_addi4spn c_fld c_lw c_ld c_fsd c_sw c_sd
  quadrant0-Ends =
      switch_all EndsHere (c_funct3 inst) _
        (
          either EndsHere (imm_addi4spn inst == 0) i (to_short s _ _ i),
          (
            either EndsHere (s.fs == 0) i (
                load-Ends t b s m _ 8 _ i (λ s' m' v i'. set_float-keeps t s' _ _ (t.enter s' i'))),
            (
              load-Ends t b s m _ 4 _ i (λ s' m' v i'. to_short s' _ _ i'),
              (
                load-Ends t b s m _ 8 _ i (λ s' m' v i'. to_short s' _ _ i'),
                (
                  either EndsHere (s.fs == 0) i
                      (store-Ends t b s m _ 8 _ _ i (λ s' m' i'. t.enter s' i')),
                  (
                    store-Ends t b s m _ 4 _ _ i (λ s' m' i'. t.enter s' i'),
                    (store-Ends t b s m _ 8 _ _ i (λ s' m' i'. t.enter s' i'), tt),
                  ),
                ),
              ),
            ),
          ),
        )
        i

  c_arith-Ends : EndsHere (c_arith s m inst)
  unfolding c_arith
  c_arith-Ends =
      let put : (value : ℕ) → F (set_reg s (high_reg inst) value) = λ value. to_short s _ value i in
      switch_all EndsHere (bit_and (inst >>> 5) 3 ||| bit_and (inst >>> 10) 4) _
        (put _, (put _, (put _, (put _, (put _, (put _, tt)))))) i

  c_misc_alu-Ends : EndsHere (c_misc_alu s m inst)
  unfolding c_misc_alu
  c_misc_alu-Ends =
      let put : (value : ℕ) → F (set_reg s (high_reg inst) value) = λ value. to_short s _ value i in
      switch_all EndsHere (bit_and (inst >>> 10) 3) _ (put _, (put _, (put _, (c_arith-Ends, tt))))
        (t.enter s i)

  c_branch-Ends : (taken : Bool) → EndsHere (c_branch s m inst taken)
  unfolding c_branch
  c_branch-Ends taken = either EndsHere taken (t.to_pc s _ (t.enter s i)) (t.enter s i)

  c_addi16sp-Ends : EndsHere (c_addi16sp s m inst)
  unfolding c_addi16sp
  c_addi16sp-Ends =
      either EndsHere (imm_addi16sp inst == 0) i (t.to_reg s 2 _ (omega arith) (t.enter s i))

  pub quadrant1-Ends : EndsHere (quadrant1 s m inst)
  unfolding quadrant1
  quadrant1-Ends =
      let put : (value : ℕ) → F (write_reg s (rd inst) value) =
        λ value. write_reg-keeps t s (rd inst) value (t.enter s i) in
      let zero_reg = s.regs (high_reg inst) == 0 in
      switch_all EndsHere (c_funct3 inst) _
        (
          put _,
          (
            put _,
            (
              put _,
              (
                either EndsHere (rd inst == 2) c_addi16sp-Ends (put _),
                (
                  c_misc_alu-Ends,
                  (
                    t.to_pc s _ (t.enter s i),
                    (c_branch-Ends zero_reg, (c_branch-Ends (not zero_reg), tt)),
                  ),
                ),
              ),
            ),
          ),
        )
        i

  c_register-Ends : EndsHere (c_register read write s m inst)
  unfolding c_register c_jump c_jump_and_link
  c_register-Ends =
      let put : (value : ℕ) → F (write_reg s (rd inst) value) =
        λ value. write_reg-keeps t s (rd inst) value (t.enter s i) in
      either EndsHere (bit_and (inst >>> 12) 1 == 0)
        (either EndsHere (c_rs2 inst == 0)
          (either EndsHere (rd inst == 0) i (t.to_pc s _ (t.enter s i))) (put _))
        (either EndsHere (c_rs2 inst == 0)
          (either EndsHere (rd inst == 0) (goto_exception-Ends t s m 3 i)
            (t.to_reg _ 1 _ (omega arith) (t.to_pc s _ (t.enter s i))))
          (put _))

  pub quadrant2-Ends : EndsHere (quadrant2 read write s m inst)
  unfolding quadrant2 c_slli c_fldsp c_lwsp c_ldsp c_fsdsp c_swsp c_sdsp
  quadrant2-Ends =
      let put : (s' : CpuState) (value : ℕ) → I s' → F (write_reg s' (rd inst) value) =
        λ s' value i'. write_reg-keeps t s' (rd inst) value (t.enter s' i') in
      switch_all EndsHere (c_funct3 inst) _
        (
          put s _ i,
          (
            either EndsHere (s.fs == 0) i (
                load-Ends t b s m _ 8 _ i (λ s' m' v i'. set_float-keeps t s' _ _ (t.enter s' i'))),
            (
              load-Ends t b s m _ 4 _ i (λ s' m' v i'. put s' _ i'),
              (
                load-Ends t b s m _ 8 _ i (λ s' m' v i'. put s' _ i'),
                (
                  c_register-Ends,
                  (
                    either EndsHere (s.fs == 0) i
                        (store-Ends t b s m _ 8 _ _ i (λ s' m' i'. t.enter s' i')),
                    (
                      store-Ends t b s m _ 4 _ _ i (λ s' m' i'. t.enter s' i'),
                      (store-Ends t b s m _ 8 _ _ i (λ s' m' i'. t.enter s' i'), tt),
                    ),
                  ),
                ),
              ),
            ),
          ),
        )
        i
