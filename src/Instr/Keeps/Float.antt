-- ===== src/Instr/Keeps/Float.antt =====
-- The floating-point instructions.
use space_emu.Base.{switch, [], ◌∷◌, ℕ, Bool, true, false, either, switch_all, ◌==◌, ◌!=◌, bit_and}
use space_emu.Base.{if◌then◌else◌, Option, some, none}
use space_emu.Base.Word.{◌>>>◌}
use space_emu.Alu.Helpers.{sext32}
use space_emu.Cpu.{CpuState}
use space_emu.Instr.{write_reg}
use space_emu.Instr.Fields.{rd, rs1, rs2, funct7}
use space_emu.Instr.Float.{Call, fma_sf, arg, negated, to_float, to_int, get_inst_rm, inject_sign}
use space_emu.Instr.Float.{op_fp_fused, fp_sign, fp_min_max}
use space_emu.Instr.Float.{fp_compare, fp_to_integer, fp_from_integer, fp_inspect, fp_move, fp_sqrt}
use space_emu.Instr.Float.{fp_normal_cases, op_fp_normal}
use space_emu.Instr.LoadStore.{set_float}
use space_emu.Instr.Keeps.{Transfer, write_reg-keeps}
use space_emu.Instr.Keeps.LoadStore.{set_float-keeps}

-- The state, if there is one, has `F`.
abbrev pub Holds : (CpuState → Type 0) → Option CpuState → Type 0
Holds F none = Unit
Holds F (some s) = F s

module _ {softfp : Call → ℕ → ℕ × ℕ} {I F : CpuState → Type 0} (t : Transfer softfp I F)
    (s : CpuState) (inst : ℕ) (f : F s) where
  abbrev HoldsHere : Option CpuState → Type 0
  HoldsHere o = Holds F o

  to_float-keeps :
      (turns_on wide : Bool) (call : Call) → F (to_float softfp s inst turns_on wide call)
  unfolding to_float set_float
  to_float-keeps true wide call = t.turn_on _ (t.to_fp _ _ (t.flags s call f))
  to_float-keeps false wide call = t.to_fp _ _ (t.flags s call f)

  to_int-keeps : (convert : ℕ → ℕ) (call : Call) → F (to_int softfp s inst convert call)
  unfolding to_int
  to_int-keeps convert call = write_reg-keeps t _ (rd inst) _ (t.flags s call f)

  same : (call : Call) → F (to_int softfp s inst (λ v. v) call)
  same call = to_int-keeps (λ v. v) call

  pub op_fp_fused-Holds : (p q : Bool) → HoldsHere (op_fp_fused softfp s inst p q)
  unfolding op_fp_fused
  op_fp_fused-Holds p q =
      either HoldsHere (s.fs == 0) tt (go (get_inst_rm s (bit_and (inst >>> 12) 7)))
    where
      fused : ℕ → Bool → CpuState
      fused rm wide = to_float softfp s inst true wide (
          fma_sf wide (negated softfp s inst wide p (arg softfp s inst wide (rs1 inst)))
            (arg softfp s inst wide (rs2 inst))
            (negated softfp s inst wide q (arg softfp s inst wide (inst >>> 27))) rm)

      go :
          (o : Option ℕ)
          → HoldsHere (elim o [
            | none ↦ none
            | some rm ↦
                switch
                  (bit_and (inst >>> 25) 3)
                  ((0, some (fused rm false)) ∷ (1, some (fused rm true)) ∷ [])
                  none
          ])
      go none = tt
      go (some rm) =
          switch_all HoldsHere (bit_and (inst >>> 25) 3) _
            (to_float-keeps true false _, (to_float-keeps true true _, tt)) tt

  some_if-Holds : (c : Bool) (s' : CpuState) → F s' → HoldsHere (if c then some s' else none)
  some_if-Holds c s' h = either HoldsHere c h tt

  fp_sign-Holds : (wide : Bool) (rm : ℕ) → HoldsHere (fp_sign softfp s inst wide rm)
  unfolding fp_sign
  fp_sign-Holds wide rm =
      elim (inject_sign wide rm (s.fp_reg (rs1 inst)) (s.fp_reg (rs2 inst)))
        as (λ o.
          HoldsHere (elim o [ none ↦ none | some value ↦ some (set_float s (rd inst) value) ])) [
            | none ↦ tt
            | some value ↦ set_float-keeps t s (rd inst) value f
          ]

  fp_min_max-Holds : (wide : Bool) (rm : ℕ) → HoldsHere (fp_min_max softfp s inst wide rm)
  unfolding fp_min_max
  fp_min_max-Holds wide rm =
      switch_all HoldsHere rm _ (to_float-keeps true wide _, (to_float-keeps true wide _, tt)) tt

  fp_compare-Holds : (wide : Bool) (rm : ℕ) → HoldsHere (fp_compare softfp s inst wide rm)
  unfolding fp_compare
  fp_compare-Holds wide rm = switch_all HoldsHere rm _ (same _, (same _, (same _, tt))) tt

  fp_to_integer-Holds : (wide : Bool) (rm : ℕ) → HoldsHere (fp_to_integer softfp s inst wide rm)
  unfolding fp_to_integer
  fp_to_integer-Holds wide rm =
      switch_all HoldsHere (rs2 inst) _
        (to_int-keeps sext32 _, (to_int-keeps sext32 _, (same _, (same _, tt)))) tt

  fp_from_integer-Holds : (wide : Bool) (rm : ℕ) → HoldsHere (fp_from_integer softfp s inst wide rm)
  unfolding fp_from_integer
  fp_from_integer-Holds wide rm =
      let put : (call : Call) → F (to_float softfp s inst true wide call) =
        λ call. to_float-keeps true wide call in
      switch_all HoldsHere (rs2 inst) _ (put _, (put _, (put _, (put _, tt)))) tt

  fp_inspect-Holds : (wide : Bool) (rm : ℕ) → HoldsHere (fp_inspect softfp s inst wide rm)
  unfolding fp_inspect
  fp_inspect-Holds wide rm =
      let put : (value : ℕ) → F (write_reg s (rd inst) value) =
        λ value. write_reg-keeps t s (rd inst) value f in
      either HoldsHere (rs2 inst != 0) tt (switch_all HoldsHere rm _ (put _, (put _, tt)) tt)

  fp_move-Holds : (wide : Bool) → HoldsHere (fp_move softfp s inst wide)
  unfolding fp_move
  fp_move-Holds wide =
      either HoldsHere (rs2 inst != 0) tt
        (either HoldsHere (bit_and (inst >>> 12) 7 != 0) tt (set_float-keeps t s (rd inst) _ f))

  fp_sqrt-Holds : (wide : Bool) (rm : ℕ) → HoldsHere (fp_sqrt softfp s inst wide rm)
  unfolding fp_sqrt
  fp_sqrt-Holds wide rm = some_if-Holds (rs2 inst == 0) _ (to_float-keeps true wide _)

  fp_normal_cases-Holds : (rm : ℕ) → HoldsHere (fp_normal_cases softfp s inst rm)
  unfolding fp_normal_cases
  fp_normal_cases-Holds rm =
      let single : (call : Call) → F (to_float softfp s inst true false call) =
        λ call. to_float-keeps true false call in
      let double : (call : Call) → F (to_float softfp s inst true true call) =
        λ call. to_float-keeps true true call in
      switch_all HoldsHere (funct7 inst) _
        (
          single _,
          (
            double _,
            (
              single _,
              (
                double _,
                (
                  single _,
                  (
                    double _,
                    (
                      single _,
                      (
                        double _,
                        (
                          fp_sqrt-Holds false rm,
                          (
                            fp_sqrt-Holds true rm,
                            (
                              fp_sign-Holds false rm,
                              (
                                fp_sign-Holds true rm,
                                (
                                  fp_min_max-Holds false rm,
                                  (
                                    fp_min_max-Holds true rm,
                                    (
                                      some_if-Holds _ _ (to_float-keeps false false _),
                                      (
                                        some_if-Holds _ _ (to_float-keeps false true _),
                                        (
                                          fp_to_integer-Holds false rm,
                                          (
                                            fp_to_integer-Holds true rm,
                                            (
                                              fp_inspect-Holds false rm,
                                              (
                                                fp_inspect-Holds true rm,
                                                (
                                                  fp_compare-Holds false rm,
                                                  (
                                                    fp_compare-Holds true rm,
                                                    (
                                                      fp_from_integer-Holds false rm,
                                                      (
                                                        fp_from_integer-Holds true rm,
                                                        (
                                                          fp_move-Holds false,
                                                          (fp_move-Holds true, tt),
                                                        ),
                                                      ),
                                                    ),
                                                  ),
                                                ),
                                              ),
                                            ),
                                          ),
                                        ),
                                      ),
                                    ),
                                  ),
                                ),
                              ),
                            ),
                          ),
                        ),
                      ),
                    ),
                  ),
                ),
              ),
            ),
          ),
        )
        tt

  pub op_fp_normal-Holds : HoldsHere (op_fp_normal softfp s inst)
  unfolding op_fp_normal
  op_fp_normal-Holds =
      either HoldsHere (s.fs == 0) tt (go (get_inst_rm s (bit_and (inst >>> 12) 7)))
    where
      go :
          (o : Option ℕ)
          → HoldsHere (elim o [ none ↦ none | some rm ↦ fp_normal_cases softfp s inst rm ])
      go none = tt
      go (some rm) = fp_normal_cases-Holds rm
