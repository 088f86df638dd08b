-- ===== src/Instr/Keeps/LoadStore.antt =====
-- Loads, stores and the atomic instructions.
use space_emu.Base.{ℕ, either, switch_all, ◌==◌, ◌!=◌, bit_or, Option, some, none, List}
use space_emu.Base.Word.{add64, ◌>>>◌}
use space_emu.Alu.Helpers.{sext32}
use space_emu.Cpu.{CpuState}
use space_emu.Device.{Reply}
use space_emu.Instr.{Result, result, illegal, next_inst, write_reg, load, store}
use space_emu.Instr.Amo.{amo_w_value, amo_d_value, load_reserved, store_conditional}
use space_emu.Instr.Amo.{read_modify_write, atomic, op_amo}
use space_emu.Instr.LoadStore.{f32_high, sext8, sext16, set_float, op_store, op_load, op_fp_load}
use space_emu.Instr.LoadStore.{op_fp_store}
use space_emu.Instr.Fields.{rd, rs1, rs2, funct3, imm_i, imm_s}
use space_emu.Instr.Float.{Call}
use space_emu.Instr.Keeps.{Transfer, BusKeeps, Ends, write_reg-keeps, load-Ends, store-Ends}

module _ {softfp : Call → ℕ → ℕ × ℕ} {I F : CpuState → Type 0} (t : Transfer softfp I F) where
  pub set_float-keeps : (s : CpuState) (r value : ℕ) → F s → F (set_float s r value)
  unfolding set_float
  set_float-keeps s r value f = t.turn_on _ (t.to_fp s _ f)

module _ {M : Type 0} {read : CpuState × M → ℕ → ℕ → Reply (CpuState × M)}
    {write : CpuState × M → ℕ → List ℕ → Reply (CpuState × M)} {softfp : Call → ℕ → ℕ × ℕ}
    {I F : CpuState → Type 0} (t : Transfer softfp I F) (b : BusKeeps read write I) (s : CpuState)
    (m : M) (inst : ℕ) (i : I s) where
  abbrev EndsHere : Result M → Type 0
  EndsHere r = Ends I F r

  pub op_store-Ends : EndsHere (op_store read write s m inst)
  unfolding op_store
  op_store-Ends =
      let addr = add64 (s.regs (rs1 inst)) (imm_s inst) in
      let put : (size : ℕ)
          → EndsHere (
              store read write s m addr size (s.regs (rs2 inst))
                (λ s' m'. result next_inst s' m')) =
        λ size. store-Ends t b s m addr size _ _ i (λ s' m' i'. t.enter s' i') in
      switch_all EndsHere (funct3 inst) _ (put 1, (put 2, (put 4, (put 8, tt)))) i

  pub op_load-Ends : EndsHere (op_load read write s m inst)
  unfolding op_load
  op_load-Ends =
      let addr = add64 (s.regs (rs1 inst)) (imm_i inst) in
      let get : (size : ℕ) (convert : ℕ → ℕ)
          → EndsHere (
              load read write s m addr size
                (λ s' m' ret. result next_inst (write_reg s' (rd inst) (convert ret)) m')) =
        λ size convert.
          load-Ends t b s m addr size _ i
            (λ s' m' ret i'. write_reg-keeps t s' (rd inst) _ (t.enter s' i')) in
      switch_all EndsHere (funct3 inst) _
        (
          get 1 sext8,
          (
            get 2 sext16,
            (
              get 4 sext32,
              (get 1 (λ r. r), (get 2 (λ r. r), (get 8 (λ r. r), (get 4 (λ r. r), tt)))),
            ),
          ),
        )
        i

  pub op_fp_load-Ends : EndsHere (op_fp_load read write s m inst)
  unfolding op_fp_load
  op_fp_load-Ends =
      let addr = add64 (s.regs (rs1 inst)) (imm_i inst) in
      let get : (size high : ℕ)
          → EndsHere (
              load read write s m addr size
                (λ s' m' fret. result next_inst (set_float s' (rd inst) (bit_or fret high)) m')) =
        λ size high.
          load-Ends t b s m addr size _ i
            (λ s' m' ret i'. set_float-keeps t s' (rd inst) _ (t.enter s' i')) in
      either EndsHere (s.fs == 0) i
        (switch_all EndsHere (funct3 inst) _ (get 4 f32_high, (get 8 0, tt)) i)

  pub op_fp_store-Ends : EndsHere (op_fp_store read write s m inst)
  unfolding op_fp_store
  op_fp_store-Ends =
      let addr = add64 (s.regs (rs1 inst)) (imm_s inst) in
      let put : (size : ℕ)
          → EndsHere (
              store read write s m addr size (s.fp_reg (rs2 inst))
                (λ s' m'. result next_inst s' m')) =
        λ size. store-Ends t b s m addr size _ _ i (λ s' m' i'. t.enter s' i') in
      either EndsHere (s.fs == 0) i (switch_all EndsHere (funct3 inst) _ (put 4, (put 8, tt)) i)

  module _ (size : ℕ) (convert : ℕ → ℕ) where
    load_reserved-Ends : EndsHere (load_reserved read write s m inst size convert)
    unfolding load_reserved
    load_reserved-Ends = either EndsHere (rs2 inst != 0) i (
        load-Ends t b s m _ size _ i
          (λ s' m' ret i'. write_reg-keeps t _ (rd inst) _ (t.reserve s' _ (t.enter s' i'))))

    store_conditional-Ends : EndsHere (store_conditional read write s m inst size convert)
    unfolding store_conditional
    store_conditional-Ends =
        either EndsHere (s.load_res == s.regs (rs1 inst))
          (store-Ends t b s m _ size _ _ i
            (λ s' m' i'. write_reg-keeps t _ (rd inst) _ (t.reserve s' _ (t.enter s' i'))))
          (write_reg-keeps t s (rd inst) _ (t.enter s i))

    read_modify_write-Ends :
        (update : ℕ → ℕ) → EndsHere (read_modify_write read write s m inst size convert update)
    unfolding read_modify_write
    read_modify_write-Ends update = load-Ends t b s m _ size _ i (λ s' m' ret i'.
        store-Ends t b s' m' _ size _ _ i'
          (λ s'' m'' i''. write_reg-keeps t s'' (rd inst) _ (t.enter s'' i'')))

    atomic-Ends :
        (value_of : ℕ → ℕ → Option ℕ) → EndsHere (atomic read write s m inst size convert value_of)
    unfolding atomic
    atomic-Ends value_of =
        let val2 = s.regs (rs2 inst) in
        let update : ℕ → ℕ = λ value. elim (value_of value val2) [ none ↦ val2 | some w ↦ w ] in
        either EndsHere (inst >>> 27 == 2) load_reserved-Ends (
          either EndsHere (inst >>> 27 == 3) store_conditional-Ends
            (elim (value_of 0 0)
              as (λ o. EndsHere (elim o [
                | none ↦ illegal s m
                | some v ↦ read_modify_write read write s m inst size convert update
              ])) [ none ↦ i | some v ↦ read_modify_write-Ends update ]))

  pub op_amo-Ends : EndsHere (op_amo read write s m inst)
  unfolding op_amo
  op_amo-Ends =
      switch_all EndsHere (funct3 inst) _
        (
          atomic-Ends 4 sext32 (amo_w_value (inst >>> 27)),
          (atomic-Ends 8 (λ r. r) (amo_d_value (inst >>> 27)), tt),
        )
        i
