-- ===== src/Csr/Random.antt =====
-- sim/verilator/tb_csr.cpp: section 20, and main as a whole.
use rv32i_core.Prelude.{
  ℕ, ◌+◌, ◌-◌, ◌^◌, List, [], ◌∷◌, true, ◌==◌, if◌then◌else◌, ◌|>◌, bit_and, update, get_or,
}
use rv32i_core.Word.{◌∣◌}
use rv32i_core.Tb.{Tb, tb_begin, tb_check, finish, rnd, rnd_range}
use rv32i_core.Tb.Loop.{for_loop}
use rv32i_core.Csr.{Csr, csr_mtvec, csr_mscratch, csr_mepc, csr_mcause}
use rv32i_core.Csr.Bench.{op_rw, op_rs, op_rc, rd, access, check_rd}
use rv32i_core.Csr.Directed.{opening}

abbrev pub rw_registers : List ℕ
rw_registers = csr_mtvec ∷ csr_mscratch ∷ csr_mepc ∷ csr_mcause ∷ []

-- rw[k], for k below 4.
abbrev pub register : ℕ → ℕ
register k = get_or rw_registers k csr_mcause

-- The bench and the array model[4].
pub record Shadowed : Type 0 where
  pub tb : Tb Csr
  pub model : ℕ → ℕ

-- model[i] = rd(rw[i]).
unfoldable pub resync : ℕ → Shadowed → Shadowed
resync i s = let (v, tb) = rd (register i) s.tb in record { tb = tb; model = update s.model i v }

-- The switch on op: the new value of model[k].
abbrev pub modelled : ℕ → ℕ → ℕ → ℕ
modelled op v old =
    if op == op_rw
    then v
    else if op == op_rs
    then old ∣ v
    else if op == op_rc
    then bit_and old (2 ^ 32 - 1 - v)
    else old

module _ (rng : ℕ → ℕ) where
  -- The two checks of a round whose numbers have been drawn.
  unfoldable pub check_round : ℕ → ℕ → ℕ → Tb Csr → (ℕ → ℕ) → Shadowed
  check_round k v op s model =
      let (got_old, s') = access (register k) op v true true s in
      let checked = tb_check got_old (model k) s' in
      let model' = update model k (modelled op v (model k)) in
      record { tb = check_rd (register k) (model' k) checked; model = model' }

  unfoldable pub round : ℕ → Shadowed → Shadowed
  unfolding rnd rnd_range check_round
  round i s =
      let (k, tb₁) = rnd_range rng 0 3 s.tb in
      let (v, tb₂) = rnd rng tb₁ in
      let (choice, tb₃) = rnd_range rng 0 2 tb₂ in check_round k v (op_rw + choice) tb₃ s.model

  -- main up to `return tb.finish()`.
  unfoldable pub run : Csr → Tb Csr
  run d =
      (record {
        tb = opening d |> tb_begin "20. random read/write against a shadow model";
        model = λ i. 0;
      }
        |> for_loop 4 0 resync
        |> for_loop 5000 0 round).tb

  unfoldable pub main : Csr → ℕ
  main d = finish (run d)
