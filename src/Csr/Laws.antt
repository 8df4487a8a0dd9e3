-- ===== src/Csr/Laws.antt =====
-- The CSR file against the shadow model of its bench, and the bench as a whole.
use rv32i_core.Prelude.{
  ℕ, zero, suc, ◌+◌, ◌<◌, ◌≡◌, refl, sym, ◌∙◌, true, false, arith, ◌==◌, if◌then◌else◌, update,
}
use rv32i_core.Tb.{Tb, tb_begin, tb_check, rnd, rnd_range}
use rv32i_core.Tb.Report.{tb_check-Passed, Passed, for_loop-Passed, finish_passed}
use rv32i_core.Tb.Loop.{for_loop, for_loop_inv}
use rv32i_core.Csr.{Csr, csr_mtvec, csr_mscratch, csr_mepc, csr_mcause}
use rv32i_core.Csr.Bench.{op_rw, rd, access, check_rd}
use rv32i_core.Csr.Directed.{opening}
use rv32i_core.Csr.Random.{register, Shadowed, resync, modelled, check_round, round, run, main}

opening_passed : (d : Csr) → ((opening d).fails ≡ 0) × ((opening d).checks ≡ 78)
unfolding opening
opening_passed d = (refl, refl)

-- The k-th of the four plain registers.
abbrev stored : ℕ → Csr → ℕ
stored k d =
    if k == 0 then d.mtvec else if k == 1 then d.mscratch else if k == 2 then d.mepc else d.mcause

abbrev SameRegisters : Csr → Csr → Type 0
SameRegisters d d' =
    (d.mtvec ≡ d'.mtvec) × (d.mscratch ≡ d'.mscratch) × (d.mepc ≡ d'.mepc) × (d.mcause ≡ d'.mcause)

-- No reset, no stall, no trap and no return is going on.
record IsIdle (d : Csr) : Type 0 where
  running : d.rst_n ≡ true
  moving : d.bus_stall ≡ false
  no_trap : d.trap ≡ false
  no_mret : d.is_mret ≡ false

opening-IsIdle : (d : Csr) → IsIdle (opening d).dut
unfolding opening
opening-IsIdle d = record { running = refl; moving = refl; no_trap = refl; no_mret = refl }

-- rw[k] by cases, for the tactics.
register_cases :
    (k : ℕ)
    → k < 4
    → register k ≡ (
        if k == 0
        then csr_mtvec
        else if k == 1
        then csr_mscratch
        else if k == 2
        then csr_mepc
        else csr_mcause)
register_cases zero h = refl
register_cases (suc zero) h = refl
register_cases (suc (suc zero)) h = refl
register_cases (suc (suc (suc zero))) h = refl
register_cases (suc (suc (suc (suc k)))) h = absurd (omega arith)

-- A read finds the register and changes none.
rd-register :
    (k : ℕ) (s : Tb Csr)
    → k < 4
    → IsIdle s.dut
    → ((rd (register k) s).0 ≡ stored k s.dut)
      × IsIdle (rd (register k) s).1.dut
      × Passed 0 s (rd (register k) s).1
      × SameRegisters (rd (register k) s).1.dut s.dut
unfolding rd
rd-register k s small h = rw (register_cases k small) ground arith

-- An access finds the register and changes it alone, as the model does.
access-register :
    (k op v : ℕ) (s : Tb Csr)
    → k < 4
    → IsIdle s.dut
    → let (old, s') = access (register k) op v true true s in
      (old ≡ stored k s.dut)
      × IsIdle s'.dut
      × Passed 0 s s'
      × ((j : ℕ)
          → j < 4
          → stored j s'.dut ≡ (if j == k then modelled op v (stored k s.dut) else stored j s.dut))
unfolding access
access-register k op v s small h =
    rw (register_cases k small) (ground arith, ground arith, ground arith, λ j below. ground arith)

-- The model holds what the four registers store.
record IsSynced (s : Shadowed) : Type 0 where
  idle : IsIdle s.tb.dut
  agrees : (j : ℕ) → j < 4 → s.model j ≡ stored j s.tb.dut

-- A read that the model foresees passes its check.
check_rd-Passed :
    (k want : ℕ) (s : Tb Csr)
    → k < 4
    → IsIdle s.dut
    → want ≡ stored k s.dut
    → let s' = check_rd (register k) want s in
      Passed 1 s s' × IsIdle s'.dut × SameRegisters s'.dut s.dut
check_rd-Passed k want s small h e =
    let (value, idle, passed, same) = rd-register k s small h in
    let (got, after) = rd (register k) s in
    let (checked, dut) = tb_check-Passed got want after (value ∙ sym e) in
    (omega arith, rw dut idle, rw dut same)

module _ (rng : ℕ → ℕ) where
  check_round-IsSynced :
      (k v op : ℕ) (s : Tb Csr) (model : ℕ → ℕ)
      → k < 4
      → IsSynced (record { tb = s; model = model })
      → IsSynced (check_round rng k v op s model) × Passed 2 s (check_round rng k v op s model).tb
  unfolding check_round
  check_round-IsSynced k v op s model small h =
      let (old, idle, passed, kept) = access-register k op v s small h.idle in
      let (got, after) = access (register k) op v true true s in
      let model' = update model k (modelled op v (model k)) in
      let (checked, dut) = tb_check-Passed got (model k) after (old ∙ sym (h.agrees k small)) in
      let written : (j : ℕ) → j < 4 → model' j ≡ stored j after.dut =
        λ j below. ground (arith, kept j below, h.agrees k small, h.agrees j below) in
      let (last, idle', same) =
        check_rd-Passed k (model' k) (tb_check got (model k) after) small (rw dut idle)
          (rw dut (written k small)) in
      (record { idle = idle'; agrees = λ j below. ground (arith, written j below) }, omega arith)

  round-IsSynced :
      (i : ℕ) (s : Shadowed)
      → IsSynced s
      → IsSynced (round rng i s) × Passed 2 s.tb (round rng i s).tb
  unfolding round
  round-IsSynced i s h =
      let (k, tb₁) = rnd_range rng 0 3 s.tb in
      let (v, tb₂) = rnd rng tb₁ in
      let (choice, tb₃) = rnd_range rng 0 2 tb₂ in
      check_round-IsSynced k v (op_rw + choice) tb₃ s.model (omega arith)
        (record { idle = h.idle; agrees = h.agrees })

-- Before round i of the resynchronisation the model holds the registers below i.
record IsResynced (start : Tb Csr) (i : ℕ) (s : Shadowed) : Type 0 where
  idle : IsIdle s.tb.dut
  agrees : (j : ℕ) → j < i → s.model j ≡ stored j s.tb.dut
  passed : Passed 0 start s.tb

resync-IsResynced :
    (start : Tb Csr) (i : ℕ) (s : Shadowed)
    → i < 4
    → IsResynced start i s
    → IsResynced start (i + 1) (resync i s)
unfolding resync
resync-IsResynced start i s small h =
    let (value, idle, passed, same) = rd-register i s.tb small h.idle in
    record {
      idle = idle;
      agrees = λ j below. ground (arith, value, h.agrees j);
      passed = omega (arith, passed, h.passed);
    }

module _ (d : Csr) where
  abbrev section_20 : Tb Csr
  section_20 = tb_begin "20. random read/write against a shadow model" (opening d)

  resynced :
      IsResynced section_20 4 (for_loop 4 0 resync (record { tb = section_20; model = λ i. 0 }))
  unfolding tb_begin
  resynced =
      for_loop_inv resync (λ i s. i < 5 → IsResynced section_20 i s)
        (λ i s h below. resync-IsResynced section_20 i s (omega arith) (h (omega arith))) 0 4
        (record { tb = section_20; model = λ i. 0 })
        (λ below. record {
          idle = opening-IsIdle d;
          agrees = λ j none_yet. absurd (omega arith);
          passed = omega arith;
        })
        (omega arith)

  -- Whatever the registers hold before the reset and whatever numbers the generator delivers, the
  -- bench makes its 10078 checks of the CSR file, none of them fails, and it exits with status 0.
  pub csr_run_passes :
      (rng : ℕ → ℕ) → ((run rng d).checks ≡ 10078) × ((run rng d).fails ≡ 0) × (main rng d ≡ 0)
  unfolding run main tb_begin
  csr_run_passes rng =
      let synced = for_loop 4 0 resync (record { tb = section_20; model = λ i. 0 }) in
      let (_, passed) =
        for_loop-Passed (λ s. s.tb) IsSynced 2 (round rng) (round-IsSynced rng) 5000 0 synced
          (record { idle = resynced.idle; agrees = resynced.agrees }) in
      let clean : (run rng d).fails ≡ 0 = omega (arith, opening_passed d, resynced.passed) in
      (omega (arith, opening_passed d, resynced.passed), clean, finish_passed (run rng d) clean)
