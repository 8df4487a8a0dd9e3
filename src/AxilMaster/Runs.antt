-- ===== src/AxilMaster/Runs.antt =====
-- sim/verilator/tb_axil_master.cpp: main as a whole.
use rv32i_core.Prelude.{ℕ, ◌+◌, ◌≡◌, refl, ap, ◌∙◌, arith, some}
use rv32i_core.Tb.Report.{finish_passed}
use rv32i_core.AxilMaster.{AxilMaster}
use rv32i_core.AxilMaster.Bench.{Bench, continue}
use rv32i_core.AxilMaster.Crossing.{section_9-Ends, section_10-Ends}
use rv32i_core.AxilMaster.CrossingHalf.{section_11-Ends}
use rv32i_core.AxilMaster.Directed.{opened, opening_runs}
use rv32i_core.AxilMaster.Keeps.{HasBytes}
use rv32i_core.AxilMaster.Logic.{Ghost, Stands, Ends, Ends-seq}
use rv32i_core.AxilMaster.Opening.{opened-HasBytes}
use rv32i_core.AxilMaster.Random.{later, run, exit_status, main}
use rv32i_core.AxilMaster.Rounds.{IsSynced, section_8-Ends, section_12-Ends}

-- Sections 8 to 12 keep the array in step with the memory, and make 6009 checks.
later-Ends :
    (rng : ℕ → ℕ) (n : ℕ) (g : Ghost)
    → g.checks ≡ n
    → HasBytes g.mem
    → Ends g (later rng) (IsSynced (n + 3000 + 3 + 3 + 3 + 3000))
unfolding later
later-Ends rng n g count bytes = Ends-seq (section_8-Ends rng n g count bytes) λ g₁ h₁.
    Ends-seq (section_9-Ends rng (n + 3000) g₁ h₁) λ g₂ h₂.
      Ends-seq (section_10-Ends rng (n + 3000 + 3) g₂ h₂) λ g₃ h₃.
        Ends-seq (section_11-Ends (n + 3000 + 3 + 3) g₃ h₃)
          λ g₄ h₄. section_12-Ends rng (n + 3000 + 3 + 3 + 3) g₄ h₄

-- Whatever the registers hold before the reset and whatever numbers the generator delivers, every
-- transaction of the bench ends within its fuel, the bench makes its 6038 checks, none of them
-- fails, and it exits with status 0.
pub axil_master_run_passes :
    (rng : ℕ → ℕ) (d : AxilMaster)
    → (s : Bench) × (run rng d ≡ some (tt, s))
      × (s.sys.tb.checks ≡ 6038)
      × (s.sys.tb.fails ≡ 0)
      × (main rng d ≡ some 0)
unfolding run main
axil_master_run_passes rng d =
    let (opens, clean, count, quiet) = opening_runs d in
    let g : Ghost = record {
      mem = (opened d).sys.slave.mem;
      model = (opened d).model;
      checks = 29;
    } in
    let stands : Stands g (opened d) = record {
      quiet = quiet;
      mem_is = refl;
      model_is = refl;
      clean = clean;
      count = count;
    } in
    let (_, s, g', rest, after, synced) =
      later-Ends rng 29 g refl (opened-HasBytes d) (opened d) stands in
    let runs : run rng d ≡ some (tt, s) = ap (continue (λ _. later rng)) opens ∙ rest in
    (
      s,
      runs,
      omega (arith, after.count, synced.count),
      after.clean,
      ap exit_status runs ∙ ap some (finish_passed s.sys.tb after.clean),
    )
