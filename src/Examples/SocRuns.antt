-- ===== src/Examples/SocRuns.antt =====
-- The theorems on the loop of the system bench at a counter in place of the system on chip.
use rv32i_core.Prelude.{
  ℕ, zero, suc, ◌+◌, ◌<◌, ◌≡◌, refl, true, false, arith, ◌==◌, if◌then◌else◌, Bool,
}
use rv32i_core.SocBench.{Design, max_cycles, run, main, is_exit}
use rv32i_core.SocBench.Laws.{started, after, trace, soc_run_exits, soc_run_times_out}

-- It counts the cycles since the reset, and may store to address 16 in the fifth.
abbrev counter : Bool → Design ℕ
counter stores = record {
  eval = λ n. n;
  posedge = λ n. n + 1;
  hold_reset = λ n. 0;
  release_reset = λ n. n;
  trace_trap = λ n. n == 3;
  trace_we = λ n. n == 2;
  trace_pc = λ n. n;
  trace_instr = λ n. 0x13;
  trace_rd = λ n. 1;
  trace_wdata = λ n. n;
  trace_mem_we = λ n. if stores then n == 5 else false;
  trace_mem_addr = λ n. 16;
  trace_mem_wdata = λ n. 1;
}

no_store_before :
    (m : ℕ)
    → m < 3
    → is_exit (counter true) 16 (after (counter true) 16 m (started (counter true) 16 9)) ≡ false
no_store_before zero h = refl
no_store_before (suc zero) h = refl
no_store_before (suc (suc zero)) h = refl
no_store_before (suc (suc (suc m))) h = absurd (omega arith)

soc_run_exits_example :
    (main (counter true) 16 true 9 ≡ 0)
    × ((run (counter true) 16 9).cycles ≡ 3)
    × ((run (counter true) 16 9).csv ≡ trace (counter true) 16 4 (started (counter true) 16 9))
soc_run_exits_example = soc_run_exits (counter true) 16 3 9 (omega arith) no_store_before refl

soc_run_times_out_example :
    (main (counter false) 16 true 9 ≡ 1)
    × ((run (counter false) 16 9).cycles ≡ 200000)
    × ((run (counter false) 16 9).csv
        ≡ trace (counter false) 16 max_cycles (started (counter false) 16 9))
soc_run_times_out_example = soc_run_times_out (counter false) 16 9 (λ m h. refl)
