-- ===== src/SocBench/Laws.antt =====
-- What the exit status and the trace of sim/verilator/tb_soc.cpp say of the design's run.
use mathlib.Core.List.{append-nil, append_assoc}
use rv32i_core.Prelude.{
  ℕ, zero, suc, ◌+◌, ◌<◌, ◌≡◌, refl, sym, ap, ◌∙◌, arith, true, false, ◌==◌, if◌then◌else◌, List,
  [], ◌++◌,
}
use rv32i_core.Tb.{initial, drive, tick, finish}
use rv32i_core.SocBench.{
  Design, Row, Run, max_cycles, rows, is_exit, next_cycle, watch, reset, run, judge, main,
}

module _ {D : Type 0} (soc : Design D) (tohost_addr : ℕ) where
  abbrev step : D → D
  step d = soc.eval (soc.posedge (soc.eval d))

  -- The design after n clock cycles, and what n cycles write to the trace file.
  abbrev pub after : ℕ → D → D
  after zero d = d
  after (suc n) d = after n (step d)

  abbrev pub trace : ℕ → D → List Row
  trace zero d = []
  trace (suc n) d = rows soc tohost_addr d ++ trace n (step d)

  abbrev Exits : D → Type 0
  Exits d = is_exit soc tohost_addr d ≡ true

  abbrev Goes : ℕ → D → Type 0
  Goes n d = (m : ℕ) → m < n → is_exit soc tohost_addr (after m d) ≡ false

  watch_exit :
      (left n : ℕ) (s : Run D)
      → n < left
      → Goes n s.tb.dut
      → Exits (after n s.tb.dut)
      → let r = watch soc tohost_addr left s in
        (r.finished ≡ true)
        × (r.tohost ≡ soc.trace_mem_wdata (after n s.tb.dut))
        × (r.cycles ≡ s.cycles + n)
        × (r.csv ≡ s.csv ++ trace (suc n) s.tb.dut)
        × (r.tb.fails ≡ s.tb.fails)
  unfolding watch tick
  watch_exit zero n s h goes exits = absurd (omega arith)
  watch_exit (suc left) zero s h goes exits =
      let last = rows soc tohost_addr s.tb.dut in
      let once : s.csv ++ last ≡ s.csv ++ (last ++ []) =
        ap (λ r. s.csv ++ r) (sym (append-nil last)) in
      rw exits (refl, refl, omega arith, once, refl)
  watch_exit (suc left) (suc n) s h goes exits =
      let next = next_cycle soc tohost_addr s in
      let first = rows soc tohost_addr s.tb.dut in
      let (finished, tohost, cycles, csv, fails) =
        watch_exit left n next (omega arith) (λ m k. goes (suc m) (omega arith)) exits in
      rw (goes 0 (omega arith)) (
        finished,
        tohost,
        omega arith,
        csv ∙ append_assoc s.csv first (trace (suc n) next.tb.dut),
        fails,
      )

  watch_timeout :
      (left : ℕ) (s : Run D)
      → Goes left s.tb.dut
      → let r = watch soc tohost_addr left s in
        (r.finished ≡ s.finished)
        × (r.cycles ≡ s.cycles + left)
        × (r.csv ≡ s.csv ++ trace left s.tb.dut)
        × (r.tb.fails ≡ s.tb.fails)
  unfolding watch tick
  watch_timeout zero s goes = (refl, omega arith, sym (append-nil s.csv), refl)
  watch_timeout (suc left) s goes =
      let next = next_cycle soc tohost_addr s in
      let first = rows soc tohost_addr s.tb.dut in
      let (finished, cycles, csv, fails) =
        watch_timeout left next (λ m k. goes (suc m) (omega arith)) in
      rw (goes 0 (omega arith))
        (finished, omega arith, csv ∙ append_assoc s.csv first (trace left next.tb.dut), fails)

  judge_exit :
      (r : Run D)
      → r.finished ≡ true
      → r.tb.fails ≡ 0
      → finish (judge soc tohost_addr r) ≡ (if r.tohost == 1 then 0 else 1)
  unfolding finish judge
  judge_exit r h clean = ground arith

  judge_timeout :
      (r : Run D) → r.finished ≡ false → r.tb.fails ≡ 0 → finish (judge soc tohost_addr r) ≡ 1
  unfolding finish judge
  judge_timeout r h clean = ground arith

  -- The design when the loop starts.
  abbrev pub started : D → D
  started d = soc.release_reset (step (step (soc.hold_reset d)))

  -- If the first store of a non-zero word to tohost comes after n cycles, for n below MAX_CYCLES,
  -- the loop stops there: main returns 0 if the word is 1 and 1 otherwise, it has counted n cycles,
  -- and the trace file has the rows of these cycles and of the last one.
  pub soc_run_exits :
      (n : ℕ) (d : D)
      → n < max_cycles
      → ((m : ℕ) → m < n → is_exit soc tohost_addr (after m (started d)) ≡ false)
      → is_exit soc tohost_addr (after n (started d)) ≡ true
      → (main soc tohost_addr true d
          ≡ (if soc.trace_mem_wdata (after n (started d)) == 1 then 0 else 1))
        × ((run soc tohost_addr d).cycles ≡ n)
        × ((run soc tohost_addr d).csv ≡ trace (suc n) (started d))
  unfolding main run reset initial drive tick
  soc_run_exits n d h goes exits =
      let r = run soc tohost_addr d in
      let (finished, tohost, cycles, csv, fails) =
        watch_exit max_cycles n (reset soc tohost_addr d) h goes exits in
      (judge_exit r finished fails ∙ ap (λ w. if w == 1 then 0 else 1) tohost, omega arith, csv)

  -- If no such store comes within MAX_CYCLES cycles, the loop gives up after exactly that many: main
  -- returns 1, and the trace file has the rows of all of them.
  pub soc_run_times_out :
      (d : D)
      → ((m : ℕ) → m < max_cycles → is_exit soc tohost_addr (after m (started d)) ≡ false)
      → (main soc tohost_addr true d ≡ 1)
        × ((run soc tohost_addr d).cycles ≡ 200000)
        × ((run soc tohost_addr d).csv ≡ trace max_cycles (started d))
  unfolding main run reset initial drive tick
  soc_run_times_out d goes =
      let r = run soc tohost_addr d in
      let (finished, cycles, csv, fails) =
        watch_timeout max_cycles (reset soc tohost_addr d) goes in
      (judge_timeout r finished fails, omega arith, csv)
