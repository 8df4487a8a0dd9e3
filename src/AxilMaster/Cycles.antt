-- ===== src/AxilMaster/Cycles.antt =====
-- Runs of the transaction loop of sim/verilator/tb_axil_master.cpp, and the states between two
-- transactions.
use rv32i_core.Prelude.{ℕ, suc, ◌+◌, ◌≡◌, refl, ◌∙◌, ap, true, false, arith, some}
use native.Mathlib.Nat.{add_comm, add_assoc}
use native.Mathlib.Numerals.{add-one}
use rv32i_core.AxilMaster.{AxilMaster, idle}
use rv32i_core.AxilMaster.System.{System, cycle, run_cycles, start, new_slave}

-- Between two transactions.
pub record IsQuiet (s : System) : Type 0 where
  pub running : s.tb.dut.rst_n ≡ true
  pub state_is : s.tb.dut.state ≡ idle
  pub no_requests :
      (s.tb.dut.awvalid ≡ false) × (s.tb.dut.wvalid ≡ false) × (s.tb.dut.arvalid ≡ false)
  pub no_ready : (s.tb.dut.bready ≡ false) × (s.tb.dut.rready ≡ false)
  pub nothing_captured : (s.slave.aw_captured ≡ false) × (s.slave.w_captured ≡ false)
  pub no_responses : (s.slave.bvalid_reg ≡ false) × (s.slave.rvalid_reg ≡ false)
  pub no_access : (s.tb.dut.mem_we ≡ false) × (s.tb.dut.mem_re ≡ false)

-- After the reset the system is quiet, whatever the registers held before it.
pub start-IsQuiet : (d : AxilMaster) → IsQuiet (start d)
unfolding start new_slave
start-IsQuiet d = record {
  running = refl;
  state_is = refl;
  no_requests = (refl, refl, refl);
  no_ready = (refl, refl);
  nothing_captured = (refl, refl);
  no_responses = (refl, refl);
  no_access = (refl, refl);
}

pub run_cycles_stall :
    (fuel n : ℕ) (s : System)
    → (cycle s).stall ≡ true
    → run_cycles (suc fuel) n s ≡ run_cycles fuel (n + 1) (cycle s).sys
unfolding run_cycles
run_cycles_stall fuel n s h = rw h

pub run_cycles_end :
    (fuel n : ℕ) (s : System)
    → (cycle s).stall ≡ false
    → run_cycles (suc fuel) n s
      ≡ some (record { sys = (cycle s).sys; rdata = (cycle s).rdata; cycles = n + 1 })
unfolding run_cycles
run_cycles_end fuel n s h = rw h

-- The loop has run k cycles of a phase from `s`, all stalled, and stands at `s'`.
pub record Reaches (k : ℕ) (s s' : System) : Type 0 where
  pub runs : (fuel n : ℕ) → run_cycles (fuel + k) n s ≡ run_cycles fuel (n + k) s'

pub one_stall : (s : System) → (cycle s).stall ≡ true → Reaches 1 s (cycle s).sys
one_stall s h = record { runs = λ fuel n. rw add-one (run_cycles_stall fuel n s h) }

pub Reaches-trans :
    (j k : ℕ) (s s' s'' : System) → Reaches j s s' → Reaches k s' s'' → Reaches (j + k) s s''
Reaches-trans j k s s' s'' h h' = record {
  runs = λ fuel n.
      rw (add_comm j k, ← add_assoc fuel k j)
        (h.runs (fuel + k) n
          ∙ h'.runs fuel (n + j)
          ∙ ap (λ m. run_cycles fuel m s'') (omega arith));
}

-- The cycle after them ends the loop.
pub Reaches-end :
    (k total : ℕ) (s s' : System) (fuel : ℕ)
    → total ≡ suc k
    → Reaches k s s'
    → (cycle s').stall ≡ false
    → run_cycles (fuel + total) 0 s
      ≡ some (record { sys = (cycle s').sys; rdata = (cycle s').rdata; cycles = k + 1 })
Reaches-end k total s s' fuel e h stall =
    let split : fuel + total ≡ suc fuel + k = omega arith in
    let start : 0 + k ≡ k = omega arith in
    rw split (
      h.runs (suc fuel) 0
      ∙ ap (λ m. run_cycles (suc fuel) m s') start
      ∙ run_cycles_end fuel k s' stall)

-- One stalled cycle before k others.
pub Reaches-suc :
    (k : ℕ) (s s' : System)
    → (cycle s).stall ≡ true
    → Reaches k (cycle s).sys s'
    → Reaches (suc k) s s'
Reaches-suc k s s' stall h =
    rw (← add-one k) rw (add_comm k 1) (Reaches-trans 1 k s (cycle s).sys s' (one_stall s stall) h)
