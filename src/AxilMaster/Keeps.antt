-- ===== src/AxilMaster/Keeps.antt =====
-- What every cycle of sim/verilator/tb_axil_master.cpp keeps, a transaction keeps: it makes no check,
-- and leaves bytes in the slave's memory.
use mathlib.Core.Option.{some_inj}
use rv32i_core.Prelude.{
  ℕ, zero, suc, ◌+◌, ◌^◌, ◌<◌, ◌≡◌, refl, sym, ◌∙◌, ◌/◌, arith, Option, none, some, inl, inr,
  Bool-cases,
}
use rv32i_core.Tb.Report.{Passed}
use rv32i_core.Word.Bits.{and_low}
use rv32i_core.AxilMaster.Cycles.{run_cycles_stall, run_cycles_end}
use rv32i_core.AxilMaster.Slave.{AxilSlave, wr_word, drive_state, update_slave}
use rv32i_core.AxilMaster.System.{
  System, Done, cycle, run_cycles, do_store, do_load, start_store, start_load, end_store, end_load,
  ended,
}

module _ (P : System → Type 0) (step : (s : System) → P s → P (cycle s).sys) where
  ended-keeps :
      (stop : System → System) (o : Option Done) (r : Done)
      → ((y : System) → P y → P (stop y))
      → ((r' : Done) → o ≡ some r' → P r'.sys)
      → ended stop o ≡ some r
      → P r.sys
  unfolding ended
  ended-keeps stop none r kept runs h = cc
  ended-keeps stop (some r') r kept runs h = rw (← some_inj.0 h) (kept r'.sys (runs r' refl))

  pub run_cycles-keeps :
      (left n : ℕ) (s : System) (r : Done) → run_cycles left n s ≡ some r → P s → P r.sys
  unfolding run_cycles
  run_cycles-keeps zero n s r h start = cc
  run_cycles-keeps (suc left) n s r h start = elim (Bool-cases (cycle s).stall) [
    | inl e ↦
        run_cycles-keeps left (n + 1) (cycle s).sys r (sym (run_cycles_stall left n s e) ∙ h)
          (step s start)
    | inr e ↦
        let same = some_inj.0 (sym (run_cycles_end left n s e) ∙ h) in rw (← same) (step s start)
  ]

  pub do_store-keeps :
      (left addr v f3 aw_delay w_delay : ℕ) (s : System) (r : Done)
      → ((y : System) → P y → P (start_store addr v f3 aw_delay w_delay y))
      → ((y : System) → P y → P (end_store y))
      → do_store left addr v f3 aw_delay w_delay s ≡ some r
      → P s
      → P r.sys
  unfolding do_store
  do_store-keeps left addr v f3 aw_delay w_delay s r start stop h p =
      let asked = start_store addr v f3 aw_delay w_delay s in
      ended-keeps end_store (run_cycles left 0 asked) r stop
        (λ r' runs. run_cycles-keeps left 0 asked r' runs (start s p)) h

  pub do_load-keeps :
      (left addr f3 ar_delay : ℕ) (s : System) (r : Done)
      → ((y : System) → P y → P (start_load addr f3 ar_delay y))
      → ((y : System) → P y → P (end_load y))
      → do_load left addr f3 ar_delay s ≡ some r
      → P s
      → P r.sys
  unfolding do_load
  do_load-keeps left addr f3 ar_delay s r start stop h p =
      let asked = start_load addr f3 ar_delay s in
      ended-keeps end_load (run_cycles left 0 asked) r stop
        (λ r' runs. run_cycles-keeps left 0 asked r' runs (start s p)) h

cycle-Passed : (s : System) → Passed 0 s.tb (cycle s).sys.tb
unfolding cycle
cycle-Passed s = omega arith

pub do_store-Passed :
    (left addr v f3 aw_delay w_delay : ℕ) (s : System) (r : Done)
    → do_store left addr v f3 aw_delay w_delay s ≡ some r
    → Passed 0 s.tb r.sys.tb
unfolding start_store end_store
do_store-Passed left addr v f3 aw_delay w_delay s r h =
    do_store-keeps (λ y. Passed 0 s.tb y.tb) (λ y k. omega (arith, cycle-Passed y)) left addr v f3
      aw_delay w_delay s r (λ y k. k) (λ y k. k) h (omega arith)

pub do_load-Passed :
    (left addr f3 ar_delay : ℕ) (s : System) (r : Done)
    → do_load left addr f3 ar_delay s ≡ some r
    → Passed 0 s.tb r.sys.tb
unfolding start_load end_load
do_load-Passed left addr f3 ar_delay s r h =
    do_load-keeps (λ y. Passed 0 s.tb y.tb) (λ y k. omega (arith, cycle-Passed y)) left addr f3
      ar_delay s r (λ y k. k) (λ y k. k) h (omega arith)

-- Every cell is a byte.
abbrev pub HasBytes : (ℕ → ℕ) → Type 0
HasBytes mem = (a : ℕ) → mem a < 256

pub wr_word-HasBytes :
    (addr word strb : ℕ) (mem : ℕ → ℕ) → HasBytes mem → HasBytes (wr_word addr word strb mem)
unfolding wr_word
wr_word-HasBytes addr word strb mem h a = ground (
  arith,
  h a,
  and_low 8 word,
  and_low 8 (word / 2 ^ 8),
  and_low 8 (word / 2 ^ 16),
  and_low 8 (word / 2 ^ 24),
)

update_slave-HasBytes : (s : AxilSlave) → HasBytes s.mem → HasBytes (update_slave s).mem
unfolding update_slave
update_slave-HasBytes s h a =
    let written : (addr word strb : ℕ) → wr_word addr word strb s.mem a < 256 =
      λ addr word strb. wr_word-HasBytes addr word strb s.mem h a in
    ground (
      arith,
      h a,
      written s.awaddr_captured s.wdata_captured s.wstrb_captured,
      written s.awaddr_captured_ s.wdata_captured s.wstrb_captured,
      written s.awaddr_captured s.wdata_captured_ s.wstrb_captured_,
      written s.awaddr_captured_ s.wdata_captured_ s.wstrb_captured_,
    )

pub cycle-HasBytes : (s : System) → HasBytes s.slave.mem → HasBytes (cycle s).sys.slave.mem
unfolding cycle drive_state
cycle-HasBytes s h = update_slave-HasBytes (drive_state s.slave s.tb.dut) h
