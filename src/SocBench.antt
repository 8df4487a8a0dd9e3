-- ===== src/SocBench.antt =====
-- sim/verilator/tb_soc.cpp: the loop that runs a program on the system on chip until it stores to
-- `tohost`. The design is a parameter: its evaluation, its clock edge, the inputs that main sets,
-- and the trace ports that main reads. The rows of the trace file are a list; the messages on
-- standard output and the command line are left out, but for the address that +tohost= sets.
pub mod Laws
use rv32i_core.Prelude.{
  ℕ, zero, suc, ◌+◌, Bool, true, false, not, ◌&&◌, ◌==◌, if◌then◌else◌, List, [], ◌∷◌, ◌++◌, ◌|>◌,
}
use rv32i_core.Tb.{Tb, initial, drive, tick, finish}

-- What main uses of Vsoc.
pub record Design (D : Type 0) : Type 0 where
  pub eval : D → D
  pub posedge : D → D
  pub hold_reset : D → D
  pub release_reset : D → D
  pub trace_trap : D → Bool
  pub trace_we : D → Bool
  pub trace_pc : D → ℕ
  pub trace_instr : D → ℕ
  pub trace_rd : D → ℕ
  pub trace_wdata : D → ℕ
  pub trace_mem_we : D → Bool
  pub trace_mem_addr : D → ℕ
  pub trace_mem_wdata : D → ℕ

-- A line of the trace file: pc, instruction, and the register write if there is one.
pub data Row : Type 0 where
  with_write : ℕ → ℕ → ℕ → ℕ → Row
  without_write : ℕ → ℕ → Row

abbrev pub max_cycles : ℕ
max_cycles = 200000

-- The locals of main.
pub record Run (D : Type 0) : Type 0 where
  pub tb : Tb D
  pub csv : List Row
  pub cycles : ℕ
  pub tohost : ℕ
  pub finished : Bool

module _ {D : Type 0} (soc : Design D) (tohost_addr : ℕ) where
  -- The rows that a cycle adds.
  abbrev pub rows : D → List Row
  rows d =
      if soc.trace_trap d
      then []
      else if soc.trace_we d
      then with_write (soc.trace_pc d) (soc.trace_instr d) (soc.trace_rd d) (soc.trace_wdata d) ∷ []
      else without_write (soc.trace_pc d) (soc.trace_instr d) ∷ []

  abbrev pub is_exit : D → Bool
  is_exit d =
      soc.trace_mem_we d && soc.trace_mem_addr d == tohost_addr && not (soc.trace_mem_wdata d == 0)

  -- The iteration that ends the loop, and any other.
  abbrev pub last_cycle : Run D → Run D
  last_cycle s = record s {
    tb = tick soc.eval soc.posedge s.tb;
    csv = s.csv ++ rows s.tb.dut;
    tohost = soc.trace_mem_wdata s.tb.dut;
    finished = true;
  }

  abbrev pub next_cycle : Run D → Run D
  next_cycle s = record s {
    tb = tick soc.eval soc.posedge s.tb;
    csv = s.csv ++ rows s.tb.dut;
    cycles = s.cycles + 1;
  }

  -- while (cycles < MAX_CYCLES), with the number of iterations left.
  unfoldable pub watch : ℕ → Run D → Run D
  watch zero s = s
  watch (suc left) s =
      let rest = watch left (next_cycle s) in if is_exit s.tb.dut then last_cycle s else rest

  unfoldable pub reset : D → Run D
  reset d = record {
    tb =
        initial d
        |> drive soc.hold_reset
        |> tick soc.eval soc.posedge
        |> tick soc.eval soc.posedge
        |> drive soc.release_reset;
    csv = [];
    cycles = 0;
    tohost = 0;
    finished = false;
  }

  unfoldable pub run : D → Run D
  run d = watch max_cycles (reset d)

  -- The verdict: a timeout and a value other than 1 count as a failure.
  unfoldable pub judge : Run D → Tb D
  judge s =
      if not s.finished
      then record s.tb { fails = s.tb.fails + 1 }
      else if s.tohost == 1
      then s.tb
      else record s.tb { fails = s.tb.fails + 1 }

  -- main, which returns 2 if it cannot open the trace file.
  unfoldable pub main : Bool → D → ℕ
  main opens d = if opens then finish (judge (run d)) else 2
