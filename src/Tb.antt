-- ===== src/Tb.antt =====
-- sim/verilator/tb_common.h: the template Tb<DUT> that every test bench is built on, and the
-- counters behind CHECK_EQ.
--
-- The C++ globals tb_checks, tb_fails, tb_reported and tb_section and the members t and rng of the
-- template are fields of one record beside the design under test. `printed` holds the reports that
-- tb_check writes to standard output, the newest first. The counters are unbounded: a bench makes
-- far fewer than 2 ^ 31 checks. std::mt19937 is a parameter: the stream of its outputs, of which
-- `drawn` have been used. Wave dumps and the banner are left out.
pub mod Report
pub mod Loop
use rv32i_core.Prelude.{ℕ, ◌+◌, ◌-◌, ◌%◌, ◌^◌, String, List, [], ◌∷◌, ltb, ◌==◌, if◌then◌else◌}
use rv32i_core.Word.{u32, u64}

-- One line of output of a failed check: the section, what was read and what was wanted.
pub record Failure : Type 0 where
  pub section : String
  pub got : ℕ
  pub want : ℕ

pub record Tb (D : Type 0) : Type 0 where
  pub dut : D
  pub t : ℕ
  pub drawn : ℕ
  pub checks : ℕ
  pub fails : ℕ
  pub reported : ℕ
  pub section : String
  pub printed : List Failure

-- TB_MAX_REPORT.
abbrev pub tb_max_report : ℕ
tb_max_report = 25

module _ {D : Type 0} where
  -- The state before main's first statement, with the design `d` as constructed.
  unfoldable pub initial : D → Tb D
  initial d = record {
    dut = d;
    t = 0;
    drawn = 0;
    checks = 0;
    fails = 0;
    reported = 0;
    section = "init";
    printed = [];
  }

  unfoldable pub tb_begin : String → Tb D → Tb D
  tb_begin name s = record s { section = name }

  unfoldable pub tb_check : ℕ → ℕ → Tb D → Tb D
  tb_check got want s =
      if u64 got == u64 want then record s { checks = s.checks + 1 } else record s {
        checks = s.checks + 1;
        fails = s.fails + 1;
        reported = s.reported + 1;
        printed =
            if ltb s.reported tb_max_report
            then record { section = s.section; got = u64 got; want = u64 want } ∷ s.printed
            else s.printed;
      }

  -- Writes to input ports: the design with new inputs, not yet evaluated.
  unfoldable pub drive : (D → D) → Tb D → Tb D
  drive f s = record s { dut = f s.dut }

  -- `eval` recomputes the outputs of the design from its inputs and registers.
  unfoldable pub settle : (D → D) → Tb D → Tb D
  settle eval s = record s { dut = eval (eval s.dut); t = u64 (s.t + 1000) }

  -- `posedge` is the evaluation with the clock just raised; the falling edge changes no register.
  unfoldable pub tick : (D → D) → (D → D) → Tb D → Tb D
  tick eval posedge s = record s { dut = eval (posedge (eval s.dut)); t = u64 (s.t + 5000 + 5000) }

  -- The exit status of main.
  unfoldable pub finish : Tb D → ℕ
  finish s = if s.fails == 0 then 0 else 1

-- tb.rnd() and tb.rnd(lo, hi): the value, and the state of the bench after the draw.
module _ (rng : ℕ → ℕ) {D : Type 0} where
  unfoldable pub rnd : Tb D → ℕ × Tb D
  rnd s = (u32 (rng s.drawn), record s { drawn = s.drawn + 1 })

  unfoldable pub rnd_range : ℕ → ℕ → Tb D → ℕ × Tb D
  rnd_range lo hi s = (u32 (lo + rng s.drawn % (hi - lo + 1)), record s { drawn = s.drawn + 1 })
