-- ===== src/Timer/Counter.antt =====
-- rtl/soc/timer.v keeps the promises of a peripheral behind the register interface: a counter and
-- the value that it is compared with.
use rv32i_core.Prelude.{ℕ, ◌+◌, ◌-◌, ◌^◌, ◌≡◌, false, ◌==◌, if◌then◌else◌, arith}
use rv32i_core.Word.{u64, slice}
use rv32i_core.RegIf.Follow.{Registers, IsModelled}
use rv32i_core.Timer.{Timer, set_low, set_high, posedge, reg_rd_data, timer}

pub record Counter : Type 0 where
  pub mtime : ℕ
  pub mtimecmp : ℕ

abbrev pub counter : Registers Counter
counter = record {
  reset = λ m. record { mtime = 0; mtimecmp = 2 ^ 64 - 1 };
  rest = λ m. record m { mtime = u64 (m.mtime + 1) };
  write = λ a v strb m.
      let half = slice a 2 2 in
      if half == 0
      then record m { mtime = set_low v m.mtime }
      else if half == 1
      then record m { mtime = set_high v m.mtime }
      else if half == 2
      then record { mtime = u64 (m.mtime + 1); mtimecmp = set_low v m.mtimecmp }
      else record { mtime = u64 (m.mtime + 1); mtimecmp = set_high v m.mtimecmp };
  read = λ a m.
      let half = slice a 2 2 in
      if half == 0
      then slice m.mtime 0 32
      else if half == 1
      then slice m.mtime 32 32
      else if half == 2
      then slice m.mtimecmp 0 32
      else slice m.mtimecmp 32 32;
  late = false;
}

abbrev pub Shows : Counter → Timer → Type 0
Shows m d = (d.mtime ≡ m.mtime) × (d.mtimecmp ≡ m.mtimecmp)

abbrev pub Late : ℕ → Counter → Timer → Type 0
Late a m d = ⊥

pub timer_law : IsModelled timer counter Shows Shows Late
unfolding posedge reg_rd_data
timer_law = record {
  connect_shows = λ b w m p h. h;
  connect_powered = λ b w m p h. h;
  connect_late = λ b w a m p h. h;
  reset_shows = λ w m p wr rd h. ground arith;
  rest_shows = λ w m p wr rd h. ground arith;
  write_shows = λ w m p wr rd h. ground arith;
  read_shows = λ w m p wr rd quick h. ground arith;
  read_late = λ w m p wr rd slow h. cc;
  late_shows = λ w a m p wr rd e h. absurd h;
}
