-- ===== src/Timer.antt =====
-- rtl/soc/timer.v: the two 64-bit registers, the interrupt and the read multiplexer. The wires
-- reg_wr_en, reg_wr_addr, reg_wr_data, reg_rd_en and reg_rd_addr, which the vendored axil_reg_if
-- drives, are inputs of the record.
pub mod Laws
pub mod Bench
pub mod Counter
pub mod Runs
use rv32i_core.Prelude.{
  ℕ, ◌+◌, ◌-◌, ◌*◌, ◌/◌, ◌%◌, ◌^◌, Bool, false, not, ◌&&◌, ◌==◌, if◌then◌else◌, leb,
}
use rv32i_core.Word.{u64, slice, cat}
use rv32i_core.RegIf.{Device}

pub record Timer : Type 0 where
  pub rst_n : Bool
  pub reg_wr_en : Bool
  pub reg_wr_addr : ℕ
  pub reg_wr_data : ℕ
  pub reg_rd_en : Bool
  pub reg_rd_addr : ℕ
  pub mtime : ℕ
  pub mtimecmp : ℕ

-- wr_mtime_lo, wr_mtime_hi, wr_mtimecmp_lo and wr_mtimecmp_hi, for 0, 1, 2 and 3.
abbrev pub wr_half : ℕ → Timer → Bool
wr_half half d = d.reg_wr_en && slice d.reg_wr_addr 2 2 == half

-- v[31:0] <= word and v[63:32] <= word.
abbrev pub set_low : ℕ → ℕ → ℕ
set_low word v = cat 32 (slice v 32 32) word

abbrev pub set_high : ℕ → ℕ → ℕ
set_high word v = cat 32 word (slice v 0 32)

unfoldable pub next_mtime : Timer → ℕ
next_mtime d =
    if not d.rst_n
    then 0
    else if wr_half 0 d
    then set_low d.reg_wr_data d.mtime
    else if wr_half 1 d
    then set_high d.reg_wr_data d.mtime
    else u64 (d.mtime + 1)

unfoldable pub next_mtimecmp : Timer → ℕ
next_mtimecmp d =
    if not d.rst_n
    then 2 ^ 64 - 1
    else if wr_half 2 d
    then set_low d.reg_wr_data d.mtimecmp
    else if wr_half 3 d
    then set_high d.reg_wr_data d.mtimecmp
    else d.mtimecmp

unfoldable pub posedge : Timer → Timer
unfolding next_mtime next_mtimecmp
posedge d = record d { mtime = next_mtime d; mtimecmp = next_mtimecmp d }

unfoldable pub timer_irq : Timer → Bool
timer_irq d = leb d.mtimecmp d.mtime

unfoldable pub reg_rd_data : Timer → ℕ
reg_rd_data d =
    let half = slice d.reg_rd_addr 2 2 in
    if half == 0
    then slice d.mtime 0 32
    else if half == 1
    then slice d.mtime 32 32
    else if half == 2
    then slice d.mtimecmp 0 32
    else slice d.mtimecmp 32 32

-- The wires of u_reg_if.
abbrev pub timer : Device Timer
unfolding posedge reg_rd_data
timer = record {
  connect = λ b w d. record d {
    rst_n = b;
    reg_wr_en = w.wr_en;
    reg_wr_addr = w.wr_addr;
    reg_wr_data = w.wr_data;
    reg_rd_en = w.rd_en;
    reg_rd_addr = w.rd_addr;
  };
  edge = posedge;
  replies = λ d. record {
    wr_wait = false;
    wr_ack = d.reg_wr_en;
    rd_data = reg_rd_data d;
    rd_wait = false;
    rd_ack = d.reg_rd_en;
  };
}
