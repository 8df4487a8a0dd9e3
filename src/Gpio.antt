-- ===== src/Gpio.antt =====
-- rtl/soc/gpio.v: the LED register, the LED output and the read multiplexer. The wires reg_wr_en,
-- reg_wr_addr, reg_wr_data, reg_wr_strb, reg_rd_en and reg_rd_addr, which the vendored axil_reg_if
-- drives, are inputs of the record.
pub mod Laws
pub mod Bench
pub mod Panel
pub mod Shadow
pub mod Sections
pub mod Runs
use rv32i_core.Prelude.{ℕ, ◌/◌, ◌%◌, ◌^◌, Bool, false, not, ◌&&◌, ◌==◌, if◌then◌else◌}
use rv32i_core.Word.{slice}
use rv32i_core.Dmem.{written}
use rv32i_core.RegIf.{Device}

pub record Gpio : Type 0 where
  pub rst_n : Bool
  pub sw : ℕ
  pub reg_wr_en : Bool
  pub reg_wr_addr : ℕ
  pub reg_wr_data : ℕ
  pub reg_wr_strb : ℕ
  pub reg_rd_en : Bool
  pub reg_rd_addr : ℕ
  pub led_reg : ℕ

-- The four lane writes are those of the data memory.
unfoldable pub posedge : Gpio → Gpio
posedge d =
    if not d.rst_n
    then record d { led_reg = 0 }
    else if d.reg_wr_en && slice d.reg_wr_addr 2 1 == 0
    then record d { led_reg = written d.reg_wr_strb d.reg_wr_data d.led_reg }
    else d

abbrev pub led : Gpio → ℕ
led d = slice d.led_reg 0 16

unfoldable pub reg_rd_data : Gpio → ℕ
reg_rd_data d = if slice d.reg_rd_addr 2 1 == 0 then d.led_reg else d.sw

-- The wires of u_reg_if.
abbrev pub gpio : Device Gpio
unfolding posedge reg_rd_data
gpio = record {
  connect = λ b w d. record d {
    rst_n = b;
    reg_wr_en = w.wr_en;
    reg_wr_addr = w.wr_addr;
    reg_wr_data = w.wr_data;
    reg_wr_strb = w.wr_strb;
    reg_rd_en = w.rd_en;
    reg_rd_addr = w.rd_addr;
  };
  edge = posedge;
  replies = λ d. record {
    wr_wait = false;
    wr_ack = d.reg_wr_en;
    rd_data = reg_rd_data d;
    rd_wait = false;
    rd_ack = d.reg_rd_en;
  };
}
