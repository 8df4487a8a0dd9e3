-- ===== src/AxilMem.antt =====
-- rtl/soc/axil_mem.v: the data memory behind the register interface, with one wait cycle on reads.
-- The wires that the vendored axil_reg_if drives are inputs of the record.
pub mod Bench
pub mod Array
pub mod Sections
pub mod Runs
use rv32i_core.Prelude.{ℕ, Bool, false, not, ◌&&◌, if◌then◌else◌}
use rv32i_core.Dmem
use rv32i_core.Dmem.{Dmem}
use rv32i_core.RegIf.{Device}

pub record AxilMem : Type 0 where
  pub rst_n : Bool
  pub reg_wr_en : Bool
  pub reg_rd_en : Bool
  pub rd_pending : Bool
  pub u_dmem : Dmem

unfoldable pub next_pending : AxilMem → Bool
next_pending d = if not d.rst_n then false else d.reg_rd_en && not d.rd_pending

unfoldable pub posedge : AxilMem → AxilMem
unfolding next_pending Dmem.posedge
posedge d = record d { rd_pending = next_pending d; u_dmem = Dmem.posedge d.u_dmem }

-- The wires of u_reg_if and of u_dmem, which has one address port for both channels.
abbrev pub axil_mem : Device AxilMem
unfolding posedge
axil_mem = record {
  connect = λ b w d. record d {
    rst_n = b;
    reg_wr_en = w.wr_en;
    reg_rd_en = w.rd_en;
    u_dmem = record d.u_dmem {
      en = w.rd_en;
      addr = if w.rd_en then w.rd_addr else w.wr_addr;
      wdata = w.wr_data;
      wstrb = if w.wr_en then w.wr_strb else 0;
    };
  };
  edge = posedge;
  replies = λ d. record {
    wr_wait = false;
    wr_ack = d.reg_wr_en;
    rd_data = d.u_dmem.rdata;
    rd_wait = d.reg_rd_en && not d.rd_pending;
    rd_ack = d.reg_rd_en && d.rd_pending;
  };
}
