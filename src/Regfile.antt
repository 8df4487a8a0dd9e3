-- ===== src/Regfile.antt =====
-- rtl/core/regfile.v. The 32 registers are a function of the address; addresses are 5 bits wide.
pub mod Bench
pub mod Ports
pub mod Laws
use rv32i_core.Prelude.{ℕ, Bool, true, false, not, ◌&&◌, ◌==◌, if◌then◌else◌, update}

pub record Regfile : Type 0 where
  pub regs : ℕ → ℕ
  pub rs1_addr : ℕ
  pub rs2_addr : ℕ
  pub rd_addr : ℕ
  pub rd_data : ℕ
  pub rd_we : Bool
  pub rs1_data : ℕ
  pub rs2_data : ℕ

-- The initial block zeroes the registers.
unfoldable pub power_on : Regfile
power_on = record {
  regs = λ i. 0;
  rs1_addr = 0;
  rs2_addr = 0;
  rd_addr = 0;
  rd_data = 0;
  rd_we = false;
  rs1_data = 0;
  rs2_data = 0;
}

-- One read port: the bypass, the array, and x0.
unfoldable pub read_port : Bool → Regfile → ℕ → ℕ
read_port bypass d rs_addr =
    let bypass_rs = bypass && d.rd_we && d.rd_addr == rs_addr && not (rs_addr == 0) in
    let rs_muxed = if bypass_rs then d.rd_data else d.regs rs_addr in
    if rs_addr == 0 then 0 else rs_muxed

-- The parameter BYPASS comes first.
unfoldable pub eval : Bool → Regfile → Regfile
unfolding read_port
eval bypass d = record d {
  rs1_data = read_port bypass d d.rs1_addr;
  rs2_data = read_port bypass d d.rs2_addr;
}

unfoldable pub posedge : Regfile → Regfile
posedge d =
    if d.rd_we && not (d.rd_addr == 0)
    then record d { regs = update d.regs d.rd_addr d.rd_data }
    else d
