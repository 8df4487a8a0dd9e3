-- ===== src/Uart.antt =====
-- rtl/soc/uart_axil.v: the registers and wires between the register interface and the vendored
-- uart_tx and uart_rx, which are parameters: their outputs and their clock edges. The wires reg_wr_en,
-- reg_wr_addr, reg_wr_data, reg_wr_strb, reg_rd_en and reg_rd_addr are inputs of the record.
pub mod Status
use rv32i_core.Prelude.{
  ℕ, ◌+◌, ◌*◌, ◌/◌, ◌%◌, ◌^◌, Bool, true, false, not, ◌&&◌, ◌||◌, ◌==◌, if◌then◌else◌, bit,
}
use rv32i_core.Word.{slice, cat}
use rv32i_core.RegIf.{Device}

-- uart_tx: an edge takes the reset, s_axis_tdata, s_axis_tvalid and prescale.
pub record Transmitter (T : Type 0) : Type 0 where
  pub tready : T → Bool
  pub busy : T → Bool
  pub txd : T → Bool
  pub step : Bool → ℕ → Bool → ℕ → T → T

-- uart_rx: an edge takes the reset, m_axis_tready, rxd and prescale.
pub record Receiver (R : Type 0) : Type 0 where
  pub tdata : R → ℕ
  pub tvalid : R → Bool
  pub overrun : R → Bool
  pub frame : R → Bool
  pub step : Bool → Bool → Bool → ℕ → R → R

pub record Uart (T R : Type 0) : Type 0 where
  pub rst_n : Bool
  pub rxd : Bool
  pub reg_wr_en : Bool
  pub reg_wr_addr : ℕ
  pub reg_wr_data : ℕ
  pub reg_wr_strb : ℕ
  pub reg_rd_en : Bool
  pub reg_rd_addr : ℕ
  pub prescale_reg : ℕ
  pub overrun_sticky : Bool
  pub frame_sticky : Bool
  pub tx : T
  pub rx : R

module _ {T R : Type 0} (t : Transmitter T) (r : Receiver R) (prescale_init : ℕ) where
  abbrev pub wr_sel_data : Uart T R → Bool
  wr_sel_data u = slice u.reg_wr_addr 2 2 == 0b00

  abbrev pub wr_sel_presc : Uart T R → Bool
  wr_sel_presc u = slice u.reg_wr_addr 2 2 == 0b10

  abbrev pub tx_tvalid : Uart T R → Bool
  tx_tvalid u = u.reg_wr_en && wr_sel_data u && t.tready u.tx

  abbrev pub reg_wr_wait : Uart T R → Bool
  reg_wr_wait u = u.reg_wr_en && wr_sel_data u && not (t.tready u.tx)

  abbrev pub reg_wr_ack : Uart T R → Bool
  reg_wr_ack u = u.reg_wr_en && (not (wr_sel_data u) || t.tready u.tx)

  abbrev pub status_read_fire : Uart T R → Bool
  status_read_fire u = u.reg_rd_en && slice u.reg_rd_addr 2 2 == 0b01

  abbrev pub rx_tready : Uart T R → Bool
  rx_tready u = u.reg_rd_en && slice u.reg_rd_addr 2 2 == 0b00 && r.tvalid u.rx

  -- One of the two sticky flags: clear, then set.
  abbrev pub next_sticky : Bool → Bool → Uart T R → Bool
  next_sticky pulse old u =
      if not u.rst_n
      then false
      else if pulse
      then true
      else if status_read_fire u
      then false
      else old

  unfoldable pub posedge : Uart T R → Uart T R
  posedge u = record u {
    prescale_reg =
        if not u.rst_n
        then prescale_init
        else if u.reg_wr_en && wr_sel_presc u
        then slice u.reg_wr_data 0 16
        else u.prescale_reg;
    overrun_sticky = next_sticky (r.overrun u.rx) u.overrun_sticky u;
    frame_sticky = next_sticky (r.frame u.rx) u.frame_sticky u;
    tx = t.step (not u.rst_n) (slice u.reg_wr_data 0 8) (tx_tvalid u) u.prescale_reg u.tx;
    rx = r.step (not u.rst_n) (rx_tready u) u.rxd u.prescale_reg u.rx;
  }

  abbrev pub status : Uart T R → ℕ
  status u =
      cat 3 (bit u.frame_sticky)
        (cat 2 (bit u.overrun_sticky) (cat 1 (bit (r.tvalid u.rx)) (bit (t.busy u.tx))))

  unfoldable pub reg_rd_data : Uart T R → ℕ
  reg_rd_data u =
      let sel = slice u.reg_rd_addr 2 2 in
      if sel == 0b00
      then r.tdata u.rx
      else if sel == 0b01
      then status u
      else if sel == 0b10
      then u.prescale_reg
      else 0

  -- The wires of u_reg_if.
  unfoldable pub uart : Device (Uart T R)
  unfolding posedge reg_rd_data
  uart = record {
    connect = λ b w u. record u {
      rst_n = b;
      reg_wr_en = w.wr_en;
      reg_wr_addr = w.wr_addr;
      reg_wr_data = w.wr_data;
      reg_wr_strb = w.wr_strb;
      reg_rd_en = w.rd_en;
      reg_rd_addr = w.rd_addr;
    };
    edge = posedge;
    replies = λ u. record {
      wr_wait = reg_wr_wait u;
      wr_ack = reg_wr_ack u;
      rd_data = reg_rd_data u;
      rd_wait = false;
      rd_ack = u.reg_rd_en;
    };
  }
