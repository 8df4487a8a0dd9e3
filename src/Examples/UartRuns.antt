-- ===== src/Examples/UartRuns.antt =====
-- rtl/soc/uart_axil.v: the theorem on STATUS at a concrete transmitter and receiver.
use rv32i_core.Prelude.{
  ℕ, ◌+◌, ◌%◌, ◌^◌, ◌<◌, ◌≡◌, refl, true, false, ltb, ◌==◌, if◌then◌else◌, [], ◌∷◌, bit, ◌-◌,
}
use rv32i_core.Word.{slice}
use rv32i_core.Uart.{Transmitter, Receiver, Uart, posedge, uart, reg_rd_data}
use rv32i_core.Uart.Status.{Inputs, drive, cycle, run, read-status}

-- A transmitter that counts the cycles that a byte still takes.
abbrev countdown : Transmitter ℕ
countdown = record {
  tready = λ left. left == 0;
  busy = λ left. ltb 0 left;
  txd = λ left. true;
  step = λ reset byte valid prescale left.
      if reset then 0 else if valid then 10 else if ltb 0 left then left - 1 else 0;
}

-- A receiver with an overrun in its third cycle and a frame error in its first.
abbrev noisy : Receiver ℕ
noisy = record {
  tdata = λ n. n % 2 ^ 8;
  tvalid = λ n. ltb 1 n;
  overrun = λ n. n == 2;
  frame = λ n. n == 0;
  step = λ reset ready line prescale n. if reset then 0 else n + 1;
}

abbrev wrapper : Uart ℕ ℕ
wrapper = record {
  rst_n = true;
  rxd = true;
  reg_wr_en = false;
  reg_wr_addr = 0;
  reg_wr_data = 0;
  reg_wr_strb = 0;
  reg_rd_en = false;
  reg_rd_addr = 0;
  prescale_reg = 81;
  overrun_sticky = true;
  frame_sticky = false;
  tx = 5;
  rx = 1;
}

abbrev reading : Inputs
reading = record {
  wires = record {
    wr_en = false;
    wr_addr = 0;
    wr_data = 0;
    wr_strb = 0;
    rd_en = true;
    rd_addr = 4;
  };
  rxd = true;
}

abbrev writing : Inputs
writing = record {
  wires = record {
    wr_en = true;
    wr_addr = 0;
    wr_data = 0x141;
    wr_strb = 0xF;
    rd_en = false;
    rd_addr = 4;
  };
  rxd = false;
}

-- The flag from before the first read is gone, and the overrun after it shows.
read-status_example :
    let v =
      run countdown noisy 81 (writing ∷ writing ∷ []) (cycle countdown noisy 81 reading wrapper) in
    let value = reg_rd_data countdown noisy 81 (record v { reg_rd_addr = 4 }) in
    (value < 2 ^ 4)
    × (slice value 0 1 ≡ bit (ltb 0 v.tx))
    × (slice value 1 1 ≡ bit (ltb 1 v.rx))
    × (slice value 2 1 ≡ 1)
    × (slice value 3 1 ≡ 0)
unfolding reg_rd_data cycle drive posedge uart
read-status_example =
    read-status countdown noisy 81 reading (writing ∷ writing ∷ []) 4 wrapper refl
      (refl, (refl, tt)) refl
