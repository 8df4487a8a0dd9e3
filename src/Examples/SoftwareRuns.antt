-- ===== src/Examples/SoftwareRuns.antt =====
-- sw/examples: the theorems on the programs at a concrete board.
use rv32i_core.Prelude.{
  ℕ, ◌+◌, ◌<◌, ◌≡◌, ◌↔◌, arith, true, false, some, ◌==◌, ◌%◌, ◌^◌, if◌then◌else◌, [], ◌++◌,
}
use rv32i_core.Timer.{timer_irq}
use rv32i_core.Timer.Laws.{wait}
use rv32i_core.Software.{Board}
use rv32i_core.Software.Rearm.{rearm}
use rv32i_core.Software.TimerIrq
use rv32i_core.Software.TimerIrq.{Counters}
use rv32i_core.Software.SocDemo
use rv32i_core.Software.Alarm.{rearm-timer_irq}
use rv32i_core.Software.Runs.{spin_returns}
use rv32i_core.Software.Transcript.{banner, ticks, transcript}

-- Just out of reset, with the counter about to carry into its high half.
abbrev board : Board
board = record {
  timer = record {
    rst_n = true;
    reg_wr_en = false;
    reg_wr_addr = 0;
    reg_wr_data = 0;
    reg_rd_en = false;
    reg_rd_addr = 0;
    mtime = 0xFFFFFFFE;
    mtimecmp = 0xFFFFFFFFFFFFFFFF;
  };
  gpio = record {
    rst_n = true;
    sw = 0;
    reg_wr_en = false;
    reg_wr_addr = 0;
    reg_wr_data = 0;
    reg_wr_strb = 0;
    reg_rd_en = false;
    reg_rd_addr = 0;
    led_reg = 0;
  };
  csr = record {
    rst_n = true;
    bus_stall = false;
    csr_addr = 0;
    csr_wdata = 0;
    csr_op = 0;
    csr_re = false;
    csr_we = false;
    trap = false;
    trap_pc = 0;
    trap_cause = 0;
    is_mret = false;
    timer_irq = false;
    mstatus_mie = false;
    mstatus_mpie = false;
    mstatus_mpp = 0;
    mie_mtie = false;
    priv_m = true;
    mtvec = 0;
    mscratch = 0;
    mepc = 0;
    mcause = 0;
    csr_rdata = 0;
    csr_illegal = false;
    mtvec_out = 0;
    mepc_out = 0;
    priv_m_out = true;
    interrupt_pending = false;
  };
  sent = [];
  accesses = 0;
}

abbrev one_cycle : ℕ → ℕ
one_cycle i = 1

abbrev numbered : ℕ → ℕ
numbered i = i % 2 ^ 16

-- The low half wraps between the two reads of rearm.
rearm-timer_irq_example :
    ((rearm one_cycle numbered 4000 board).timer.mtimecmp ≡ 0x200000000 + 3999)
    × ((wait 4000 (rearm one_cycle numbered 4000 board).timer).mtime ≡ 0x100000000 + 4006)
    × (timer_irq (wait 4000 (rearm one_cycle numbered 4000 board).timer) ≡ false)
rearm-timer_irq_example =
    rearm-timer_irq one_cycle numbered 4000 4000 board (omega arith) (omega arith) (omega arith)

-- Five interrupts before the third test.
abbrev burst : ℕ → ℕ
burst k = if k == 2 then 5 else 0

spin_returns_example :
    (s : Counters) × (TimerIrq.spin one_cycle numbered burst 4 0
        (TimerIrq.start one_cycle numbered 0x80000100 board)
      ≡ some s)
    × (s.handler_count ≡ 5)
    × (s.spin_count ≡ 2)
    × (s.board.gpio.led_reg ≡ 5)
    × ((TimerIrq.result one_cycle numbered s ≡ 0) ↔ (0 < 2))
spin_returns_example =
    spin_returns one_cycle numbered burst 2 1 0x80000100 board (omega arith) (omega arith)
      (omega arith) (omega arith)

-- An interrupt in every round.
abbrev each_round : ℕ → ℕ × ℕ
each_round k = (1, 0)

transcript_example :
    let started = SocDemo.start one_cycle numbered 0x80000100 board in
    let before = SocDemo.rounds one_cycle numbered each_round 2 0 started in
    let after = SocDemo.round one_cycle numbered (0, 1) before in
    let read = (SocDemo.interrupts one_cycle numbered 0 before).accesses in
    (started.csr.mtvec ≡ 0x80000100)
    × (started.csr.mie_mtie ≡ true)
    × (started.csr.mstatus_mie ≡ true)
    × (after.sent ≡ board.sent ++ (banner ++ ticks 3))
    × (after.gpio.led_reg ≡ numbered read)
transcript_example =
    transcript one_cycle numbered each_round 2 0x80000100 (0, 1) board (omega arith)
