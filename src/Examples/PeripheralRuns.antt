-- ===== src/Examples/PeripheralRuns.antt =====
-- The theorems on the timer at concrete inputs.
use rv32i_core.Prelude.{◌≡◌, true, false, arith}
use rv32i_core.Timer
use rv32i_core.Timer.Laws.{writing, wait, alarm-timer_irq, write-reg_rd_data}

-- Just before the carry into the high half of mtime.
abbrev ticking : Timer.Timer
ticking = record {
  rst_n = true;
  reg_wr_en = false;
  reg_wr_addr = 0;
  reg_wr_data = 7;
  reg_rd_en = false;
  reg_rd_addr = 4;
  mtime = 0xFFFFFFFE;
  mtimecmp = 0xFFFFFFFFFFFFFFFF;
}

-- A write to the high half of mtimecmp, and the carry of mtime.
write-reg_rd_data_example :
    Timer.reg_rd_data
      (record (writing 12 5 (record ticking { mtime = 0xFFFFFFFF })) { reg_rd_addr = 4 })
    ≡ 1
write-reg_rd_data_example =
    write-reg_rd_data 3 1 5 (record ticking { mtime = 0xFFFFFFFF }) (omega arith) (omega arith)
      (omega arith)

-- The line rises in the third cycle after the writes.
alarm-timer_irq_example :
    (Timer.timer_irq (wait 3 (writing 12 1 (writing 8 3 ticking))) ≡ true)
    × ((wait 3 (writing 12 1 (writing 8 3 ticking))).mtime ≡ 0x100000003)
    × ((wait 3 (writing 12 1 (writing 8 3 ticking))).mtimecmp ≡ 0x100000003)
alarm-timer_irq_example = alarm-timer_irq 0x100000003 3 ticking (omega arith) (omega arith)
