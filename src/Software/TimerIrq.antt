-- ===== src/Software/TimerIrq.antt =====
-- sw/examples/timer_irq.c: its main and its trap handler. The interrupts are a schedule: `taken k` of
-- them are taken before the k-th test of the loop of main.
use rv32i_core.Prelude.{ℕ, zero, suc, ◌+◌, ◌^◌, ltb, leb, ◌&&◌, if◌then◌else◌, Option, some, none}
use rv32i_core.Word.{u32}
use rv32i_core.Csr.{csr_mtvec, csr_mie, csr_mstatus}
use rv32i_core.Software.{Board, csr_instruction, write_led}
use rv32i_core.Software.Rearm.{rearm}

abbrev pub interval : ℕ
interval = 4000

abbrev pub mie_mtie : ℕ
mie_mtie = 2 ^ 7

abbrev pub mstatus_mie : ℕ
mstatus_mie = 2 ^ 3

-- The two static counters, and the board.
pub record Counters : Type 0 where
  pub board : Board
  pub handler_count : ℕ
  pub spin_count : ℕ

module _ (delay switches : ℕ → ℕ) where
  unfoldable pub trap_handler : Counters → Counters
  unfolding write_led rearm
  trap_handler s =
      let count = u32 (s.handler_count + 1) in
      record s {
        handler_count = count;
        board = rearm delay switches interval (write_led delay switches count s.board);
      }

  unfoldable pub interrupts : ℕ → Counters → Counters
  interrupts zero s = s
  interrupts (suc n) s = interrupts n (trap_handler s)

  -- main up to its loop, with the address of the handler.
  unfoldable pub start : ℕ → Board → Counters
  unfolding csr_instruction rearm
  start handler b =
      let b₁ = rearm delay switches interval (csr_instruction 0b01 csr_mtvec handler b) in
      let b₂ = csr_instruction 0b01 csr_mie mie_mtie b₁ in
      record {
        board = csr_instruction 0b10 csr_mstatus mstatus_mie b₂;
        handler_count = 0;
        spin_count = 0;
      }

  -- The loop from its k-th test on; `none` means that the fuel ran out.
  unfoldable pub spin : (ℕ → ℕ) → ℕ → ℕ → Counters → Option Counters
  spin taken zero k s = none
  spin taken (suc fuel) k s =
      let s' = interrupts (taken k) s in
      let again = spin taken fuel (k + 1) (record s' { spin_count = u32 (s'.spin_count + 1) }) in
      if ltb s'.handler_count 5 then again else some s'

  abbrev pub result : Counters → ℕ
  result s = if ltb 0 s.spin_count && leb 5 s.handler_count then 0 else 1
