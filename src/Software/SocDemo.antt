-- ===== src/Software/SocDemo.antt =====
-- sw/examples/soc_demo.c: its main and its trap handler. The interrupts are a schedule: before the
-- read of the k-th round of the loop `(taken k).0` of them are taken, and between the read and the
-- write `(taken k).1`.
use rv32i_core.Prelude.{ℕ, zero, suc, ◌+◌, ◌^◌}
use rv32i_core.Csr.{csr_mtvec, csr_mie, csr_mstatus}
use rv32i_core.Software.{Board, codes, csr_instruction, uart_puts, read_switches, write_led}
use rv32i_core.Software.Rearm.{rearm}

abbrev pub interval : ℕ
interval = 75000000

abbrev pub mie_mtie : ℕ
mie_mtie = 2 ^ 7

abbrev pub mstatus_mie : ℕ
mstatus_mie = 2 ^ 3

module _ (delay switches : ℕ → ℕ) where
  unfoldable pub trap_handler : Board → Board
  unfolding uart_puts rearm
  trap_handler b = rearm delay switches interval (uart_puts delay switches (codes "tick\r\n") b)

  unfoldable pub interrupts : ℕ → Board → Board
  interrupts zero b = b
  interrupts (suc n) b = interrupts n (trap_handler b)

  -- main up to its loop, with the address of the handler.
  unfoldable pub start : ℕ → Board → Board
  unfolding csr_instruction rearm uart_puts
  start handler b =
      let b₁ =
        uart_puts delay switches
          (codes "switches drive the LEDs; a UART tick prints periodically\r\n")
          (uart_puts delay switches (codes "rv32i-core SoC: full system demo\r\n") b) in
      let b₂ = rearm delay switches interval (csr_instruction 0b01 csr_mtvec handler b₁) in
      csr_instruction 0b10 csr_mstatus mstatus_mie (csr_instruction 0b01 csr_mie mie_mtie b₂)

  -- GPIO_LED = GPIO_SW, with the interrupts before the read and between the two.
  unfoldable pub round : ℕ × ℕ → Board → Board
  unfolding interrupts read_switches write_led
  round n b =
      let (value, b') = read_switches delay switches (interrupts n.0 b) in
      write_led delay switches value (interrupts n.1 b')

  -- n rounds of the loop, from the k-th on.
  unfoldable pub rounds : (ℕ → ℕ × ℕ) → ℕ → ℕ → Board → Board
  rounds taken zero k b = b
  rounds taken (suc n) k b = rounds taken n (k + 1) (round (taken k) b)
