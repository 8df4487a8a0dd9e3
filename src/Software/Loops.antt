-- ===== src/Software/Loops.antt =====
-- sw/examples/gpio_loop.c and uart_hello.c: n rounds of the loops of their mains. The counting loop of
-- uart_hello.c is part of the delay before the next access.
use rv32i_core.Prelude.{ℕ, zero, suc, ◌+◌, ◌≡◌, refl, ap, ◌∙◌, sym, List, [], ◌++◌}
use rv32i_core.Software.{Board, codes, uart_puts, read_switches, write_led}
use rv32i_core.Software.Sends.{bytes, ++_assoc, ++_nil, Sends, uart_puts-Sends}
use rv32i_core.Software.SocDemo
use rv32i_core.Software.SocDemo.{interrupts, round}

module _ (delay switches : ℕ → ℕ) where
  unfoldable pub gpio_loop : ℕ → Board → Board
  unfolding read_switches write_led
  gpio_loop zero b = b
  gpio_loop (suc n) b =
      let (value, b') = read_switches delay switches b in
      gpio_loop n (write_led delay switches value b')

  unfoldable pub uart_hello : ℕ → Board → Board
  unfolding uart_puts
  uart_hello zero b = b
  uart_hello (suc n) b =
      uart_hello n (uart_puts delay switches (codes "hello from rv32i-core\r\n") b)

  -- The loop of gpio_loop.c is that of soc_demo.c without interrupts.
  gpio_loop-rounds :
      (n k : ℕ) (b : Board)
      → gpio_loop n b ≡ SocDemo.rounds delay switches (λ round_number. (0, 0)) n k b
  unfolding gpio_loop SocDemo.rounds round interrupts
  gpio_loop-rounds zero k b = refl
  gpio_loop-rounds (suc n) k b =
      let (value, b') = read_switches delay switches b in
      gpio_loop-rounds n (k + 1) (write_led delay switches value b')

  greetings : ℕ → List ℕ
  greetings zero = []
  greetings (suc n) = codes "hello from rv32i-core\r\n" ++ greetings n

  -- n rounds of uart_hello.c send n greetings.
  uart_hello-sent : (n : ℕ) (b : Board) → (uart_hello n b).sent ≡ b.sent ++ greetings n
  unfolding uart_hello greetings bytes Sends
  uart_hello-sent zero b = sym (++_nil b.sent)
  uart_hello-sent (suc n) b =
      let text = codes "hello from rv32i-core\r\n" in
      uart_hello-sent n (uart_puts delay switches text b)
      ∙ ap (λ s. s ++ greetings n) (uart_puts-Sends delay switches text b).0
      ∙ ++_assoc b.sent text (greetings n)
