-- ===== src/Software/Transcript.antt =====
-- sw/examples/soc_demo.c: what its main sends, sets up and shows.
use rv32i_core.Prelude.{
  ℕ, zero, suc, ◌+◌, ◌^◌, ◌<◌, ◌≡◌, refl, ap, ◌∙◌, sym, arith, true, List, [], ◌∷◌, ◌++◌,
}
use rv32i_core.Csr
use rv32i_core.Csr.{Csr, csr_mtvec, csr_mie, csr_mstatus, mstatus_rdata}
use rv32i_core.Gpio
use rv32i_core.Gpio.{Gpio}
use rv32i_core.Software.{
  Board, codes, csr_instruction, pause, uart_puts, read_switches, write_led, read_timer,
  write_timer,
}
use rv32i_core.Software.Rearm.{rearm}
use rv32i_core.Tb.Loop.{for_loop}
use rv32i_core.Software.Hello
use rv32i_core.Software.SocDemo.{interval, trap_handler, interrupts, start, round, rounds}
use rv32i_core.Software.Sends.{
  bytes, ++_assoc, ++_nil, Sends, uart_puts-Sends, rearm-Sends, Sends-both,
}
use rv32i_core.Software.Enable.{enables}

-- n lines of the handler.
abbrev pub ticks : ℕ → List ℕ
ticks zero = []
ticks (suc n) = codes "tick\r\n" ++ ticks n

-- The interrupts in the rounds k to k + n - 1.
abbrev pub taken_in : (ℕ → ℕ × ℕ) → ℕ → ℕ → ℕ
taken_in taken k zero = 0
taken_in taken k (suc n) = (taken k).0 + (taken k).1 + taken_in taken (k + 1) n

abbrev pub banner : List ℕ
banner =
    codes "rv32i-core SoC: full system demo\r\n"
    ++ codes "switches drive the LEDs; a UART tick prints periodically\r\n"

module _ (delay switches : ℕ → ℕ) where
  trap_handler-Sends : (b : Board) → Sends (codes "tick\r\n") b (trap_handler delay switches b)
  unfolding trap_handler bytes
  trap_handler-Sends b =
      let text = codes "tick\r\n" in
      Sends-both text [] b _ _ (uart_puts-Sends delay switches text b)
        (rearm-Sends delay switches (uart_puts delay switches text b))

  interrupts-Sends : (n : ℕ) (b : Board) → Sends (ticks n) b (interrupts delay switches n b)
  unfolding interrupts Sends
  interrupts-Sends zero b = (sym (++_nil b.sent), refl, refl)
  interrupts-Sends (suc n) b =
      let b' = trap_handler delay switches b in
      Sends-both (codes "tick\r\n") (ticks n) b b' (interrupts delay switches n b')
        (trap_handler-Sends b) (interrupts-Sends n b')

  ticks_add : (m n : ℕ) → ticks m ++ ticks n ≡ ticks (m + n)
  ticks_add zero n = ap ticks (omega arith)
  ticks_add (suc m) n =
      let count : suc (m + n) ≡ suc m + n = omega arith in
      ++_assoc (codes "tick\r\n") (ticks m) (ticks n)
      ∙ ap (λ rest. codes "tick\r\n" ++ rest) (ticks_add m n)
      ∙ ap ticks count

  round-sent :
      (n : ℕ × ℕ) (b : Board) → (round delay switches n b).sent ≡ b.sent ++ ticks (n.0 + n.1)
  unfolding round read_switches write_led pause Sends
  round-sent n b =
      let b' = (read_switches delay switches (interrupts delay switches n.0 b)).1 in
      (interrupts-Sends n.1 b').0
      ∙ ap (λ s. s ++ ticks n.1) (interrupts-Sends n.0 b).0
      ∙ ++_assoc b.sent (ticks n.0) (ticks n.1)
      ∙ ap (λ t. b.sent ++ t) (ticks_add n.0 n.1)

  round-led_reg :
      (n : ℕ × ℕ) (b : Board)
      → let read = (interrupts delay switches n.0 b).accesses in
        switches read < 2 ^ 32 → (round delay switches n b).gpio.led_reg ≡ switches read
  unfolding round read_switches write_led pause Gpio.posedge Gpio.reg_rd_data
  round-led_reg n b h = omega arith

  rounds-sent :
      (taken : ℕ → ℕ × ℕ) (n k : ℕ) (b : Board)
      → (rounds delay switches taken n k b).sent ≡ b.sent ++ ticks (taken_in taken k n)
  unfolding rounds
  rounds-sent taken zero k b = sym (++_nil b.sent)
  rounds-sent taken (suc n) k b =
      let one = (taken k).0 + (taken k).1 in
      rounds-sent taken n (k + 1) (round delay switches (taken k) b)
      ∙ ap (λ s. s ++ ticks (taken_in taken (k + 1) n)) (round-sent (taken k) b)
      ∙ ++_assoc b.sent (ticks one) (ticks (taken_in taken (k + 1) n))
      ∙ ap (λ t. b.sent ++ t) (ticks_add one (taken_in taken (k + 1) n))

  start-sent : (handler : ℕ) (b : Board) → (start delay switches handler b).sent ≡ b.sent ++ banner
  unfolding start csr_instruction rearm read_timer write_timer pause bytes Sends
  start-sent handler b =
      let first = codes "rv32i-core SoC: full system demo\r\n" in
      let second = codes "switches drive the LEDs; a UART tick prints periodically\r\n" in
      let b₁ = uart_puts delay switches first b in
      (Sends-both first second b b₁ (uart_puts delay switches second b₁)
        (uart_puts-Sends delay switches first b) (uart_puts-Sends delay switches second b₁)).0
      ∙ refl

  start-csr :
      (handler : ℕ) (b : Board)
      → let csr = (start delay switches handler b).csr in
        (csr.mtvec ≡ handler) × (csr.mie_mtie ≡ true) × (csr.mstatus_mie ≡ true)
  unfolding start csr_instruction rearm read_timer write_timer pause Csr.posedge
  start-csr handler b =
      let text = codes "switches drive the LEDs; a UART tick prints periodically\r\n" in
      let sent =
        uart_puts delay switches text
          (uart_puts delay switches (codes "rv32i-core SoC: full system demo\r\n") b) in
      let armed = rearm delay switches interval (csr_instruction 0b01 csr_mtvec handler sent) in
      enables (csr_instruction 0b01 csr_mie (2 ^ 7) armed)

  -- main sends the two lines of its banner, points mtvec at its handler and enables the timer's
  -- interrupt. After n rounds of its loop and one more in which the switches read below 2 ^ 32,
  -- whatever the timing, it has also sent one line for every interrupt taken and nothing else, each
  -- line whole, and the LED register shows the switches as the last round read them.
  pub transcript :
      (taken : ℕ → ℕ × ℕ) (n handler : ℕ) (last : ℕ × ℕ) (b : Board)
      → let started = start delay switches handler b in
        let before = rounds delay switches taken n 0 started in
        let after = round delay switches last before in
        let read = (interrupts delay switches last.0 before).accesses in
        switches read < 2 ^ 32
        → (started.csr.mtvec ≡ handler)
          × (started.csr.mie_mtie ≡ true)
          × (started.csr.mstatus_mie ≡ true)
          × (after.sent ≡ b.sent ++ (banner ++ ticks (taken_in taken 0 n + (last.0 + last.1))))
          × (after.gpio.led_reg ≡ switches read)
  transcript taken n handler last b small =
      let started = start delay switches handler b in
      let before = rounds delay switches taken n 0 started in
      let earlier = taken_in taken 0 n in
      let (vector, timer, enabled) = start-csr handler b in
      let all : started.sent ++ (ticks earlier ++ ticks (last.0 + last.1))
          ≡ b.sent ++ (banner ++ ticks (earlier + (last.0 + last.1))) =
        ap (λ t. started.sent ++ t) (ticks_add earlier (last.0 + last.1))
        ∙ ap (λ s. s ++ ticks (earlier + (last.0 + last.1))) (start-sent handler b)
        ∙ ++_assoc b.sent banner (ticks (earlier + (last.0 + last.1))) in
      (
        vector,
        timer,
        enabled,
        round-sent last before
            ∙ ap (λ s. s ++ ticks (last.0 + last.1)) (rounds-sent taken n 0 started)
            ∙ ++_assoc started.sent (ticks earlier) (ticks (last.0 + last.1))
            ∙ all,
        round-led_reg last before small,
      )

  -- hello.c: its main stores the sum and the product, sends its greeting and PASS, and returns 0.
  hello_lem :
      (b : Board)
      → let (stored, b', code) = Hello.main delay switches b in
        (stored ≡ 55 ∷ 165 ∷ [])
        × (b'.sent ≡ b.sent ++ codes "hello from rv32i-core\r\nself-test: PASS\r\n")
        × (code ≡ 0)
  unfolding Hello.main for_loop bytes Sends
  hello_lem b =
      let greeting = codes "hello from rv32i-core\r\n" in
      let pass = codes "self-test: PASS\r\n" in
      let b₁ = uart_puts delay switches greeting b in
      (
        refl,
        (Sends-both greeting pass b b₁ (uart_puts delay switches pass b₁)
            (uart_puts-Sends delay switches greeting b) (uart_puts-Sends delay switches pass b₁)).0,
        refl,
      )
