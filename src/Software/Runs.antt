-- ===== src/Software/Runs.antt =====
-- sw/examples/timer_irq.c: when its main returns, and with what.
use rv32i_core.Prelude.{
  ℕ, zero, suc, ◌+◌, ◌^◌, ◌<◌, ◌≤◌, ◌≡◌, ◌↔◌, refl, ap, ◌∙◌, some, true, arith, ltb,
}
use rv32i_core.Word.{u32}
use rv32i_core.Dmem.{written}
use rv32i_core.Gpio
use rv32i_core.Software.{Board, pause, read_timer, write_timer, write_led}
use rv32i_core.Software.Rearm.{rearm}
use rv32i_core.Software.TimerIrq.{Counters, interval, trap_handler, interrupts, start, spin, result}

-- The LEDs show the number of interrupts, from the first one on.
abbrev Shown : Counters → Type 0
Shown s = 0 < s.handler_count → s.board.gpio.led_reg ≡ s.handler_count

-- The interrupts before the tests k to k + n - 1.
abbrev pub taken_in : (ℕ → ℕ) → ℕ → ℕ → ℕ
taken_in taken k zero = 0
taken_in taken k (suc n) = taken k + taken_in taken (k + 1) n

whole_word : (v old : ℕ) → v < 2 ^ 32 → written 0xF v old ≡ v
whole_word v old h = omega arith

module _ (delay switches : ℕ → ℕ) where
  write_led_lem : (v : ℕ) (b : Board) → v < 2 ^ 32 → (write_led delay switches v b).gpio.led_reg ≡ v
  unfolding write_led pause Gpio.posedge
  write_led_lem v b h = omega arith

  rearm-gpio : (b : Board) → (rearm delay switches interval b).gpio ≡ b.gpio
  unfolding rearm read_timer write_timer pause
  rearm-gpio b = refl

  trap_handler_lem :
      (s : Counters)
      → s.handler_count + 1 < 2 ^ 32
      → let s' = trap_handler delay switches s in
        (s'.handler_count ≡ s.handler_count + 1) × (s'.spin_count ≡ s.spin_count) × Shown s'
  unfolding trap_handler
  trap_handler_lem s h =
      let count = u32 (s.handler_count + 1) in
      let b = write_led delay switches count s.board in
      (
        omega arith,
        refl,
        λ _. ap (λ g. g.led_reg) (rearm-gpio b) ∙ write_led_lem count s.board (omega arith),
      )

  interrupts_lem :
      (n : ℕ) (s : Counters)
      → s.handler_count + n < 2 ^ 32
      → Shown s
      → let s' = interrupts delay switches n s in
        (s'.handler_count ≡ s.handler_count + n) × (s'.spin_count ≡ s.spin_count) × Shown s'
  unfolding interrupts
  interrupts_lem zero s h shown = (omega arith, refl, shown)
  interrupts_lem (suc n) s h shown =
      let (count, spins, shown') = trap_handler_lem s (omega arith) in
      let (count', spins', shown'') =
        interrupts_lem n (trap_handler delay switches s) (omega arith) shown' in
      (omega arith, spins' ∙ spins, shown'')

  spin_lem :
      (taken : ℕ → ℕ) (n extra k : ℕ) (s : Counters)
      → s.handler_count + taken_in taken k n < 5
      → 5 ≤ s.handler_count + taken_in taken k (suc n)
      → s.handler_count + taken_in taken k (suc n) < 2 ^ 32
      → s.spin_count + n < 2 ^ 32
      → Shown s
      → (s' : Counters) × (spin delay switches taken (suc (n + extra)) k s ≡ some s')
        × (s'.handler_count ≡ s.handler_count + taken_in taken k (suc n))
        × (s'.spin_count ≡ s.spin_count + n)
        × Shown s'
  unfolding spin
  spin_lem taken zero extra k s before after small spins shown =
      let (count, spins', shown') = interrupts_lem (taken k) s (omega arith) shown in
      (interrupts delay switches (taken k) s, ground arith, omega arith, omega arith, shown')
  spin_lem taken (suc n) extra k s before after small spins shown =
      let (count, spins', shown') = interrupts_lem (taken k) s (omega arith) shown in
      let next : Counters = record (interrupts delay switches (taken k) s) {
        spin_count = u32 ((interrupts delay switches (taken k) s).spin_count + 1);
      } in
      let (s', runs, count', spins'', shown'') =
        spin_lem taken n extra (k + 1) next (omega arith) (omega arith) (omega arith) (omega arith)
          shown' in
      let fuel : suc n + extra ≡ suc (n + extra) = omega arith in
      let more : ltb (interrupts delay switches (taken k) s).handler_count 5 ≡ true =
        ground arith in
      (s', rw fuel rw more runs, omega arith, omega arith, shown'')

  -- Whatever the timing, if fewer than five interrupts are taken before the first n tests of the loop
  -- and five or more before the next one, and n and the number of interrupts are below 2 ^ 32, then
  -- with fuel for that test main ends its loop there: it has counted n rounds and all the interrupts,
  -- the LED register holds their number, and main returns 0 unless n is 0.
  pub spin_returns :
      (taken : ℕ → ℕ) (n extra handler : ℕ) (b : Board)
      → taken_in taken 0 n < 5
      → 5 ≤ taken_in taken 0 (suc n)
      → taken_in taken 0 (suc n) < 2 ^ 32
      → n < 2 ^ 32
      → (s : Counters) × (spin delay switches taken
            (suc (n + extra))
            0
            (start delay switches handler b)
          ≡ some s)
        × (s.handler_count ≡ taken_in taken 0 (suc n))
        × (s.spin_count ≡ n)
        × (s.board.gpio.led_reg ≡ taken_in taken 0 (suc n))
        × ((result delay switches s ≡ 0) ↔ (0 < n))
  unfolding start
  spin_returns taken n extra handler b before after small spins =
      let (s, runs, count, spin_count, shown) =
        spin_lem taken n extra 0 (start delay switches handler b) (omega arith) (omega arith)
          (omega arith) (omega arith) (λ none_yet. absurd (omega arith)) in
      (
        s,
        runs,
        omega arith,
        omega arith,
        shown (omega arith) ∙ omega arith,
        (λ e. ground arith, λ e. ground arith),
      )
