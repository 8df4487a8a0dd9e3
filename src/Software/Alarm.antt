-- ===== src/Software/Alarm.antt =====
-- sw/examples/soc_demo.c and timer_irq.c: when the interrupt that rearm sets comes.
use rv32i_core.Prelude.{
  ℕ, ◌+◌, ◌*◌, ◌/◌, ◌%◌, ◌^◌, ◌<◌, ◌≡◌, refl, ◌∙◌, ltb, leb, if◌then◌else◌, arith,
}
use rv32i_core.Word.{u32, u64, ◌<<◌, ◌>>◌, ◌∣◌}
use rv32i_core.Word.Bits.{or_disjoint}
use rv32i_core.Timer
use rv32i_core.Timer.{Timer, timer_irq}
use rv32i_core.Timer.Laws.{wait, wait-registers}
use rv32i_core.Software.{Board, pause, read_timer, write_timer}
use rv32i_core.Software.Rearm.{rearm}

-- The registers of the timer.
abbrev Holds : Timer → ℕ → ℕ → Type 0
Holds t m c = (t.mtime ≡ m) × (t.mtimecmp ≡ c)

module _ (delay switches : ℕ → ℕ) where
  read_timer_lem :
      (a : ℕ) (b : Board) {m c : ℕ}
      → Holds b.timer m c
      → m + delay b.accesses + 1 < 2 ^ 64
      → Holds (read_timer delay switches a b).1.timer (m + delay b.accesses + 1) c
        × ((read_timer delay switches a b).1.accesses ≡ b.accesses + 1)
        × (a ≡ 0 → (read_timer delay switches a b).0 ≡ (m + delay b.accesses) % 2 ^ 32)
        × (a ≡ 4 → (read_timer delay switches a b).0 ≡ (m + delay b.accesses) / 2 ^ 32)
  unfolding read_timer pause Timer.posedge Timer.reg_rd_data
  read_timer_lem a b h below =
      let n = delay b.accesses in
      let (m', c') = wait-registers n b.timer (omega arith) in
      ((omega arith, c' ∙ h.1), refl, λ e. rw e (omega arith), λ e. rw e (omega arith))

  write_timer_lem :
      (v : ℕ) (b : Board) {m c : ℕ}
      → Holds b.timer m c
      → v < 2 ^ 32
      → c < 2 ^ 64
      → m + delay b.accesses + 1 < 2 ^ 64
      → Holds
          (write_timer delay switches 0x8 v b).timer
          (m + delay b.accesses + 1)
          (c / 2 ^ 32 * 2 ^ 32 + v)
        × Holds
            (write_timer delay switches 0xC v b).timer
            (m + delay b.accesses + 1)
            (v * 2 ^ 32 + c % 2 ^ 32)
  unfolding write_timer pause Timer.posedge
  write_timer_lem v b h hv hc below =
      let n = delay b.accesses in
      let (m', c') = wait-registers n b.timer (omega arith) in
      ((omega arith, omega arith), (omega arith, omega arith))

  -- What rearm leaves, from the counts at which it reads the two halves.
  rearm-Holds :
      (interval : ℕ) (b : Board) {m c : ℕ}
      → Holds b.timer m c
      → c < 2 ^ 64
      → let low_at = m + delay b.accesses in
        let high_at = low_at + 1 + delay (b.accesses + 1) in
        let end = high_at + 3 + delay (b.accesses + 1 + 1) + delay (b.accesses + 1 + 1 + 1) in
        end < 2 ^ 64
        → Holds
            (rearm delay switches interval b).timer
            end
            (u64 (high_at / 2 ^ 32 * 2 ^ 32 + low_at % 2 ^ 32 + interval))
  unfolding rearm
  rearm-Holds interval b {m} {c} h hc below =
      let n₀ = delay b.accesses in
      let n₁ = delay (b.accesses + 1) in
      let n₂ = delay (b.accesses + 1 + 1) in
      let low_at = m + n₀ in
      let high_at = low_at + 1 + n₁ in
      let b₁ = (read_timer delay switches 0x0 b).1 in
      let (h₁, _, low, _) = read_timer_lem 0x0 b h (omega arith) in
      let b₂ = (read_timer delay switches 0x4 b₁).1 in
      let (h₂, _, _, high) = read_timer_lem 0x4 b₁ h₁ (omega arith) in
      let now : ((read_timer delay switches 0x4 b₁).0 << 32) ∣ (read_timer delay switches 0x0 b).0
          ≡ high_at / 2 ^ 32 * 2 ^ 32 + low_at % 2 ^ 32 =
        rw (low refl) rw (high refl) (or_disjoint 32 _ _ (omega arith) (omega arith)) in
      let next = u64 (high_at / 2 ^ 32 * 2 ^ 32 + low_at % 2 ^ 32 + interval) in
      let b₃ = write_timer delay switches 0xC (u32 (next >> 32)) b₂ in
      let in₂ : high_at + 1 + delay (b.accesses + 1 + 1) + 1 < 2 ^ 64 = omega arith in
      let (_, h₃) = write_timer_lem (u32 (next >> 32)) b₂ h₂ (omega arith) hc in₂ in
      let in₃ : high_at + 1 + n₂ + 1 + delay (b.accesses + 1 + 1 + 1) + 1 < 2 ^ 64 = omega arith in
      let (h₄, _) = write_timer_lem (u32 next) b₃ h₃ (omega arith) (omega arith) in₃ in
      let written : Holds (write_timer delay switches 0x8 (u32 next) b₃).timer
          (high_at + 3 + n₂ + delay (b.accesses + 1 + 1 + 1)) next =
        (omega arith, h₄.1 ∙ omega arith) in
      rw now written

  -- If the 64-bit counter does not wrap and fewer than 2 ^ 32 cycles pass between the reads of its
  -- halves, rearm moves mtimecmp to `interval` cycles after the count at which it reads the low half, if the low half does not wrap before it reads the high half; if it
  -- does, to 2 ^ 32 cycles later. So n cycles after rearm the interrupt line is high exactly if the
  -- count has come that far.
  pub rearm-timer_irq :
      (interval n : ℕ) (b : Board)
      → let low_at = b.timer.mtime + delay b.accesses in
        let between = delay (b.accesses + 1) + 1 in
        let end =
          low_at + between + 3 + delay (b.accesses + 1 + 1) + delay (b.accesses + 1 + 1 + 1) in
        let target =
          if ltb (low_at % 2 ^ 32 + between) (2 ^ 32)
          then low_at + interval
          else low_at + 2 ^ 32 + interval in
        b.timer.mtimecmp < 2 ^ 64
        → between < 2 ^ 32
        → end + n + 2 ^ 32 + interval < 2 ^ 64
        → ((rearm delay switches interval b).timer.mtimecmp ≡ target)
          × ((wait n (rearm delay switches interval b).timer).mtime ≡ end + n)
          × (timer_irq (wait n (rearm delay switches interval b).timer) ≡ leb target (end + n))
  unfolding timer_irq
  rearm-timer_irq interval n b hc short below =
      let low_at = b.timer.mtime + delay b.accesses in
      let between = delay (b.accesses + 1) + 1 in
      let end =
        low_at + between + 3 + delay (b.accesses + 1 + 1) + delay (b.accesses + 1 + 1 + 1) in
      let target =
        if ltb (low_at % 2 ^ 32 + between) (2 ^ 32)
        then low_at + interval
        else low_at + 2 ^ 32 + interval in
      let after = (rearm delay switches interval b).timer in
      let (count, compare) = rearm-Holds interval b (refl, refl) hc (omega arith) in
      let set : after.mtimecmp ≡ target = ground (arith, compare) in
      let (m, c) = wait-registers n after (omega arith) in
      let m' : (wait n after).mtime ≡ end + n = omega arith in
      let c' : (wait n after).mtimecmp ≡ target = c ∙ set in (set, m', rw m' rw c' refl)
