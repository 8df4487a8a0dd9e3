-- ===== src/Software/Rearm.antt =====
-- sw/examples/soc_demo.c and timer_irq.c: rearm, the same text in both.
use rv32i_core.Prelude.{ℕ, ◌+◌}
use rv32i_core.Word.{u32, u64, ◌<<◌, ◌>>◌, ◌∣◌}
use rv32i_core.Software.{Board, read_timer, write_timer}

module _ (delay switches : ℕ → ℕ) (interval : ℕ) where
  unfoldable pub rearm : Board → Board
  unfolding read_timer write_timer
  rearm b =
      let (lo, b₁) = read_timer delay switches 0x0 b in
      let (hi, b₂) = read_timer delay switches 0x4 b₁ in
      let now = (hi << 32) ∣ lo in
      let next = u64 (now + interval) in
      write_timer delay switches 0x8 (u32 next)
        (write_timer delay switches 0xC (u32 (next >> 32)) b₂)
