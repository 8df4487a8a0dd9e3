-- ===== src/Timer/Laws.antt =====
-- rtl/soc/timer.v: when the interrupt comes, and what the registers hold.
use rv32i_core.Prelude.{
  ℕ, zero, suc, ◌+◌, ◌*◌, ◌/◌, ◌%◌, ◌==◌, if◌then◌else◌, ◌^◌, ◌<◌, ◌≡◌, refl, ◌∙◌, arith, true,
  false, leb,
}
use rv32i_core.Word.{slice}
use rv32i_core.Timer.{Timer, posedge, timer_irq, reg_rd_data}

-- One clock cycle out of reset: with a write, or without.
abbrev pub writing : ℕ → ℕ → Timer → Timer
writing addr word d =
    posedge (record d { rst_n = true; reg_wr_en = true; reg_wr_addr = addr; reg_wr_data = word })

abbrev pub waiting : Timer → Timer
waiting d = posedge (record d { rst_n = true; reg_wr_en = false })

abbrev pub wait : ℕ → Timer → Timer
wait zero d = d
wait (suc n) d = wait n (waiting d)

pub wait-registers :
    (n : ℕ) (d : Timer)
    → d.mtime + n < 2 ^ 64
    → ((wait n d).mtime ≡ d.mtime + n) × ((wait n d).mtimecmp ≡ d.mtimecmp)
unfolding posedge
wait-registers zero d h = (omega arith, refl)
wait-registers (suc n) d h =
    let one : (waiting d).mtime ≡ d.mtime + 1 = omega arith in
    let (m, c) = wait-registers n (waiting d) (omega arith) in (omega arith, c)

-- Whatever the registers hold, software that writes the low and then the high half of a 64-bit
-- target to mtimecmp, and then n cycles without a write, leave the interrupt line high exactly if
-- mtime has reached the target, as long as mtime does not wrap; mtime has counted every cycle.
pub alarm-timer_irq :
    (target n : ℕ) (d : Timer)
    → target < 2 ^ 64
    → d.mtime + 2 + n < 2 ^ 64
    → let set = writing 12 (slice target 32 32) (writing 8 (slice target 0 32) d) in
      (timer_irq (wait n set) ≡ leb target (d.mtime + 2 + n))
      × ((wait n set).mtime ≡ d.mtime + 2 + n)
      × ((wait n set).mtimecmp ≡ target)
unfolding timer_irq posedge
alarm-timer_irq target n d ht h =
    let set = writing 12 (slice target 32 32) (writing 8 (slice target 0 32) d) in
    let counted : set.mtime ≡ d.mtime + 2 = omega arith in
    let stored : set.mtimecmp ≡ target = omega arith in
    let (m, c) = wait-registers n set (omega arith) in
    let m' : (wait n set).mtime ≡ d.mtime + 2 + n = omega arith in
    let c' : (wait n set).mtimecmp ≡ target = c ∙ stored in (rw m' rw c' refl, m', c')

-- Half number 0 or 1 of a 64-bit register.
abbrev pub half : ℕ → ℕ → ℕ
half n x = if n == 0 then x % 2 ^ 32 else x / 2 ^ 32 % 2 ^ 32

-- After a write of a word to one of the four registers, a read of the same register finds the word;
-- a read of the other half of the written 64-bit register finds it as it was; and a read of a half of
-- the other 64-bit register finds mtimecmp as it was or mtime one count later.
pub write-reg_rd_data :
    (wr rd word : ℕ) (d : Timer)
    → wr < 4
    → rd < 4
    → word < 2 ^ 32
    → reg_rd_data (record (writing (4 * wr) word d) { reg_rd_addr = 4 * rd }) ≡ (
        if rd == wr
        then word
        else if rd / 2 == 1
        then half (rd % 2) d.mtimecmp
        else half (rd % 2) (if wr / 2 == 0 then d.mtime else d.mtime + 1))
unfolding posedge reg_rd_data
write-reg_rd_data zero rd word d hw hr h = ground arith
write-reg_rd_data (suc zero) rd word d hw hr h = ground arith
write-reg_rd_data (suc (suc zero)) rd word d hw hr h = ground arith
write-reg_rd_data (suc (suc (suc zero))) rd word d hw hr h = ground arith
write-reg_rd_data (suc (suc (suc (suc wr)))) rd word d hw hr h = absurd (omega arith)
