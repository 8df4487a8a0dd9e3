-- ===== src/Timer/Bench.antt =====
-- sim/verilator/tb_timer.cpp: main, over a bus that makes the transfers.
use rv32i_core.Prelude.{ℕ, zero, suc, ◌+◌, ◌-◌, ◌%◌, ◌^◌, Bool, true, false, ltb, leb, ◌|>◌, bit}
use rv32i_core.Word.{u32, u64, ◌<<◌, ◌>>◌, ◌∣◌}
use rv32i_core.Tb.{Tb, initial, tb_begin, tb_check, finish}
use rv32i_core.Tb.Loop.{for_loop}
use rv32i_core.RegIf.{RegIf, System}
use rv32i_core.RegIf.Transfer
use rv32i_core.RegIf.Transfer.{Bus, opening, check_read}
use rv32i_core.Timer.{Timer, timer_irq, timer}

abbrev pub reg_mtime_lo : ℕ
reg_mtime_lo = 0x0

abbrev pub reg_mtime_hi : ℕ
reg_mtime_hi = 0x4

abbrev pub reg_mtimecmp_lo : ℕ
reg_mtimecmp_lo = 0x8

abbrev pub reg_mtimecmp_hi : ℕ
reg_mtimecmp_hi = 0xC

-- CHECK_EQ(condition, true).
abbrev pub check_true : {D : Type 0} → Bool → Tb D → Tb D
check_true b s = tb_check (bit b) 1 s

-- The difference of two uint64_t.
abbrev pub minus64 : ℕ → ℕ → ℕ
minus64 a b = (a + 2 ^ 64 - b) % 2 ^ 64

module _ {D : Type 0} (bus : Bus D) where
  unfoldable pub read_mtime : Tb D → ℕ × Tb D
  read_mtime s =
      let (lo, s₁) = bus.read reg_mtime_lo s in
      let (hi, s₂) = bus.read reg_mtime_hi s₁ in ((hi << 32) ∣ lo, s₂)

  unfoldable pub write_mtimecmp : ℕ → ℕ → Tb D → Tb D
  write_mtimecmp lo hi s = s |> bus.write reg_mtimecmp_lo lo 0xF |> bus.write reg_mtimecmp_hi hi 0xF

-- `irq` reads the interrupt line.
module _ {D : Type 0} (bus : Bus D) (irq : Tb D → Bool) where
  unfoldable pub check_irq : Bool → Tb D → Tb D
  check_irq want s = tb_check (bit (irq s)) (bit want) s

  -- while (!d.timer_irq && guard < 200) { tb.tick(); guard++; }, with the rounds that guard leaves.
  unfoldable pub wait_irq : ℕ → Tb D → Tb D
  wait_irq zero s = s
  wait_irq (suc left) s = elim (irq s) [ true ↦ s | false ↦ wait_irq left (bus.clock s) ]

  unfoldable pub section_1 : Tb D → Tb D
  section_1 s =
      let (lo, s₁) =
        bus.read reg_mtime_lo
          (tb_begin "1. mtime free-runs from 0, mtimecmp resets to all-ones" s) in
      s₁
      |> check_true (ltb lo 10)
      |> check_read bus reg_mtimecmp_lo 0xFFFFFFFF
      |> check_read bus reg_mtimecmp_hi 0xFFFFFFFF
      |> check_irq false

  unfoldable pub section_2 : Tb D → Tb D
  section_2 s =
      let (t₀, s₁) =
        read_mtime bus (tb_begin "2. mtime advances by roughly the number of cycles elapsed" s) in
      let (t₁, s₂) = read_mtime bus (for_loop 100 0 (λ i. bus.clock) s₁) in
      s₂
      |> check_true (ltb t₀ t₁)
      |> check_true (leb 100 (minus64 t₁ t₀))
      |> check_true (ltb (minus64 t₁ t₀) 200)

  -- The alarm of sections 3 and 4, `delay` cycles ahead: the target, and the bench afterwards.
  unfoldable pub alarm : ℕ → Tb D → ℕ × Tb D
  alarm delay s =
      let (now, s₁) = read_mtime bus s in
      let target = u64 (now + delay) in
      (
        target,
        s₁
            |> write_mtimecmp bus (u32 target) (u32 (target >> 32))
            |> check_irq false
            |> wait_irq 200
            |> check_irq true,
      )

  unfoldable pub section_3 : Tb D → Tb D
  section_3 s =
      let (target, s₁) = alarm 20 (tb_begin "3. timer_irq asserts when mtime reaches mtimecmp" s) in
      let (fired_at, s₂) = read_mtime bus s₁ in check_true (leb target fired_at) s₂

  unfoldable pub section_4 : Tb D → Tb D
  section_4 s = (alarm 30 (tb_begin "4. re-arming mtimecmp forward clears the interrupt" s)).1

  unfoldable pub section_5 : Tb D → Tb D
  section_5 s =
      s
      |> tb_begin "5. writing mtimecmp back below mtime keeps irq asserted"
      |> write_mtimecmp bus 0 0
      |> check_irq true

  unfoldable pub section_6 : Tb D → Tb D
  section_6 s =
      let (after_set, s₁) =
        s
        |> tb_begin "6. writes to mtime itself take effect"
        |> write_mtimecmp bus 0xFFFFFFFF 0xFFFFFFFF
        |> bus.write reg_mtime_hi 0x00000001 0xF
        |> bus.write reg_mtime_lo 0x00000000 0xF
        |> read_mtime bus in
      s₁ |> check_true (leb 0x100000000 after_set) |> check_true (ltb after_set 0x100000100)

  unfoldable pub section_7 : Tb D → Tb D
  section_7 s =
      s
      |> tb_begin "7. high/low halves are independently addressable"
      |> write_mtimecmp bus 0x12345678 0x9ABCDEF0
      |> check_read bus reg_mtimecmp_lo 0x12345678
      |> check_read bus reg_mtimecmp_hi 0x9ABCDEF0

  unfoldable pub sections : Tb D → Tb D
  sections s =
      s |> section_1 |> section_2 |> section_3 |> section_4 |> section_5 |> section_6 |> section_7

module _ {S : Type 0} (r : RegIf S) where
  abbrev pub axil_write : ℕ → ℕ → ℕ → Tb (System S Timer) → Tb (System S Timer)
  axil_write addr value strb s = Transfer.axil_write r timer addr value strb s

  abbrev pub axil_read : ℕ → Tb (System S Timer) → ℕ × Tb (System S Timer)
  axil_read addr s = Transfer.axil_read r timer addr s

  -- The bus of the sections, and tb.tick().
  abbrev pub bus : Bus (System S Timer)
  bus = record { write = axil_write; read = axil_read; clock = Transfer.clock r timer }

  abbrev pub irq_line : Tb (System S Timer) → Bool
  unfolding timer_irq
  irq_line s = timer_irq s.dut.dev

  -- main up to `return tb.finish()`.
  unfoldable pub run : System S Timer → Tb (System S Timer)
  run x = initial x |> opening r timer |> sections bus irq_line

  unfoldable pub main : System S Timer → ℕ
  main x = finish (run x)
