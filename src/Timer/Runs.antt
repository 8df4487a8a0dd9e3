-- ===== src/Timer/Runs.antt =====
-- The bench of sim/verilator/tb_timer.cpp passes over any register interface with its handshake.
use rv32i_core.Prelude.{ℕ, zero, suc, ◌≡◌, refl, ap, ◌∙◌, Bool, true, leb, Bool-cases, inl, inr}
use rv32i_core.Tb.{Tb, initial, tb_begin, tb_check}
use rv32i_core.Tb.Report.{finish_passed}
use rv32i_core.Tb.Loop.{for_loop, for_loop_rel}
use rv32i_core.RegIf.{RegIf, WriteIdle, ReadIdle, IsHandshake, System}
use rv32i_core.RegIf.Transfer.{Bus, axil_bus, check_read}
use rv32i_core.RegIf.Follow.{Follows, model_bus, opening_model}
use rv32i_core.RegIf.Bench.{Simulates, Follows-Simulates, opening-Follows}
use rv32i_core.Timer.{Timer, timer_irq, timer}
use rv32i_core.Timer.Counter.{Counter, counter, Shows, timer_law}
use rv32i_core.Timer.Bench.{
  read_mtime, write_mtimecmp, check_irq, wait_irq, section_1, section_2, alarm, section_3,
  section_4, section_5, section_6, section_7, sections, irq_line, run, main, check_true,
}

-- The sections of main keep any relation that the statements keep.
module _ {D E : Type 0} (R : Tb D → Tb E → Type 0) (b : Bus D) (c : Bus E) (sim : Simulates R b c)
    (p : Tb D → Bool) (q : Tb E → Bool) (irq : (s : Tb D) (t : Tb E) → R s t → q t ≡ p s) where
  -- Two values with the benches that computed them.
  abbrev Returns : ℕ × Tb D → ℕ × Tb E → Type 0
  Returns s t = (t.0 ≡ s.0) × R s.1 t.1

  read_mtime-R : (s : Tb D) (t : Tb E) → R s t → Returns (read_mtime b s) (read_mtime c t)
  unfolding read_mtime
  read_mtime-R s t h =
      let (lo, h₁) = sim.read 0x0 s t h in
      let (hi, h₂) = sim.read 0x4 _ _ h₁ in (rw lo rw hi refl, h₂)

  write_mtimecmp-R :
      (lo hi : ℕ) (s : Tb D) (t : Tb E)
      → R s t
      → R (write_mtimecmp b lo hi s) (write_mtimecmp c lo hi t)
  unfolding write_mtimecmp
  write_mtimecmp-R lo hi s t h = search sim.write

  check_irq-R :
      (want : Bool) (s : Tb D) (t : Tb E) → R s t → R (check_irq b p want s) (check_irq c q want t)
  unfolding check_irq
  check_irq-R want s t h = rw (irq s t h) (sim.check _ _ s t h)

  wait_irq-R :
      (left : ℕ) (s : Tb D) (t : Tb E) → R s t → R (wait_irq b p left s) (wait_irq c q left t)
  unfolding wait_irq
  wait_irq-R zero s t h = h
  wait_irq-R (suc left) s t h = elim (Bool-cases (p s)) [
    | inl on ↦ rw (on, wait_irq) rw (irq s t h ∙ on, wait_irq) h
    | inr off ↦
        rw (off, wait_irq) rw (irq s t h ∙ off, wait_irq) (wait_irq-R left _ _ (sim.clock s t h))
  ]

  alarm-R :
      (delay : ℕ) (s : Tb D) (t : Tb E) → R s t → Returns (alarm b p delay s) (alarm c q delay t)
  unfolding alarm
  alarm-R delay s t h =
      let (now, h₁) = read_mtime-R s t h in
      rw now (refl, search (write_mtimecmp-R, check_irq-R, wait_irq-R, h₁) depth 10)

  check_true-R : (x : Bool) (s : Tb D) (t : Tb E) → R s t → R (check_true x s) (check_true x t)
  check_true-R x s t h = sim.check _ 1 s t h

  section_1-R : (s : Tb D) (t : Tb E) → R s t → R (section_1 b p s) (section_1 c q t)
  unfolding section_1
  section_1-R s t h =
      let (lo, h₁) =
        sim.read 0x0 _ _
          (sim.begin "1. mtime free-runs from 0, mtimecmp resets to all-ones" s t h) in
      rw lo (search (check_true-R, sim.check_read, check_irq-R, h₁) depth 10)

  section_2-R : (s : Tb D) (t : Tb E) → R s t → R (section_2 b p s) (section_2 c q t)
  unfolding section_2
  section_2-R s t h =
      let (t₀, h₁) =
        read_mtime-R _ _
          (sim.begin "2. mtime advances by roughly the number of cycles elapsed" s t h) in
      let waited = for_loop_rel R (λ i. b.clock) (λ i. c.clock) (λ i. sim.clock) 100 0 _ _ h₁ in
      let (t₁, h₂) = read_mtime-R _ _ waited in rw t₀ rw t₁ (search (check_true-R, h₂) depth 10)

  section_3-R : (s : Tb D) (t : Tb E) → R s t → R (section_3 b p s) (section_3 c q t)
  unfolding section_3
  section_3-R s t h =
      let (target, h₁) =
        alarm-R 20 _ _ (sim.begin "3. timer_irq asserts when mtime reaches mtimecmp" s t h) in
      let (fired_at, h₂) = read_mtime-R _ _ h₁ in rw target rw fired_at (check_true-R _ _ _ h₂)

  section_6-R : (s : Tb D) (t : Tb E) → R s t → R (section_6 b p s) (section_6 c q t)
  unfolding section_6
  section_6-R s t h =
      let set = sim.write 0x0 0 0xF _ _ (
        sim.write 0x4 1 0xF _ _ (
          write_mtimecmp-R 0xFFFFFFFF 0xFFFFFFFF _ _
            (sim.begin "6. writes to mtime itself take effect" s t h))) in
      let (after_set, h₁) = read_mtime-R _ _ set in
      rw after_set (search (check_true-R, h₁) depth 10)

  sections-R : (s : Tb D) (t : Tb E) → R s t → R (sections b p s) (sections c q t)
  unfolding sections section_4 section_5 section_7
  sections-R s t h =
      let h₃ = section_3-R _ _ (section_2-R _ _ (section_1-R s t h)) in
      let (_, h₄) =
        alarm-R 30 _ _ (sim.begin "4. re-arming mtimecmp forward clears the interrupt" _ _ h₃) in
      let h₅ = check_irq-R true _ _ (
        write_mtimecmp-R 0 0 _ _
          (sim.begin "5. writing mtimecmp back below mtime keeps irq asserted" _ _ h₄)) in
      search (write_mtimecmp-R, sim.check_read, sim.begin, section_6-R, h₅) depth 20

abbrev counter_irq : Tb Counter → Bool
counter_irq s = leb s.dut.mtimecmp s.dut.mtime

sections_lem :
    (m : Counter)
    → let s = sections (model_bus counter) counter_irq (opening_model counter (initial m)) in
      (s.checks ≡ 17) × (s.fails ≡ 0)
unfolding sections section_1 section_2 section_3 section_4 section_5 section_6 section_7 alarm
    read_mtime write_mtimecmp check_irq wait_irq for_loop check_read tb_check tb_begin initial
sections_lem m = (refl, refl)

-- From any state of the design at power-on in which the register interface is idle, the timer bench
-- makes its 17 checks, none of them fails, and it exits with status 0.
pub timer_run_passes :
    {S : Type 0} (r : RegIf S)
    → IsHandshake r
    → (x : System S Timer) → WriteIdle r x.regs
    → ReadIdle r x.regs
    → ((run r x).checks ≡ 17) × ((run r x).fails ≡ 0) × (main r x ≡ 0)
unfolding run main initial timer_irq
timer_run_passes r bus x write read =
    let m : Counter = record { mtime = x.dev.mtime; mtimecmp = x.dev.mtimecmp } in
    let opened =
      opening-Follows r bus timer counter timer_law (initial m) (initial x) write read (refl, refl)
        refl in
    let agree = Follows-Simulates r bus timer counter timer_law in
    let follows =
      sections-R (Follows r Shows) (model_bus counter) (axil_bus r timer) agree counter_irq
        (irq_line r) (λ s t h. rw h.shows.0 rw h.shows.1 refl) _ _ opened in
    let (checks, fails) = sections_lem m in
    let clean = ap (λ l. l.fails) follows.logs ∙ fails in
    (ap (λ l. l.checks) follows.logs ∙ checks, clean, finish_passed (run r x) clean)
