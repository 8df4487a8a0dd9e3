-- ===== src/Gpio/Sections.antt =====
-- The sections of sim/verilator/tb_gpio.cpp do the same over two buses that agree.
use rv32i_core.Prelude.{ℕ, ◌≡◌, refl}
use rv32i_core.Tb.{Tb, rnd, rnd_range}
use rv32i_core.Tb.Loop.{for_loop_rel}
use rv32i_core.RegIf.Transfer.{Bus}
use rv32i_core.RegIf.Bench.{Simulates}
use rv32i_core.Gpio.Bench.{
  Shadowed, Ports, check_led, section_1, section_2, section_3, section_4, round_5, section_5,
  written_round, switch_round, round_6, section_6, sections,
}

-- The sections of main keep any relation that the statements keep.
module _ {D E : Type 0} (R : Tb D → Tb E → Type 0) (b : Bus D) (c : Bus E) (sim : Simulates R b c)
    (p : Ports D) (q : Ports E)
    (set_sw : (v : ℕ) (s : Tb D) (t : Tb E) → R s t → R (p.set_sw v s) (q.set_sw v t))
    (led : (s : Tb D) (t : Tb E) → R s t → q.led t ≡ p.led s) where
  check_led-R :
      (want : ℕ) (s : Tb D) (t : Tb E) → R s t → R (check_led p want s) (check_led q want t)
  unfolding check_led
  check_led-R want s t h = rw (led s t h) (sim.check (p.led s) want s t h)

  -- Sections 1 to 4.
  directed-R :
      (s : Tb D) (t : Tb E)
      → R s t
      → R
          (section_4 b p (section_3 b p (section_2 b p (section_1 b p s))))
          (section_4 c q (section_3 c q (section_2 c q (section_1 c q t))))
  unfolding section_1 section_2 section_3 section_4
  directed-R s t h =
      search (sim.write, sim.check_read, sim.begin, check_led-R, set_sw) depth 60 fits 100000

  section_5-R : (s : Tb D) (t : Tb E) → R s t → R (section_5 b p s) (section_5 c q t)
  unfolding section_5 round_5
  section_5-R s t h =
      for_loop_rel R (round_5 b p) (round_5 c q) (λ i s t h. search (sim.write, sim.check_read)) 50
        0 _ _ (sim.begin _ s t h)

  abbrev Shadows : Shadowed D → Shadowed E → Type 0
  Shadows s t = R s.tb t.tb × (t.model ≡ s.model)

  module _ (rng : ℕ → ℕ) where
    written_round-R :
        (v strb : ℕ) (s : Shadowed D) (t : Shadowed E)
        → Shadows s t
        → Shadows (written_round b p rng v strb s) (written_round c q rng v strb t)
    unfolding written_round
    written_round-R v strb s t (h, e) =
        (rw e (search (sim.write, sim.check_read, check_led-R, h) depth 10), rw e refl)

    switch_round-R :
        (sw : ℕ) (s : Tb D) (t : Tb E)
        → R s t
        → R (switch_round b p rng sw s) (switch_round c q rng sw t)
    unfolding switch_round
    switch_round-R sw s t h = search (sim.check_read, set_sw)

    round_6-R :
        (i : ℕ) (s : Shadowed D) (t : Shadowed E)
        → Shadows s t
        → Shadows (round_6 b p rng i s) (round_6 c q rng i t)
    unfolding round_6
    round_6-R i s t (h, e) =
        let (v, h₁) = sim.draw rng s.tb t.tb h in
        let (strb, h₂) = sim.draw_range rng 1 15 _ _ h₁ in
        let (h₃, same) =
          written_round-R (rnd rng s.tb).0 (rnd_range rng 1 15 (rnd rng s.tb).1).0
            (record { tb = (rnd_range rng 1 15 (rnd rng s.tb).1).1; model = s.model })
            (record { tb = (rnd_range rng 1 15 (rnd rng t.tb).1).1; model = t.model }) (h₂, e) in
        let (sw, h₄) = sim.draw rng _ _ h₃ in rw v rw strb (rw sw (switch_round-R _ _ _ h₄), same)

    pub sections-R : (s : Tb D) (t : Tb E) → R s t → R (sections b p rng s) (sections c q rng t)
    unfolding sections section_6
    sections-R s t h =
        (for_loop_rel Shadows (round_6 b p rng) (round_6 c q rng) round_6-R 500 0 _ _
          (sim.begin _ _ _ (section_5-R _ _ (directed-R s t h)), refl)).0
