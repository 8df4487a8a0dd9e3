-- ===== src/Gpio/Runs.antt =====
-- When the bench of sim/verilator/tb_gpio.cpp passes, over any register interface with its
-- handshake.
use native.Mathlib.Decide.{ℕ_discrete}
use rv32i_core.Prelude.{
  ℕ, zero, suc, ◌+◌, ◌*◌, ◌%◌, ◌^◌, ◌<◌, ◌≤◌, ◌≡◌, ◌≢◌, ◌↔◌, refl, sym, ap, ◌∙◌, arith, bit_and,
  ◌|>◌,
}
use rv32i_core.Word.{u32, slice}
use rv32i_core.Word.Bits.{and_low}
use rv32i_core.Dmem.{written}
use rv32i_core.Dmem.Words.{written-lt}
use rv32i_core.Tb.{Tb, initial, tb_begin, tb_check, drive, rnd, rnd_range}
use rv32i_core.Tb.Report.{tb_check-Passed, finish_iff}
use rv32i_core.Tb.Loop.{for_loop}
use rv32i_core.RegIf.{RegIf, WriteIdle, ReadIdle, IsHandshake, System}
use rv32i_core.RegIf.Transfer.{axil_bus, check_read}
use rv32i_core.RegIf.Follow.{Follows, model_bus, opening_model}
use rv32i_core.RegIf.Bench.{Follows-Simulates, opening-Follows}
use rv32i_core.Gpio.{Gpio, gpio}
use rv32i_core.Gpio.Shadow.{put_lanes-written}
use rv32i_core.Gpio.Panel.{Panel, panel, Shows, gpio_law}
use rv32i_core.Gpio.Sections.{sections-R}
use rv32i_core.Gpio.Bench.{
  Shadowed, Ports, check_led, put_lanes, section_1, section_2, section_3, section_4, round_5,
  section_5, written_round, switch_round, round_6, section_6, sections, gpio_ports, run, main,
}

abbrev panel_ports : Ports Panel
panel_ports = record {
  set_sw = λ v s. record s { dut = record s.dut { sw = v } };
  led = λ s. slice s.dut.leds 0 16;
}

-- What a round of section 6 does at the panel.
record Rounds (leds model checks : ℕ) (s s' : Shadowed Panel) : Type 0 where
  leds_are : s'.tb.dut.leds ≡ leds
  model_is : s'.model ≡ model
  counted : s'.tb.checks ≡ s.tb.checks + checks
  agreeing : leds ≡ model → s'.tb.fails ≡ s.tb.fails
  differing : leds ≢ model → s.tb.fails < s'.tb.fails
  growing : s.tb.fails ≤ s'.tb.fails

-- The two checks of a round, of a LED word l against a model w.
two_checks :
    (l w : ℕ) (s : Tb Panel)
    → l < 2 ^ 32
    → w < 2 ^ 32
    → s.dut.leds ≡ l
    → let s' = check_led panel_ports (w % 2 ^ 16) (tb_check l w s) in
      (s'.dut ≡ s.dut)
      × (s'.checks ≡ s.checks + 2)
      × (l ≡ w → s'.fails ≡ s.fails)
      × (l ≢ w → s.fails < s'.fails)
      × (s.fails ≤ s'.fails)
unfolding check_led tb_check
two_checks l w s hl hw e =
    (ground arith, ground arith, λ same. ground arith, λ other. ground arith, ground arith)

module _ (rng : ℕ → ℕ) where
  written_round_lem :
      (v strb : ℕ) (s : Shadowed Panel)
      → s.model < 2 ^ 32
      → Rounds
          (written strb v s.tb.dut.leds)
          (written strb v s.model)
          2
          s
          (written_round (model_bus panel) panel_ports rng v strb s)
  unfolding written_round check_read
  written_round_lem v strb s h =
      let w = written strb v s.model in
      let l = written strb v s.tb.dut.leds in
      let model : put_lanes strb v s.model ≡ w = put_lanes-written strb v s.model h in
      let mask : bit_and w 0xFFFF ≡ w % 2 ^ 16 = and_low 16 w in
      let (dut, counted, agreeing, differing, growing) =
        two_checks l w ((model_bus panel).read 0 ((model_bus panel).write 0 v strb s.tb)).1
          (written-lt strb v s.tb.dut.leds) (written-lt strb v s.model) refl in
      rw model rw mask (record {
        leds_are = ap (λ m. m.leds) dut;
        model_is = refl;
        counted = counted;
        agreeing = agreeing;
        differing = differing;
        growing = growing;
      })

  abbrev strobes : Tb Panel → ℕ
  strobes s = u32 (1 + rng (s.drawn + 1) % 15)

  round_lem :
      (i : ℕ) (s : Shadowed Panel)
      → s.model < 2 ^ 32
      → let v = u32 (rng s.tb.drawn) in
        Rounds
          (written (strobes s.tb) v s.tb.dut.leds)
          (written (strobes s.tb) v s.model)
          3
          s
          (round_6 (model_bus panel) panel_ports rng i s)
  unfolding round_6 rnd rnd_range switch_round check_read
  round_lem i s h =
      let v = u32 (rng s.tb.drawn) in
      let strb = strobes s.tb in
      let drawn : Shadowed Panel = record {
        tb = record s.tb { drawn = s.tb.drawn + 1 + 1 };
        model = s.model;
      } in
      let k = written_round_lem v strb drawn h in
      let after = written_round (model_bus panel) panel_ports rng v strb drawn in
      let sw = bit_and (u32 (rng after.tb.drawn)) 0xFFFF in
      let set : Tb Panel = panel_ports.set_sw sw (record after.tb { drawn = after.tb.drawn + 1 }) in
      let (passed, dut) = tb_check-Passed sw sw ((model_bus panel).read 4 set).1 refl in
      record {
        leds_are = ap (λ m. m.leds) dut ∙ k.leds_are;
        model_is = k.model_is;
        counted = omega (arith, k.counted);
        agreeing = λ e. omega (arith, k.agreeing e);
        differing = λ e. omega (arith, k.differing e);
        growing = omega (arith, k.growing);
      }

  rounds_lem :
      (left i : ℕ) (s : Shadowed Panel)
      → s.model < 2 ^ 32
      → let s' = for_loop left i (round_6 (model_bus panel) panel_ports rng) s in
        (s'.tb.checks ≡ s.tb.checks + 3 * left)
        × (s.tb.dut.leds ≡ s.model → s'.tb.fails ≡ s.tb.fails)
        × (s.tb.fails ≤ s'.tb.fails)
  unfolding for_loop
  rounds_lem zero i s h = (omega arith, λ e. refl, omega arith)
  rounds_lem (suc left) i s h =
      let k = round_lem i s h in
      let v = u32 (rng s.tb.drawn) in
      let strb = strobes s.tb in
      let next = round_6 (model_bus panel) panel_ports rng i s in
      let fits : next.model < 2 ^ 32 = rw k.model_is (written-lt strb v s.model) in
      let (checks, same, grows) = rounds_lem left (i + 1) next fits in
      (
        omega (arith, k.counted),
        λ e.
            let e' = ap (written strb v) e in
            same (k.leds_are ∙ e' ∙ sym k.model_is) ∙ k.agreeing e',
        omega (arith, k.growing),
      )

-- The two low bytes of 0x3131 are replaced exactly if both strobes are set.
covers : (strb v : ℕ) → (written strb v 0x3131 ≡ written strb v 0) ↔ (strb % 4 ≡ 3)
covers strb v = ground arith

-- Sections 1 to 5.
opening_sections : Panel → Tb Panel
opening_sections m =
    opening_model panel (initial m)
    |> section_1 (model_bus panel) panel_ports
    |> section_2 (model_bus panel) panel_ports
    |> section_3 (model_bus panel) panel_ports
    |> section_4 (model_bus panel) panel_ports
    |> section_5 (model_bus panel) panel_ports

opening_sections_lem :
    (m : Panel)
    → let s = opening_sections m in
      (s.checks ≡ 61) × (s.fails ≡ 0) × (s.drawn ≡ 0) × (s.dut.leds ≡ 0x3131)
unfolding opening_sections section_1 section_2 section_3 section_4 section_5 round_5 for_loop
    check_led check_read tb_check tb_begin initial
opening_sections_lem m = (refl, refl, refl, refl)

-- All rounds of section 6, from what section 5 leaves.
section_6_lem :
    (rng : ℕ → ℕ) (left : ℕ) (s : Shadowed Panel)
    → s.tb.dut.leds ≡ 0x3131
    → s.model ≡ 0
    → s.tb.drawn ≡ 0
    → s.tb.fails ≡ 0
    → let s' = for_loop (suc left) 0 (round_6 (model_bus panel) panel_ports rng) s in
      (s'.tb.checks ≡ s.tb.checks + 3 * left + 3) × ((s'.tb.fails ≡ 0) ↔ ((1 + rng 1 % 15) % 4 ≡ 3))
unfolding for_loop
section_6_lem rng left s leds model drawn clean =
    let strb = strobes rng s.tb in
    let v = u32 (rng s.tb.drawn) in
    let k = round_lem rng 0 s (omega arith) in
    let next = round_6 (model_bus panel) panel_ports rng 0 s in
    let fits : next.model < 2 ^ 32 = rw k.model_is (written-lt strb v s.model) in
    let (checks, same, grows) = rounds_lem rng left 1 next fits in
    let drawn_is : strb ≡ 1 + rng 1 % 15 =
      ap (λ (n : ℕ). u32 (1 + rng (n + 1) % 15)) drawn ∙ omega arith in
    let cover : (written strb v s.tb.dut.leds ≡ written strb v s.model) ↔ (strb % 4 ≡ 3) =
      rw leds rw model (covers strb v) in
    (
      omega (arith, k.counted),
      (
        λ passed. elim (ℕ_discrete (written strb v s.tb.dut.leds) (written strb v s.model)) [
          | yes e ↦ ap (λ (n : ℕ). n % 4) (sym drawn_is) ∙ cover.0 e
          | no other ↦ absurd (omega (arith, k.differing other))
        ],
        λ set.
            let e = cover.1 (ap (λ (n : ℕ). n % 4) drawn_is ∙ set) in
            same (k.leds_are ∙ e ∙ sym k.model_is) ∙ k.agreeing e ∙ clean,
      ),
    )

-- All six sections at the panel.
sections_lem :
    (rng : ℕ → ℕ) (m : Panel)
    → let s = sections (model_bus panel) panel_ports rng (opening_model panel (initial m)) in
      (s.checks ≡ 1561) × ((s.fails ≡ 0) ↔ ((1 + rng 1 % 15) % 4 ≡ 3))
unfolding sections section_6 tb_begin opening_sections
sections_lem rng m =
    let (checks, fails, drawn, leds) = opening_sections_lem m in
    let start : Shadowed Panel = record {
      tb = tb_begin "6. random writes against a shadow model" (opening_sections m);
      model = 0;
    } in
    let (counted, verdict) = section_6_lem rng 499 start leds refl drawn fails in
    (omega (arith, counted, checks), verdict)

-- From any state of the design at power-on in which the register interface is idle, the GPIO bench
-- makes its 1561 checks, and it exits with status 0 exactly if the first strobe that section 6 draws
-- covers both low bytes: its shadow model starts from 0, but section 5 leaves 0x3131 in the LED
-- register.
pub gpio_run_verdict :
    {S : Type 0} (r : RegIf S)
    → IsHandshake r
    → (rng : ℕ → ℕ) (x : System S Gpio) → WriteIdle r x.regs
    → ReadIdle r x.regs
    → ((run r rng x).checks ≡ 1561) × ((main r rng x ≡ 0) ↔ ((1 + rng 1 % 15) % 4 ≡ 3))
unfolding run main drive initial
gpio_run_verdict {S} r bus rng x write read =
    let m : Panel = record { leds = x.dev.led_reg; sw = 0 } in
    let opened =
      opening-Follows r bus gpio panel gpio_law (initial m)
        (initial (record x { dev = record x.dev { sw = 0 } })) write read (refl, refl) refl in
    let agree = Follows-Simulates r bus gpio panel gpio_law in
    let follows =
      sections-R (Follows r Shows) (model_bus panel) (axil_bus r gpio) agree panel_ports
        (gpio_ports r)
        (λ v s t h. record {
          running = h.running;
          no_aw = h.no_aw;
          no_w = h.no_w;
          no_ar = h.no_ar;
          write_idle = h.write_idle;
          read_idle = h.read_idle;
          shows = (h.shows.0, refl);
          logs = h.logs;
        })
        (λ s t h. ap (λ (w : ℕ). slice w 0 16) h.shows.0) rng _ _ opened in
    let (checks, verdict) = sections_lem rng m in
    let fails = ap (λ l. l.fails) follows.logs in
    let exits = finish_iff (run r rng x) in
    (
      ap (λ l. l.checks) follows.logs ∙ checks,
      (λ e. verdict.0 (sym fails ∙ exits.0 e), λ e. exits.1 (fails ∙ verdict.1 e)),
    )
