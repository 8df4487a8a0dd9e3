-- ===== src/RegIf/Read.antt =====
-- axil_read over a peripheral behind the register interface: three cycles, or four if the
-- peripheral answers late, and the value of its register.
use rv32i_core.Prelude.{ℕ, ◌≡◌, refl, ap, ◌∙◌, true, false, arith, Bool-cases, inl, inr}
use rv32i_core.Tb.{Tb, drive}
use rv32i_core.RegIf.{Pins, RegIf, WriteIdle, ReadIdle, IsHandshake, Device, System}
use rv32i_core.RegIf.Transfer.{Reading, request_read, set_pins, read_round, read_loop, axil_read}
use rv32i_core.RegIf.Follow.{Registers, IsModelled, log, read_model, Follows}
use rv32i_core.RegIf.ReadRounds.{Round, accept-Round, wait-Round, access-Round, answer-Round}

module _ {S P M : Type 0} (r : RegIf S) (bus : IsHandshake r) (d : Device P) (g : Registers M)
    {Shows Powered : M → P → Type 0} {Late : ℕ → M → P → Type 0}
    (law : IsModelled d g Shows Powered Late) where
  abbrev next : Reading (System S P) → Reading (System S P)
  next w = read_round r d w

  three_rounds :
      (w : Reading (System S P))
      → w.got_r ≡ false
      → (next w).got_r ≡ false
      → (next (next w)).got_r ≡ false
      → (next (next (next w))).got_r ≡ true
      → read_loop r d 20 w ≡ next (next (next w))
  unfolding read_loop
  three_rounds w g₀ g₁ g₂ g₃ = ground arith

  four_rounds :
      (w : Reading (System S P))
      → w.got_r ≡ false
      → (next w).got_r ≡ false
      → (next (next w)).got_r ≡ false
      → (next (next (next w))).got_r ≡ false
      → (next (next (next (next w)))).got_r ≡ true
      → read_loop r d 20 w ≡ next (next (next (next w)))
  unfolding read_loop
  four_rounds w g₀ g₁ g₂ g₃ g₄ = ground arith

  abbrev lowered : Reading (System S P) → Tb (System S P)
  unfolding drive
  lowered w = set_pins (λ p. record p { rready = false }) w.tb

  -- The bench after the last round.
  over :
      {pins : Pins} {m : Tb M} (w : Reading (System S P))
      → pins.awvalid ≡ false
      → pins.wvalid ≡ false
      → pins.arvalid ≡ false
      → Round r bus d g law
          (log m)
          pins
          true
          true
          (λ x. WriteIdle r x × ReadIdle r x)
          (Shows m.dut)
          w
      → Follows r Shows m (lowered w)
  unfolding drive
  over w aw wv ar h = record {
    running = h.phase.running;
    no_aw = ap (λ p. p.awvalid) h.phase.pins_are ∙ aw;
    no_w = ap (λ p. p.wvalid) h.phase.pins_are ∙ wv;
    no_ar = ap (λ p. p.arvalid) h.phase.pins_are ∙ ar;
    write_idle = h.phase.inside.0;
    read_idle = h.phase.inside.1;
    shows = h.phase.holds;
    logs = h.phase.logs;
  }

  -- A read ends before its 20 rounds are over with the value that the model reads, and the design is
  -- idle again.
  pub axil_read-Follows :
      (addr : ℕ) {m : Tb M} (s : Tb (System S P))
      → Follows r Shows m s
      → ((axil_read r d addr s).0 ≡ (read_model g addr m).0)
        × Follows r Shows (read_model g addr m).1 (axil_read r d addr s).1
  unfolding axil_read drive
  axil_read-Follows addr {m} s h =
      let start : Reading (System S P) = record {
        tb = set_pins (request_read addr) s;
        ar_acc = false;
        got_r = false;
        value = 0;
      } in
      let h₀ : Round r bus d g law (log m) (request_read addr s.dut.pins) false false
          (λ x. WriteIdle r x × ReadIdle r x) (Shows m.dut) start =
        record {
          phase = record {
            running = h.running;
            pins_are = refl;
            inside = (h.write_idle, h.read_idle);
            holds = h.shows;
            logs = h.logs;
          };
          ar_acc = refl;
          got_r = refl;
        } in
      let h₁ = accept-Round r bus d g law start h.no_aw h.no_w refl h₀ in
      let connect = λ (x : System S P) (n : M) (k : Shows n x.dev).
        law.connect_shows true (r.wires x.regs) n x.dev k in
      elim (Bool-cases g.late) [
        | inl slow ↦
            let h₂ = wait-Round r bus d g law (next start) h.no_aw h.no_w slow h₁ in
            let w₂ = next (next start) in
            let answer =
              law.late_shows (r.wires w₂.tb.dut.regs) addr (g.rest (g.rest m.dut)) _
                h₂.phase.inside.0.wr_en h₂.phase.inside.1.rd_en h₂.phase.inside.1.rd_addr
                (law.connect_late true (r.wires w₂.tb.dut.regs) addr (g.rest (g.rest m.dut)) _
                  h₂.phase.holds) in
            let h₃ = access-Round r bus d g law w₂ h.no_aw h.no_w answer h₂ in
            let (h₄, value) = answer-Round r bus d g law (next w₂) h.no_aw h.no_w refl refl h₃ in
            let done = four_rounds start h₀.got_r h₁.got_r h₂.got_r h₃.got_r h₄.got_r in
            rw slow rw done (value, over _ h.no_aw h.no_w refl h₄)
        | inr quick ↦
            let w₁ = next start in
            let answer =
              law.read_shows (r.wires w₁.tb.dut.regs) (g.rest m.dut) _ h₁.phase.inside.0.wr_en
                h₁.phase.inside.1.rd_en quick (connect w₁.tb.dut (g.rest m.dut) h₁.phase.holds) in
            let h₂ = access-Round r bus d g law w₁ h.no_aw h.no_w answer h₁ in
            let (h₃, value) = answer-Round r bus d g law (next w₁) h.no_aw h.no_w refl refl h₂ in
            let done = three_rounds start h₀.got_r h₁.got_r h₂.got_r h₃.got_r in
            rw quick rw done (value, over _ h.no_aw h.no_w refl h₃)
      ]
