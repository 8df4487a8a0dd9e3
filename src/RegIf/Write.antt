-- ===== src/RegIf/Write.antt =====
-- axil_write over a peripheral behind the register interface: three cycles and one access.
use rv32i_core.Prelude.{ℕ, ◌≡◌, refl, ap, ◌∙◌, Bool, true, false, ◌||◌, arith}
use rv32i_core.Tb.{Tb, drive}
use rv32i_core.RegIf.{
  Pins, RegIf, WriteIdle, WritePending, WriteAnswered, ReadIdle, IsHandshake, Device, System, eval,
}
use rv32i_core.RegIf.Transfer.{
  Writing, request_write, taken_write, set_pins, settled, cycle, write_round, write_loop,
  axil_write,
}
use rv32i_core.RegIf.Follow.{Registers, IsModelled, log, write_model, Follows}
use rv32i_core.RegIf.Cycle.{Phase, later, set_pins-Phase, cycle-Phase, connected}

module _ {S P M : Type 0} (r : RegIf S) (bus : IsHandshake r) (d : Device P) (g : Registers M)
    {Shows Powered : M → P → Type 0} {Late : ℕ → M → P → Type 0}
    (law : IsModelled d g Shows Powered Late) where
  -- The loop before a round: the pins, and what has been seen.
  record Round (n : Tb (Unit {0})) (pins : Pins) (acc got : Bool) (In : S → Type 0) (m : M)
      (w : Writing (System S P)) : Type 0 where
    phase : Phase n pins In (Shows m) w.tb
    aw_acc : w.aw_acc ≡ acc
    w_acc : w.w_acc ≡ acc
    got_b : w.got_b ≡ got

  round_lem :
      {n : Tb (Unit {0})} {pins : Pins} {acc got : Bool} {In In' : S → Type 0} {m m' : M}
      (acc' got' : Bool) (w : Writing (System S P))
      → (acc || r.awready w.tb.dut.regs) ≡ acc'
      → (acc || r.wready w.tb.dut.regs) ≡ acc'
      → (got || r.bvalid w.tb.dut.regs) ≡ got'
      → (let p = connected r d w.tb.dut in
          In' (r.step false pins (d.replies p) w.tb.dut.regs) × Shows m' (d.edge p))
      → Round n pins acc got In m w
      → Round (later n) (taken_write acc' acc' pins) acc' got' In' m' (write_round r d w)
  unfolding write_round drive eval
  round_lem {n} {pins} {In' = In'} {m' = m'} acc' got' w aw wv bv moved h =
      let after : Phase (later n) pins In' (Shows m') (cycle r d (settled r d w.tb)) =
        cycle-Phase r d w.tb (λ ws p. law.connect_shows true ws m' p) moved h.phase in
      let aw' : (w.aw_acc || r.awready w.tb.dut.regs) ≡ acc' = rw h.aw_acc aw in
      let w' : (w.w_acc || r.wready w.tb.dut.regs) ≡ acc' = rw h.w_acc wv in
      let b' : (w.got_b || r.bvalid w.tb.dut.regs) ≡ got' = rw h.got_b bv in
      let taken =
        taken_write (w.aw_acc || r.awready w.tb.dut.regs) (w.w_acc || r.wready w.tb.dut.regs) in
      let dropped : taken pins ≡ taken_write acc' acc' pins = rw aw' rw w' refl in
      record {
        phase = set_pins-Phase r d taken _ dropped after;
        aw_acc = aw';
        w_acc = w';
        got_b = b';
      }

  shown :
      (b : Bool) (m : M) (s : System S P)
      → Shows m s.dev
      → Shows m (d.connect b (r.wires s.regs) s.dev)
  shown b m s h = law.connect_shows b (r.wires s.regs) m s.dev h

  accept-Round :
      {n : Tb (Unit {0})} {pins : Pins} {m : M} (w : Writing (System S P))
      → pins.awvalid ≡ true
      → pins.wvalid ≡ true
      → pins.arvalid ≡ false
      → Round n pins false false (λ x. WriteIdle r x × ReadIdle r x) m w
      → Round
          (later n)
          (taken_write true true pins)
          true
          false
          (λ x. WritePending r pins.awaddr pins.wdata pins.wstrb x × ReadIdle r x)
          (g.rest m)
          (write_round r d w)
  accept-Round {pins = pins} {m} w aw wv ar h =
      let (write, read) = h.phase.inside in
      let x = w.tb.dut.regs in
      let q = d.replies (connected r d w.tb.dut) in
      round_lem true false w write.awready write.wready write.bvalid
        (
          (bus.write_accept pins q x aw wv write, bus.read_rest pins q x ar read),
          law.rest_shows (r.wires x) m _ write.wr_en read.rd_en
              (shown true m w.tb.dut h.phase.holds),
        )
        h

  access-Round :
      {n : Tb (Unit {0})} {pins : Pins} {a v strb : ℕ} {m : M} (w : Writing (System S P))
      → pins.arvalid ≡ false
      → Round n pins true false (λ x. WritePending r a v strb x × ReadIdle r x) m w
      → Round
          (later n)
          (taken_write true true pins)
          true
          false
          (λ x. WriteAnswered r x × ReadIdle r x)
          (g.write a v strb m)
          (write_round r d w)
  access-Round {pins = pins} {a} {v} {strb} {m} w ar h =
      let (write, read) = h.phase.inside in
      let x = w.tb.dut.regs in
      let q = d.replies (connected r d w.tb.dut) in
      let (ack, written) =
        law.write_shows (r.wires x) m _ write.wr_en read.rd_en
          (shown true m w.tb.dut h.phase.holds) in
      round_lem true false w refl refl write.bvalid
        (
          (bus.write_done pins q a v strb x ack write, bus.read_rest pins q x ar read),
          rw (← write.wr_addr) rw (← write.wr_data) rw (← write.wr_strb) written,
        )
        h

  answer-Round :
      {n : Tb (Unit {0})} {pins : Pins} {m : M} (w : Writing (System S P))
      → pins.awvalid ≡ false
      → pins.wvalid ≡ false
      → pins.bready ≡ true
      → pins.arvalid ≡ false
      → Round n pins true false (λ x. WriteAnswered r x × ReadIdle r x) m w
      → Round
          (later n)
          (taken_write true true pins)
          true
          true
          (λ x. WriteIdle r x × ReadIdle r x)
          (g.rest m)
          (write_round r d w)
  answer-Round {pins = pins} {m} w aw wv b ar h =
      let (write, read) = h.phase.inside in
      let x = w.tb.dut.regs in
      let q = d.replies (connected r d w.tb.dut) in
      round_lem true true w refl refl write.bvalid
        (
          (bus.write_taken pins q x aw wv b write, bus.read_rest pins q x ar read),
          law.rest_shows (r.wires x) m _ write.wr_en read.rd_en
              (shown true m w.tb.dut h.phase.holds),
        )
        h

  axil_write-unrolled :
      (w : Writing (System S P))
      → let w₁ = write_round r d w in
        let w₂ = write_round r d w₁ in
        let w₃ = write_round r d w₂ in
        w.got_b ≡ false
        → w₁.got_b ≡ false
        → w₂.got_b ≡ false
        → w₃.got_b ≡ true
        → write_loop r d 20 w ≡ w₃
  unfolding write_loop
  axil_write-unrolled w g₀ g₁ g₂ g₃ = ground arith

  -- A write ends before its 20 rounds are over, with the design idle again and the one access made.
  pub axil_write-Follows :
      (addr value strb : ℕ) {m : Tb M} (s : Tb (System S P))
      → Follows r Shows m s
      → Follows r Shows (write_model g addr value strb m) (axil_write r d addr value strb s)
  unfolding axil_write drive
  axil_write-Follows addr value strb {m} s h =
      let start : Writing (System S P) = record {
        tb = set_pins (request_write addr value strb) s;
        aw_acc = false;
        w_acc = false;
        got_b = false;
      } in
      let h₀ : Round (log m) (request_write addr value strb s.dut.pins) false false
          (λ x. WriteIdle r x × ReadIdle r x) m.dut start =
        record {
          phase = record {
            running = h.running;
            pins_are = refl;
            inside = (h.write_idle, h.read_idle);
            holds = h.shows;
            logs = h.logs;
          };
          aw_acc = refl;
          w_acc = refl;
          got_b = refl;
        } in
      let h₁ = accept-Round start refl refl h.no_ar h₀ in
      let h₂ = access-Round _ h.no_ar h₁ in
      let h₃ = answer-Round _ refl refl refl h.no_ar h₂ in
      let done = axil_write-unrolled start h₀.got_b h₁.got_b h₂.got_b h₃.got_b in
      let over : Follows r Shows (write_model g addr value strb m) (
          set_pins (λ p. record p { bready = false })
            (write_round r d (write_round r d (write_round r d start))).tb) =
        record {
          running = h₃.phase.running;
          no_aw = ap (λ p. p.awvalid) h₃.phase.pins_are;
          no_w = ap (λ p. p.wvalid) h₃.phase.pins_are;
          no_ar = ap (λ p. p.arvalid) h₃.phase.pins_are ∙ h.no_ar;
          write_idle = h₃.phase.inside.0;
          read_idle = h₃.phase.inside.1;
          shows = h₃.phase.holds;
          logs = h₃.phase.logs;
        } in
      rw done over
