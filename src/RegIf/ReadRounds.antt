-- ===== src/RegIf/ReadRounds.antt =====
-- The rounds of axil_read's loop over a peripheral behind the register interface.
use rv32i_core.Prelude.{ℕ, ◌≡◌, refl, ap, ◌∙◌, Bool, true, false, ◌||◌, arith}
use rv32i_core.Tb.{Tb, drive}
use rv32i_core.RegIf.{
  Pins, Wires, RegIf, WriteIdle, ReadIdle, ReadPending, ReadAnswered, IsHandshake, Device, System,
  eval,
}
use rv32i_core.RegIf.Transfer.{Reading, taken_read, settled, cycle, read_round}
use rv32i_core.RegIf.Follow.{Registers, IsModelled}
use rv32i_core.RegIf.Cycle.{Phase, later, set_pins-Phase, cycle-Phase, connected}

module _ {S P M : Type 0} (r : RegIf S) (bus : IsHandshake r) (d : Device P) (g : Registers M)
    {Shows Powered : M → P → Type 0} {Late : ℕ → M → P → Type 0}
    (law : IsModelled d g Shows Powered Late) where
  -- The loop before a round: the pins, and what has been seen.
  pub record Round (n : Tb (Unit {0})) (pins : Pins) (acc got : Bool) (In : S → Type 0)
      (Holds : P → Type 0) (w : Reading (System S P)) : Type 0 where
    pub phase : Phase n pins In Holds w.tb
    pub ar_acc : w.ar_acc ≡ acc
    pub got_r : w.got_r ≡ got

  round_lem :
      {n : Tb (Unit {0})} {pins : Pins} {acc got : Bool} {In In' : S → Type 0}
      {Holds Holds' : P → Type 0} (acc' got' : Bool) (w : Reading (System S P))
      → ((ws : Wires) (p : P) → Holds' p → Holds' (d.connect true ws p))
      → (acc || r.arready w.tb.dut.regs) ≡ acc'
      → (got || r.rvalid w.tb.dut.regs) ≡ got'
      → (let p = connected r d w.tb.dut in
          In' (r.step false pins (d.replies p) w.tb.dut.regs) × Holds' (d.edge p))
      → Round n pins acc got In Holds w
      → Round (later n) (taken_read acc' pins) acc' got' In' Holds' (read_round r d w)
  unfolding read_round drive eval
  round_lem {n} {pins} {In' = In'} {Holds' = Holds'} acc' got' w stable ar rv moved h =
      let after : Phase (later n) pins In' Holds' (cycle r d (settled r d w.tb)) =
        cycle-Phase r d w.tb stable moved h.phase in
      let a' : (w.ar_acc || r.arready w.tb.dut.regs) ≡ acc' = rw h.ar_acc ar in
      let v' : (w.got_r || r.rvalid w.tb.dut.regs) ≡ got' = rw h.got_r rv in
      let taken = taken_read (w.ar_acc || r.arready w.tb.dut.regs) in
      let dropped : taken pins ≡ taken_read acc' pins = rw a' refl in
      record { phase = set_pins-Phase r d taken _ dropped after; ar_acc = a'; got_r = v' }

  read_round-value :
      (w : Reading (System S P))
      → r.rvalid w.tb.dut.regs ≡ true
      → (read_round r d w).value ≡ r.rdata w.tb.dut.regs
  unfolding read_round drive eval
  read_round-value w h = ground arith

  shown : (m : M) (x : System S P) → Shows m x.dev → Shows m (d.connect true (r.wires x.regs) x.dev)
  shown m x h = law.connect_shows true (r.wires x.regs) m x.dev h

  pub accept-Round :
      {n : Tb (Unit {0})} {pins : Pins} {m : M} (w : Reading (System S P))
      → pins.awvalid ≡ false
      → pins.wvalid ≡ false
      → pins.arvalid ≡ true
      → Round n pins false false (λ x. WriteIdle r x × ReadIdle r x) (Shows m) w
      → Round
          (later n)
          (taken_read true pins)
          true
          false
          (λ x. WriteIdle r x × ReadPending r pins.araddr x)
          (Shows (g.rest m))
          (read_round r d w)
  accept-Round {pins = pins} {m} w aw wv ar h =
      let (write, read) = h.phase.inside in
      let x = w.tb.dut.regs in
      let q = d.replies (connected r d w.tb.dut) in
      round_lem true false w (λ ws p. law.connect_shows true ws (g.rest m) p) read.arready
        read.rvalid
        (
          (bus.write_rest pins q x aw wv write, bus.read_accept pins q x ar read),
          law.rest_shows (r.wires x) m _ write.wr_en read.rd_en (shown m w.tb.dut h.phase.holds),
        )
        h

  -- The cycle in which a late peripheral asks to wait.
  pub wait-Round :
      {n : Tb (Unit {0})} {pins : Pins} {a : ℕ} {m : M} (w : Reading (System S P))
      → pins.awvalid ≡ false
      → pins.wvalid ≡ false
      → g.late ≡ true
      → Round n pins true false (λ x. WriteIdle r x × ReadPending r a x) (Shows m) w
      → Round
          (later n)
          (taken_read true pins)
          true
          false
          (λ x. WriteIdle r x × ReadPending r a x)
          (Late a (g.rest m))
          (read_round r d w)
  wait-Round {pins = pins} {a} {m} w aw wv slow h =
      let (write, read) = h.phase.inside in
      let x = w.tb.dut.regs in
      let q = d.replies (connected r d w.tb.dut) in
      let (wait, ack, held) =
        law.read_late (r.wires x) m _ write.wr_en read.rd_en slow
          (shown m w.tb.dut h.phase.holds) in
      round_lem true false w (λ ws p. law.connect_late true ws a (g.rest m) p) refl read.rvalid
        (
          (bus.write_rest pins q x aw wv write, bus.read_wait pins q a x wait ack read),
          rw (← read.rd_addr) held,
        )
        h

  -- The cycle in which the peripheral answers.
  pub access-Round :
      {n : Tb (Unit {0})} {pins : Pins} {a : ℕ} {m : M} {Holds : P → Type 0}
      (w : Reading (System S P))
      → pins.awvalid ≡ false
      → pins.wvalid ≡ false
      → (let p = connected r d w.tb.dut in
          ((d.replies p).rd_ack ≡ true)
          × ((d.replies p).rd_data ≡ g.read (r.wires w.tb.dut.regs).rd_addr m)
          × Shows (g.rest m) (d.edge p))
      → Round n pins true false (λ x. WriteIdle r x × ReadPending r a x) Holds w
      → Round
          (later n)
          (taken_read true pins)
          true
          false
          (λ x. WriteIdle r x × ReadAnswered r (g.read a m) x)
          (Shows (g.rest m))
          (read_round r d w)
  access-Round {pins = pins} {a} {m} w aw wv (ack, found, rested) h =
      let (write, read) = h.phase.inside in
      let x = w.tb.dut.regs in
      let q = d.replies (connected r d w.tb.dut) in
      let value : q.rd_data ≡ g.read a m = found ∙ ap (λ b. g.read b m) read.rd_addr in
      round_lem true false w (λ ws p. law.connect_shows true ws (g.rest m) p) refl read.rvalid
        (
          (bus.write_rest pins q x aw wv write, rw (← value) (bus.read_done pins q a x ack read)),
          rested,
        )
        h

  pub answer-Round :
      {n : Tb (Unit {0})} {pins : Pins} {v : ℕ} {m : M} (w : Reading (System S P))
      → pins.awvalid ≡ false
      → pins.wvalid ≡ false
      → pins.arvalid ≡ false
      → pins.rready ≡ true
      → Round n pins true false (λ x. WriteIdle r x × ReadAnswered r v x) (Shows m) w
      → Round
          (later n)
          (taken_read true pins)
          true
          true
          (λ x. WriteIdle r x × ReadIdle r x)
          (Shows (g.rest m))
          (read_round r d w)
        × ((read_round r d w).value ≡ v)
  answer-Round {pins = pins} {v} {m} w aw wv ar rr h =
      let (write, read) = h.phase.inside in
      let x = w.tb.dut.regs in
      let q = d.replies (connected r d w.tb.dut) in
      (
        round_lem true true w (λ ws p. law.connect_shows true ws (g.rest m) p) refl read.rvalid
            (
              (bus.write_rest pins q x aw wv write, bus.read_taken pins q v x ar rr read),
              law.rest_shows (r.wires x) m _ write.wr_en read.rd_en
                  (shown m w.tb.dut h.phase.holds),
            )
            h,
        read_round-value w read.rvalid ∙ read.rdata,
      )
