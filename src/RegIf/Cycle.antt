-- ===== src/RegIf/Cycle.antt =====
-- One clock cycle of a peripheral behind the register interface.
use rv32i_core.Prelude.{◌+◌, ◌≡◌, ap, ◌∙◌, true, false, arith}
use rv32i_core.Word.{u64}
use rv32i_core.Tb.{Tb, drive, tick}
use rv32i_core.RegIf.{Pins, Wires, RegIf, Device, System, eval, posedge}
use rv32i_core.RegIf.Transfer.{settled, cycle, set_pins}
use rv32i_core.RegIf.Follow.{log}

module _ {S P : Type 0} (r : RegIf S) (d : Device P) where
  -- The peripheral as the clock edge of a cycle finds it.
  abbrev pub connected : System S P → P
  connected x = let w = r.wires x.regs in d.connect true w (d.connect true w x.dev)

  pub cycle_lem :
      (s : Tb (System S P)) (pins : Pins)
      → s.dut.rst_n ≡ true
      → s.dut.pins ≡ pins
      → let after = cycle r d (settled r d s) in
        let p = connected s.dut in
        (after.dut.rst_n ≡ true)
        × (after.dut.pins ≡ pins)
        × (after.dut.regs ≡ r.step false pins (d.replies p) s.dut.regs)
        × (after.dut.dev ≡ d.connect true (r.wires after.dut.regs) (d.edge p))
        × (log after ≡ record (log s) { t = u64 (s.t + 5000 + 5000) })
  unfolding drive tick eval posedge
  cycle_lem s pins h k = ground arith

-- The log after one more cycle.
abbrev pub later : Tb (Unit {0}) → Tb (Unit {0})
later n = record n { t = u64 (n.t + 5000 + 5000) }

-- Out of reset with the given pins: the interface is in a phase, the peripheral in a state, and the
-- log is n.
pub record Phase {S P : Type 0} (n : Tb (Unit {0})) (pins : Pins) (In : S → Type 0)
    (Holds : P → Type 0) (s : Tb (System S P)) : Type 0 where
  pub running : s.dut.rst_n ≡ true
  pub pins_are : s.dut.pins ≡ pins
  pub inside : In s.dut.regs
  pub holds : Holds s.dut.dev
  pub logs : log s ≡ n

module _ {S P : Type 0} (r : RegIf S) (d : Device P) where
  pub set_pins-Phase :
      {n : Tb (Unit {0})} {pins pins' : Pins} {In : S → Type 0} {Holds : P → Type 0}
      (f : Pins → Pins) (s : Tb (System S P))
      → f pins ≡ pins'
      → Phase n pins In Holds s
      → Phase n pins' In Holds (set_pins f s)
  unfolding drive
  set_pins-Phase f s e h = record {
    running = h.running;
    pins_are = rw h.pins_are e;
    inside = h.inside;
    holds = h.holds;
    logs = h.logs;
  }

  -- A cycle, from what the edge does to the interface and to the connected peripheral.
  pub cycle-Phase :
      {n : Tb (Unit {0})} {pins : Pins} {In In' : S → Type 0} {Holds Holds' : P → Type 0}
      (s : Tb (System S P))
      → ((w : Wires) (p : P) → Holds' p → Holds' (d.connect true w p))
      → (let p = connected r d s.dut in
          In' (r.step false pins (d.replies p) s.dut.regs) × Holds' (d.edge p))
      → Phase n pins In Holds s
      → Phase (later n) pins In' Holds' (cycle r d (settled r d s))
  cycle-Phase {n} {pins} {Holds' = Holds'} s stable (inside, holds) h =
      let (running, pins_are, regs, dev, logs) = cycle_lem r d s pins h.running h.pins_are in
      record {
        running = running;
        pins_are = pins_are;
        inside = rw regs inside;
        holds = rw dev (stable _ (d.edge (connected r d s.dut)) holds);
        logs = logs ∙ ap later h.logs;
      }
