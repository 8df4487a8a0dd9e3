-- ===== src/RegIf/Bench.antt =====
-- The statements of a bench over the register interface keep the bench of the model in step.
use rv32i_core.Prelude.{ℕ, ◌+◌, ◌-◌, ◌%◌, ◌≡◌, refl, ap, ◌∙◌, Bool, true, false, not, arith}
use Prim.Native.String.{String}
use rv32i_core.Word.{u32}
use rv32i_core.Tb.{Tb, drive, tick, tb_begin, tb_check, rnd, rnd_range}
use rv32i_core.RegIf.{RegIf, WriteIdle, ReadIdle, IsHandshake, Device, System, eval, posedge}
use rv32i_core.RegIf.Transfer.{Bus, clock, axil_bus, opening, check_read}
use rv32i_core.RegIf.Follow.{
  Registers, IsModelled, log, spend, pass, model_bus, opening_model, Follows,
}
use rv32i_core.RegIf.Cycle.{later}
use rv32i_core.RegIf.Write.{axil_write-Follows}
use rv32i_core.RegIf.Read.{axil_read-Follows}

-- A relation between the states of two benches that every statement keeps.
pub record Simulates {D E : Type 0} (R : Tb D → Tb E → Type 0) (b : Bus D) (c : Bus E)
    : Type 0 where
  pub write :
      (a v strb : ℕ) (s : Tb D) (t : Tb E) → R s t → R (b.write a v strb s) (c.write a v strb t)
  pub read :
      (a : ℕ) (s : Tb D) (t : Tb E)
      → R s t
      → ((c.read a t).0 ≡ (b.read a s).0) × R (b.read a s).1 (c.read a t).1
  pub check_read :
      (a want : ℕ) (s : Tb D) (t : Tb E) → R s t → R (check_read b a want s) (check_read c a want t)
  pub clock : (s : Tb D) (t : Tb E) → R s t → R (b.clock s) (c.clock t)
  pub check :
      (got want : ℕ) (s : Tb D) (t : Tb E) → R s t → R (tb_check got want s) (tb_check got want t)
  pub begin : (name : String) (s : Tb D) (t : Tb E) → R s t → R (tb_begin name s) (tb_begin name t)
  pub draw :
      (rng : ℕ → ℕ) (s : Tb D) (t : Tb E)
      → R s t
      → ((rnd rng t).0 ≡ (rnd rng s).0) × R (rnd rng s).1 (rnd rng t).1
  pub draw_range :
      (rng : ℕ → ℕ) (lo hi : ℕ) (s : Tb D) (t : Tb E)
      → R s t
      → ((rnd_range rng lo hi t).0 ≡ (rnd_range rng lo hi s).0)
        × R (rnd_range rng lo hi s).1 (rnd_range rng lo hi t).1
  pub logs : (s : Tb D) (t : Tb E) → R s t → log t ≡ log s

-- Two benches whose logs agree make the same log.
tb_check-log :
    {D E : Type 0} (got want : ℕ) (s : Tb D) (m : Tb E)
    → log s ≡ log m
    → (log (tb_check got want s) ≡ log (tb_check got want m))
      × ((tb_check got want s).dut ≡ s.dut)
      × ((tb_check got want m).dut ≡ m.dut)
unfolding tb_check
tb_check-log got want s m h = ground arith

abbrev renamed : String → Tb (Unit {0}) → Tb (Unit {0})
renamed name n = record n { section = name }

abbrev drawn_again : Tb (Unit {0}) → Tb (Unit {0})
drawn_again n = record n { drawn = n.drawn + 1 }

-- One cycle, in reset or out of it.
clock_lem :
    {S P : Type 0} (r : RegIf S) (d : Device P) (b : Bool) (s : Tb (System S P))
    → s.dut.rst_n ≡ b
    → let after = clock r d s in
      let p = d.connect b (r.wires s.dut.regs) s.dut.dev in
      (after.dut.rst_n ≡ b)
      × (after.dut.pins ≡ s.dut.pins)
      × (after.dut.regs ≡ r.step (not b) s.dut.pins (d.replies p) s.dut.regs)
      × (after.dut.dev ≡ d.connect b (r.wires after.dut.regs) (d.edge p))
      × (log after ≡ later (log s))
unfolding clock tick eval posedge
clock_lem r d b s h = ground arith

module _ {S P M : Type 0} (r : RegIf S) (bus : IsHandshake r) (d : Device P) (g : Registers M)
    {Shows Powered : M → P → Type 0} {Late : ℕ → M → P → Type 0}
    (law : IsModelled d g Shows Powered Late) where
  pub tb_check-Follows :
      (got want : ℕ) {m : Tb M} (s : Tb (System S P))
      → Follows r Shows m s
      → Follows r Shows (tb_check got want m) (tb_check got want s)
  tb_check-Follows got want {m} s h =
      let (logs, same, same') = tb_check-log got want s m h.logs in
      record {
        running = rw same h.running;
        no_aw = rw same h.no_aw;
        no_w = rw same h.no_w;
        no_ar = rw same h.no_ar;
        write_idle = rw same h.write_idle;
        read_idle = rw same h.read_idle;
        shows = rw same rw same' h.shows;
        logs = logs;
      }

  pub tb_begin-Follows :
      (name : String) {m : Tb M} (s : Tb (System S P))
      → Follows r Shows m s
      → Follows r Shows (tb_begin name m) (tb_begin name s)
  unfolding tb_begin
  tb_begin-Follows name {m} s h = record {
    running = h.running;
    no_aw = h.no_aw;
    no_w = h.no_w;
    no_ar = h.no_ar;
    write_idle = h.write_idle;
    read_idle = h.read_idle;
    shows = h.shows;
    logs = ap (renamed name) h.logs;
  }

  pub check_read-Follows :
      (addr want : ℕ) {m : Tb M} (s : Tb (System S P))
      → Follows r Shows m s
      → Follows r Shows
          (check_read (model_bus g) addr want m)
          (check_read (axil_bus r d) addr want s)
  unfolding check_read
  check_read-Follows addr want s h =
      let (value, h') = axil_read-Follows r bus d g law addr s h in
      rw value (tb_check-Follows _ want _ h')

  pub clock-Follows :
      {m : Tb M} (s : Tb (System S P))
      → Follows r Shows m s
      → Follows r Shows (pass g m) (clock r d s)
  clock-Follows {m} s h =
      let (running, pins, regs, dev, logs) = clock_lem r d true s h.running in
      let x = s.dut in
      let q = d.replies (d.connect true (r.wires x.regs) x.dev) in
      let w' = r.wires (clock r d s).dut.regs in
      record {
        running = running;
        no_aw = ap (λ p. p.awvalid) pins ∙ h.no_aw;
        no_w = ap (λ p. p.wvalid) pins ∙ h.no_w;
        no_ar = ap (λ p. p.arvalid) pins ∙ h.no_ar;
        write_idle = rw regs (bus.write_rest x.pins q x.regs h.no_aw h.no_w h.write_idle);
        read_idle = rw regs (bus.read_rest x.pins q x.regs h.no_ar h.read_idle);
        shows = rw dev (
            law.connect_shows true w' (g.rest m.dut) _ (
              law.rest_shows (r.wires x.regs) m.dut x.dev h.write_idle.wr_en h.read_idle.rd_en
                h.shows));
        logs = logs ∙ ap later h.logs;
      }

  -- Before a cycle of reset.
  record Resets (m : Tb M) (s : Tb (System S P)) : Type 0 where
    reset : s.dut.rst_n ≡ false
    no_aw : s.dut.pins.awvalid ≡ false
    no_w : s.dut.pins.wvalid ≡ false
    no_ar : s.dut.pins.arvalid ≡ false
    write_idle : WriteIdle r s.dut.regs
    read_idle : ReadIdle r s.dut.regs
    powered : Powered m.dut s.dut.dev
    logs : log s ≡ log m

  clock-Resets :
      {m : Tb M} (s : Tb (System S P))
      → Resets m s
      → Resets (spend (g.reset m.dut) m) (clock r d s) × Shows (g.reset m.dut) (clock r d s).dut.dev
  clock-Resets {m} s h =
      let (reset, pins, regs, dev, logs) = clock_lem r d false s h.reset in
      let x = s.dut in
      let q = d.replies (d.connect false (r.wires x.regs) x.dev) in
      let w' = r.wires (clock r d s).dut.regs in
      let (powered, shows) =
        law.reset_shows (r.wires x.regs) m.dut x.dev h.write_idle.wr_en h.read_idle.rd_en
          h.powered in
      (
        record {
          reset = reset;
          no_aw = ap (λ p. p.awvalid) pins ∙ h.no_aw;
          no_w = ap (λ p. p.wvalid) pins ∙ h.no_w;
          no_ar = ap (λ p. p.arvalid) pins ∙ h.no_ar;
          write_idle = rw regs (bus.reset_write x.pins q x.regs);
          read_idle = rw regs (bus.reset_read x.pins q x.regs);
          powered = rw dev (law.connect_powered false w' (g.reset m.dut) _ powered);
          logs = logs ∙ ap later h.logs;
        },
        rw dev (law.connect_shows false w' (g.reset m.dut) _ shows),
      )

  pub opening-Follows :
      (m : Tb M) (s : Tb (System S P))
      → WriteIdle r s.dut.regs
      → ReadIdle r s.dut.regs
      → Powered m.dut s.dut.dev
      → log s ≡ log m
      → Follows r Shows (opening_model g m) (opening r d s)
  unfolding opening drive
  opening-Follows m s write read powered logs =
      let (h₁, _) = clock-Resets {m = m} _ (record {
        reset = refl;
        no_aw = refl;
        no_w = refl;
        no_ar = refl;
        write_idle = write;
        read_idle = read;
        powered = powered;
        logs = logs;
      }) in
      let (h₂, shows) = clock-Resets _ h₁ in
      record {
        running = refl;
        no_aw = h₂.no_aw;
        no_w = h₂.no_w;
        no_ar = h₂.no_ar;
        write_idle = h₂.write_idle;
        read_idle = h₂.read_idle;
        shows = shows;
        logs = h₂.logs;
      }

  pub rnd-Follows :
      (rng : ℕ → ℕ) {m : Tb M} (s : Tb (System S P))
      → Follows r Shows m s
      → ((rnd rng s).0 ≡ (rnd rng m).0) × Follows r Shows (rnd rng m).1 (rnd rng s).1
  unfolding rnd
  rnd-Follows rng s h = (
    ap (λ n. u32 (rng n.drawn)) h.logs,
    record {
      running = h.running;
      no_aw = h.no_aw;
      no_w = h.no_w;
      no_ar = h.no_ar;
      write_idle = h.write_idle;
      read_idle = h.read_idle;
      shows = h.shows;
      logs = ap drawn_again h.logs;
    },
  )

  pub rnd_range-Follows :
      (rng : ℕ → ℕ) (lo hi : ℕ) {m : Tb M} (s : Tb (System S P))
      → Follows r Shows m s
      → ((rnd_range rng lo hi s).0 ≡ (rnd_range rng lo hi m).0)
        × Follows r Shows (rnd_range rng lo hi m).1 (rnd_range rng lo hi s).1
  unfolding rnd rnd_range
  rnd_range-Follows rng lo hi s h =
      (ap (λ n. u32 (lo + rng n.drawn % (hi - lo + 1))) h.logs, (rnd-Follows rng s h).1)

  abbrev pub Agree : Tb M → Tb (System S P) → Type 0
  Agree m s = Follows r Shows m s

  pub Follows-Simulates : Simulates Agree (model_bus g) (axil_bus r d)
  Follows-Simulates = record {
    write = λ a v strb m s h. axil_write-Follows r bus d g law a v strb s h;
    read = λ a m s h. axil_read-Follows r bus d g law a s h;
    check_read = λ a want m s h. check_read-Follows a want s h;
    clock = λ m s h. clock-Follows s h;
    check = λ got want m s h. tb_check-Follows got want s h;
    begin = λ name m s h. tb_begin-Follows name s h;
    draw = λ rng m s h. rnd-Follows rng s h;
    draw_range = λ rng lo hi m s h. rnd_range-Follows rng lo hi s h;
    logs = λ m s h. h.logs;
  }
