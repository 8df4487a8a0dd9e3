-- ===== src/RegIf/Follow.antt =====
-- What a peripheral behind the register interface promises, as a model of its registers, and the
-- relation between a bench of the design and the same bench of the model.
use rv32i_core.Prelude.{ℕ, ◌+◌, ◌≡◌, Bool, true, false, if◌then◌else◌}
use rv32i_core.Word.{u64}
use rv32i_core.Tb.{Tb}
use rv32i_core.RegIf.{Wires, RegIf, WriteIdle, ReadIdle, Device, System}
use rv32i_core.RegIf.Transfer.{Bus}

-- What a cycle in reset and a cycle without an access do, what a write does, and what a read finds; `late` says that a
-- read is answered a cycle later.
pub record Registers (M : Type 0) : Type 0 where
  pub reset : M → M
  pub rest : M → M
  pub write : ℕ → ℕ → ℕ → M → M
  pub read : ℕ → M → ℕ
  pub late : Bool

-- Shows m p: p holds the registers m. Late a m p: also, a read of a is answered in this cycle.
-- Powered m p: after the power is on p holds m as far as it is known.
module _ {P M : Type 0} (d : Device P) (g : Registers M) (Shows Powered : M → P → Type 0)
    (Late : ℕ → M → P → Type 0) where
  pub record IsModelled : Type 0 where
    pub connect_shows :
        (b : Bool) (w : Wires) (m : M) (p : P) → Shows m p → Shows m (d.connect b w p)
    pub connect_powered :
        (b : Bool) (w : Wires) (m : M) (p : P) → Powered m p → Powered m (d.connect b w p)
    pub connect_late :
        (b : Bool) (w : Wires) (a : ℕ) (m : M) (p : P) → Late a m p → Late a m (d.connect b w p)
    pub reset_shows :
        (w : Wires) (m : M) (p : P)
        → w.wr_en ≡ false
        → w.rd_en ≡ false
        → Powered m p
        → Powered (g.reset m) (d.edge (d.connect false w p))
          × Shows (g.reset m) (d.edge (d.connect false w p))
    pub rest_shows :
        (w : Wires) (m : M) (p : P)
        → w.wr_en ≡ false
        → w.rd_en ≡ false
        → Shows m p
        → Shows (g.rest m) (d.edge (d.connect true w p))
    pub write_shows :
        (w : Wires) (m : M) (p : P)
        → w.wr_en ≡ true
        → w.rd_en ≡ false
        → Shows m p
        → ((d.replies (d.connect true w p)).wr_ack ≡ true)
          × Shows (g.write w.wr_addr w.wr_data w.wr_strb m) (d.edge (d.connect true w p))
    pub read_shows :
        (w : Wires) (m : M) (p : P)
        → w.wr_en ≡ false
        → w.rd_en ≡ true
        → g.late ≡ false
        → Shows m p
        → ((d.replies (d.connect true w p)).rd_ack ≡ true)
          × ((d.replies (d.connect true w p)).rd_data ≡ g.read w.rd_addr m)
          × Shows (g.rest m) (d.edge (d.connect true w p))
    pub read_late :
        (w : Wires) (m : M) (p : P)
        → w.wr_en ≡ false
        → w.rd_en ≡ true
        → g.late ≡ true
        → Shows m p
        → ((d.replies (d.connect true w p)).rd_wait ≡ true)
          × ((d.replies (d.connect true w p)).rd_ack ≡ false)
          × Late w.rd_addr (g.rest m) (d.edge (d.connect true w p))
    pub late_shows :
        (w : Wires) (a : ℕ) (m : M) (p : P)
        → w.wr_en ≡ false
        → w.rd_en ≡ true
        → w.rd_addr ≡ a
        → Late a m p
        → ((d.replies (d.connect true w p)).rd_ack ≡ true)
          × ((d.replies (d.connect true w p)).rd_data ≡ g.read w.rd_addr m)
          × Shows (g.rest m) (d.edge (d.connect true w p))

-- The counters and reports of a bench, without its design.
abbrev pub log : {D : Type 0} → Tb D → Tb (Unit {0})
log s = record {
  dut = tt;
  t = s.t;
  drawn = s.drawn;
  checks = s.checks;
  fails = s.fails;
  reported = s.reported;
  section = s.section;
  printed = s.printed;
}

-- A clock cycle in which the registers of the model go from m to `after`.
abbrev pub spend : {M : Type 0} → M → Tb M → Tb M
spend after s = record s { dut = after; t = u64 (s.t + 5000 + 5000) }

-- The bench over the model: a write takes three cycles, with the access in the second, and a read
-- three or four.
module _ {M : Type 0} (g : Registers M) where
  abbrev pub pass : Tb M → Tb M
  pass s = spend (g.rest s.dut) s

  abbrev pub write_model : ℕ → ℕ → ℕ → Tb M → Tb M
  write_model addr value strb s =
      let s' = pass s in pass (spend (g.write addr value strb s'.dut) s')

  abbrev pub read_model : ℕ → Tb M → ℕ × Tb M
  read_model addr s =
      let s' = if g.late then pass (pass s) else pass s in (g.read addr s'.dut, pass (pass s'))

  -- The two cycles of reset.
  abbrev pub opening_model : Tb M → Tb M
  opening_model s = let s' = spend (g.reset s.dut) s in spend (g.reset s'.dut) s'

  abbrev pub model_bus : Bus M
  model_bus = record { write = write_model; read = read_model; clock = pass }

-- The design is idle and holds the registers of the model, and the logs agree.
pub record Follows {S P M : Type 0} (r : RegIf S) (Shows : M → P → Type 0) (m : Tb M)
    (s : Tb (System S P)) : Type 0 where
  pub running : s.dut.rst_n ≡ true
  pub no_aw : s.dut.pins.awvalid ≡ false
  pub no_w : s.dut.pins.wvalid ≡ false
  pub no_ar : s.dut.pins.arvalid ≡ false
  pub write_idle : WriteIdle r s.dut.regs
  pub read_idle : ReadIdle r s.dut.regs
  pub shows : Shows m.dut s.dut.dev
  pub logs : log s ≡ log m
