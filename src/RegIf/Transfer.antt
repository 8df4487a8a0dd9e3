-- ===== src/RegIf/Transfer.antt =====
-- sim/verilator/tb_gpio.cpp, tb_timer.cpp and tb_axil_mem.cpp: axil_write and axil_read, which are
-- the same text in each, over any peripheral behind the register interface.
use rv32i_core.Prelude.{ℕ, zero, suc, Bool, true, false, not, ◌&&◌, ◌||◌, if◌then◌else◌, ◌|>◌}
use rv32i_core.Tb.{Tb, tb_check, drive, tick}
use rv32i_core.RegIf.{Pins, RegIf, Device, System, eval, posedge}

-- The locals of axil_write and axil_read.
pub record Writing (D : Type 0) : Type 0 where
  pub tb : Tb D
  pub aw_acc : Bool
  pub w_acc : Bool
  pub got_b : Bool

pub record Reading (D : Type 0) : Type 0 where
  pub tb : Tb D
  pub ar_acc : Bool
  pub got_r : Bool
  pub value : ℕ

-- What a bench does to its design over the bus.
pub record Bus (D : Type 0) : Type 0 where
  pub write : ℕ → ℕ → ℕ → Tb D → Tb D
  pub read : ℕ → Tb D → ℕ × Tb D
  pub clock : Tb D → Tb D

abbrev pub request_write : ℕ → ℕ → ℕ → Pins → Pins
request_write addr value strb p = record p {
  awaddr = addr;
  awvalid = true;
  wdata = value;
  wstrb = strb;
  wvalid = true;
  bready = true;
}

abbrev pub request_read : ℕ → Pins → Pins
request_read addr p = record p { araddr = addr; arvalid = true; rready = true }

-- if (aw_acc) awvalid = 0; if (w_acc) wvalid = 0.
abbrev pub taken_write : Bool → Bool → Pins → Pins
taken_write aw_acc w_acc p = record p {
  awvalid = p.awvalid && not aw_acc;
  wvalid = p.wvalid && not w_acc;
}

abbrev pub taken_read : Bool → Pins → Pins
taken_read ar_acc p = record p { arvalid = p.arvalid && not ar_acc }

module _ {S P : Type 0} where
  abbrev pub set_pins : (Pins → Pins) → Tb (System S P) → Tb (System S P)
  unfolding drive
  set_pins f s = drive (λ x. record x { pins = f x.pins }) s

  module _ (r : RegIf S) (d : Device P) where
    abbrev pub settled : Tb (System S P) → Tb (System S P)
    unfolding drive eval
    settled s = drive (eval r d) s

    abbrev pub cycle : Tb (System S P) → Tb (System S P)
    unfolding tick
    cycle s = tick (eval r d) (posedge r d) s

    -- A round of the loop of axil_write.
    unfoldable pub write_round : Writing (System S P) → Writing (System S P)
    unfolding drive tick eval posedge
    write_round w =
        let now = settled w.tb in
        let aw_acc = w.aw_acc || r.awready now.dut.regs in
        let w_acc = w.w_acc || r.wready now.dut.regs in
        let bv = r.bvalid now.dut.regs in
        record {
          tb = set_pins (taken_write aw_acc w_acc) (cycle now);
          aw_acc = aw_acc;
          w_acc = w_acc;
          got_b = w.got_b || bv;
        }

    unfoldable pub write_loop : ℕ → Writing (System S P) → Writing (System S P)
    write_loop zero w = w
    write_loop (suc left) w = elim w.got_b [ true ↦ w | false ↦ write_loop left (write_round w) ]

    unfoldable pub axil_write : ℕ → ℕ → ℕ → Tb (System S P) → Tb (System S P)
    unfolding write_loop drive
    axil_write addr value strb s =
        let start : Writing (System S P) = record {
          tb = set_pins (request_write addr value strb) s;
          aw_acc = false;
          w_acc = false;
          got_b = false;
        } in
        set_pins (λ p. record p { bready = false }) (write_loop 20 start).tb

    -- A round of the loop of axil_read.
    unfoldable pub read_round : Reading (System S P) → Reading (System S P)
    unfolding drive tick eval posedge
    read_round w =
        let now = settled w.tb in
        let ar_acc = w.ar_acc || r.arready now.dut.regs in
        let rv = r.rvalid now.dut.regs in
        record {
          tb = set_pins (taken_read ar_acc) (cycle now);
          ar_acc = ar_acc;
          got_r = w.got_r || rv;
          value = if rv then r.rdata now.dut.regs else w.value;
        }

    unfoldable pub read_loop : ℕ → Reading (System S P) → Reading (System S P)
    read_loop zero w = w
    read_loop (suc left) w = elim w.got_r [ true ↦ w | false ↦ read_loop left (read_round w) ]

    unfoldable pub axil_read : ℕ → Tb (System S P) → ℕ × Tb (System S P)
    unfolding read_loop drive
    axil_read addr s =
        let start : Reading (System S P) = record {
          tb = set_pins (request_read addr) s;
          ar_acc = false;
          got_r = false;
          value = 0;
        } in
        let done = read_loop 20 start in
        (done.value, set_pins (λ p. record p { rready = false }) done.tb)

    -- tb.tick().
    unfoldable pub clock : Tb (System S P) → Tb (System S P)
    unfolding tick eval posedge
    clock s = tick (eval r d) (posedge r d) s

    abbrev pub axil_bus : Bus (System S P)
    axil_bus = record { write = axil_write; read = axil_read; clock = clock }

    -- The first statements of main: the inputs, two cycles of reset, and its release.
    unfoldable pub opening : Tb (System S P) → Tb (System S P)
    unfolding drive clock
    opening s =
        s
        |> drive (λ x. record x {
          rst_n = false;
          pins = record x.pins {
            awvalid = false;
            wvalid = false;
            bready = false;
            arvalid = false;
            rready = false;
          };
        })
        |> clock
        |> clock
        |> drive (λ x. record x { rst_n = true })

-- CHECK_EQ(axil_read(tb, addr), want).
unfoldable pub check_read : {D : Type 0} → Bus D → ℕ → ℕ → Tb D → Tb D
check_read bus addr want s = let (got, s') = bus.read addr s in tb_check got want s'
