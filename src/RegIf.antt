-- ===== src/RegIf.antt =====
-- The peripherals of rtl/soc behind the vendored register interface axil_reg_if, which is a
-- parameter: its outputs, its clock edge, and its handshake as a record of laws. A peripheral is a
-- parameter too, with the model that its bench may hold it against.
pub mod Transfer
pub mod Follow
pub mod Cycle
pub mod Write
pub mod ReadRounds
pub mod Read
pub mod Sequences
pub mod Bench
use rv32i_core.Prelude.{ℕ, ◌<◌, ◌≡◌, Bool, true, false, not}

-- The AXI4-Lite pins that a master drives.
pub record Pins : Type 0 where
  pub awaddr : ℕ
  pub awvalid : Bool
  pub wdata : ℕ
  pub wstrb : ℕ
  pub wvalid : Bool
  pub bready : Bool
  pub araddr : ℕ
  pub arvalid : Bool
  pub rready : Bool

-- The wires from the interface to the registers of the peripheral.
pub record Wires : Type 0 where
  pub wr_en : Bool
  pub wr_addr : ℕ
  pub wr_data : ℕ
  pub wr_strb : ℕ
  pub rd_en : Bool
  pub rd_addr : ℕ

-- The wires back.
pub record Replies : Type 0 where
  pub wr_wait : Bool
  pub wr_ack : Bool
  pub rd_data : ℕ
  pub rd_wait : Bool
  pub rd_ack : Bool

-- The interface: all its outputs are functions of its registers, and `step` is a rising edge, with
-- the reset first. The timeouts count down while neither wait nor acknowledge is given.
pub record RegIf (S : Type 0) : Type 0 where
  pub awready : S → Bool
  pub wready : S → Bool
  pub bvalid : S → Bool
  pub arready : S → Bool
  pub rvalid : S → Bool
  pub rdata : S → ℕ
  pub wires : S → Wires
  pub rd_timeout : S → ℕ
  pub step : Bool → Pins → Replies → S → S

-- The phases of a write and of a read, as the outputs show them.
module _ {S : Type 0} (r : RegIf S) where
  pub record WriteIdle (x : S) : Type 0 where
    pub awready : r.awready x ≡ true
    pub wready : r.wready x ≡ true
    pub bvalid : r.bvalid x ≡ false
    pub wr_en : (r.wires x).wr_en ≡ false

  pub record WritePending (a v strb : ℕ) (x : S) : Type 0 where
    pub awready : r.awready x ≡ false
    pub wready : r.wready x ≡ false
    pub bvalid : r.bvalid x ≡ false
    pub wr_en : (r.wires x).wr_en ≡ true
    pub wr_addr : (r.wires x).wr_addr ≡ a
    pub wr_data : (r.wires x).wr_data ≡ v
    pub wr_strb : (r.wires x).wr_strb ≡ strb

  pub record WriteAnswered (x : S) : Type 0 where
    pub awready : r.awready x ≡ true
    pub wready : r.wready x ≡ true
    pub bvalid : r.bvalid x ≡ true
    pub wr_en : (r.wires x).wr_en ≡ false

  pub record ReadIdle (x : S) : Type 0 where
    pub arready : r.arready x ≡ true
    pub rvalid : r.rvalid x ≡ false
    pub rd_en : (r.wires x).rd_en ≡ false

  pub record ReadPending (a : ℕ) (x : S) : Type 0 where
    pub arready : r.arready x ≡ false
    pub rvalid : r.rvalid x ≡ false
    pub rd_en : (r.wires x).rd_en ≡ true
    pub rd_addr : (r.wires x).rd_addr ≡ a
    pub rd_timeout : 0 < r.rd_timeout x

  pub record ReadAnswered (v : ℕ) (x : S) : Type 0 where
    pub arready : r.arready x ≡ true
    pub rvalid : r.rvalid x ≡ true
    pub rdata : r.rdata x ≡ v
    pub rd_en : (r.wires x).rd_en ≡ false

  -- The handshake of either channel: a request that is valid when the channel is idle is put to the
  -- registers in the next cycle and stays there while they ask to wait; the acknowledge raises the
  -- response, and a ready master takes the response.
  pub record IsHandshake : Type 0 where
    pub reset_write : (p : Pins) (q : Replies) (x : S) → WriteIdle (r.step true p q x)
    pub reset_read : (p : Pins) (q : Replies) (x : S) → ReadIdle (r.step true p q x)
    pub write_rest :
        (p : Pins) (q : Replies) (x : S)
        → p.awvalid ≡ false
        → p.wvalid ≡ false
        → WriteIdle x
        → WriteIdle (r.step false p q x)
    pub write_accept :
        (p : Pins) (q : Replies) (x : S)
        → p.awvalid ≡ true
        → p.wvalid ≡ true
        → WriteIdle x
        → WritePending p.awaddr p.wdata p.wstrb (r.step false p q x)
    pub write_done :
        (p : Pins) (q : Replies) (a v strb : ℕ) (x : S)
        → q.wr_ack ≡ true
        → WritePending a v strb x
        → WriteAnswered (r.step false p q x)
    pub write_taken :
        (p : Pins) (q : Replies) (x : S)
        → p.awvalid ≡ false
        → p.wvalid ≡ false
        → p.bready ≡ true
        → WriteAnswered x
        → WriteIdle (r.step false p q x)
    pub read_rest :
        (p : Pins) (q : Replies) (x : S)
        → p.arvalid ≡ false
        → ReadIdle x
        → ReadIdle (r.step false p q x)
    pub read_accept :
        (p : Pins) (q : Replies) (x : S)
        → p.arvalid ≡ true
        → ReadIdle x
        → ReadPending p.araddr (r.step false p q x)
    pub read_wait :
        (p : Pins) (q : Replies) (a : ℕ) (x : S)
        → q.rd_wait ≡ true
        → q.rd_ack ≡ false
        → ReadPending a x
        → ReadPending a (r.step false p q x)
    pub read_done :
        (p : Pins) (q : Replies) (a : ℕ) (x : S)
        → q.rd_ack ≡ true
        → ReadPending a x
        → ReadAnswered q.rd_data (r.step false p q x)
    pub read_taken :
        (p : Pins) (q : Replies) (v : ℕ) (x : S)
        → p.arvalid ≡ false
        → p.rready ≡ true
        → ReadAnswered v x
        → ReadIdle (r.step false p q x)

-- A peripheral: its inputs from the reset and the interface, its clock edge and its replies.
pub record Device (P : Type 0) : Type 0 where
  pub connect : Bool → Wires → P → P
  pub edge : P → P
  pub replies : P → Replies

-- The design under test: the reset, the pins, the interface and the peripheral.
pub record System (S P : Type 0) : Type 0 where
  pub rst_n : Bool
  pub pins : Pins
  pub regs : S
  pub dev : P

module _ {S P : Type 0} (r : RegIf S) (d : Device P) where
  unfoldable pub eval : System S P → System S P
  eval x = record x { dev = d.connect x.rst_n (r.wires x.regs) x.dev }

  unfoldable pub posedge : System S P → System S P
  posedge x = record x {
    regs = r.step (not x.rst_n) x.pins (d.replies x.dev) x.regs;
    dev = d.edge x.dev;
  }
