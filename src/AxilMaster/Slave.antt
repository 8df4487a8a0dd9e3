-- ===== src/AxilMaster/Slave.antt =====
-- sim/verilator/tb_axil_master.cpp: the stub slave that answers the master.
use rv32i_core.Prelude.{
  ℕ, zero, suc, ◌+◌, ◌*◌, ◌^◌, Bool, true, false, not, ◌&&◌, ◌==◌, if◌then◌else◌, ◌|>◌, bit_and,
  update,
}
use rv32i_core.Word.{u32, ◌<<◌, ◌>>◌, ◌∣◌}
use rv32i_core.Word.Signed.{ℤ, pos, negsuc}
use rv32i_core.AxilMaster.{AxilMaster}

-- The wait before READY; `ctr` is -1 while no transfer is being timed. Delays are not negative.
pub record DelayCounter : Type 0 where
  pub delay : ℕ
  pub ctr : ℤ

-- The results of DelayCounter::ready: the new counter and the answer.
abbrev pub started : DelayCounter → ℤ → ℤ
started c (pos n) = pos n
started c (negsuc n) = pos c.delay

abbrev pub is_zero : ℤ → Bool
is_zero (pos zero) = true
is_zero (pos (suc n)) = false
is_zero (negsuc n) = false

abbrev pub decrement : ℤ → ℤ
decrement (pos zero) = negsuc 0
decrement (pos (suc n)) = pos n
decrement (negsuc n) = negsuc (suc n)

unfoldable pub ready : Bool → DelayCounter → DelayCounter × Bool
ready valid c =
    if valid
    then (record c { ctr = started c c.ctr }, is_zero (started c c.ctr))
    else (record c { ctr = negsuc 0 }, false)

unfoldable pub advance : Bool → Bool → DelayCounter → DelayCounter
advance valid rdy c =
    if valid
    then (if rdy then record c { ctr = negsuc 0 } else record c { ctr = decrement c.ctr })
    else c

-- The members named with a trailing underscore are those of the private section.
pub record AxilSlave : Type 0 where
  pub awc : DelayCounter
  pub wc : DelayCounter
  pub arc : DelayCounter
  pub aw_captured : Bool
  pub w_captured : Bool
  pub awaddr_captured : ℕ
  pub wdata_captured : ℕ
  pub wstrb_captured : ℕ
  pub bvalid_reg : Bool
  pub rvalid_reg : Bool
  pub rdata_reg : ℕ
  pub mem : ℕ → ℕ
  pub aw_fire_ : Bool
  pub w_fire_ : Bool
  pub ar_fire_ : Bool
  pub awaddr_captured_ : ℕ
  pub wdata_captured_ : ℕ
  pub araddr_captured_ : ℕ
  pub wstrb_captured_ : ℕ
  pub bready_ : Bool
  pub rready_ : Bool

-- The byte at waddr + i, shifted into its place.
abbrev byte_at : (ℕ → ℕ) → ℕ → ℕ → ℕ
byte_at mem waddr i = mem (u32 (waddr + i)) << (8 * i)

unfoldable pub rd_word : (ℕ → ℕ) → ℕ → ℕ
rd_word mem waddr =
    0 ∣ byte_at mem waddr 0 ∣ byte_at mem waddr 1 ∣ byte_at mem waddr 2 ∣ byte_at mem waddr 3

-- if (strb & (1 << i)) mem[waddr + i] = (data >> (8 * i)) & 0xFF.
abbrev pub wr_byte : ℕ → ℕ → ℕ → ℕ → (ℕ → ℕ) → ℕ → ℕ
wr_byte waddr word strb i mem =
    if bit_and strb (2 ^ i) == 0
    then mem
    else update mem (u32 (waddr + i)) (bit_and (word >> (8 * i)) 0xFF)

unfoldable pub wr_word : ℕ → ℕ → ℕ → (ℕ → ℕ) → ℕ → ℕ
wr_word waddr word strb mem =
    mem
    |> wr_byte waddr word strb 0
    |> wr_byte waddr word strb 1
    |> wr_byte waddr word strb 2
    |> wr_byte waddr word strb 3

-- What the slave puts on its outputs in the running cycle.
unfoldable pub drive_outputs : AxilSlave → AxilMaster → AxilMaster
unfolding ready
drive_outputs s d = record d {
  awready = (ready d.awvalid s.awc).1;
  wready = (ready d.wvalid s.wc).1;
  arready = (ready d.arvalid s.arc).1;
  bvalid = s.bvalid_reg;
  rvalid = s.rvalid_reg;
  rdata = s.rdata_reg;
}

-- What the slave samples in the running cycle.
unfoldable pub drive_state : AxilSlave → AxilMaster → AxilSlave
unfolding ready advance
drive_state s d =
    let (awc, aw_ready) = ready d.awvalid s.awc in
    let (wc, w_ready) = ready d.wvalid s.wc in
    let (arc, ar_ready) = ready d.arvalid s.arc in
    let aw_fire = d.awvalid && aw_ready in
    let w_fire = d.wvalid && w_ready in
    let ar_fire = d.arvalid && ar_ready in
    record s {
      aw_fire_ = aw_fire;
      w_fire_ = w_fire;
      ar_fire_ = ar_fire;
      awaddr_captured_ = if aw_fire then d.awaddr else s.awaddr_captured_;
      wdata_captured_ = if w_fire then d.wdata else s.wdata_captured_;
      wstrb_captured_ = if w_fire then d.wstrb else s.wstrb_captured_;
      araddr_captured_ = if ar_fire then d.araddr else s.araddr_captured_;
      awc = advance d.awvalid aw_ready awc;
      wc = advance d.wvalid w_ready wc;
      arc = advance d.arvalid ar_ready arc;
      bready_ = d.bready;
      rready_ = d.rready;
    }

-- The four statements of update, in order.
capture_aw : AxilSlave → AxilSlave
capture_aw s =
    if s.aw_fire_ then record s { aw_captured = true; awaddr_captured = s.awaddr_captured_ } else s

capture_w : AxilSlave → AxilSlave
capture_w s =
    if s.w_fire_
    then record s {
      w_captured = true;
      wdata_captured = s.wdata_captured_;
      wstrb_captured = s.wstrb_captured_;
    }
    else s

respond_write : AxilSlave → AxilSlave
respond_write s =
    let bvalid = if s.bvalid_reg && s.bready_ then false else s.bvalid_reg in
    if not bvalid && s.aw_captured && s.w_captured
    then record s {
      mem = wr_word s.awaddr_captured s.wdata_captured s.wstrb_captured s.mem;
      bvalid_reg = true;
      aw_captured = false;
      w_captured = false;
    }
    else record s { bvalid_reg = bvalid }

respond_read : AxilSlave → AxilSlave
respond_read s =
    let rvalid = if s.rvalid_reg && s.rready_ then false else s.rvalid_reg in
    if not rvalid && s.ar_fire_
    then record s { rdata_reg = rd_word s.mem s.araddr_captured_; rvalid_reg = true }
    else record s { rvalid_reg = rvalid }

unfoldable pub update_slave : AxilSlave → AxilSlave
unfolding capture_aw capture_w respond_write respond_read
update_slave s = s |> capture_aw |> capture_w |> respond_write |> respond_read
