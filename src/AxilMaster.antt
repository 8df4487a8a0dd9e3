-- ===== src/AxilMaster.antt =====
-- rtl/soc/axil_master.v: the ports, the registers and the transaction state machine. The byte-lane
-- logic is in the child Lanes. The response codes bresp and rresp, which the module does not read,
-- and the constant protection signals are left out.
pub mod Lanes
pub mod Slave
pub mod System
pub mod Phases
pub mod WriteSteps
pub mod Cycles
pub mod WritePhase
pub mod Store
pub mod Bytes
pub mod Load
pub mod ReadLanes
pub mod ReadBytes
pub mod RoundTrip
pub mod Transactions
pub mod Shadow
pub mod Bench
pub mod Directed
pub mod Random
pub mod Keeps
pub mod Logic
pub mod Statements
pub mod Agreement
pub mod Rounds
pub mod Crossing
pub mod CrossingHalf
pub mod Opening
pub mod Runs
use rv32i_core.Prelude.{ℕ, Bool, true, false, not, ◌&&◌, ◌||◌, if◌then◌else◌}
use Lanes.{crosses, addr_lo, addr_hi, wstrb_lo, wstrb_hi, wdata_lo, wdata_hi, shifted, rdata_ext}

pub data State : Type 0 where
  idle write wresp read : State

-- Outputs that are not registers hold the value of the last evaluation.
pub record AxilMaster : Type 0 where
  pub rst_n : Bool
  pub mem_addr : ℕ
  pub mem_wdata : ℕ
  pub mem_funct3 : ℕ
  pub mem_re : Bool
  pub mem_we : Bool
  pub awready : Bool
  pub wready : Bool
  pub bvalid : Bool
  pub arready : Bool
  pub rdata : ℕ
  pub rvalid : Bool
  -- registers
  pub state : State
  pub awvalid : Bool
  pub wvalid : Bool
  pub bready : Bool
  pub arvalid : Bool
  pub rready : Bool
  pub aw_done : Bool
  pub w_done : Bool
  pub phase2 : Bool
  pub word_lo_reg : ℕ
  -- combinational outputs
  pub awaddr : ℕ
  pub araddr : ℕ
  pub wstrb : ℕ
  pub wdata : ℕ
  pub mem_rdata : ℕ
  pub bus_stall : Bool

-- phase_done: the response of the running phase is there.
abbrev pub phase_done : State → Bool → Bool → Bool
phase_done wresp bvalid rvalid = bvalid
phase_done read bvalid rvalid = rvalid
phase_done idle bvalid rvalid = false
phase_done write bvalid rvalid = false

unfoldable pub eval : AxilMaster → AxilMaster
eval d =
    let xfer_done =
      phase_done d.state d.bvalid d.rvalid && (not (crosses d.mem_addr d.mem_funct3) || d.phase2) in
    let addr = if d.phase2 then addr_hi d.mem_addr else addr_lo d.mem_addr in
    record d {
      awaddr = addr;
      araddr = addr;
      wstrb =
          if d.phase2 then wstrb_hi d.mem_addr d.mem_funct3 else wstrb_lo d.mem_addr d.mem_funct3;
      wdata = if d.phase2 then wdata_hi d.mem_addr d.mem_wdata else wdata_lo d.mem_addr d.mem_wdata;
      mem_rdata = rdata_ext d.mem_funct3 (shifted d.mem_addr d.mem_funct3 d.word_lo_reg d.rdata);
      bus_stall = (d.mem_re || d.mem_we) && not xfer_done;
    }

-- The registers after reset.
unfoldable pub reset : AxilMaster → AxilMaster
reset d = record d {
  state = idle;
  awvalid = false;
  wvalid = false;
  bready = false;
  arvalid = false;
  rready = false;
  aw_done = false;
  w_done = false;
  phase2 = false;
  word_lo_reg = 0;
}

-- The arms of the case statement on the state.
unfoldable pub arm : State → AxilMaster → AxilMaster
arm idle d =
    let d' = record d { aw_done = false; w_done = false; phase2 = false } in
    if d.mem_we
    then record d' { awvalid = true; wvalid = true; state = write }
    else if d.mem_re
    then record d' { arvalid = true; rready = true; state = read }
    else d'
arm write d =
    let aw_fire = d.awvalid && d.awready in
    let w_fire = d.wvalid && d.wready in
    let both = (d.aw_done || aw_fire) && (d.w_done || w_fire) in
    record d {
      awvalid = if aw_fire then false else d.awvalid;
      aw_done = if aw_fire then true else d.aw_done;
      wvalid = if w_fire then false else d.wvalid;
      w_done = if w_fire then true else d.w_done;
      bready = if both then true else d.bready;
      state = if both then wresp else d.state;
    }
arm wresp d =
    if d.bvalid
    then (if crosses d.mem_addr d.mem_funct3 && not d.phase2
        then record d {
          phase2 = true;
          aw_done = false;
          w_done = false;
          bready = false;
          awvalid = true;
          wvalid = true;
          state = write;
        }
        else record d { bready = false; state = idle })
    else d
arm read d =
    let d' = record d { arvalid = if d.arvalid && d.arready then false else d.arvalid } in
    if d.rvalid
    then (if crosses d.mem_addr d.mem_funct3 && not d.phase2
        then record d' { word_lo_reg = d.rdata; phase2 = true; arvalid = true }
        else record d' { rready = false; state = idle })
    else d'

unfoldable pub posedge : AxilMaster → AxilMaster
unfolding arm reset
posedge d = if not d.rst_n then reset d else arm d.state d
