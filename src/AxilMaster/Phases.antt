-- ===== src/AxilMaster/Phases.antt =====
-- The states that a store passes through, cycle by cycle.
use rv32i_core.Prelude.{ℕ, zero, suc, ◌≡◌, Bool, true, false, if◌then◌else◌}
use rv32i_core.Word.Signed.{pos}
use rv32i_core.AxilMaster.{write, wresp}
use rv32i_core.AxilMaster.Lanes.{addr_lo, addr_hi, wstrb_lo, wstrb_hi, wdata_lo, wdata_hi}
use rv32i_core.AxilMaster.Slave.{started}
use rv32i_core.AxilMaster.System.{System}

-- A request channel of the running phase: it will be accepted after r more cycles, or it has been.
pub data Channel : Type 0 where
  todo : ℕ → Channel
  accepted : Channel

abbrev pub next : Channel → Channel
next (todo zero) = accepted
next (todo (suc r)) = todo r
next accepted = accepted

module _ (addr v f3 aw_delay w_delay : ℕ) where
  abbrev pub target : Bool → ℕ
  target phase2 = if phase2 then addr_hi addr else addr_lo addr

  abbrev pub lanes : Bool → ℕ
  lanes phase2 = if phase2 then wstrb_hi addr f3 else wstrb_lo addr f3

  abbrev pub word : Bool → ℕ
  word phase2 = if phase2 then wdata_hi addr v else wdata_lo addr v

  -- The store is on the request side of the master, and the delays are set.
  pub record IsStoring (s : System) : Type 0 where
    pub running : s.tb.dut.rst_n ≡ true
    pub addr_is : s.tb.dut.mem_addr ≡ addr
    pub data_is : s.tb.dut.mem_wdata ≡ v
    pub funct3_is : s.tb.dut.mem_funct3 ≡ f3
    pub we_is : s.tb.dut.mem_we ≡ true
    pub re_is : s.tb.dut.mem_re ≡ false
    pub aw_delay_is : s.slave.awc.delay ≡ aw_delay
    pub w_delay_is : s.slave.wc.delay ≡ w_delay
    pub no_ar : s.tb.dut.arvalid ≡ false
    pub no_rready : s.tb.dut.rready ≡ false
    pub no_rvalid : s.slave.rvalid_reg ≡ false

  abbrev pub AwAt : Channel → Bool → System → Type 0
  AwAt (todo r) p s =
      (s.tb.dut.awvalid ≡ true)
      × (s.tb.dut.aw_done ≡ false)
      × (s.slave.aw_captured ≡ false)
      × (started s.slave.awc s.slave.awc.ctr ≡ pos r)
  AwAt accepted p s =
      (s.tb.dut.awvalid ≡ false)
      × (s.tb.dut.aw_done ≡ true)
      × (s.slave.aw_captured ≡ true)
      × (s.slave.awaddr_captured ≡ target p)

  abbrev pub WAt : Channel → Bool → System → Type 0
  WAt (todo r) p s =
      (s.tb.dut.wvalid ≡ true)
      × (s.tb.dut.w_done ≡ false)
      × (s.slave.w_captured ≡ false)
      × (started s.slave.wc s.slave.wc.ctr ≡ pos r)
  WAt accepted p s =
      (s.tb.dut.wvalid ≡ false)
      × (s.tb.dut.w_done ≡ true)
      × (s.slave.w_captured ≡ true)
      × (s.slave.wdata_captured ≡ word p)
      × (s.slave.wstrb_captured ≡ lanes p)

  -- What holds in every cycle of the given phase.
  pub record InPhase (p : Bool) (s : System) : Type 0 where
    pub storing : IsStoring s
    pub phase_is : s.tb.dut.phase2 ≡ p
    pub awaddr_is : s.tb.dut.awaddr ≡ target p
    pub wdata_is : s.tb.dut.wdata ≡ word p
    pub wstrb_is : s.tb.dut.wstrb ≡ lanes p

  -- ST_WRITE, before both channels have been accepted.
  pub record IsWriting (p : Bool) (a w : Channel) (mem : ℕ → ℕ) (s : System) : Type 0 where
    pub in_phase : InPhase p s
    pub state_is : s.tb.dut.state ≡ write
    pub unanswered : (s.tb.dut.bready ≡ false) × (s.slave.bvalid_reg ≡ false)
    pub mem_is : s.slave.mem ≡ mem
    pub aw_at : AwAt a p s
    pub w_at : WAt w p s

  -- ST_WRESP, with the response already there.
  pub record IsResponding (p : Bool) (mem : ℕ → ℕ) (s : System) : Type 0 where
    pub in_phase : InPhase p s
    pub state_is : s.tb.dut.state ≡ wresp
    pub answered : (s.tb.dut.bready ≡ true) × (s.slave.bvalid_reg ≡ true)
    pub no_aw : (s.tb.dut.awvalid ≡ false) × (s.slave.aw_captured ≡ false)
    pub no_w : (s.tb.dut.wvalid ≡ false) × (s.slave.w_captured ≡ false)
    pub mem_is : s.slave.mem ≡ mem
