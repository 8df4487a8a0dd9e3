-- ===== src/AxilMaster/System.antt =====
-- sim/verilator/tb_axil_master.cpp: one clock cycle of the master with the stub slave, and the
-- store and load transactions that the bench drives.
use rv32i_core.Prelude.{
  ℕ, zero, suc, ◌+◌, Bool, true, false, ◌|>◌, Option, none, some, if◌then◌else◌,
}
use rv32i_core.Word.Signed.{negsuc}
use rv32i_core.Tb.{Tb, initial, drive, tick}
use rv32i_core.AxilMaster.{AxilMaster, eval, posedge}
use rv32i_core.AxilMaster.Slave.{DelayCounter, AxilSlave, drive_outputs, drive_state, update_slave}

pub record System : Type 0 where
  pub tb : Tb AxilMaster
  pub slave : AxilSlave

-- What a cycle leaves: the system, and bus_stall and mem_rdata as seen during it.
pub record Cycle : Type 0 where
  pub sys : System
  pub stall : Bool
  pub rdata : ℕ

unfoldable pub cycle : System → Cycle
unfolding drive tick eval posedge drive_outputs drive_state update_slave
cycle s =
    let driven = drive (drive_outputs s.slave) s.tb in
    let slave = drive_state s.slave s.tb.dut in
    let evaluated = drive eval driven in
    record {
      sys = record { tb = tick eval posedge evaluated; slave = update_slave slave };
      stall = evaluated.dut.bus_stall;
      rdata = evaluated.dut.mem_rdata;
    }

-- A finished transaction: the system, the last mem_rdata and the number of cycles.
pub record Done : Type 0 where
  pub sys : System
  pub rdata : ℕ
  pub cycles : ℕ

-- do { cycle(...); n++; } while (stall), with fuel; `none` means that the fuel ran out.
unfoldable pub run_cycles : ℕ → ℕ → System → Option Done
run_cycles zero n s = none
run_cycles (suc fuel) n s =
    let c = cycle s in
    let rest = run_cycles fuel (n + 1) c.sys in
    if c.stall then rest else some (record { sys = c.sys; rdata = c.rdata; cycles = n + 1 })

-- The request side of do_store and do_load.
unfoldable pub start_store : ℕ → ℕ → ℕ → ℕ → ℕ → System → System
unfolding drive
start_store addr v f3 aw_delay w_delay s = record {
  slave = record s.slave {
    awc = record s.slave.awc { delay = aw_delay };
    wc = record s.slave.wc { delay = w_delay };
  };
  tb =
      drive
        (λ d. record d {
          mem_addr = addr;
          mem_wdata = v;
          mem_funct3 = f3;
          mem_we = true;
          mem_re = false;
        })
        s.tb;
}

unfoldable pub start_load : ℕ → ℕ → ℕ → System → System
unfolding drive
start_load addr f3 ar_delay s = record {
  slave = record s.slave { arc = record s.slave.arc { delay = ar_delay } };
  tb =
      drive (λ d. record d { mem_addr = addr; mem_funct3 = f3; mem_re = true; mem_we = false })
        s.tb;
}

-- d.mem_we = 0 at the end of do_store, d.mem_re = 0 at the end of do_load.
unfoldable pub end_store : System → System
unfolding drive
end_store s = record s { tb = drive (λ d. record d { mem_we = false }) s.tb }

unfoldable pub end_load : System → System
unfolding drive
end_load s = record s { tb = drive (λ d. record d { mem_re = false }) s.tb }

-- do_store and do_load: the request, the loop, and the end of the request.
unfoldable pub ended : (System → System) → Option Done → Option Done
ended stop none = none
ended stop (some r) = some (record r { sys = stop r.sys })

unfoldable pub do_store : ℕ → ℕ → ℕ → ℕ → ℕ → ℕ → System → Option Done
unfolding ended
do_store fuel addr v f3 aw_delay w_delay s =
    ended end_store (run_cycles fuel 0 (start_store addr v f3 aw_delay w_delay s))

unfoldable pub do_load : ℕ → ℕ → ℕ → ℕ → System → Option Done
unfolding ended
do_load fuel addr f3 ar_delay s = ended end_load (run_cycles fuel 0 (start_load addr f3 ar_delay s))

-- The slave as constructed. A key that the map does not hold yet reads as 0.
abbrev new_counter : DelayCounter
new_counter = record { delay = 0; ctr = negsuc 0 }

unfoldable pub new_slave : AxilSlave
new_slave = record {
  awc = new_counter;
  wc = new_counter;
  arc = new_counter;
  aw_captured = false;
  w_captured = false;
  awaddr_captured = 0;
  wdata_captured = 0;
  wstrb_captured = 0;
  bvalid_reg = false;
  rvalid_reg = false;
  rdata_reg = 0;
  mem = λ a. 0;
  aw_fire_ = false;
  w_fire_ = false;
  ar_fire_ = false;
  awaddr_captured_ = 0;
  wdata_captured_ = 0;
  araddr_captured_ = 0;
  wstrb_captured_ = 0;
  bready_ = false;
  rready_ = false;
}

-- The start of main: the inputs at rest, two clock cycles of reset, and a new slave.
abbrev at_rest : AxilMaster → AxilMaster
at_rest d = record d {
  rst_n = false;
  mem_addr = 0;
  mem_wdata = 0;
  mem_funct3 = 2;
  mem_re = false;
  mem_we = false;
  awready = false;
  wready = false;
  arready = false;
  bvalid = false;
  rvalid = false;
  rdata = 0;
}

unfoldable pub start : AxilMaster → System
unfolding initial drive tick eval posedge new_slave
start d = record {
  tb =
      initial d
      |> drive at_rest
      |> tick eval posedge
      |> tick eval posedge
      |> drive (λ d. record d { rst_n = true });
  slave = new_slave;
}
