-- ===== src/Examples/AxilRuns.antt =====
-- The theorems on the AXI4-Lite master and its bench at concrete inputs.
use rv32i_core.Prelude.{ℕ, ◌+◌, ◌*◌, ◌<◌, ◌≡◌, refl, arith, false, some}
use rv32i_core.AxilMaster.{AxilMaster, idle}
use rv32i_core.AxilMaster.Bench.{Bench}
use rv32i_core.AxilMaster.Random
use rv32i_core.AxilMaster.Runs.{axil_master_run_passes}
use rv32i_core.AxilMaster.Bytes.{store_bytes}
use rv32i_core.AxilMaster.Cycles.{IsQuiet, start-IsQuiet}
use rv32i_core.AxilMaster.ReadBytes.{extended}
use rv32i_core.AxilMaster.ReadLanes.{load_bytes}
use rv32i_core.AxilMaster.Store.{store_cycles}
use rv32i_core.AxilMaster.Load.{load_cycles}
use rv32i_core.AxilMaster.System.{Done, start, new_slave, do_store, do_load}
use rv32i_core.AxilMaster.Transactions.{do_store_lem, do_load_lem, load_after_store}

-- A master before its reset.
abbrev blank : AxilMaster
blank = record {
  rst_n = false;
  mem_addr = 0;
  mem_wdata = 0;
  mem_funct3 = 0;
  mem_re = false;
  mem_we = false;
  awready = false;
  wready = false;
  bvalid = false;
  arready = false;
  rdata = 0;
  rvalid = false;
  state = idle;
  awvalid = false;
  wvalid = false;
  bready = false;
  arvalid = false;
  rready = false;
  aw_done = false;
  w_done = false;
  phase2 = false;
  word_lo_reg = 0;
  awaddr = 0;
  araddr = 0;
  wstrb = 0;
  wdata = 0;
  mem_rdata = 0;
  bus_stall = false;
}

-- A word at the last byte of a word, with delays of 2 and 3.
do_store_lem_example :
    (r : Done) × (do_store
        (0 + store_cycles 0x80000003 0xDEADBEEF 2 2 3)
        0x80000003
        0xDEADBEEF
        2
        2
        3
        (start blank)
      ≡ some r)
    × IsQuiet r.sys
    × (r.sys.slave.mem ≡ store_bytes 0x80000003 0xDEADBEEF 4 (start blank).slave.mem)
    × (r.cycles ≡ store_cycles 0x80000003 0xDEADBEEF 2 2 3)
do_store_lem_example =
    do_store_lem 0 0x80000003 0xDEADBEEF 2 2 3 (start blank) (omega arith) (omega arith)
      (omega arith) (start-IsQuiet blank)

new_bytes : (a : ℕ) → (start blank).slave.mem a < 256
unfolding start new_slave
new_bytes a = omega arith

-- A signed half across two words, with a delay of 1.
do_load_lem_example :
    (r : Done) × (do_load (0 + load_cycles 0x80000003 1 1) 0x80000003 1 1 (start blank) ≡ some r)
    × IsQuiet r.sys
    × (r.sys.slave.mem ≡ (start blank).slave.mem)
    × (r.rdata ≡ extended 1 (load_bytes 0x80000003 2 (start blank).slave.mem))
    × (r.cycles ≡ load_cycles 0x80000003 1 1)
do_load_lem_example =
    do_load_lem 0 0x80000003 1 1 (start blank) (omega arith) (omega arith) (omega arith)
      (start-IsQuiet blank) new_bytes

-- A word stored across two words and loaded back.
load_after_store_example :
    (r : Done) × (r' : Done) × (do_store
        (0 + store_cycles 0x80000001 0xDEADBEEF 2 1 0)
        0x80000001
        0xDEADBEEF
        2
        1
        0
        (start blank)
      ≡ some r)
    × (do_load (0 + load_cycles 0x80000001 2 4) 0x80000001 2 4 r.sys ≡ some r')
    × (r'.rdata ≡ extended 2 0xDEADBEEF)
    × IsQuiet r'.sys
    × ((a : ℕ) → r'.sys.slave.mem a < 256)
load_after_store_example =
    load_after_store 0x80000001 0xDEADBEEF 2 2 1 0 4 (start blank) (omega arith) (omega arith)
      (omega arith) (omega arith) refl (start-IsQuiet blank) new_bytes

axil_master_run_passes_example :
    (s : Bench) × (Random.run (λ i. i * 0x9E3779B9) blank ≡ some (tt, s))
    × (s.sys.tb.checks ≡ 6038)
    × (s.sys.tb.fails ≡ 0)
    × (Random.main (λ i. i * 0x9E3779B9) blank ≡ some 0)
axil_master_run_passes_example = axil_master_run_passes (λ i. i * 0x9E3779B9) blank
