-- ===== src/Examples/CsrRuns.antt =====
-- The theorems on the CSR file at concrete inputs.
use rv32i_core.Prelude.{ℕ, ◌≡◌, refl, true, false, ◌*◌, [], ◌∷◌, ◌&&◌, ◌==◌, if◌then◌else◌}
use rv32i_core.Csr.{Csr, eval, posedge, read_value, csr_new, do_write, csr_mstatus, csr_mscratch}
use rv32i_core.Csr.Bench.{op_none, op_rw, op_rs}
use rv32i_core.Csr.Random.{run, main}
use rv32i_core.Csr.Laws.{csr_run_passes}
use rv32i_core.Csr.Access.{legal, read_value-posedge}
use rv32i_core.Csr.Traps.{Inputs, clock, clocks, mret_after_trap}
use rv32i_core.Csr.History.{clocks-held}

-- In user mode with interrupts on, about to set bits of mstatus.
abbrev busy : Csr
busy = record {
  rst_n = true;
  bus_stall = false;
  csr_addr = csr_mstatus;
  csr_wdata = 0x1888;
  csr_op = op_rs;
  csr_re = true;
  csr_we = true;
  trap = false;
  trap_pc = 0;
  trap_cause = 0;
  is_mret = false;
  timer_irq = true;
  mstatus_mie = true;
  mstatus_mpie = false;
  mstatus_mpp = 1;
  mie_mtie = true;
  priv_m = false;
  mtvec = 0x80000100;
  mscratch = 0xFFFFFFFF;
  mepc = 0x80000040;
  mcause = 11;
  csr_rdata = 0;
  csr_illegal = false;
  mtvec_out = 0;
  mepc_out = 0;
  priv_m_out = false;
  interrupt_pending = false;
}

abbrev numbers : ℕ → ℕ
numbers i = i * 0x9E3779B9

csr_run_passes_example :
    ((run numbers busy).checks ≡ 10078) × ((run numbers busy).fails ≡ 0) × (main numbers busy ≡ 0)
csr_run_passes_example = csr_run_passes busy numbers

read_value-posedge_example : read_value csr_mstatus (posedge busy) ≡ (
    if do_write busy && csr_mstatus == busy.csr_addr
    then legal csr_mstatus (csr_new busy) (read_value csr_mstatus busy)
    else read_value csr_mstatus busy)
read_value-posedge_example = read_value-posedge csr_mstatus busy refl refl refl refl

abbrev quiet : Inputs
quiet = record {
  bus_stall = false;
  csr_addr = 0;
  csr_wdata = 0;
  csr_op = op_none;
  csr_re = false;
  csr_we = false;
  trap = false;
  trap_pc = 0;
  trap_cause = 0;
  is_mret = false;
  timer_irq = true;
}

-- A timer interrupt, a handler that writes mscratch and a stalled cycle of it, and the return.
abbrev timer_trap : Inputs
timer_trap = record quiet { trap = true; trap_pc = 0x80000044; trap_cause = 0x80000007 }

abbrev save_scratch : Inputs
save_scratch = record quiet {
  csr_addr = csr_mscratch;
  csr_wdata = 5;
  csr_op = op_rw;
  csr_re = true;
  csr_we = true;
}

abbrev leave : Inputs
leave = record quiet { is_mret = true }

abbrev hold : Inputs → Inputs
hold i = record i { bus_stall = true }

mret_after_trap_example :
    let entered = clock timer_trap busy in
    let after = clock leave (clocks (save_scratch ∷ hold save_scratch ∷ []) entered) in
    (entered.mepc ≡ 0x80000044)
    × (entered.mcause ≡ 0x80000007)
    × (entered.priv_m ≡ true)
    × ((eval entered).interrupt_pending ≡ false)
    × (after.mstatus_mie ≡ true)
    × (after.priv_m ≡ false)
    × (after.mstatus_mpie ≡ true)
    × (after.mstatus_mpp ≡ 0)
mret_after_trap_example =
    mret_after_trap timer_trap leave (save_scratch ∷ hold save_scratch ∷ []) busy (refl, refl)
      ((refl, refl, refl), ((refl, refl, refl), tt)) (refl, refl, refl)

-- The write of the stalled cycle does not count.
clocks-held_example :
    let is =
      save_scratch ∷ hold (record save_scratch { csr_wdata = 6 }) ∷ timer_trap ∷ leave ∷ [] in
    let after = clocks is busy in
    (after.mtvec ≡ 0x80000100)
    × (after.mscratch ≡ 5)
    × (after.mepc ≡ 0x80000044)
    × (after.mcause ≡ 0x80000007)
clocks-held_example =
    clocks-held
      (save_scratch ∷ hold (record save_scratch { csr_wdata = 6 }) ∷ timer_trap ∷ leave ∷ []) busy
