-- ===== src/Examples/RegIfRuns.antt =====
-- The theorems on the peripherals over a register interface that keeps the handshake, with the
-- registers and timeouts of rtl/vendor/verilog-axi/axil_reg_if.v.
use rv32i_core.Prelude.{
  ℕ, ◌+◌, ◌-◌, ◌*◌, ◌%◌, ◌≡◌, ◌↔◌, refl, Bool, List, [], ◌∷◌, true, false, not, ◌&&◌, ◌||◌, ◌==◌,
  if◌then◌else◌, arith,
}
use rv32i_core.RegIf.{Pins, Replies, RegIf, WriteIdle, ReadIdle, IsHandshake, System}
use rv32i_core.RegIf.Transfer.{axil_bus}
use rv32i_core.RegIf.Follow.{Follows, model_bus}
use rv32i_core.RegIf.Sequences.{Access, transfers, transfers-Follows}
use rv32i_core.Tb.{Tb, initial}
use rv32i_core.Dmem.Words.{HasWords}
use rv32i_core.Gpio
use rv32i_core.Gpio.Panel
use rv32i_core.Gpio.Panel.{Panel}
use rv32i_core.Gpio.Runs.{gpio_run_verdict}
use rv32i_core.Timer
use rv32i_core.Timer.Runs.{timer_run_passes}
use rv32i_core.AxilMem
use rv32i_core.AxilMem.Runs.{axil_mem_run_passes}

record Regs : Type 0 where
  awaddr : ℕ
  awvalid : Bool
  wdata : ℕ
  wstrb : ℕ
  wvalid : Bool
  bvalid : Bool
  wr_en : Bool
  wr_timeout : ℕ
  araddr : ℕ
  arvalid : Bool
  rdata : ℕ
  rvalid : Bool
  rd_en : Bool
  rd_timeout : ℕ

-- A timeout of four cycles, reloaded while no request is held.
count_down : Bool → Bool → Bool → ℕ → ℕ
count_down held en wait count =
    let start = if held then count else 3 in
    if en && not wait && not (count == 0) then count - 1 else start

next_write : Pins → Replies → Regs → Regs
unfolding count_down
next_write p q x =
    let done = x.wr_en && (q.wr_ack || x.wr_timeout == 0) in
    let awvalid = if x.awvalid then not done else p.awvalid in
    let wvalid = if x.wvalid then not done else p.wvalid in
    let bvalid = done || (x.bvalid && not p.bready) in
    record x {
      awaddr = if x.awvalid then x.awaddr else p.awaddr;
      awvalid = awvalid;
      wdata = if x.wvalid then x.wdata else p.wdata;
      wstrb = if x.wvalid then x.wstrb else p.wstrb;
      wvalid = wvalid;
      bvalid = bvalid;
      wr_en = awvalid && wvalid && not bvalid;
      wr_timeout = count_down x.awvalid x.wr_en q.wr_wait x.wr_timeout;
    }

next_read : Pins → Replies → Regs → Regs
unfolding count_down
next_read p q x =
    let done = x.rd_en && (q.rd_ack || x.rd_timeout == 0) in
    let arvalid = if x.arvalid then not done else p.arvalid in
    let rvalid = done || (x.rvalid && not p.rready) in
    record x {
      araddr = if x.arvalid then x.araddr else p.araddr;
      arvalid = arvalid;
      rdata = if done then q.rd_data else x.rdata;
      rvalid = rvalid;
      rd_en = arvalid && not rvalid;
      rd_timeout = count_down x.arvalid x.rd_en q.rd_wait x.rd_timeout;
    }

cleared : Regs → Regs
cleared x = record x {
  awvalid = false;
  wvalid = false;
  bvalid = false;
  wr_en = false;
  arvalid = false;
  rvalid = false;
  rd_en = false;
}

abbrev reg_if : RegIf Regs
unfolding next_write next_read cleared
reg_if = record {
  awready = λ x. not x.awvalid;
  wready = λ x. not x.wvalid;
  bvalid = λ x. x.bvalid;
  arready = λ x. not x.arvalid;
  rvalid = λ x. x.rvalid;
  rdata = λ x. x.rdata;
  wires = λ x. record {
    wr_en = x.wr_en;
    wr_addr = x.awaddr;
    wr_data = x.wdata;
    wr_strb = x.wstrb;
    rd_en = x.rd_en;
    rd_addr = x.araddr;
  };
  rd_timeout = λ x. x.rd_timeout;
  step = λ rst p q x. let x' = next_read p q (next_write p q x) in if rst then cleared x' else x';
}

reg_if-IsHandshake : IsHandshake reg_if
unfolding next_write next_read cleared
reg_if-IsHandshake = record {
  reset_write = λ p q x. ground arith;
  reset_read = λ p q x. ground arith;
  write_rest = λ p q x aw w h. ground arith;
  write_accept = λ p q x aw w h. ground arith;
  write_done = λ p q a v strb x ack h. ground arith;
  write_taken = λ p q x aw w b h. ground arith;
  read_rest = λ p q x ar h. ground arith;
  read_accept = λ p q x ar h. ground arith;
  read_wait = λ p q a x wait ack h. ground arith;
  read_done = λ p q a x ack h. ground arith;
  read_taken = λ p q v x ar rr h. ground arith;
}

-- Everything that is not initialised holds some value at power-on.
abbrev at_rest : Regs
at_rest = record {
  awaddr = 12;
  awvalid = false;
  wdata = 0xFFFFFFFF;
  wstrb = 0xF;
  wvalid = false;
  bvalid = false;
  wr_en = false;
  wr_timeout = 0;
  araddr = 5;
  arvalid = false;
  rdata = 77;
  rvalid = false;
  rd_en = false;
  rd_timeout = 0;
}

at_rest-WriteIdle : WriteIdle reg_if at_rest
unfolding next_write next_read cleared
at_rest-WriteIdle = ground arith

at_rest-ReadIdle : ReadIdle reg_if at_rest
unfolding next_write next_read cleared
at_rest-ReadIdle = ground arith

abbrev system : {P : Type 0} → P → System Regs P
system dev = record {
  rst_n = true;
  pins = record {
    awaddr = 0;
    awvalid = false;
    wdata = 0;
    wstrb = 0;
    wvalid = false;
    bready = false;
    araddr = 0;
    arvalid = false;
    rready = false;
  };
  regs = at_rest;
  dev = dev;
}

abbrev some_gpio : Gpio.Gpio
some_gpio = record {
  rst_n = true;
  sw = 0x1234;
  reg_wr_en = true;
  reg_wr_addr = 0;
  reg_wr_data = 9;
  reg_wr_strb = 3;
  reg_rd_en = true;
  reg_rd_addr = 4;
  led_reg = 0xDEADBEEF;
}

-- The first strobe is 10: its bit 0 is clear, so the bench fails.
abbrev stream : ℕ → ℕ
stream n = n * 9

gpio_run_verdict_example :
    ((Gpio.Bench.run reg_if stream (system some_gpio)).checks ≡ 1561)
    × ((Gpio.Bench.main reg_if stream (system some_gpio) ≡ 0) ↔ ((1 + stream 1 % 15) % 4 ≡ 3))
gpio_run_verdict_example =
    gpio_run_verdict reg_if reg_if-IsHandshake stream (system some_gpio) at_rest-WriteIdle
      at_rest-ReadIdle

abbrev some_timer : Timer.Timer
some_timer = record {
  rst_n = true;
  reg_wr_en = true;
  reg_wr_addr = 8;
  reg_wr_data = 0;
  reg_rd_en = false;
  reg_rd_addr = 0;
  mtime = 0xFFFFFFFFFFFFFFFF;
  mtimecmp = 5;
}

timer_run_passes_example :
    ((Timer.Bench.run reg_if (system some_timer)).checks ≡ 17)
    × ((Timer.Bench.run reg_if (system some_timer)).fails ≡ 0)
    × (Timer.Bench.main reg_if (system some_timer) ≡ 0)
timer_run_passes_example =
    timer_run_passes reg_if reg_if-IsHandshake (system some_timer) at_rest-WriteIdle
      at_rest-ReadIdle

abbrev some_mem : AxilMem.AxilMem
some_mem = record {
  rst_n = true;
  reg_wr_en = true;
  reg_rd_en = true;
  rd_pending = true;
  u_dmem = record {
    en = true;
    addr = 3;
    wdata = 4;
    wstrb = 5;
    rdata = 6;
    mem = λ i. if i == 2 then 0xFFFFFFFF else 0x5A5A5A5A;
  };
}

some_mem-HasWords : HasWords some_mem.u_dmem.mem
some_mem-HasWords i = ground arith

axil_mem_run_passes_example :
    ((AxilMem.Bench.run reg_if stream (system some_mem)).checks ≡ 3061)
    × ((AxilMem.Bench.run reg_if stream (system some_mem)).fails ≡ 0)
    × (AxilMem.Bench.main reg_if stream (system some_mem) ≡ 0)
axil_mem_run_passes_example =
    axil_mem_run_passes reg_if reg_if-IsHandshake stream (system some_mem) at_rest-WriteIdle
      at_rest-ReadIdle some_mem-HasWords

abbrev panel_bench : Tb Panel
unfolding initial
panel_bench = initial (record { leds = 0xDEADBEEF; sw = 0x1234 })

abbrev gpio_bench : Tb (System Regs Gpio.Gpio)
unfolding initial
gpio_bench = initial (system some_gpio)

gpio_bench-Follows : Follows reg_if Panel.Shows panel_bench gpio_bench
unfolding initial
gpio_bench-Follows = record {
  running = refl;
  no_aw = refl;
  no_w = refl;
  no_ar = refl;
  write_idle = at_rest-WriteIdle;
  read_idle = at_rest-ReadIdle;
  shows = (refl, refl);
  logs = refl;
}

-- A write of one byte of the LED register, and reads of it and of the switches.
abbrev accesses : List Access
accesses = Access.write 0 0x11 1 ∷ Access.read 0 ∷ Access.read 4 ∷ []

transfers-Follows_example :
    ((transfers (axil_bus reg_if Gpio.gpio) accesses gpio_bench).0
      ≡ (transfers (model_bus Panel.panel) accesses panel_bench).0)
    × Follows reg_if Panel.Shows
        (transfers (model_bus Panel.panel) accesses panel_bench).1
        (transfers (axil_bus reg_if Gpio.gpio) accesses gpio_bench).1
transfers-Follows_example =
    transfers-Follows reg_if reg_if-IsHandshake Gpio.gpio Panel.panel Panel.gpio_law accesses
      panel_bench gpio_bench gpio_bench-Follows
