-- ===== src/AxilMaster/Directed.antt =====
-- sim/verilator/tb_axil_master.cpp: main from the reset to section 7.
use rv32i_core.Prelude.{ℕ, ◌+◌, Option, none, some, refl, ◌≡◌, Bool, true, false}
use rv32i_core.Tb.{drive}
use rv32i_core.AxilMaster.{AxilMaster}
use rv32i_core.AxilMaster.Cycles.{IsQuiet}
use rv32i_core.AxilMaster.Lanes.{crosses, wstrb_lo, addr_lo, wdata_lo, rdata_ext, shifted}
use rv32i_core.AxilMaster.Shadow.{f3_b, f3_h, f3_w, f3_bu, f3_hu}
use rv32i_core.AxilMaster.Slave.{wr_word}
use rv32i_core.AxilMaster.System.{
  System, cycle, run_cycles, start_store, start_load, end_store, end_load, start,
}
use rv32i_core.AxilMaster.Bench.{
  Bench, M, ◌>>=◌, ◌>>◌, modify, finished, fuel, section, check, store, timed_store, timed_load,
  load, read_word, check_word, check_load,
}

-- BASE + off.
abbrev pub at : ℕ → ℕ
at off = 0x80000000 + off

-- Section 7 sets the inputs of the master itself, between runs of its loop.
unfoldable pub transact : M (Unit {0})
unfolding run_cycles
transact s = finished (λ r. tt) (run_cycles fuel 0 s.sys) s

unfoldable pub transact_load : M ℕ
unfolding run_cycles
transact_load s = finished (λ r. r.rdata) (run_cycles fuel 0 s.sys) s

abbrev pub next_store : ℕ → ℕ → System → System
next_store addr v y = record y {
  tb = drive (λ d. record d { mem_addr = addr; mem_wdata = v }) y.tb;
}

abbrev pub first_load : ℕ → ℕ → System → System
first_load addr f3 y = record {
  slave = record y.slave { arc = record y.slave.arc { delay = 0 } };
  tb = drive (λ d. record d { mem_addr = addr; mem_funct3 = f3; mem_re = true }) y.tb;
}

abbrev pub next_load : ℕ → System → System
next_load addr y = record y { tb = drive (λ d. record d { mem_addr = addr }) y.tb }

unfoldable pub section_1 : M (Unit {0})
unfolding section store read_word check
section_1 = do
  section "1. sw produces one AW, one W, one B; correct wstrb/wdata"
  store (at 0) 0xDEADBEEF f3_w 0 0
  check_word (at 0) 0xDEADBEEF

unfoldable pub section_2 : M (Unit {0})
unfolding section store read_word check
section_2 = do
  section "2. sb/sh at every byte lane produce the right wstrb"
  store (at 16) 0 f3_w 0 0
  store (at 16) 0xAA f3_b 0 0
  check_word (at 16) 0x000000AA
  store (at 17) 0xBB f3_b 0 0
  check_word (at 16) 0x0000BBAA
  store (at 18) 0xCC f3_b 0 0
  check_word (at 16) 0x00CCBBAA
  store (at 19) 0xDD f3_b 0 0
  check_word (at 16) 0xDDCCBBAA
  store (at 24) 0 f3_w 0 0
  store (at 24) 0x1234 f3_h 0 0
  check_word (at 24) 0x00001234
  store (at 26) 0x5678 f3_h 0 0
  check_word (at 24) 0x56781234

unfoldable pub section_3 : M (Unit {0})
unfolding section store load read_word check
section_3 = do
  section "3. lw produces one AR, one R; mem_rdata matches"
  store (at 32) 0x11223344 f3_w 0 0
  check_load (at 32) f3_w 0 0x11223344

unfoldable pub section_4 : M (Unit {0})
unfolding section store load read_word check
section_4 = do
  section "4. lb/lbu/lh/lhu sign/zero-extend at every lane"
  store (at 40) 0x80442211 f3_w 0 0
  check_load (at 40) f3_bu 0 0x00000011
  check_load (at 41) f3_bu 0 0x00000022
  check_load (at 42) f3_bu 0 0x00000044
  check_load (at 43) f3_bu 0 0x00000080
  check_load (at 40) f3_b 0 0x00000011
  check_load (at 43) f3_b 0 0xFFFFFF80
  store (at 44) 0x80007FFF f3_w 0 0
  check_load (at 44) f3_hu 0 0x00007FFF
  check_load (at 46) f3_hu 0 0x00008000
  check_load (at 44) f3_h 0 0x00007FFF
  check_load (at 46) f3_h 0 0xFFFF8000

unfoldable pub section_5 : M (Unit {0})
unfolding section timed_store timed_load read_word check
section_5 = do
  section
      "5. bus_stall high for exactly the right cycles, drops on response with mem_rdata already valid"
  n ← timed_store (at 48) 0xCAFEF00D f3_w 3 1
  check n 6
  check_word (at 48) 0xCAFEF00D
  (n', rdata) ← timed_load (at 48) f3_w 4
  check n' 7
  check rdata 0xCAFEF00D

unfoldable pub section_6 : M (Unit {0})
unfolding section store read_word check
section_6 = do
  section "6. AW before W, W before AW, both together -- all complete"
  store (at 52) 0xAAAAAAAA f3_w 0 3
  check_word (at 52) 0xAAAAAAAA
  store (at 56) 0xBBBBBBBB f3_w 3 0
  check_word (at 56) 0xBBBBBBBB
  store (at 60) 0xCCCCCCCC f3_w 0 0
  check_word (at 60) 0xCCCCCCCC

unfoldable pub section_7 : M (Unit {0})
unfolding section transact transact_load start_store end_store end_load read_word check drive
section_7 = do
  section "7. back-to-back transactions, no idle cycle between"
  modify (start_store (at 64) 0x11111111 f3_w 0 0)
  transact
  modify (next_store (at 68) 0x22222222)
  transact
  modify end_store
  check_word (at 64) 0x11111111
  check_word (at 68) 0x22222222
  modify (first_load (at 64) f3_w)
  rdata ← transact_load
  check rdata 0x11111111
  modify (next_load (at 68))
  rdata' ← transact_load
  check rdata' 0x22222222
  modify end_load

-- Sections 1 to 7.
unfoldable pub opening : M (Unit {0})
unfolding section_1 section_2 section_3 section_4 section_5 section_6 section_7
opening = do section_1; section_2; section_3; section_4; section_5; section_6; section_7

-- The reset, and the shadow array as a static: all zero.
unfoldable pub begin : AxilMaster → Bench
unfolding start
begin d = record { sys = start d; model = λ i. 0 }

-- What a run leaves, or the bench before it.
abbrev left_by : Option (Unit {0} × Bench) → Bench → Bench
left_by none s = s
left_by (some (tt, s')) s = s'

abbrev has_fuel : Option (Unit {0} × Bench) → Bool
has_fuel none = false
has_fuel (some r) = true

left_by_lem :
    (o : Option (Unit {0} × Bench)) (s : Bench) → has_fuel o ≡ true → o ≡ some (tt, left_by o s)
left_by_lem none s h = cc
left_by_lem (some (tt, s')) s h = refl

abbrev pub opened : AxilMaster → Bench
opened d = left_by (opening (begin d)) (begin d)

-- What is known after section 7.
pub opening_runs :
    (d : AxilMaster)
    → (opening (begin d) ≡ some (tt, opened d))
      × ((opened d).sys.tb.fails ≡ 0)
      × ((opened d).sys.tb.checks ≡ 29)
      × IsQuiet (opened d).sys
unfolding opening begin cycle crosses wr_word wstrb_lo addr_lo wdata_lo start_load rdata_ext shifted
opening_runs d = (
  left_by_lem (opening (begin d)) (begin d) refl,
  refl,
  refl,
  record {
    running = refl;
    state_is = refl;
    no_requests = (refl, refl, refl);
    no_ready = (refl, refl);
    nothing_captured = (refl, refl);
    no_responses = (refl, refl);
    no_access = (refl, refl);
  },
)
