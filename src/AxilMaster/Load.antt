-- ===== src/AxilMaster/Load.antt =====
-- The run of a whole load of sim/verilator/tb_axil_master.cpp: its cycles, and the words of its
-- phases.
use rv32i_core.Prelude.{
  ℕ, zero, suc, ◌+◌, ◌*◌, ◌≡◌, refl, Bool, true, false, arith, if◌then◌else◌, not, ◌&&◌, some,
  Bool-cases, inl, inr,
}
use rv32i_core.Word.Signed.{pos}
use rv32i_core.AxilMaster.{read}
use rv32i_core.AxilMaster.Cycles.{
  IsQuiet, Reaches, Reaches-end, one_stall, Reaches-suc, Reaches-trans,
}
use rv32i_core.AxilMaster.Lanes.{crosses, addr_lo, addr_hi, shifted, rdata_ext}
use rv32i_core.AxilMaster.Slave.{started, rd_word}
use rv32i_core.AxilMaster.System.{System, cycle, Done, start_load, end_load, do_load}

module _ (addr f3 ar_delay : ℕ) where
  abbrev address : Bool → ℕ
  address phase2 = if phase2 then addr_hi addr else addr_lo addr

  -- What holds in every cycle of the given phase of a load from `mem`, with the given first word.
  record InLoad (p : Bool) (mem : ℕ → ℕ) (first : ℕ) (s : System) : Type 0 where
    running : s.tb.dut.rst_n ≡ true
    state_is : s.tb.dut.state ≡ read
    addr_is : s.tb.dut.mem_addr ≡ addr
    funct3_is : s.tb.dut.mem_funct3 ≡ f3
    we_is : s.tb.dut.mem_we ≡ false
    re_is : s.tb.dut.mem_re ≡ true
    delay_is : s.slave.arc.delay ≡ ar_delay
    no_writes : (s.tb.dut.awvalid ≡ false) × (s.tb.dut.wvalid ≡ false) × (s.tb.dut.bready ≡ false)
    no_aw : s.slave.aw_captured ≡ false
    no_w : s.slave.w_captured ≡ false
    no_bvalid : s.slave.bvalid_reg ≡ false
    rready_is : s.tb.dut.rready ≡ true
    phase_is : s.tb.dut.phase2 ≡ p
    araddr_is : s.tb.dut.araddr ≡ address p
    mem_is : s.slave.mem ≡ mem
    first_is : s.tb.dut.word_lo_reg ≡ first

  -- The address is accepted after r more cycles.
  record IsAsking (p : Bool) (r : ℕ) (mem : ℕ → ℕ) (first : ℕ) (s : System) : Type 0 where
    in_load : InLoad p mem first s
    asked : s.tb.dut.arvalid ≡ true
    counts : started s.slave.arc s.slave.arc.ctr ≡ pos r
    unanswered : s.slave.rvalid_reg ≡ false

  -- The response is there.
  record IsAnswered (p : Bool) (mem : ℕ → ℕ) (first : ℕ) (s : System) : Type 0 where
    in_load : InLoad p mem first s
    not_asked : s.tb.dut.arvalid ≡ false
    answered : s.slave.rvalid_reg ≡ true
    rdata_is : s.slave.rdata_reg ≡ rd_word mem (address p)

  load_starts :
      (s : System)
      → IsQuiet s
      → let t = start_load addr f3 ar_delay s in
        IsAsking false ar_delay s.slave.mem s.tb.dut.word_lo_reg (cycle t).sys
        × ((cycle t).stall ≡ true)
  unfolding cycle start_load
  load_starts s h = ground arith

  address_waits :
      (p : Bool) (r : ℕ) (mem : ℕ → ℕ) (first : ℕ) (s : System)
      → IsAsking p (suc r) mem first s
      → IsAsking p r mem first (cycle s).sys × ((cycle s).stall ≡ true)
  unfolding cycle
  address_waits p r mem first s h = ground arith

  address_accepted :
      (p : Bool) (mem : ℕ → ℕ) (first : ℕ) (s : System)
      → IsAsking p 0 mem first s
      → IsAnswered p mem first (cycle s).sys × ((cycle s).stall ≡ true)
  unfolding cycle
  address_accepted p mem first s h = ground arith

  -- The second phase follows at once if the access crosses into the next word.
  answered_crosses :
      (mem : ℕ → ℕ) (first : ℕ) (s : System)
      → crosses addr f3 ≡ true
      → IsAnswered false mem first s
      → IsAsking true ar_delay mem (rd_word mem (addr_lo addr)) (cycle s).sys
        × ((cycle s).stall ≡ true)
  unfolding cycle
  answered_crosses mem first s c h = ground arith

  answered_ends :
      (p : Bool) (mem : ℕ → ℕ) (first : ℕ) (s : System)
      → (crosses addr f3 && not p) ≡ false
      → IsAnswered p mem first s
      → IsQuiet (end_load (cycle s).sys)
        × ((cycle s).sys.slave.mem ≡ mem)
        × ((cycle s).stall ≡ false)
        × ((cycle s).rdata ≡ rdata_ext f3 (shifted addr f3 first (rd_word mem (address p))))
  unfolding cycle end_load
  answered_ends p mem first s c h = ground arith

  -- A phase takes one cycle more than the delay.
  phase_reads :
      (r : ℕ) (p : Bool) (mem : ℕ → ℕ) (first : ℕ) (s : System)
      → IsAsking p r mem first s
      → (s' : System) × Reaches (suc r) s s' × IsAnswered p mem first s'
  phase_reads zero p mem first s h =
      let (answered, stall) = address_accepted p mem first s h in
      ((cycle s).sys, one_stall s stall, answered)
  phase_reads (suc r) p mem first s h =
      let (asking, stall) = address_waits p r mem first s h in
      let (s', reached, answered) = phase_reads r p mem first (cycle s).sys asking in
      (s', Reaches-suc (suc r) s s' stall reached, answered)

  -- All cycles of a load within one word but the last.
  aligned-Reaches :
      (s : System)
      → IsQuiet s
      → (s' : System) × Reaches (ar_delay + 2) (start_load addr f3 ar_delay s) s'
        × IsAnswered false s.slave.mem s.tb.dut.word_lo_reg s'
  aligned-Reaches s q =
      let t = start_load addr f3 ar_delay s in
      let (asking, stall) = load_starts s q in
      let (s', reached, answered) =
        phase_reads ar_delay false s.slave.mem s.tb.dut.word_lo_reg (cycle t).sys asking in
      let total : suc (suc ar_delay) ≡ ar_delay + 2 = omega arith in
      (s', rw (← total) (Reaches-suc (suc ar_delay) t s' stall reached), answered)

  -- All cycles of a load across two words but the last.
  crossing-Reaches :
      (s : System)
      → crosses addr f3 ≡ true
      → IsQuiet s
      → (s' : System) × Reaches (2 * ar_delay + 4) (start_load addr f3 ar_delay s) s'
        × IsAnswered true s.slave.mem (rd_word s.slave.mem (addr_lo addr)) s'
  crossing-Reaches s c q =
      let t = start_load addr f3 ar_delay s in
      let (u, reached, answered) = aligned-Reaches s q in
      let (asking, stall) = answered_crosses s.slave.mem s.tb.dut.word_lo_reg u c answered in
      let (s', reached', answered') =
        phase_reads ar_delay true s.slave.mem (rd_word s.slave.mem (addr_lo addr)) (cycle u).sys
          asking in
      let total : (ar_delay + 2) + suc (suc ar_delay) ≡ 2 * ar_delay + 4 = omega arith in
      (
        s',
        rw (← total) (
            Reaches-trans (ar_delay + 2) (suc (suc ar_delay)) t u s' reached
              (Reaches-suc (suc ar_delay) u s' stall reached')),
        answered',
      )

  -- One cycle to start, and one more than the delay and one for the response in every phase.
  abbrev pub load_cycles : ℕ
  load_cycles = if crosses addr f3 then 2 * ar_delay + 5 else ar_delay + 3

  -- The value that comes back: from the word of the one phase, or from the words of the two.
  abbrev pub loaded : (ℕ → ℕ) → ℕ → ℕ
  loaded mem old =
      if crosses addr f3
      then rdata_ext f3 (shifted addr f3 (rd_word mem (addr_lo addr)) (rd_word mem (addr_hi addr)))
      else rdata_ext f3 (shifted addr f3 old (rd_word mem (addr_lo addr)))

  abbrev LoadResult : ℕ → ℕ → ℕ → System → Type 0
  LoadResult fuel total value s =
      (r : Done) × (do_load (fuel + total) addr f3 ar_delay s ≡ some r)
      × IsQuiet r.sys
      × (r.sys.slave.mem ≡ s.slave.mem)
      × (r.rdata ≡ value)
      × (r.cycles ≡ total)

  -- The last cycle of a load ends the loop.
  last_cycle :
      (p : Bool) (k total first : ℕ) (s s' : System)
      → total ≡ suc k
      → (crosses addr f3 && not p) ≡ false
      → Reaches k (start_load addr f3 ar_delay s) s'
      → IsAnswered p s.slave.mem first s'
      → (fuel : ℕ)
      → LoadResult fuel total
          (rdata_ext f3 (shifted addr f3 first (rd_word s.slave.mem (address p))))
          s
  unfolding end_load do_load
  last_cycle p k total first s s' e c h answered fuel =
      let (quiet, mem_is, stall, rdata) = answered_ends p s.slave.mem first s' c answered in
      let count : k + 1 ≡ total = omega arith in
      (
        record { sys = end_load (cycle s').sys; rdata = (cycle s').rdata; cycles = k + 1 },
        rw (Reaches-end k total (start_load addr f3 ar_delay s) s' fuel e h stall) refl,
        quiet,
        mem_is,
        rdata,
        count,
      )

  pub load_completes :
      (fuel : ℕ) (s : System)
      → IsQuiet s
      → LoadResult fuel load_cycles (loaded s.slave.mem s.tb.dut.word_lo_reg) s
  load_completes fuel s q = elim (Bool-cases (crosses addr f3)) [
    | inl c ↦
        let (s', reached, answered) = crossing-Reaches s c q in
        rw c (
          last_cycle true (2 * ar_delay + 4) (2 * ar_delay + 5) (rd_word s.slave.mem (addr_lo addr))
            s s' (omega arith) (rw c refl) reached answered fuel)
    | inr c ↦
        let (s', reached, answered) = aligned-Reaches s q in
        rw c (
          last_cycle false (ar_delay + 2) (ar_delay + 3) s.tb.dut.word_lo_reg s s' (omega arith)
            (rw c refl) reached answered fuel)
  ]
