-- ===== src/AxilMaster/Statements.antt =====
-- What each statement of sim/verilator/tb_axil_master.cpp's main does from a quiet system.
use rv32i_core.Prelude.{ℕ, ◌+◌, ◌-◌, ◌^◌, ◌<◌, ◌≤◌, ◌≡◌, refl, ap, ◌∙◌, arith, some, String}
use rv32i_core.Word.{slice}
use rv32i_core.Tb.{tb_check}
use rv32i_core.Tb.Report.{tb_check-Passed}
use rv32i_core.AxilMaster.Bench.{
  continue, section, check, check_load, store, load, read_word, write_word, shadow, gather, draw,
  draw_word,
}
use rv32i_core.AxilMaster.Bytes.{access_bytes, store_bytes}
use rv32i_core.AxilMaster.Cycles.{IsQuiet}
use rv32i_core.AxilMaster.Keeps.{HasBytes, do_store-Passed, do_load-Passed}
use rv32i_core.AxilMaster.Load.{load_cycles}
use rv32i_core.AxilMaster.ReadBytes.{extended}
use rv32i_core.AxilMaster.ReadLanes.{load_bytes}
use rv32i_core.AxilMaster.Shadow.{shadowed, gathered}
use rv32i_core.AxilMaster.Slave.{rd_word, wr_word}
use rv32i_core.AxilMaster.Store.{store_cycles}
use rv32i_core.AxilMaster.System.{System, do_store, do_load}
use rv32i_core.AxilMaster.Transactions.{do_store_lem, do_load_lem}
use rv32i_core.AxilMaster.Logic.{Ghost, Takes}

-- The counters of the bench are not part of the system's state.
same_state-IsQuiet :
    (y y' : System) → y'.tb.dut ≡ y.tb.dut → y'.slave ≡ y.slave → IsQuiet y → IsQuiet y'
same_state-IsQuiet y y' d e q = record {
  running = rw d q.running;
  state_is = rw d q.state_is;
  no_requests = rw d q.no_requests;
  no_ready = rw d q.no_ready;
  nothing_captured = rw e q.nothing_captured;
  no_responses = rw e q.no_responses;
  no_access = rw d q.no_access;
}

pub section-Takes : (name : String) (g : Ghost) → Takes g (section name) (λ _. Unit {0}) g
unfolding section
section-Takes name g s h = (
  tt,
  _,
  refl,
  tt,
  record {
    quiet = same_state-IsQuiet s.sys _ refl refl h.quiet;
    mem_is = h.mem_is;
    model_is = h.model_is;
    clean = h.clean;
    count = h.count;
  },
)

pub check-Takes :
    (got want : ℕ) (g : Ghost)
    → got ≡ want
    → Takes g (check got want) (λ _. Unit {0}) (record g { checks = g.checks + 1 })
unfolding check
check-Takes got want g e s h =
    let (passed, dut) = tb_check-Passed got want s.sys.tb e in
    let sys = record s.sys { tb = tb_check got want s.sys.tb } in
    (
      tt,
      record s { sys = sys },
      refl,
      tt,
      record {
        quiet = same_state-IsQuiet s.sys sys dut refl h.quiet;
        mem_is = h.mem_is;
        model_is = h.model_is;
        clean = omega (arith, h.clean);
        count = omega (arith, h.count);
      },
    )

pub read_word-Takes :
    (addr : ℕ) (g : Ghost) → Takes g (read_word addr) (λ got. got ≡ rd_word g.mem addr) g
unfolding read_word
read_word-Takes addr g s h = (_, s, refl, ap (λ (m : ℕ → ℕ). rd_word m addr) h.mem_is, h)

pub gather-Takes :
    (off n : ℕ) (g : Ghost) → Takes g (gather off n) (λ want. want ≡ gathered off n g.model) g
unfolding gather
gather-Takes off n g s h = (_, s, refl, ap (gathered off n) h.model_is, h)

pub shadow-Takes :
    (off v n : ℕ) (g : Ghost)
    → Takes g (shadow off v n) (λ _. Unit {0}) (record g { model = shadowed off v n g.model })
unfolding shadow
shadow-Takes off v n g s h = (
  tt,
  _,
  refl,
  tt,
  record {
    quiet = h.quiet;
    mem_is = h.mem_is;
    model_is = ap (shadowed off v n) h.model_is;
    clean = h.clean;
    count = h.count;
  },
)

pub write_word-Takes :
    (addr word strb : ℕ) (g : Ghost)
    → Takes g
        (write_word addr word strb)
        (λ _. Unit {0})
        (record g { mem = wr_word addr word strb g.mem })
unfolding write_word
write_word-Takes addr word strb g s h = (
  tt,
  _,
  refl,
  tt,
  record {
    quiet = record {
      running = h.quiet.running;
      state_is = h.quiet.state_is;
      no_requests = h.quiet.no_requests;
      no_ready = h.quiet.no_ready;
      nothing_captured = h.quiet.nothing_captured;
      no_responses = h.quiet.no_responses;
      no_access = h.quiet.no_access;
    };
    mem_is = ap (wr_word addr word strb) h.mem_is;
    model_is = h.model_is;
    clean = h.clean;
    count = h.count;
  },
)

module _ (rng : ℕ → ℕ) where
  pub draw-Takes :
      (lo hi : ℕ) (g : Ghost) → lo ≤ hi → hi < 2 ^ 32 → Takes g (draw rng lo hi) (λ n. n ≤ hi) g
  unfolding draw
  draw-Takes lo hi g below small s h = (
    _,
    _,
    refl,
    omega arith,
    record {
      quiet = same_state-IsQuiet s.sys _ refl refl h.quiet;
      mem_is = h.mem_is;
      model_is = h.model_is;
      clean = h.clean;
      count = h.count;
    },
  )

  pub draw_word-Takes : (g : Ghost) → Takes g (draw_word rng) (λ n. n < 2 ^ 32) g
  unfolding draw_word
  draw_word-Takes g s h = (
    _,
    _,
    refl,
    omega arith,
    record {
      quiet = same_state-IsQuiet s.sys _ refl refl h.quiet;
      mem_is = h.mem_is;
      model_is = h.model_is;
      clean = h.clean;
      count = h.count;
    },
  )

-- The fuel of the bench covers every transaction with delays of at most 4.
pub store-Takes :
    (addr v f3 aw_delay w_delay : ℕ) (g : Ghost)
    → addr < 2 ^ 32
    → v < 2 ^ 32
    → slice f3 0 2 < 3
    → aw_delay ≤ 4
    → w_delay ≤ 4
    → Takes g
        (store addr v f3 aw_delay w_delay)
        (λ _. Unit {0})
        (record g { mem = store_bytes addr v (access_bytes f3) g.mem })
unfolding store
store-Takes addr v f3 aw_delay w_delay g ha hv hs haw hw s h =
    let needed = store_cycles addr v f3 aw_delay w_delay in
    let enough : 16 ≡ 16 - needed + needed = ground arith in
    let (r, runs, quiet, mem_is, _) =
      do_store_lem (16 - needed) addr v f3 aw_delay w_delay s.sys ha hv hs h.quiet in
    let ends : do_store 16 addr v f3 aw_delay w_delay s.sys ≡ some r =
      ap (λ n. do_store n addr v f3 aw_delay w_delay s.sys) enough ∙ runs in
    let (fails, checks) = do_store-Passed 16 addr v f3 aw_delay w_delay s.sys r ends in
    (
      tt,
      _,
      rw ends refl,
      tt,
      record {
        quiet = quiet;
        mem_is = mem_is ∙ ap (store_bytes addr v (access_bytes f3)) h.mem_is;
        model_is = h.model_is;
        clean = omega (arith, h.clean);
        count = omega (arith, h.count);
      },
    )

pub load-Takes :
    (addr f3 ar_delay : ℕ) (g : Ghost)
    → addr < 2 ^ 32
    → f3 < 8
    → slice f3 0 2 < 3
    → ar_delay ≤ 4
    → HasBytes g.mem
    → Takes g
        (load addr f3 ar_delay)
        (λ got. got ≡ extended f3 (load_bytes addr (access_bytes f3) g.mem))
        g
unfolding load
load-Takes addr f3 ar_delay g ha hf hs har bytes s h =
    let needed = load_cycles addr f3 ar_delay in
    let enough : 16 ≡ 16 - needed + needed = ground arith in
    let bytes' : HasBytes s.sys.slave.mem = λ a. rw h.mem_is (bytes a) in
    let (r, runs, quiet, mem_is, rdata_is, _) =
      do_load_lem (16 - needed) addr f3 ar_delay s.sys ha hf hs h.quiet bytes' in
    let ends : do_load 16 addr f3 ar_delay s.sys ≡ some r =
      ap (λ n. do_load n addr f3 ar_delay s.sys) enough ∙ runs in
    let (fails, checks) = do_load-Passed 16 addr f3 ar_delay s.sys r ends in
    (
      _,
      _,
      rw ends refl,
      rdata_is ∙ ap (λ (m : ℕ → ℕ). extended f3 (load_bytes addr (access_bytes f3) m)) h.mem_is,
      record {
        quiet = quiet;
        mem_is = mem_is ∙ h.mem_is;
        model_is = h.model_is;
        clean = omega (arith, h.clean);
        count = omega (arith, h.count);
      },
    )

pub check_load-Takes :
    (addr f3 ar_delay want : ℕ) (g : Ghost)
    → addr < 2 ^ 32
    → f3 < 8
    → slice f3 0 2 < 3
    → ar_delay ≤ 4
    → HasBytes g.mem
    → extended f3 (load_bytes addr (access_bytes f3) g.mem) ≡ want
    → Takes g
        (check_load addr f3 ar_delay want)
        (λ _. Unit {0})
        (record g { checks = g.checks + 1 })
check_load-Takes addr f3 ar_delay want g ha hf hs har bytes e s h =
    let (got, s', loads, got_is, h') = load-Takes addr f3 ar_delay g ha hf hs har bytes s h in
    let (_, s'', checks, _, h'') = check-Takes got want g (got_is ∙ e) s' h' in
    (tt, s'', ap (continue (λ n. check n want)) loads ∙ checks, tt, h'')
