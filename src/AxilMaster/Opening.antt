-- ===== src/AxilMaster/Opening.antt =====
-- Sections 1 to 7 of sim/verilator/tb_axil_master.cpp leave bytes in the slave's memory.
use mathlib.Core.Option.{some_inj}
use rv32i_core.Prelude.{ℕ, ◌≡◌, refl, ap, arith, Option, none, some, String}
use rv32i_core.AxilMaster.{AxilMaster}
use rv32i_core.AxilMaster.Bench.{
  Bench, M, continue, ◌>>=◌, modify, finished, fuel, section, check, store, timed_store, load,
  timed_load, read_word,
}
use rv32i_core.AxilMaster.Directed.{
  transact, transact_load, section_1, section_2, section_3, section_4, section_5, section_6,
  section_7, opening, begin, opened, opening_runs,
}
use rv32i_core.AxilMaster.Keeps.{
  HasBytes, cycle-HasBytes, run_cycles-keeps, do_store-keeps, do_load-keeps,
}
use rv32i_core.AxilMaster.System.{
  System, Done, do_store, do_load, start_store, start_load, end_store, end_load, start, new_slave,
}

abbrev InBytes : System → Type 0
InBytes y = HasBytes y.slave.mem

-- If the memory holds bytes before the statement, it does after it.
record KeepsBytes {A : Type 0} (m : M A) : Type 0 where
  keeps : (s : Bench) (a : A) (s' : Bench) → m s ≡ some (a, s') → InBytes s.sys → InBytes s'.sys

bind-KeepsBytes :
    {A B : Type 0} {m : M A} {f : A → M B}
    → KeepsBytes m
    → ((a : A) → KeepsBytes (f a))
    → KeepsBytes (m >>= f)
bind-KeepsBytes {A} {B} {m} {f} h k = record { keeps = λ s b s'. go s b s' (m s) refl }
  where
    go :
        (s : Bench) (b : B) (s' : Bench) (o : Option (A × Bench))
        → m s ≡ o
        → continue f o ≡ some (b, s')
        → InBytes s.sys
        → InBytes s'.sys
    go s b s' none e runs bytes = cc
    go s b s' (some (a, s₁)) e runs bytes = (k a).keeps s₁ b s' runs (h.keeps s a s₁ e bytes)

modify-KeepsBytes :
    (f : System → System) → ((y : System) → InBytes y → InBytes (f y)) → KeepsBytes (modify f)
modify-KeepsBytes f h = record {
  keeps = λ s a s' runs bytes.
      let e = ap (λ (r : Unit {0} × Bench). r.1) (some_inj.0 runs) in rw (← e) (h s.sys bytes);
}

finished-KeepsBytes :
    {A : Type 0} (part : Done → A) (run : System → Option Done)
    → ((y : System) (r : Done) → run y ≡ some r → InBytes y → InBytes r.sys)
    → KeepsBytes (λ s. finished part (run s.sys) s)
finished-KeepsBytes {A} part run h = record { keeps = λ s a s'. go s a s' (run s.sys) refl }
  where
    go :
        (s : Bench) (a : A) (s' : Bench) (o : Option Done)
        → run s.sys ≡ o
        → finished part o s ≡ some (a, s')
        → InBytes s.sys
        → InBytes s'.sys
    go s a s' none e runs bytes = cc
    go s a s' (some r) e runs bytes =
        let same = ap (λ (q : A × Bench). q.1) (some_inj.0 runs) in rw (← same) (h s.sys r e bytes)

section-KeepsBytes : (name : String) → KeepsBytes (section name)
unfolding section
section-KeepsBytes name = modify-KeepsBytes _ (λ y bytes. bytes)

check-KeepsBytes : (got want : ℕ) → KeepsBytes (check got want)
unfolding check
check-KeepsBytes got want = modify-KeepsBytes _ (λ y bytes. bytes)

read_word-KeepsBytes : (addr : ℕ) → KeepsBytes (read_word addr)
unfolding read_word
read_word-KeepsBytes addr = record {
  keeps =
      λ s a s' runs bytes. let e = ap (λ (r : ℕ × Bench). r.1) (some_inj.0 runs) in rw (← e) bytes;
}

do_store-InBytes :
    (n addr v f3 aw_delay w_delay : ℕ) (y : System) (r : Done)
    → do_store n addr v f3 aw_delay w_delay y ≡ some r
    → InBytes y
    → InBytes r.sys
unfolding start_store end_store
do_store-InBytes n addr v f3 aw_delay w_delay y r =
    do_store-keeps InBytes cycle-HasBytes n addr v f3 aw_delay w_delay y r (λ z h. h) (λ z h. h)

do_load-InBytes :
    (n addr f3 ar_delay : ℕ) (y : System) (r : Done)
    → do_load n addr f3 ar_delay y ≡ some r
    → InBytes y
    → InBytes r.sys
unfolding start_load end_load
do_load-InBytes n addr f3 ar_delay y r =
    do_load-keeps InBytes cycle-HasBytes n addr f3 ar_delay y r (λ z h. h) (λ z h. h)

store-KeepsBytes : (addr v f3 aw_delay w_delay : ℕ) → KeepsBytes (store addr v f3 aw_delay w_delay)
unfolding store
store-KeepsBytes addr v f3 aw_delay w_delay =
    finished-KeepsBytes _ _ (do_store-InBytes fuel addr v f3 aw_delay w_delay)

timed_store-KeepsBytes :
    (addr v f3 aw_delay w_delay : ℕ) → KeepsBytes (timed_store addr v f3 aw_delay w_delay)
unfolding timed_store
timed_store-KeepsBytes addr v f3 aw_delay w_delay =
    finished-KeepsBytes _ _ (do_store-InBytes fuel addr v f3 aw_delay w_delay)

load-KeepsBytes : (addr f3 ar_delay : ℕ) → KeepsBytes (load addr f3 ar_delay)
unfolding load
load-KeepsBytes addr f3 ar_delay = finished-KeepsBytes _ _ (do_load-InBytes fuel addr f3 ar_delay)

timed_load-KeepsBytes : (addr f3 ar_delay : ℕ) → KeepsBytes (timed_load addr f3 ar_delay)
unfolding timed_load
timed_load-KeepsBytes addr f3 ar_delay =
    finished-KeepsBytes _ _ (do_load-InBytes fuel addr f3 ar_delay)

transact-KeepsBytes : KeepsBytes transact
unfolding transact
transact-KeepsBytes = finished-KeepsBytes _ _ (run_cycles-keeps InBytes cycle-HasBytes fuel 0)

transact_load-KeepsBytes : KeepsBytes transact_load
unfolding transact_load
transact_load-KeepsBytes = finished-KeepsBytes _ _ (run_cycles-keeps InBytes cycle-HasBytes fuel 0)

-- The statements of a section keep bytes, and so does the section.
ruleset statements = (
  bind-KeepsBytes, section-KeepsBytes, store-KeepsBytes, timed_store-KeepsBytes, load-KeepsBytes,
  timed_load-KeepsBytes, transact-KeepsBytes, transact_load-KeepsBytes, read_word-KeepsBytes,
  check-KeepsBytes, modify-KeepsBytes,
)

section_1-KeepsBytes : KeepsBytes section_1
unfolding section_1
section_1-KeepsBytes = search (statements) depth 40

section_2-KeepsBytes : KeepsBytes section_2
unfolding section_2
section_2-KeepsBytes = search (statements) depth 40

section_3-KeepsBytes : KeepsBytes section_3
unfolding section_3
section_3-KeepsBytes = search (statements) depth 40

section_4-KeepsBytes : KeepsBytes section_4
unfolding section_4
section_4-KeepsBytes = search (statements) depth 40

section_5-KeepsBytes : KeepsBytes section_5
unfolding section_5
section_5-KeepsBytes = search (statements) depth 40

section_6-KeepsBytes : KeepsBytes section_6
unfolding section_6
section_6-KeepsBytes = search (statements) depth 40

section_7-KeepsBytes : KeepsBytes section_7
unfolding section_7 start_store end_store end_load
section_7-KeepsBytes = search (statements) depth 40

opening-KeepsBytes : KeepsBytes opening
unfolding opening
opening-KeepsBytes =
    search
      (
        bind-KeepsBytes, section_1-KeepsBytes, section_2-KeepsBytes, section_3-KeepsBytes,
        section_4-KeepsBytes, section_5-KeepsBytes, section_6-KeepsBytes, section_7-KeepsBytes,
      )
      depth 10

pub opened-HasBytes : (d : AxilMaster) → HasBytes (opened d).sys.slave.mem
unfolding begin start new_slave
opened-HasBytes d =
    opening-KeepsBytes.keeps (begin d) tt (opened d) (opening_runs d).0 (λ a. omega arith)
