-- ===== src/AxilMaster/Bench.antt =====
-- sim/verilator/tb_axil_master.cpp, main: the statements that its sections are made of. They act on
-- the test bench with the design, the stub slave and the shadow array; `none` means that the fuel
-- of a transaction ran out.
use rv32i_core.Prelude.{ℕ, zero, suc, ◌+◌, String, Option, none, some}
use rv32i_core.Tb.{tb_begin, tb_check, rnd, rnd_range}
use rv32i_core.AxilMaster.Shadow.{shadowed, gathered}
use rv32i_core.AxilMaster.Slave.{rd_word, wr_word}
use rv32i_core.AxilMaster.System.{System, Done, do_store, do_load}

-- The locals of main: tb and slave, and the array of the random sections.
pub record Bench : Type 0 where
  pub sys : System
  pub model : ℕ → ℕ

abbrev pub M : Type 0 → Type 0
M A = Bench → Option (A × Bench)

abbrev pub continue : {A B : Type 0} → (A → M B) → Option (A × Bench) → Option (B × Bench)
continue f none = none
continue f (some (a, s)) = f a s

infixl 5 ◌>>=◌ ◌>>◌
abbrev pub ◌>>=◌ : {A B : Type 0} → M A → (A → M B) → M B
◌>>=◌ m f s = continue f (m s)

abbrev pub ◌>>◌ : {B : Type 0} → M (Unit {0}) → M B → M B
m >> k = m >>= λ _. k

-- for (i = first; i < first + left; i++) body(i).
unfoldable pub loop : ℕ → ℕ → (ℕ → M (Unit {0})) → M (Unit {0})
loop zero i body s = some (tt, s)
loop (suc left) i body s = (body i >> loop left (i + 1) body) s

abbrev pub modify : (System → System) → M (Unit {0})
modify f s = some (tt, record s { sys = f s.sys })

unfoldable pub section : String → M (Unit {0})
unfolding tb_begin
section name = modify (λ y. record y { tb = tb_begin name y.tb })

unfoldable pub check : ℕ → ℕ → M (Unit {0})
unfolding tb_check
check got want = modify (λ y. record y { tb = tb_check got want y.tb })

-- The fuel of every transaction: no delay in main is above 4.
abbrev pub fuel : ℕ
fuel = 16

-- A transaction: what it returns of its Done, and the bench after it.
abbrev pub finished : {A : Type 0} → (Done → A) → Option Done → M A
finished part none s = none
finished part (some r) s = some (part r, record s { sys = r.sys })

-- do_store, with its number of cycles and without.
unfoldable pub timed_store : ℕ → ℕ → ℕ → ℕ → ℕ → M ℕ
unfolding do_store
timed_store addr v f3 aw_delay w_delay s =
    finished (λ r. r.cycles) (do_store fuel addr v f3 aw_delay w_delay s.sys) s

unfoldable pub store : ℕ → ℕ → ℕ → ℕ → ℕ → M (Unit {0})
unfolding do_store
store addr v f3 aw_delay w_delay s =
    finished (λ r. tt) (do_store fuel addr v f3 aw_delay w_delay s.sys) s

-- do_load, with its value, and with its number of cycles too.
unfoldable pub timed_load : ℕ → ℕ → ℕ → M (ℕ × ℕ)
unfolding do_load
timed_load addr f3 ar_delay s =
    finished (λ r. (r.cycles, r.rdata)) (do_load fuel addr f3 ar_delay s.sys) s

unfoldable pub load : ℕ → ℕ → ℕ → M ℕ
unfolding do_load
load addr f3 ar_delay s = finished (λ r. r.rdata) (do_load fuel addr f3 ar_delay s.sys) s

-- slave.rd_word and slave.wr_word.
unfoldable pub read_word : ℕ → M ℕ
unfolding rd_word
read_word addr s = some (rd_word s.sys.slave.mem addr, s)

unfoldable pub write_word : ℕ → ℕ → ℕ → M (Unit {0})
unfolding wr_word
write_word addr word strb =
    modify (λ y. record y { slave = record y.slave { mem = wr_word addr word strb y.slave.mem } })

abbrev pub check_word : ℕ → ℕ → M (Unit {0})
check_word addr want = do got ← read_word addr; check got want

abbrev pub check_load : ℕ → ℕ → ℕ → ℕ → M (Unit {0})
check_load addr f3 ar_delay want = do got ← load addr f3 ar_delay; check got want

-- The byte loops on the array.
unfoldable pub shadow : ℕ → ℕ → ℕ → M (Unit {0})
unfolding shadowed
shadow off v n s = some (tt, record s { model = shadowed off v n s.model })

unfoldable pub gather : ℕ → ℕ → M ℕ
unfolding gathered
gather off n s = some (gathered off n s.model, s)

-- tb.rnd(lo, hi) and tb.rnd().
module _ (rng : ℕ → ℕ) where
  unfoldable pub draw : ℕ → ℕ → M ℕ
  unfolding rnd_range
  draw lo hi s =
      let (n, tb) = rnd_range rng lo hi s.sys.tb in
      some (n, record s { sys = record s.sys { tb = tb } })

  unfoldable pub draw_word : M ℕ
  unfolding rnd
  draw_word s =
      let (n, tb) = rnd rng s.sys.tb in some (n, record s { sys = record s.sys { tb = tb } })
