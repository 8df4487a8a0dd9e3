-- ===== src/Dmem/Words.antt =====
-- The words of the data memory of sim/verilator/tb_dmem.cpp fit 32 bits.
use rv32i_core.Prelude.{ℕ, ◌^◌, ◌<◌, ◌≡◌, arith, String}
use rv32i_core.Tb.{Tb, initial, tb_begin, tb_check, drive, tick}
use rv32i_core.Dmem.{Dmem, written_lane, written, word_idx, eval, posedge}
use rv32i_core.Dmem.Bench.{store, load, directed, opening}

-- The words of the array fit 32 bits.
abbrev pub HasWords : (ℕ → ℕ) → Type 0
HasWords mem = (i : ℕ) → mem i < 2 ^ 32

pub written_lane-lt : (k strb v old : ℕ) → written_lane k strb v old < 2 ^ 8
written_lane-lt k strb v old = ground arith

pub written-lt : (strb v old : ℕ) → written strb v old < 2 ^ 32
written-lt strb v old = omega (
  arith,
  written_lane-lt 0 strb v old,
  written_lane-lt 1 strb v old,
  written_lane-lt 2 strb v old,
  written_lane-lt 3 strb v old,
)

pub posedge-HasWords : (d : Dmem) → HasWords d.mem → HasWords (posedge d).mem
unfolding posedge
posedge-HasWords d h i = ground (arith, h i, written-lt d.wstrb d.wdata (d.mem (word_idx d)))

pub record IsWorded (s : Tb Dmem) : Type 0 where
  pub words : HasWords s.dut.mem

pub drive-IsWorded :
    (f : Dmem → Dmem) (s : Tb Dmem)
    → ((d : Dmem) → HasWords d.mem → HasWords (f d).mem)
    → IsWorded s
    → IsWorded (drive f s)
unfolding drive
drive-IsWorded f s keeps h = record { words = keeps s.dut h.words }

tick-IsWorded : (s : Tb Dmem) → IsWorded s → IsWorded (tick eval posedge s)
unfolding tick
tick-IsWorded s h = record { words = posedge-HasWords s.dut h.words }

tb_begin-IsWorded : (name : String) (s : Tb Dmem) → IsWorded s → IsWorded (tb_begin name s)
unfolding tb_begin
tb_begin-IsWorded name s h = record { words = h.words }

tb_check-dut : (got want : ℕ) (s : Tb Dmem) → (tb_check got want s).dut ≡ s.dut
unfolding tb_check
tb_check-dut got want s = ground arith

pub tb_check-IsWorded : (got want : ℕ) (s : Tb Dmem) → IsWorded s → IsWorded (tb_check got want s)
tb_check-IsWorded got want s h = record { words = rw (tb_check-dut got want s) h.words }

pub store-IsWorded : (a v strb : ℕ) (s : Tb Dmem) → IsWorded s → IsWorded (store a v strb s)
unfolding store
store-IsWorded a v strb s h =
    drive-IsWorded (λ d. record d { wstrb = 0 }) _ (λ d w. w)
      (tick-IsWorded _
        (drive-IsWorded (λ d. record d { addr = a; wdata = v; wstrb = strb }) s (λ d w. w) h))

pub load-IsWorded : (a : ℕ) (s : Tb Dmem) → IsWorded s → IsWorded (load a s)
unfolding load
load-IsWorded a s h =
    tick-IsWorded _ (drive-IsWorded (λ d. record d { addr = a; wstrb = 0 }) s (λ d w. w) h)

directed-IsWorded : (s : Tb Dmem) → IsWorded s → IsWorded (directed s)
unfolding directed
directed-IsWorded s h =
    search
      (
        drive-IsWorded, tick-IsWorded, tb_begin-IsWorded, tb_check-IsWorded, store-IsWorded,
        load-IsWorded,
      )
      depth 100 fits 5000

pub opening-IsWorded : (d : Dmem) → HasWords d.mem → IsWorded (opening d)
unfolding opening drive initial
opening-IsWorded d h = directed-IsWorded _ (record { words = h })
