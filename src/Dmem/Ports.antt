-- ===== src/Dmem/Ports.antt =====
-- What a store and a load of sim/verilator/tb_dmem.cpp do to the memory, word by word.
use rv32i_core.Prelude.{ℕ, ◌*◌, ◌^◌, ◌<◌, ◌≡◌, refl, true, arith, ◌==◌, if◌then◌else◌}
use rv32i_core.Word.{slice}
use rv32i_core.Tb.{Tb}
use rv32i_core.Tb.Report.{Passed}
use rv32i_core.Dmem.{Dmem, written}
use rv32i_core.Dmem.Words.{HasWords}
use rv32i_core.Dmem.Bench.{at, store, load}

-- Without strobes the word stays.
written_none : (v old : ℕ) → old < 2 ^ 32 → written 0 v old ≡ old
written_none v old h = omega arith

index : (i : ℕ) → i < 16384 → slice (at (4 * i)) 2 14 ≡ i
index i h = omega arith

pub store-mem :
    (i v strb j : ℕ) (s : Tb Dmem)
    → i < 16384
    → (store (at (4 * i)) v strb s).dut.mem j
      ≡ (if j == i then written strb v (s.dut.mem j) else s.dut.mem j)
unfolding store
store-mem i v strb j s h = rw (index i h) ground arith

pub store-Passed :
    (a v strb : ℕ) (s : Tb Dmem)
    → ((store a v strb s).dut.en ≡ s.dut.en) × Passed 0 s (store a v strb s)
unfolding store
store-Passed a v strb s = (refl, omega arith)

pub load-rdata :
    (i : ℕ) (s : Tb Dmem)
    → i < 16384
    → s.dut.en ≡ true
    → (load (at (4 * i)) s).dut.rdata ≡ s.dut.mem i
unfolding load
load-rdata i s h e = rw (index i h) rw e refl

pub load-mem :
    (i j : ℕ) (s : Tb Dmem)
    → i < 16384
    → HasWords s.dut.mem
    → (load (at (4 * i)) s).dut.mem j ≡ s.dut.mem j
unfolding load
load-mem i j s h words =
    rw (index i h) ground (arith, written_none s.dut.wdata (s.dut.mem i) (words i))

pub load-Passed : (a : ℕ) (s : Tb Dmem) → ((load a s).dut.en ≡ s.dut.en) × Passed 0 s (load a s)
unfolding load
load-Passed a s = (refl, omega arith)
