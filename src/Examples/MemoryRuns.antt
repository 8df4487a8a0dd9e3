-- ===== src/Examples/MemoryRuns.antt =====
-- The theorems on the memories at concrete inputs.
use rv32i_core.Prelude.{ℕ, ◌*◌, ◌/◌, ◌%◌, ◌^◌, List, [], ◌∷◌, ◌≡◌, refl, true, false, arith}
use rv32i_core.Tb.{initial}
use rv32i_core.Dmem.{Dmem}
use rv32i_core.Dmem.Bench as DmemBench
use rv32i_core.Dmem.Laws.{dmem_run_passes}
use rv32i_core.Dmem.History.{Store, stores, last_byte, word_of, load-stores}
use rv32i_core.Imem.{Imem}
use rv32i_core.Imem.Bench as ImemBench
use rv32i_core.Imem.Laws.{imem_run_passes}

abbrev numbers : ℕ → ℕ
numbers i = i * 0x9E3779B9

abbrev filled : Dmem
filled = record { en = false; addr = 3; wdata = 7; wstrb = 1; rdata = 0; mem = λ i. 0xDEADBEEF }

dmem_run_passes_example :
    ((DmemBench.run numbers filled).checks ≡ 20011)
    × ((DmemBench.run numbers filled).fails ≡ 0)
    × (DmemBench.main numbers filled ≡ 0)
dmem_run_passes_example = dmem_run_passes filled (λ i. omega arith) numbers

-- The second store replaces byte 1 of the first and leaves byte 2.
abbrev two_stores : List Store
two_stores =
    record { addr = 0x80000010; value = 0x11223344; strb = 0b0110 }
    ∷ record { addr = 0x80000012; value = 0x55667788; strb = 0b1010 }
    ∷ []

load-stores_example :
    let s = initial (record filled { en = true }) in
    (DmemBench.load 0x80000011 (stores two_stores s)).dut.rdata / 2 ^ 8 % 2 ^ 8
    ≡ last_byte two_stores (word_of 0x80000011) 1 0xBE
unfolding initial
load-stores_example =
    load-stores two_stores 0x80000011 1 (initial (record filled { en = true })) refl (omega arith)

abbrev empty : Imem
empty = record { en = true; addr = 12; instr = 5; mem = λ i. 0 }

imem_run_passes_example :
    ((ImemBench.run numbers numbers (ImemBench.golden numbers) empty).checks ≡ 21401)
    × ((ImemBench.run numbers numbers (ImemBench.golden numbers) empty).fails ≡ 0)
    × (ImemBench.main numbers numbers (ImemBench.golden numbers) empty ≡ 0)
imem_run_passes_example =
    imem_run_passes numbers (ImemBench.golden numbers) (λ i below. refl) numbers empty
