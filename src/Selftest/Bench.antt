-- ===== src/Selftest/Bench.antt =====
-- sim/verilator/tb_selftest.cpp: the whole of main.
use rv32i_core.Prelude.{ℕ, ◌≡◌, refl, true, false, ◌|>◌, bit}
use rv32i_core.Tb.{Tb, initial, tb_begin, tb_check, drive, tick, finish}
use rv32i_core.Tb.Loop.{for_loop}
use rv32i_core.Selftest.{Selftest, eval, posedge}

abbrev check_count : ℕ → Tb Selftest → Tb Selftest
check_count want s = tb_check s.dut.count want s

unfoldable pub run : Selftest → Tb Selftest
unfolding initial tb_begin tb_check drive tick eval posedge for_loop
run d =
    initial d
    |> tb_begin "reset clears counter"
    |> drive (λ d. record d { rst_n = false; en = true })
    |> tick eval posedge
    |> tick eval posedge
    |> check_count 0
    |> tb_begin "counts while enabled"
    |> drive (λ d. record d { rst_n = true })
    |> for_loop 5 1 (λ i s. s |> tick eval posedge |> check_count i)
    |> tb_begin "holds while disabled"
    |> drive (λ d. record d { en = false })
    |> tick eval posedge
    |> tick eval posedge
    |> check_count 5
    |> tb_begin "combinational output tracks state"
    |> (λ s. tb_check (bit s.dut.is_max) 0 s)

unfoldable pub main : Selftest → ℕ
unfolding run finish
main d = finish (run d)

-- Whatever the counter holds before the reset, the bench makes its 8 checks, none of them fails, and
-- it exits with status 0.
pub selftest_run_passes : (d : Selftest) → ((run d).checks ≡ 8) × ((run d).fails ≡ 0) × (main d ≡ 0)
unfolding run main
selftest_run_passes d = (refl, refl, refl)
