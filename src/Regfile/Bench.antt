-- ===== src/Regfile/Bench.antt =====
-- sim/verilator/tb_regfile.cpp: the helpers and the whole of main.
use rv32i_core.Prelude.{ℕ, Bool, true, false, ◌==◌, if◌then◌else◌, ◌|>◌, update}
use rv32i_core.Tb.{Tb, initial, tb_begin, tb_check, drive, settle, tick, finish, rnd, rnd_range}
use rv32i_core.Tb.Loop.{for_loop}
use rv32i_core.Regfile.{Regfile, power_on, eval, posedge}

-- A write to the input ports of the register file.
abbrev pub set_write : ℕ → ℕ → Bool → Tb Regfile → Tb Regfile
set_write addr v we = drive (λ d. record d { rd_addr = addr; rd_data = v; rd_we = we })

abbrev pub set_we : Bool → Tb Regfile → Tb Regfile
set_we we = drive (λ d. record d { rd_we = we })

abbrev pub set_rs1 : ℕ → Tb Regfile → Tb Regfile
set_rs1 addr = drive (λ d. record d { rs1_addr = addr })

abbrev pub set_rs2 : ℕ → Tb Regfile → Tb Regfile
set_rs2 addr = drive (λ d. record d { rs2_addr = addr })

unfoldable pub wr : ℕ → ℕ → Tb Regfile → Tb Regfile
unfolding drive tick eval posedge
wr addr v s = s |> set_write addr v true |> tick (eval true) posedge |> set_we false

unfoldable pub rd1 : ℕ → Tb Regfile → ℕ × Tb Regfile
unfolding drive settle eval
rd1 addr s = let s' = s |> set_rs1 addr |> settle (eval true) in (s'.dut.rs1_data, s')

unfoldable pub rd2 : ℕ → Tb Regfile → ℕ × Tb Regfile
unfolding drive settle eval
rd2 addr s = let s' = s |> set_rs2 addr |> settle (eval true) in (s'.dut.rs2_data, s')

-- CHECK_EQ(d.rs1_data, want), CHECK_EQ(d.rs2_data, want), CHECK_EQ(rd1(addr), want).
abbrev check_rs1 : ℕ → Tb Regfile → Tb Regfile
check_rs1 want s = tb_check s.dut.rs1_data want s

abbrev check_rs2 : ℕ → Tb Regfile → Tb Regfile
check_rs2 want s = tb_check s.dut.rs2_data want s

abbrev pub check_rd1 : ℕ → ℕ → Tb Regfile → Tb Regfile
check_rd1 addr want s = let (got, s') = rd1 addr s in tb_check got want s'

abbrev pub check_rd2 : ℕ → ℕ → Tb Regfile → Tb Regfile
check_rd2 addr want s = let (got, s') = rd2 addr s in tb_check got want s'

-- main up to the end of section 5.
unfoldable pub basics : Tb Regfile
unfolding wr rd1 tb_begin tb_check initial power_on
basics =
    initial power_on
    |> tb_begin "1. write then read back on port A"
    |> wr 7 0xDEADBEEF
    |> set_rs1 7
    |> settle (eval true)
    |> check_rs1 0xDEADBEEF
    |> tb_begin "2. same register visible on both ports"
    |> set_rs2 7
    |> settle (eval true)
    |> check_rs2 0xDEADBEEF
    |> tb_begin "3. rd_we low -> write does not take effect"
    |> wr 8 0x12345678
    |> set_write 8 0x87654321 false
    |> tick (eval true) posedge
    |> set_rs1 8
    |> settle (eval true)
    |> check_rs1 0x12345678
    |> tb_begin "4. write to x0 with we high -> x0 still reads 0"
    |> set_write 0 0x22446688 true
    |> tick (eval true) posedge
    |> set_we false
    |> set_rs1 0
    |> settle (eval true)
    |> check_rs1 0x00000000
    |> tb_begin "5. x0 reads 0 on both ports"
    |> set_rs1 0
    |> set_rs2 0
    |> settle (eval true)
    |> check_rs1 0x00000000
    |> check_rs2 0x00000000

-- main up to the end of section 9.
unfoldable pub opening : Tb Regfile
unfolding basics settle
opening =
    basics
    |> tb_begin "6. bypass: write x9 while reading x9 in the same cycle"
    |> wr 9 0x33333333
    |> set_write 9 0x11223344 true
    |> set_rs1 9
    |> settle (eval true)
    |> check_rs1 0x11223344
    |> tick (eval true) posedge
    |> set_we false
    |> settle (eval true)
    |> check_rs1 0x11223344
    |> tb_begin "7. bypass respects rd_we: same setup, we=0 -> old value"
    |> wr 9 0x33333333
    |> set_write 9 0x11223344 false
    |> set_rs1 9
    |> settle (eval true)
    |> check_rs1 0x33333333
    |> set_we false
    |> tb_begin "8. bypass does no resurrect x0"
    |> set_write 0 0xDEADBEEF true
    |> set_rs1 0
    |> set_rs2 0
    |> settle (eval true)
    |> check_rs1 0x00000000
    |> check_rs2 0x00000000
    |> tick (eval true) posedge
    |> set_we false
    |> tb_begin "9. neighbours undisturbed"
    |> wr 10 0xAAAAAAAA
    |> wr 11 0xBBBBBBBB
    |> wr 12 0xCCCCCCCC
    |> check_rd1 10 0xAAAAAAAA
    |> check_rd1 11 0xBBBBBBBB
    |> check_rd1 12 0xCCCCCCCC

-- The bench and the array model[32] of section 10.
pub record Shadowed : Type 0 where
  pub tb : Tb Regfile
  pub model : ℕ → ℕ

-- model[i] = rd1(i).
unfoldable pub resync : ℕ → Shadowed → Shadowed
resync i s = let (v, tb) = rd1 i s.tb in record { tb = tb; model = update s.model i v }

module _ (rng : ℕ → ℕ) where
  unfoldable pub round : ℕ → Shadowed → Shadowed
  unfolding rnd rnd_range
  round i s =
      let (a, tb₁) = rnd_range rng 0 31 s.tb in
      let (v, tb₂) = rnd rng tb₁ in
      let model = if a == 0 then s.model else update s.model a v in
      let (b, tb₃) = rnd_range rng 0 31 (wr a v tb₂) in
      let (c, tb₄) = rnd_range rng 0 31 tb₃ in
      record {
        tb =
            tb₄
            |> check_rd1 b (if b == 0 then 0 else model b)
            |> check_rd2 c (if c == 0 then 0 else model c);
        model = model;
      }

  -- main up to `return tb.finish()`.
  unfoldable pub run : Tb Regfile
  run =
      (record { tb = opening |> tb_begin "10. random against shadow model"; model = λ i. 0 }
        |> for_loop 32 0 (λ i s. record s { model = update s.model i 0 })
        |> for_loop 32 0 resync
        |> for_loop 5000 0 round).tb

  unfoldable pub main : ℕ
  main = finish run
