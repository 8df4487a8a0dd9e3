-- ===== src/Immgen/Bench.antt =====
-- The main of sim/verilator/tb_immgen.cpp.
use rv32i_core.Prelude.{ℕ, ◌==◌, if◌then◌else◌, ◌|>◌, bit_and}
use rv32i_core.Word.{shl, neg32, ◌∣◌}
use rv32i_core.Tb.{Tb, initial, tb_begin, tb_check, drive, settle, finish, rnd, rnd_range}
use rv32i_core.Tb.Loop.{for_loop}
use rv32i_core.Immgen.{Immgen, eval}
use rv32i_core.Immgen.Encode.{
  op_lui, op_auipc, op_jal, op_branch, op_load, op_store, op_opimm, enc_i, enc_s, enc_b, enc_u,
  enc_j, sext,
}

-- CHECK_EQ(d.imm, want).
check_imm : ℕ → Tb Immgen → Tb Immgen
unfolding tb_check
check_imm want s = tb_check s.dut.imm want s

unfoldable pub chk : ℕ → ℕ → Tb Immgen → Tb Immgen
unfolding check_imm drive settle eval
chk instr want s = s |> drive (λ d. record d { instr = instr }) |> settle eval |> check_imm want

-- main up to the end of section 7.
unfoldable pub opening : Tb Immgen
unfolding chk tb_begin initial enc_i enc_s enc_b enc_u enc_j
opening =
    initial (record { instr = 0; imm = 0 })
    |> tb_begin "1. known instruction words"
    |> chk 0x02A08293 42
    |> chk 0xFFF08293 0xFFFFFFFF
    |> chk 0xf5b50793 0xFFFFFF5B
    |> chk 0x01010113 16
    |> tb_begin "2. I-type directed"
    |> chk (enc_i op_opimm 5 0 1 0) 0
    |> chk (enc_i op_opimm 5 0 1 2047) 2047
    |> chk (enc_i op_opimm 5 0 1 (neg32 2048)) 0xFFFFF800
    |> chk (enc_i op_load 5 2 1 8) 8
    |> tb_begin "3. S-type directed"
    |> chk (enc_s op_store 2 1 2 8) 8
    |> chk (enc_s op_store 2 1 2 (neg32 8)) 0xFFFFFFF8
    |> chk (enc_s op_store 2 1 2 2047) 2047
    |> chk (enc_s op_store 2 1 2 (neg32 2048)) 0xFFFFF800
    |> tb_begin "4. B-type directed"
    |> chk (enc_b op_branch 0 1 2 8) 8
    |> chk (enc_b op_branch 0 1 2 (neg32 8)) 0xFFFFFFF8
    |> chk (enc_b op_branch 0 1 2 4094) 4094
    |> chk (enc_b op_branch 0 1 2 (neg32 4096)) 0xFFFFF000
    |> tb_begin "5. U-type directed"
    |> chk (enc_u op_lui 5 0x12345000) 0x12345000
    |> chk (enc_u op_auipc 5 0xFFFFF000) 0xFFFFF000
    |> chk (enc_u op_lui 5 0x00000000) 0x00000000
    |> chk (enc_u op_lui 5 0x00001000) 0x00001000
    |> tb_begin "6. J-type directed"
    |> chk (enc_j op_jal 1 8) 8
    |> chk (enc_j op_jal 1 (neg32 8)) 0xFFFFFFF8
    |> chk (enc_j op_jal 1 1048574) 0x000FFFFE
    |> chk (enc_j op_jal 1 (neg32 1048576)) 0xFFF00000
    |> tb_begin "7. R-type has no immediate"
    |> chk (0b0110011 ∣ shl 5 7 ∣ shl 1 15 ∣ shl 2 20) 0

module _ (rng : ℕ → ℕ) where
  -- The cases of the switch, each with its format's register fields.
  unfoldable pub format_case : ℕ → ℕ → ℕ → ℕ → ℕ → Tb Immgen → Tb Immgen
  unfolding rnd
  format_case format rd rs1 rs2 f3 s =
      let (r, s) = rnd rng s in
      if format == 0
      then (let v = sext r 12 in chk (enc_i op_opimm rd f3 rs1 v) v s)
      else if format == 1
      then (let v = sext r 12 in chk (enc_s op_store f3 rs1 rs2 v) v s)
      else if format == 2
      then (let v = sext (bit_and r 0xFFFFFFFE) 13 in chk (enc_b op_branch f3 rs1 rs2 v) v s)
      else if format == 3
      then (let v = bit_and r 0xFFFFF000 in chk (enc_u op_lui rd v) v s)
      else (let v = sext (bit_and r 0xFFFFFFFE) 21 in chk (enc_j op_jal rd v) v s)

  unfoldable pub round : ℕ → Tb Immgen → Tb Immgen
  unfolding rnd_range
  round i s =
      let (rd, s) = rnd_range rng 0 31 s in
      let (rs1, s) = rnd_range rng 0 31 s in
      let (rs2, s) = rnd_range rng 0 31 s in
      let (f3, s) = rnd_range rng 0 7 s in
      let (format, s) = rnd_range rng 0 4 s in format_case format rd rs1 rs2 f3 s

  -- main up to `return tb.finish()`.
  unfoldable pub run : Tb Immgen
  run = opening |> tb_begin "8. random round-trip" |> for_loop 20000 0 round

  unfoldable pub main : ℕ
  main = finish run
