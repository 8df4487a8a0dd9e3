-- ===== src/Decoder/Bench.antt =====
-- sim/verilator/tb_decoder.cpp: the random sections of main.
use rv32i_core.Prelude.{ℕ, ◌+◌, ◌-◌, ◌^◌, ◌|>◌, ◌==◌, ◌||◌, if◌then◌else◌, bit, bit_and}
use rv32i_core.Word.{u32, shl, ◌>>◌, ◌∣◌}
use rv32i_core.Tb.{Tb, tb_begin, finish, rnd, rnd_range}
use rv32i_core.Tb.Loop.{for_loop}
use rv32i_core.Immgen.Encode.{op_opimm}
use rv32i_core.Decoder.{Decoder}
use rv32i_core.Decoder.Encode.{enc_r, enc_i}
use rv32i_core.Decoder.Directed.{decode_word, check, opening}

-- Section 13 for one instruction.
unfoldable pub check_r : ℕ → ℕ → ℕ → ℕ → ℕ → Tb Decoder → Tb Decoder
unfolding decode_word
check_r f7 rs2 rs1 f3 rd s =
    s
    |> decode_word (enc_r f7 rs2 rs1 f3 rd)
    |> check (λ c. c.rs1_addr) rs1
    |> check (λ c. c.rs2_addr) rs2
    |> check (λ c. c.rd_addr) rd
    |> check (λ c. c.funct3) f3
    |> check (λ c. c.alu_op) (shl (f7 >> 5) 3 ∣ f3)
    |> check (λ c. bit c.reg_we) 1
    |> check (λ c. bit c.alu_src) 0

-- Section 14 for one instruction; the shifts are passed over by `continue`.
unfoldable pub check_opimm : ℕ → ℕ → Tb Decoder → Tb Decoder
unfolding decode_word
check_opimm imm f3 s =
    if f3 == 0b001 || f3 == 0b101
    then s
    else (s
        |> decode_word (enc_i op_opimm 5 f3 1 imm)
        |> check (λ c. bit_and c.alu_op 0b1000) 0
        |> check (λ c. bit_and c.alu_op 0b0111) f3)

module _ (rng : ℕ → ℕ) where
  unfoldable pub round_13 : ℕ → Tb Decoder → Tb Decoder
  unfolding rnd_range
  round_13 i s =
      let (rd, s) = rnd_range rng 0 31 s in
      let (rs1, s) = rnd_range rng 0 31 s in
      let (rs2, s) = rnd_range rng 0 31 s in
      let (f3, s) = rnd_range rng 0 7 s in
      let (sub, s) = rnd_range rng 0 1 s in
      check_r (if sub == 0 then 0 else 0b0100000) rs2 rs1 f3 rd s

  unfoldable pub round_14 : ℕ → Tb Decoder → Tb Decoder
  unfolding rnd rnd_range
  round_14 i s =
      let (r, s) = rnd rng s in
      let imm = u32 (bit_and r 0xFFF + 2 ^ 32 - 2048) in
      let (f3, s) = rnd_range rng 0 7 s in check_opimm imm f3 s

  -- main up to `return tb.finish()`.
  unfoldable pub run : Tb Decoder
  run =
      opening
      |> tb_begin "13. register fields across random instructions"
      |> for_loop 5000 0 round_13
      |> tb_begin "14. OP-IMM never produces SUB, across all immediates"
      |> for_loop 5000 0 round_14

  unfoldable pub main : ℕ
  main = finish run
