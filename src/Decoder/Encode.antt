-- ===== src/Decoder/Encode.antt =====
-- The instruction encoders of sim/verilator/tb_decoder.cpp.
use rv32i_core.Prelude.{ℕ, bit_and}
use rv32i_core.Word.{shl, ◌>>◌, ◌∣◌}
use rv32i_core.Immgen.Encode.{op_store, op_op}

abbrev pub op_fence : ℕ
op_fence = 0b0001111

abbrev pub op_system : ℕ
op_system = 0b1110011

unfoldable pub enc_r : ℕ → ℕ → ℕ → ℕ → ℕ → ℕ
enc_r f7 rs2 rs1 f3 rd = shl f7 25 ∣ shl rs2 20 ∣ shl rs1 15 ∣ shl f3 12 ∣ shl rd 7 ∣ op_op

unfoldable pub enc_i : ℕ → ℕ → ℕ → ℕ → ℕ → ℕ
enc_i op rd f3 rs1 imm = shl (bit_and imm 0xFFF) 20 ∣ shl rs1 15 ∣ shl f3 12 ∣ shl rd 7 ∣ op

unfoldable pub enc_s : ℕ → ℕ → ℕ → ℕ → ℕ
enc_s f3 rs1 rs2 imm =
    let u = bit_and imm 0xFFF in
    shl (bit_and (u >> 5) 0x7F) 25
    ∣ shl rs2 20
    ∣ shl rs1 15
    ∣ shl f3 12
    ∣ shl (bit_and u 0x1F) 7
    ∣ op_store
