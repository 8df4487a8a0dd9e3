-- ===== src/Immgen/Encode.antt =====
-- The instruction encoders and the sign extension of sim/verilator/tb_immgen.cpp. An int32_t
-- argument is its 32-bit pattern.
use rv32i_core.Prelude.{ℕ, ◌+◌, ◌-◌, ◌^◌, leb, if◌then◌else◌, bit_and, bit_xor}
use rv32i_core.Word.{u32, shl, ◌>>◌, ◌∣◌}

abbrev pub op_lui : ℕ
op_lui = 0b0110111

abbrev pub op_auipc : ℕ
op_auipc = 0b0010111

abbrev pub op_jal : ℕ
op_jal = 0b1101111

abbrev pub op_jalr : ℕ
op_jalr = 0b1100111

abbrev pub op_branch : ℕ
op_branch = 0b1100011

abbrev pub op_load : ℕ
op_load = 0b0000011

abbrev pub op_store : ℕ
op_store = 0b0100011

abbrev pub op_opimm : ℕ
op_opimm = 0b0010011

abbrev pub op_op : ℕ
op_op = 0b0110011

unfoldable pub enc_i : ℕ → ℕ → ℕ → ℕ → ℕ → ℕ
enc_i op rd f3 rs1 imm = shl (bit_and imm 0xFFF) 20 ∣ shl rs1 15 ∣ shl f3 12 ∣ shl rd 7 ∣ op

unfoldable pub enc_s : ℕ → ℕ → ℕ → ℕ → ℕ → ℕ
enc_s op f3 rs1 rs2 imm =
    let u = bit_and imm 0xFFF in
    shl (bit_and (u >> 5) 0x7F) 25
    ∣ shl rs2 20
    ∣ shl rs1 15
    ∣ shl f3 12
    ∣ shl (bit_and u 0x1F) 7
    ∣ op

unfoldable pub enc_b : ℕ → ℕ → ℕ → ℕ → ℕ → ℕ
enc_b op f3 rs1 rs2 imm =
    let u = bit_and imm 0x1FFF in
    shl (bit_and (u >> 12) 1) 31
    ∣ shl (bit_and (u >> 5) 0x3F) 25
    ∣ shl rs2 20
    ∣ shl rs1 15
    ∣ shl f3 12
    ∣ shl (bit_and (u >> 1) 0xF) 8
    ∣ shl (bit_and (u >> 11) 1) 7
    ∣ op

unfoldable pub enc_u : ℕ → ℕ → ℕ → ℕ
enc_u op rd imm = bit_and imm 0xFFFFF000 ∣ shl rd 7 ∣ op

unfoldable pub enc_j : ℕ → ℕ → ℕ → ℕ
enc_j op rd imm =
    let u = bit_and imm 0x1FFFFF in
    shl (bit_and (u >> 20) 1) 31
    ∣ shl (bit_and (u >> 1) 0x3FF) 21
    ∣ shl (bit_and (u >> 11) 1) 20
    ∣ shl (bit_and (u >> 12) 0xFF) 12
    ∣ shl rd 7
    ∣ op

-- The low n bits of v, sign-extended to 32.
unfoldable pub sext : ℕ → ℕ → ℕ
sext v n =
    let low = bit_and v (if leb 32 n then 0xFFFFFFFF else u32 (shl 1 n + 2 ^ 32 - 1)) in
    let m = shl 1 (n - 1) in u32 (bit_xor low m + 2 ^ 32 - m)
