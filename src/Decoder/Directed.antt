-- ===== src/Decoder/Directed.antt =====
-- sim/verilator/tb_decoder.cpp: the helpers, and main up to the end of section 12.
use rv32i_core.Prelude.{ℕ, ◌|>◌, bit}
use rv32i_core.Word.{shl, neg32, ◌∣◌}
use rv32i_core.Tb.{Tb, initial, tb_begin, tb_check, drive, settle}
use rv32i_core.Alu.Bench.{code, add, sll, slt, xor, srl, sub, sra}
use rv32i_core.Immgen.Encode.{op_lui, op_auipc, op_jal, op_jalr, op_branch, op_load, op_opimm}
use rv32i_core.Decoder.{Control, Decoder, decode, eval}
use rv32i_core.Decoder.Encode.{op_fence, op_system, enc_r, enc_i, enc_s}

-- The lambda `decode` of main.
unfoldable pub decode_word : ℕ → Tb Decoder → Tb Decoder
unfolding drive settle eval
decode_word instr s = s |> drive (λ d. record d { instr = instr }) |> settle eval

-- CHECK_EQ on an output.
unfoldable pub check : (Control → ℕ) → ℕ → Tb Decoder → Tb Decoder
unfolding tb_check
check output want s = tb_check (output s.dut.out) want s

unfoldable pub first_half : Tb Decoder
unfolding decode_word check tb_begin initial enc_r enc_i
first_half =
    initial (record { instr = 0; out = decode 0 })
    |> tb_begin "1. register fields extracted from fixed positions"
    |> decode_word (enc_r 0 2 1 0 5)
    |> check (λ c. c.rs1_addr) 1
    |> check (λ c. c.rs2_addr) 2
    |> check (λ c. c.rd_addr) 5
    |> check (λ c. c.funct3) 0
    |> decode_word (enc_r 0 31 30 7 29)
    |> check (λ c. c.rs1_addr) 30
    |> check (λ c. c.rs2_addr) 31
    |> check (λ c. c.rd_addr) 29
    |> check (λ c. c.funct3) 7
    |> tb_begin "2. R-type control signals"
    |> decode_word (enc_r 0 2 1 0 5)
    |> check (λ c. c.alu_op) (code add)
    |> check (λ c. bit c.alu_src) 0
    |> check (λ c. bit c.reg_we) 1
    |> check (λ c. bit c.mem_we) 0
    |> check (λ c. bit c.mem_re) 0
    |> check (λ c. c.wb_sel) 0
    |> check (λ c. bit c.illegal) 0
    |> tb_begin "3. R-type: bit 30 selects sub and sra"
    |> decode_word (enc_r 0b0100000 2 1 0b000 5)
    |> check (λ c. c.alu_op) (code sub)
    |> decode_word (enc_r 0b0000000 2 1 0b101 5)
    |> check (λ c. c.alu_op) (code srl)
    |> decode_word (enc_r 0b0100000 2 1 0b101 5)
    |> check (λ c. c.alu_op) (code sra)
    |> decode_word (enc_r 0 2 1 0b010 5)
    |> check (λ c. c.alu_op) (code slt)
    |> tb_begin "4. OP-IMM: bit 30 must be masked"
    |> decode_word (enc_i op_opimm 5 0b000 1 42)
    |> check (λ c. c.alu_op) (code add)
    |> check (λ c. bit c.alu_src) 1
    |> check (λ c. bit c.reg_we) 1
    |> decode_word (enc_i op_opimm 5 0b000 1 (neg32 1))
    |> check (λ c. c.alu_op) (code add)
    |> decode_word (enc_i op_opimm 5 0b100 1 (neg32 1))
    |> check (λ c. c.alu_op) (code xor)
    |> decode_word (enc_i op_opimm 5 0b010 1 (neg32 1))
    |> check (λ c. c.alu_op) (code slt)
    |> tb_begin "5. OP-IMM: srai is the exception"
    |> decode_word (shl 0b0000000 25 ∣ shl 4 20 ∣ shl 1 15 ∣ shl 0b101 12 ∣ shl 5 7 ∣ op_opimm)
    |> check (λ c. c.alu_op) (code srl)
    |> decode_word (shl 0b0100000 25 ∣ shl 4 20 ∣ shl 1 15 ∣ shl 0b101 12 ∣ shl 5 7 ∣ op_opimm)
    |> check (λ c. c.alu_op) (code sra)
    |> decode_word (shl 0b0000000 25 ∣ shl 4 20 ∣ shl 1 15 ∣ shl 0b001 12 ∣ shl 5 7 ∣ op_opimm)
    |> check (λ c. c.alu_op) (code sll)
    |> tb_begin "6. loads"
    |> decode_word (enc_i op_load 5 0b010 1 8)
    |> check (λ c. c.alu_op) (code add)
    |> check (λ c. bit c.alu_src) 1
    |> check (λ c. bit c.reg_we) 1
    |> check (λ c. bit c.mem_re) 1
    |> check (λ c. bit c.mem_we) 0
    |> check (λ c. c.wb_sel) 1
    |> check (λ c. c.funct3) 0b010
    |> decode_word (enc_i op_load 5 0b100 1 8)
    |> check (λ c. c.funct3) 0b100
    |> check (λ c. c.alu_op) (code add)

unfoldable pub opening : Tb Decoder
unfolding first_half enc_s
opening =
    first_half
    |> tb_begin "7. stores"
    |> decode_word (enc_s 0b010 1 2 8)
    |> check (λ c. c.alu_op) (code add)
    |> check (λ c. bit c.alu_src) 1
    |> check (λ c. bit c.reg_we) 0
    |> check (λ c. bit c.mem_we) 1
    |> check (λ c. bit c.mem_re) 0
    |> check (λ c. c.rs1_addr) 1
    |> check (λ c. c.rs2_addr) 2
    |> tb_begin "8. branches"
    |> decode_word (shl 1 15 ∣ shl 2 20 ∣ shl 0b000 12 ∣ op_branch)
    |> check (λ c. bit c.is_branch) 1
    |> check (λ c. bit c.reg_we) 0
    |> check (λ c. bit c.mem_we) 0
    |> check (λ c. bit c.is_jal) 0
    |> check (λ c. bit c.is_jalr) 0
    |> tb_begin "9. jumps"
    |> decode_word (shl 1 7 ∣ op_jal)
    |> check (λ c. bit c.is_jal) 1
    |> check (λ c. bit c.is_jalr) 0
    |> check (λ c. bit c.reg_we) 1
    |> check (λ c. c.wb_sel) 2
    |> decode_word (enc_i op_jalr 1 0 1 0)
    |> check (λ c. bit c.is_jalr) 1
    |> check (λ c. bit c.is_jal) 0
    |> check (λ c. bit c.reg_we) 1
    |> check (λ c. c.wb_sel) 2
    |> check (λ c. c.alu_op) (code add)
    |> check (λ c. bit c.alu_src) 1
    |> tb_begin "10. lui and auipc"
    |> decode_word (shl 0x12345 12 ∣ shl 5 7 ∣ op_lui)
    |> check (λ c. bit c.alu_a_zero) 1
    |> check (λ c. bit c.alu_a_pc) 0
    |> check (λ c. bit c.reg_we) 1
    |> check (λ c. c.wb_sel) 0
    |> check (λ c. c.alu_op) (code add)
    |> decode_word (shl 0x12345 12 ∣ shl 5 7 ∣ op_auipc)
    |> check (λ c. bit c.alu_a_pc) 1
    |> check (λ c. bit c.alu_a_zero) 0
    |> check (λ c. bit c.reg_we) 1
    |> tb_begin "11. fence and system are nops"
    |> decode_word op_fence
    |> check (λ c. bit c.reg_we) 0
    |> check (λ c. bit c.mem_we) 0
    |> check (λ c. bit c.illegal) 0
    |> decode_word op_system
    |> check (λ c. bit c.reg_we) 0
    |> check (λ c. bit c.mem_we) 0
    |> tb_begin "12. illegal opcodes flagged"
    |> decode_word 0x00000000
    |> check (λ c. bit c.illegal) 1
    |> check (λ c. bit c.reg_we) 0
    |> check (λ c. bit c.mem_we) 0
    |> decode_word 0xFFFFFFFF
    |> check (λ c. bit c.illegal) 1
    |> decode_word 0x0000007F
    |> check (λ c. bit c.illegal) 1
