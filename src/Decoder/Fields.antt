-- ===== src/Decoder/Fields.antt =====
-- What the decoder reads out of encoded instructions.
use rv32i_core.Prelude.{
  ℕ, ◌+◌, ◌*◌, ◌/◌, ◌%◌, ◌^◌, ◌<◌, ◌≡◌, refl, ap, arith, ◌==◌, true, false, if◌then◌else◌,
}
use rv32i_core.Word.{slice, cat, shl}
use rv32i_core.Word.Bits.{or_next, and_low}
use rv32i_core.Immgen.Encode.{op_op, op_opimm}
use rv32i_core.Decoder.{Control, decode, defaults}
use rv32i_core.Decoder.Encode.{enc_r, enc_i}

enc_r_sum :
    (f7 rs2 rs1 f3 rd : ℕ)
    → f7 < 128
    → rs2 < 32
    → rs1 < 32
    → f3 < 8
    → rd < 32
    → enc_r f7 rs2 rs1 f3 rd
      ≡ f7 * 2 ^ 25 + rs2 * 2 ^ 20 + rs1 * 2 ^ 15 + f3 * 2 ^ 12 + rd * 2 ^ 7 + op_op
unfolding enc_r
enc_r_sum f7 rs2 rs1 f3 rd h₁ h₂ h₃ h₄ h₅ =
    let or₁ = or_next 25 {p = shl f7 25} (shl rs2 20) refl (omega arith) (omega arith) in
    let or₂ = or_next 20 (shl rs1 15) or₁ (omega arith) (omega arith) in
    let or₃ = or_next 15 (shl f3 12) or₂ (omega arith) (omega arith) in
    let or₄ = or_next 12 (shl rd 7) or₃ (omega arith) (omega arith) in
    omega (arith, or_next 7 op_op or₄ (omega arith) (omega arith))

-- An R-type word decodes to its own fields, {instr[30], funct3} and a register write.
pub record IsRType (f7 rs2 rs1 f3 rd : ℕ) (c : Control) : Type 0 where
  pub rs1_field : c.rs1_addr ≡ rs1
  pub rs2_field : c.rs2_addr ≡ rs2
  pub rd_field : c.rd_addr ≡ rd
  pub f3_field : c.funct3 ≡ f3
  pub op_field : c.alu_op ≡ f7 / 2 ^ 5 % 2 * 8 + f3
  pub writes : c.reg_we ≡ true
  pub uses_rs2 : c.alu_src ≡ false
  pub no_memory : (c.mem_we ≡ false) × (c.mem_re ≡ false)
  pub legal : c.illegal ≡ false

op_arm :
    (w : ℕ)
    → slice w 0 7 ≡ 0b0110011
    → decode w ≡ record (defaults w) {
      reg_we = true;
      alu_src = false;
      alu_op = cat 3 (slice w 30 1) (slice w 12 3);
    }
unfolding decode
op_arm w h = rw h

-- For a funct7 below 128, register numbers below 32 and a funct3 below 8, an encoded R-type word is
-- decoded as one: the fields come back, the ALU code is bit 5 of funct7 before funct3, the second
-- operand is a register, a register is written, memory is not accessed, and the word is legal.
pub decode-enc_r :
    (f7 rs2 rs1 f3 rd : ℕ)
    → f7 < 128
    → rs2 < 32
    → rs1 < 32
    → f3 < 8
    → rd < 32
    → IsRType f7 rs2 rs1 f3 rd (decode (enc_r f7 rs2 rs1 f3 rd))
unfolding defaults
decode-enc_r f7 rs2 rs1 f3 rd h₁ h₂ h₃ h₄ h₅ =
    let e = enc_r_sum f7 rs2 rs1 f3 rd h₁ h₂ h₃ h₄ h₅ in
    rw (op_arm (enc_r f7 rs2 rs1 f3 rd) (omega arith)) (record {
      rs1_field = omega arith;
      rs2_field = omega arith;
      rd_field = omega arith;
      f3_field = omega arith;
      op_field = omega arith;
      writes = refl;
      uses_rs2 = refl;
      no_memory = (refl, refl);
      legal = refl;
    })

enc_i_sum :
    (op rd f3 rs1 imm : ℕ)
    → op < 128
    → rd < 32
    → f3 < 8
    → rs1 < 32
    → enc_i op rd f3 rs1 imm ≡ imm % 2 ^ 12 * 2 ^ 20 + rs1 * 2 ^ 15 + f3 * 2 ^ 12 + rd * 2 ^ 7 + op
unfolding enc_i
enc_i_sum op rd f3 rs1 imm h₁ h₂ h₃ h₄ =
    let top = ap (λ x. shl x 20) (and_low 12 imm) in
    let or₁ = or_next 20 (shl rs1 15) top (omega arith) (omega arith) in
    let or₂ = or_next 15 (shl f3 12) or₁ (omega arith) (omega arith) in
    let or₃ = or_next 12 (shl rd 7) or₂ (omega arith) (omega arith) in
    omega (arith, or_next 7 op or₃ (omega arith) (omega arith))

opimm_arm :
    (w : ℕ)
    → slice w 0 7 ≡ 0b0010011
    → decode w ≡ record (defaults w) {
      reg_we = true;
      alu_src = true;
      alu_op = cat 3 (if slice w 12 3 == 0b101 then slice w 30 1 else 0) (slice w 12 3);
    }
unfolding decode
opimm_arm w h = rw h

-- For a funct3 below 8 and register numbers below 32, an encoded OP-IMM word takes bit 30 into the
-- ALU code only for the right shifts; for every other funct3 the code is funct3 itself, whatever
-- the immediate. The register fields come back, the second operand is the immediate, the result is
-- written, and the word is legal.
pub decode-enc_opimm :
    (imm f3 rd rs1 : ℕ)
    → f3 < 8
    → rd < 32
    → rs1 < 32
    → let c = decode (enc_i op_opimm rd f3 rs1 imm) in
      (c.alu_op ≡ (if f3 == 0b101 then imm / 2 ^ 10 % 2 * 8 + f3 else f3))
      × (c.rs1_addr ≡ rs1)
      × (c.rd_addr ≡ rd)
      × (c.alu_src ≡ true)
      × (c.reg_we ≡ true)
      × (c.illegal ≡ false)
unfolding defaults
decode-enc_opimm imm f3 rd rs1 h₁ h₂ h₃ =
    let e = enc_i_sum op_opimm rd f3 rs1 imm (omega arith) h₂ h₁ h₃ in
    let w : ℕ = enc_i op_opimm rd f3 rs1 imm in
    let field : slice w 12 3 ≡ f3 = omega arith in
    rw (opimm_arm w (omega arith), field) (ground arith, omega arith, omega arith, refl, refl, refl)
