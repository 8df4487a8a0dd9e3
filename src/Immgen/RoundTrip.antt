-- ===== src/Immgen/RoundTrip.antt =====
-- The generator reads back the immediate that the encoders scatter.
use rv32i_core.Prelude.{
  ℕ, ◌+◌, ◌-◌, ◌*◌, ◌/◌, ◌%◌, ◌^◌, ◌≤◌, ◌<◌, ◌≡◌, ◌∙◌, ◌⊎◌, ap, arith, bit_and,
}
use rv32i_core.Word.{slice, shl, ◌>>◌}
use rv32i_core.Word.Bits.{or_next, and_low, and_high}
use rv32i_core.Immgen.{immgen, imm_u, imm_j, imm_b, imm_s, imm_i}
use rv32i_core.Immgen.Encode.{
  op_lui, op_auipc, op_jal, op_jalr, op_branch, op_load, op_store, op_opimm, enc_i, enc_s, enc_b,
  enc_u, enc_j,
}

-- The 32-bit pattern of a signed number of n bits.
abbrev pub IsSigned : ℕ → ℕ → Type 0
IsSigned n v = (v < 2 ^ (n - 1)) ⊎ ((2 ^ 32 - 2 ^ (n - 1) ≤ v) × (v < 2 ^ 32))

enc_i_sum :
    (op rd f3 rs1 imm : ℕ)
    → op < 128
    → rd < 32
    → f3 < 8
    → rs1 < 32
    → enc_i op rd f3 rs1 imm ≡ imm % 2 ^ 12 * 2 ^ 20 + rs1 * 2 ^ 15 + f3 * 2 ^ 12 + rd * 2 ^ 7 + op
unfolding enc_i
enc_i_sum op rd f3 rs1 imm h₁ h₂ h₃ h₄ =
    let top = and_low 12 imm in
    let or₁ = or_next 20 (shl rs1 15) (ap (λ x. shl x 20) top) (omega arith) (omega arith) in
    let or₂ = or_next 15 (shl f3 12) or₁ (omega arith) (omega arith) in
    let or₃ = or_next 12 (shl rd 7) or₂ (omega arith) (omega arith) in
    omega (arith, or_next 7 op or₃ (omega arith) (omega arith))

-- The opcode selects the format.
module _ (w : ℕ) where
  format_i :
      (slice w 0 7 ≡ op_opimm) ⊎ (slice w 0 7 ≡ op_load) ⊎ (slice w 0 7 ≡ op_jalr)
      → immgen w ≡ imm_i w
  unfolding immgen
  format_i h = ground arith

  format_s : slice w 0 7 ≡ op_store → immgen w ≡ imm_s w
  unfolding immgen
  format_s h = ground arith

  format_b : slice w 0 7 ≡ op_branch → immgen w ≡ imm_b w
  unfolding immgen
  format_b h = ground arith

  format_u : (slice w 0 7 ≡ op_lui) ⊎ (slice w 0 7 ≡ op_auipc) → immgen w ≡ imm_u w
  unfolding immgen
  format_u h = ground arith

  format_j : slice w 0 7 ≡ op_jal → immgen w ≡ imm_j w
  unfolding immgen
  format_j h = ground arith

-- For register numbers below 32, a funct3 below 8 and the 32-bit pattern of a signed 12-bit number,
-- the immediate generator reads the immediate back from an encoded OP-IMM, LOAD or JALR word.
pub immgen-enc_i :
    (op rd f3 rs1 imm : ℕ)
    → (op ≡ op_opimm) ⊎ (op ≡ op_load) ⊎ (op ≡ op_jalr)
    → rd < 32
    → f3 < 8
    → rs1 < 32
    → IsSigned 12 imm
    → immgen (enc_i op rd f3 rs1 imm) ≡ imm
unfolding imm_i
immgen-enc_i op rd f3 rs1 imm h₁ h₂ h₃ h₄ v =
    let w : ℕ = enc_i op rd f3 rs1 imm in
    let e = enc_i_sum op rd f3 rs1 imm (omega arith) h₂ h₃ h₄ in
    format_i w (omega arith) ∙ omega arith

enc_s_sum :
    (op f3 rs1 rs2 imm : ℕ)
    → op < 128
    → f3 < 8
    → rs1 < 32
    → rs2 < 32
    → enc_s op f3 rs1 rs2 imm
      ≡ imm / 2 ^ 5 % 2 ^ 7 * 2 ^ 25
        + rs2 * 2 ^ 20
        + rs1 * 2 ^ 15
        + f3 * 2 ^ 12
        + imm % 2 ^ 5 * 2 ^ 7
        + op
unfolding enc_s
enc_s_sum op f3 rs1 rs2 imm h₁ h₂ h₃ h₄ =
    let u = bit_and imm 0xFFF in
    let masked = and_low 12 imm in
    let low = and_low 5 u in
    let top = ap (λ x. shl x 25) (and_low 7 (u >> 5)) in
    let or₁ = or_next 25 (shl rs2 20) top (omega arith) (omega arith) in
    let or₂ = or_next 20 (shl rs1 15) or₁ (omega arith) (omega arith) in
    let or₃ = or_next 15 (shl f3 12) or₂ (omega arith) (omega arith) in
    let or₄ = or_next 12 (shl (bit_and u 0x1F) 7) or₃ (omega arith) (omega arith) in
    omega (arith, or_next 7 op or₄ (omega arith) (omega arith))

-- For register numbers below 32, a funct3 below 8 and the 32-bit pattern of a signed 12-bit number,
-- the immediate generator reads the immediate back from an encoded STORE word.
pub immgen-enc_s :
    (f3 rs1 rs2 imm : ℕ)
    → f3 < 8
    → rs1 < 32
    → rs2 < 32
    → IsSigned 12 imm
    → immgen (enc_s op_store f3 rs1 rs2 imm) ≡ imm
unfolding imm_s
immgen-enc_s f3 rs1 rs2 imm h₁ h₂ h₃ v =
    let e = enc_s_sum op_store f3 rs1 rs2 imm (omega arith) h₁ h₂ h₃ in
    format_s (enc_s op_store f3 rs1 rs2 imm) (omega arith) ∙ omega arith

enc_b_sum :
    (op f3 rs1 rs2 imm : ℕ)
    → op < 128
    → f3 < 8
    → rs1 < 32
    → rs2 < 32
    → enc_b op f3 rs1 rs2 imm
      ≡ imm / 2 ^ 12 % 2 * 2 ^ 31
        + imm / 2 ^ 5 % 2 ^ 6 * 2 ^ 25
        + rs2 * 2 ^ 20
        + rs1 * 2 ^ 15
        + f3 * 2 ^ 12
        + imm / 2 % 2 ^ 4 * 2 ^ 8
        + imm / 2 ^ 11 % 2 * 2 ^ 7
        + op
unfolding enc_b
enc_b_sum op f3 rs1 rs2 imm h₁ h₂ h₃ h₄ =
    let u = bit_and imm 0x1FFF in
    let masked = and_low 13 imm in
    let bit11 = and_low 1 (u >> 11) in
    let bits4_1 = and_low 4 (u >> 1) in
    let bits10_5 = and_low 6 (u >> 5) in
    let top = ap (λ x. shl x 31) (and_low 1 (u >> 12)) in
    let or₁ = or_next 31 (shl (bit_and (u >> 5) 0x3F) 25) top (omega arith) (omega arith) in
    let or₂ = or_next 25 (shl rs2 20) or₁ (omega arith) (omega arith) in
    let or₃ = or_next 20 (shl rs1 15) or₂ (omega arith) (omega arith) in
    let or₄ = or_next 15 (shl f3 12) or₃ (omega arith) (omega arith) in
    let or₅ = or_next 12 (shl (bit_and (u >> 1) 0xF) 8) or₄ (omega arith) (omega arith) in
    let or₆ = or_next 8 (shl (bit_and (u >> 11) 1) 7) or₅ (omega arith) (omega arith) in
    omega (arith, or_next 7 op or₆ (omega arith) (omega arith))

-- For register numbers below 32, a funct3 below 8 and the 32-bit pattern of an even signed 13-bit
-- number, the immediate generator reads the offset back from an encoded BRANCH word.
pub immgen-enc_b :
    (f3 rs1 rs2 imm : ℕ)
    → f3 < 8
    → rs1 < 32
    → rs2 < 32
    → IsSigned 13 imm
    → imm % 2 ≡ 0
    → immgen (enc_b op_branch f3 rs1 rs2 imm) ≡ imm
unfolding imm_b
immgen-enc_b f3 rs1 rs2 imm h₁ h₂ h₃ v even =
    let e = enc_b_sum op_branch f3 rs1 rs2 imm (omega arith) h₁ h₂ h₃ in
    format_b (enc_b op_branch f3 rs1 rs2 imm) (omega arith) ∙ omega arith

-- The mask 0xFFFFF000 clears the low 12 bits of a word.
pub and_upper : (imm : ℕ) → imm < 2 ^ 32 → bit_and imm 0xFFFFF000 ≡ imm / 2 ^ 12 * 2 ^ 12
and_upper imm h = omega (arith, and_high 12 imm 0xFFFFF, and_low 20 (imm / 2 ^ 12))

-- For a register number below 32 and a 32-bit immediate, the immediate generator reads the
-- immediate with its low 12 bits cleared back from an encoded LUI or AUIPC word.
pub immgen-enc_u :
    (op rd imm : ℕ)
    → (op ≡ op_lui) ⊎ (op ≡ op_auipc)
    → rd < 32
    → imm < 2 ^ 32
    → immgen (enc_u op rd imm) ≡ imm / 2 ^ 12 * 2 ^ 12
unfolding imm_u enc_u
immgen-enc_u op rd imm h₁ h₂ h₃ =
    let or₁ = or_next 12 (shl rd 7) (and_upper imm h₃) (omega arith) (omega arith) in
    let e = or_next 7 op or₁ (omega arith) (omega arith) in
    format_u (enc_u op rd imm) (omega arith) ∙ omega arith

enc_j_sum :
    (op rd imm : ℕ)
    → op < 128
    → rd < 32
    → enc_j op rd imm
      ≡ imm / 2 ^ 20 % 2 * 2 ^ 31
        + imm / 2 % 2 ^ 10 * 2 ^ 21
        + imm / 2 ^ 11 % 2 * 2 ^ 20
        + imm / 2 ^ 12 % 2 ^ 8 * 2 ^ 12
        + rd * 2 ^ 7
        + op
unfolding enc_j
enc_j_sum op rd imm h₁ h₂ =
    let u = bit_and imm 0x1FFFFF in
    let masked = and_low 21 imm in
    let bit11 = and_low 1 (u >> 11) in
    let bits10_1 = and_low 10 (u >> 1) in
    let bits19_12 = and_low 8 (u >> 12) in
    let top = ap (λ x. shl x 31) (and_low 1 (u >> 20)) in
    let or₁ = or_next 31 (shl (bit_and (u >> 1) 0x3FF) 21) top (omega arith) (omega arith) in
    let or₂ = or_next 21 (shl (bit_and (u >> 11) 1) 20) or₁ (omega arith) (omega arith) in
    let or₃ = or_next 20 (shl (bit_and (u >> 12) 0xFF) 12) or₂ (omega arith) (omega arith) in
    let or₄ = or_next 12 (shl rd 7) or₃ (omega arith) (omega arith) in
    omega (arith, or_next 7 op or₄ (omega arith) (omega arith))

-- For a register number below 32 and the 32-bit pattern of an even signed 21-bit number, the
-- immediate generator reads the offset back from an encoded JAL word.
pub immgen-enc_j :
    (rd imm : ℕ) → rd < 32 → IsSigned 21 imm → imm % 2 ≡ 0 → immgen (enc_j op_jal rd imm) ≡ imm
unfolding imm_j
immgen-enc_j rd imm h₁ v even =
    let e = enc_j_sum op_jal rd imm (omega arith) h₁ in
    format_j (enc_j op_jal rd imm) (omega arith) ∙ omega arith
