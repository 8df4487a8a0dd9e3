-- ===== src/Immgen.antt =====
-- rtl/core/immgen.v.
pub mod Encode
pub mod Bench
pub mod Sext
pub mod RoundTrip
pub mod Laws
use rv32i_core.Prelude.{ℕ, ◌||◌, ◌==◌, if◌then◌else◌}
use rv32i_core.Word.{slice, cat, rep}

pub record Immgen : Type 0 where
  pub instr : ℕ
  pub imm : ℕ

-- {instr[31:12], 12'b0}
pub imm_u : ℕ → ℕ
imm_u instr = cat 12 (slice instr 12 20) 0

-- {{11{instr[31]}}, instr[31], instr[19:12], instr[20], instr[30:21], 1'b0}
pub imm_j : ℕ → ℕ
imm_j instr =
    let sign = slice instr 31 1 in
    cat 1
      (cat 10 (cat 1 (cat 8 (cat 1 (rep 11 sign) sign) (slice instr 12 8)) (slice instr 20 1))
        (slice instr 21 10))
      0

-- {{19{instr[31]}}, instr[31], instr[7], instr[30:25], instr[11:8], 1'b0}
pub imm_b : ℕ → ℕ
imm_b instr =
    let sign = slice instr 31 1 in
    cat 1
      (cat 4 (cat 6 (cat 1 (cat 1 (rep 19 sign) sign) (slice instr 7 1)) (slice instr 25 6))
        (slice instr 8 4))
      0

-- {{20{instr[31]}}, instr[31:25], instr[11:7]}
pub imm_s : ℕ → ℕ
imm_s instr = cat 5 (cat 7 (rep 20 (slice instr 31 1)) (slice instr 25 7)) (slice instr 7 5)

-- {{20{instr[31]}}, instr[31:20]}
pub imm_i : ℕ → ℕ
imm_i instr = cat 12 (rep 20 (slice instr 31 1)) (slice instr 20 12)

-- The case statement.
unfoldable pub immgen : ℕ → ℕ
immgen instr =
    let opcode = slice instr 0 7 in
    if opcode == 0b0110111 || opcode == 0b0010111
    then imm_u instr
    else if opcode == 0b1101111
    then imm_j instr
    else if opcode == 0b1100011
    then imm_b instr
    else if opcode == 0b0100011
    then imm_s instr
    else if opcode == 0b1100111
        || opcode == 0b0000011
        || opcode == 0b0010011
        || opcode == 0b0001111
        || opcode == 0b1110011
    then imm_i instr
    else 0

unfoldable pub eval : Immgen → Immgen
eval d = record d { imm = immgen d.instr }
