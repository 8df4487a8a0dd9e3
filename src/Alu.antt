-- ===== src/Alu.antt =====
-- rtl/core/alu.v and the operation codes of rtl/include/rv32i_defs.vh.
pub mod Bench
pub mod Laws
use rv32i_core.Prelude.{ℕ, ◌+◌, ◌-◌, ◌^◌, ltb, ◌==◌, if◌then◌else◌, bit_and, bit_or, bit_xor}
use rv32i_core.Word.{u32, ◌<<◌, ◌>>◌, slice, signed_lt, signed_shr}

abbrev pub alu_add : ℕ
alu_add = 0b0000

abbrev pub alu_sll : ℕ
alu_sll = 0b0001

abbrev pub alu_slt : ℕ
alu_slt = 0b0010

abbrev pub alu_sltu : ℕ
alu_sltu = 0b0011

abbrev pub alu_xor : ℕ
alu_xor = 0b0100

abbrev pub alu_srl : ℕ
alu_srl = 0b0101

abbrev pub alu_or : ℕ
alu_or = 0b0110

abbrev pub alu_and : ℕ
alu_and = 0b0111

abbrev pub alu_sub : ℕ
alu_sub = 0b1000

abbrev pub alu_sra : ℕ
alu_sra = 0b1101

-- The ports of the module; `result` is the value of the last evaluation.
pub record Alu : Type 0 where
  pub a : ℕ
  pub b : ℕ
  pub alu_op : ℕ
  pub result : ℕ

-- The case statement.
unfoldable pub alu : ℕ → ℕ → ℕ → ℕ
alu a b alu_op =
    let shamt = slice b 0 5 in
    if alu_op == alu_add
    then u32 (a + b)
    else if alu_op == alu_sub
    then u32 (a + 2 ^ 32 - b)
    else if alu_op == alu_and
    then bit_and a b
    else if alu_op == alu_or
    then bit_or a b
    else if alu_op == alu_xor
    then bit_xor a b
    else if alu_op == alu_sll
    then u32 (a << shamt)
    else if alu_op == alu_srl
    then a >> shamt
    else if alu_op == alu_sra
    then signed_shr a shamt
    else if alu_op == alu_slt
    then (if signed_lt a b then 1 else 0)
    else if alu_op == alu_sltu
    then (if ltb a b then 1 else 0)
    else 0

unfoldable pub eval : Alu → Alu
eval d = record d { result = alu d.a d.b d.alu_op }
