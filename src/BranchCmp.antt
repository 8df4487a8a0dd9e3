-- ===== src/BranchCmp.antt =====
-- rtl/core/branch_cmp.v.
pub mod Bench
pub mod Laws
use rv32i_core.Prelude.{ℕ, ◌^◌, Bool, true, false, not, ltb, leb, ◌==◌, if◌then◌else◌}
use rv32i_core.Word.{signed_lt}

pub record BranchCmp : Type 0 where
  pub a : ℕ
  pub b : ℕ
  pub funct3 : ℕ
  pub taken : Bool

unfoldable pub branch_taken : ℕ → ℕ → ℕ → Bool
branch_taken a b funct3 =
    if funct3 == 0b000
    then a == b
    else if funct3 == 0b001
    then not (a == b)
    else if funct3 == 0b100
    then signed_lt a b
    else if funct3 == 0b101
    then not (signed_lt a b)
    else if funct3 == 0b110
    then ltb a b
    else if funct3 == 0b111
    then leb b a
    else false

unfoldable pub eval : BranchCmp → BranchCmp
eval d = record d { taken = branch_taken d.a d.b d.funct3 }
