-- ===== src/Selftest.antt =====
-- sim/verilator/selftest/selftest.v: the counter that the bench base is tried out on.
pub mod Bench
use rv32i_core.Prelude.{ℕ, ◌+◌, ◌%◌, ◌^◌, Bool, not, ◌==◌, if◌then◌else◌}

pub record Selftest : Type 0 where
  pub rst_n : Bool
  pub en : Bool
  pub count : ℕ
  pub is_max : Bool

unfoldable pub posedge : Selftest → Selftest
posedge d =
    if not d.rst_n
    then record d { count = 0 }
    else if d.en
    then record d { count = (d.count + 1) % 2 ^ 8 }
    else d

unfoldable pub eval : Selftest → Selftest
eval d = record d { is_max = d.count == 0xFF }
