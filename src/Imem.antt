-- ===== src/Imem.antt =====
-- rtl/core/imem.v: the instruction memory, 16384 words with a registered read.
pub mod Bench
pub mod Laws
use rv32i_core.Prelude.{ℕ, ◌/◌, ◌%◌, ◌^◌, Bool, if◌then◌else◌}
use rv32i_core.Word.{slice}

pub record Imem : Type 0 where
  pub en : Bool
  pub addr : ℕ
  pub instr : ℕ
  pub mem : ℕ → ℕ

-- The clocked block; the only output is a register.
unfoldable pub posedge : Imem → Imem
posedge d = record d { instr = if d.en then d.mem (slice d.addr 2 14) else d.instr }

abbrev pub eval : Imem → Imem
eval d = d
