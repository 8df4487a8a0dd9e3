-- ===== src/Dmem.antt =====
-- rtl/core/dmem.v: the data memory, 16384 words with byte strobes and a registered read. What
-- $readmemh leaves in the array is part of the record at power-on.
pub mod Bench
pub mod Words
pub mod Ports
pub mod Bytes
pub mod History
pub mod Laws
use rv32i_core.Prelude.{ℕ, ◌+◌, ◌*◌, ◌/◌, ◌%◌, ◌^◌, Bool, ◌==◌, if◌then◌else◌, update}
use rv32i_core.Word.{slice, cat}

pub record Dmem : Type 0 where
  pub en : Bool
  pub addr : ℕ
  pub wdata : ℕ
  pub wstrb : ℕ
  pub rdata : ℕ
  pub mem : ℕ → ℕ

abbrev pub word_idx : Dmem → ℕ
word_idx d = slice d.addr 2 14

-- Byte k of a word after the write of its lane.
abbrev pub written_lane : ℕ → ℕ → ℕ → ℕ → ℕ
written_lane k wstrb wdata old =
    if slice wstrb k 1 == 1 then slice wdata (8 * k) 8 else slice old (8 * k) 8

-- The four lane writes.
abbrev pub written : ℕ → ℕ → ℕ → ℕ
written wstrb wdata old =
    cat 8
      (cat 8 (cat 8 (written_lane 3 wstrb wdata old) (written_lane 2 wstrb wdata old))
        (written_lane 1 wstrb wdata old))
      (written_lane 0 wstrb wdata old)

-- The two clocked blocks; the only output is a register.
unfoldable pub posedge : Dmem → Dmem
posedge d =
    let old = d.mem (word_idx d) in
    record d {
      rdata = if d.en then old else d.rdata;
      mem = update d.mem (word_idx d) (written d.wstrb d.wdata old);
    }

abbrev pub eval : Dmem → Dmem
eval d = d
