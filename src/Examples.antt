-- ===== src/Examples.antt =====
-- The theorems at concrete inputs.
pub mod AxilRuns
pub mod CsrRuns
pub mod MemoryRuns
pub mod PeripheralRuns
pub mod RegIfRuns
pub mod SocRuns
pub mod SoftwareRuns
pub mod UartRuns
use Prim.Native.Nat.{min}
use rv32i_core.Prelude.{
  ℕ, ◌+◌, ◌*◌, ◌≤◌, ◌<◌, ◌≡◌, refl, ◌↔◌, arith, inl, inr, true, false, List, [], ◌∷◌, ◌==◌,
  if◌then◌else◌, length, All, some,
}
use rv32i_core.Word.{u64}
use rv32i_core.Tb.{Tb, initial, finish}
use rv32i_core.Tb.Report.{check_all, check_all_verdict}
use rv32i_core.Alu
use rv32i_core.Alu.Laws.{alu-ref, alu_run_passes}
use rv32i_core.BranchCmp
use rv32i_core.BranchCmp.Laws.{branch_taken-ref, branch_cmp_run_passes}
use rv32i_core.Immgen
use rv32i_core.Immgen.Encode.{
  op_lui, op_jal, op_branch, op_store, op_opimm, enc_i, enc_s, enc_b, enc_u, enc_j, sext,
}
use rv32i_core.Immgen.Sext.{sext_lem}
use rv32i_core.Immgen.RoundTrip.{
  immgen-enc_i, immgen-enc_s, immgen-enc_b, immgen-enc_u, immgen-enc_j,
}
use rv32i_core.Immgen.Laws.{immgen_run_passes}
use rv32i_core.Regfile
use rv32i_core.Regfile.Ports.{Write, after, last_write, read_port_bypass, read_port-after}
use rv32i_core.Regfile.Laws.{regfile_run_passes}
use rv32i_core.Decoder
use rv32i_core.Decoder.Fields.{IsRType, decode-enc_r, decode-enc_opimm}
use rv32i_core.Decoder.Exclusive.{IsExclusive, decode-IsExclusive}
use rv32i_core.Decoder.Laws.{decoder_run_passes}
use rv32i_core.AxilMaster.{AxilMaster, idle}
use rv32i_core.AxilMaster.Bench.{Bench}
use rv32i_core.AxilMaster.Random
use rv32i_core.AxilMaster.Runs.{axil_master_run_passes}
use rv32i_core.AxilMaster.Bytes.{store_bytes}
use rv32i_core.AxilMaster.Cycles.{IsQuiet, start-IsQuiet}
use rv32i_core.AxilMaster.ReadBytes.{extended}
use rv32i_core.AxilMaster.ReadLanes.{load_bytes}
use rv32i_core.AxilMaster.Store.{store_cycles}
use rv32i_core.AxilMaster.Load.{load_cycles}
use rv32i_core.AxilMaster.System.{Done, start, new_slave, do_store, do_load}
use rv32i_core.AxilMaster.Transactions.{do_store_lem, do_load_lem, load_after_store}

-- A generator that counts.
abbrev counting : ℕ → ℕ
counting n = n

alu-ref_example : Alu.alu 0xFFFFFFFF 1 0b0010 ≡ Alu.Bench.ref 0b0010 0xFFFFFFFF 1
alu-ref_example = alu-ref 0b0010 0xFFFFFFFF 1 (omega arith) (omega arith)

alu_run_passes_example :
    ((Alu.Bench.run counting).checks ≡ 20028)
    × ((Alu.Bench.run counting).fails ≡ 0)
    × (Alu.Bench.main counting ≡ 0)
alu_run_passes_example = alu_run_passes counting

branch_taken-ref_example :
    BranchCmp.branch_taken 0x80000000 0x7FFFFFFF 0b100
    ≡ BranchCmp.Bench.ref 0b100 0x80000000 0x7FFFFFFF
branch_taken-ref_example = branch_taken-ref 0b100 0x80000000 0x7FFFFFFF (omega arith) (omega arith)

branch_cmp_run_passes_example :
    ((BranchCmp.Bench.run counting).checks ≡ 20042)
    × ((BranchCmp.Bench.run counting).fails ≡ 0)
    × (BranchCmp.Bench.main counting ≡ 0)
branch_cmp_run_passes_example = branch_cmp_run_passes counting

sext_lem_example : sext 0x1FFF 12 ≡ 0xFFFFFFFF
sext_lem_example = sext_lem 0x1FFF 11 (omega arith)

immgen-enc_s_example : Immgen.immgen (enc_s op_store 2 1 2 2047) ≡ 2047
immgen-enc_s_example =
    immgen-enc_s 2 1 2 2047 (omega arith) (omega arith) (omega arith) (inl (omega arith))

immgen-enc_b_example : Immgen.immgen (enc_b op_branch 0 1 2 0xFFFFF000) ≡ 0xFFFFF000
immgen-enc_b_example =
    immgen-enc_b 0 1 2 0xFFFFF000 (omega arith) (omega arith) (omega arith)
      (inr (omega arith, omega arith)) refl

immgen-enc_j_example : Immgen.immgen (enc_j op_jal 1 1048574) ≡ 1048574
immgen-enc_j_example = immgen-enc_j 1 1048574 (omega arith) (inl (omega arith)) refl

immgen_run_passes_example :
    ((Immgen.Bench.run counting).checks ≡ 20025)
    × ((Immgen.Bench.run counting).fails ≡ 0)
    × (Immgen.Bench.main counting ≡ 0)
immgen_run_passes_example = immgen_run_passes counting

-- A register file that is about to write 7 to x5.
abbrev writing : Regfile.Regfile
writing = record {
  regs = λ i. i * 3;
  rs1_addr = 5;
  rs2_addr = 0;
  rd_addr = 5;
  rd_data = 7;
  rd_we = true;
  rs1_data = 0;
  rs2_data = 0;
}

read_port_bypass_example :
    Regfile.read_port true writing 5 ≡ Regfile.read_port false (Regfile.posedge writing) 5
read_port_bypass_example = read_port_bypass writing 5

abbrev two_writes : List Write
two_writes =
    record { we = true; addr = 9; value = 1 } ∷ record { we = true; addr = 9; value = 2 } ∷ []

read_port-after_example :
    Regfile.read_port true
      (record (after two_writes writing) { rd_we = true; rd_addr = 9; rd_data = 3 })
      9
    ≡ 3
read_port-after_example =
    read_port-after true two_writes (record { we = true; addr = 9; value = 3 }) writing 9

regfile_run_passes_example :
    ((Regfile.Bench.run counting).checks ≡ 10014)
    × ((Regfile.Bench.run counting).fails ≡ 0)
    × (Regfile.Bench.main counting ≡ 0)
regfile_run_passes_example = regfile_run_passes counting

decode-enc_r_example :
    IsRType 0b0100000 2 1 0b101 5 (Decoder.decode (Decoder.Encode.enc_r 0b0100000 2 1 0b101 5))
decode-enc_r_example =
    decode-enc_r 0b0100000 2 1 0b101 5 (omega arith) (omega arith) (omega arith) (omega arith)
      (omega arith)

decode-enc_opimm_example :
    let c = Decoder.decode (Decoder.Encode.enc_i op_opimm 5 0b000 1 0xFFFFFFFF) in
    (c.alu_op ≡ 0)
    × (c.rs1_addr ≡ 1)
    × (c.rd_addr ≡ 5)
    × (c.alu_src ≡ true)
    × (c.reg_we ≡ true)
    × (c.illegal ≡ false)
decode-enc_opimm_example =
    decode-enc_opimm 0xFFFFFFFF 0 5 1 (omega arith) (omega arith) (omega arith)

decode-IsExclusive_example : IsExclusive (Decoder.decode 0x00000073)
decode-IsExclusive_example = decode-IsExclusive 0x00000073

decoder_run_passes_example :
    (35077 ≤ (Decoder.Bench.run counting).checks)
    × ((Decoder.Bench.run counting).fails ≡ 0)
    × (Decoder.Bench.main counting ≡ 0)
decoder_run_passes_example = decoder_run_passes counting

-- A bench of a design that is a number.
abbrev fresh : Tb ℕ
fresh = initial 0

abbrev two_checks : List (ℕ × ℕ)
two_checks = (1, 1) ∷ (2, 3) ∷ []

check_all_verdict_example :
    ((check_all two_checks fresh).checks ≡ 2)
    × ((check_all two_checks fresh).fails ≡ 1)
    × (length (check_all two_checks fresh).printed ≡ min (check_all two_checks fresh).fails 25)
    × ((finish (check_all two_checks fresh) ≡ 0) ↔ All (λ p. u64 p.0 ≡ u64 p.1) two_checks)
check_all_verdict_example = check_all_verdict 0 two_checks
