-- ===== src/Decoder.antt =====
-- rtl/core/decoder.v.
pub mod Encode
pub mod Directed
pub mod Bench
pub mod Fields
pub mod Laws
pub mod Exclusive
use rv32i_core.Prelude.{ℕ, Bool, true, false, not, ◌&&◌, ◌==◌, if◌then◌else◌}
use rv32i_core.Word.{slice, cat}
use rv32i_core.Alu.{alu_add}

-- The outputs. A field of one bit is a Bool, a wider one a number.
pub record Control : Type 0 where
  pub rs1_addr : ℕ
  pub rs2_addr : ℕ
  pub rd_addr : ℕ
  pub funct3 : ℕ
  pub alu_op : ℕ
  pub alu_src : Bool
  pub alu_a_pc : Bool
  pub alu_a_zero : Bool
  pub reg_we : Bool
  pub mem_we : Bool
  pub mem_re : Bool
  pub wb_sel : ℕ
  pub is_branch : Bool
  pub is_jal : Bool
  pub is_jalr : Bool
  pub illegal : Bool
  pub csr_op : ℕ
  pub csr_re : Bool
  pub csr_we : Bool
  pub csr_use_imm : Bool
  pub is_mret : Bool
  pub is_ecall : Bool

-- The assigned fields and the defaults at the head of the always block.
unfoldable pub defaults : ℕ → Control
defaults instr = record {
  rs1_addr = slice instr 15 5;
  rs2_addr = slice instr 20 5;
  rd_addr = slice instr 7 5;
  funct3 = slice instr 12 3;
  alu_op = alu_add;
  alu_src = true;
  alu_a_pc = false;
  alu_a_zero = false;
  reg_we = false;
  mem_we = false;
  mem_re = false;
  wb_sel = 0;
  is_branch = false;
  is_jal = false;
  is_jalr = false;
  illegal = false;
  csr_op = 0b00;
  csr_re = false;
  csr_we = false;
  csr_use_imm = false;
  is_mret = false;
  is_ecall = false;
}

-- The SYSTEM arm with funct3 = 0: ecall and ebreak share the trap path, mret, or illegal.
unfoldable pub system_priv : ℕ → Control → Control
system_priv imm12 c =
    if imm12 == 0x000
    then record c { is_ecall = true }
    else if imm12 == 0x001
    then record c { is_ecall = true }
    else if imm12 == 0x302
    then record c { is_mret = true }
    else record c { illegal = true }

-- The SYSTEM arm with funct3 other than 0: a CSR access.
unfoldable pub system_csr : ℕ → Control → Control
system_csr instr c =
    let low = slice c.funct3 0 2 in
    let op =
      if low == 0b01
      then 0b01
      else if low == 0b10
      then 0b10
      else if low == 0b11
      then 0b11
      else 0b00 in
    record c {
      reg_we = true;
      wb_sel = 3;
      csr_use_imm = slice c.funct3 2 1 == 1;
      csr_op = op;
      illegal = low == 0b00;
      csr_re = not (low == 0b01 && c.rd_addr == 0);
      csr_we = not (not (low == 0b01) && slice instr 15 5 == 0);
    }

-- The case statement on the opcode.
unfoldable pub decode : ℕ → Control
unfolding defaults
decode instr =
    let c = defaults instr in
    let opcode = slice instr 0 7 in
    if opcode == 0b0110111
    then record c { reg_we = true; alu_a_pc = false; alu_a_zero = true }
    else if opcode == 0b0010111
    then record c { reg_we = true; alu_a_pc = true; alu_a_zero = false }
    else if opcode == 0b1101111
    then record c { reg_we = true; wb_sel = 2; is_jal = true }
    else if opcode == 0b1100011
    then record c { reg_we = false; is_branch = true }
    else if opcode == 0b0100011
    then record c { reg_we = false; mem_we = true }
    else if opcode == 0b0110011
    then record c { reg_we = true; alu_src = false; alu_op = cat 3 (slice instr 30 1) c.funct3 }
    else if opcode == 0b1100111
    then record c { reg_we = true; wb_sel = 2; is_jalr = true }
    else if opcode == 0b0000011
    then record c { reg_we = true; mem_re = true; wb_sel = 1 }
    else if opcode == 0b0010011
    then record c {
      reg_we = true;
      alu_src = true;
      alu_op = cat 3 (if c.funct3 == 0b101 then slice instr 30 1 else 0) c.funct3;
    }
    else if opcode == 0b0001111
    then c
    else if opcode == 0b1110011
    then (if c.funct3 == 0b000 then system_priv (slice instr 20 12) c else system_csr instr c)
    else record c { illegal = true }

pub record Decoder : Type 0 where
  pub instr : ℕ
  pub out : Control

unfoldable pub eval : Decoder → Decoder
eval d = record d { out = decode d.instr }
