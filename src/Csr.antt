-- ===== src/Csr.antt =====
-- rtl/core/csr.v: the machine-mode CSR file. The combinational parts are functions of the record of
-- ports and registers; the outputs hold the values of the last evaluation.
pub mod Bench
pub mod Directed
pub mod Random
pub mod Laws
pub mod Access
pub mod Traps
pub mod History
use rv32i_core.Prelude.{
  ℕ, ◌+◌, ◌-◌, ◌*◌, ◌/◌, ◌%◌, ◌^◌, Bool, true, false, not, ◌&&◌, ◌||◌, ◌==◌, if◌then◌else◌, bit,
  bit_and,
}
use rv32i_core.Word.{slice, cat, ◌∣◌}

-- The localparams.
abbrev pub csr_mstatus : ℕ
csr_mstatus = 0x300

abbrev pub csr_mie : ℕ
csr_mie = 0x304

abbrev pub csr_mtvec : ℕ
csr_mtvec = 0x305

abbrev pub csr_mscratch : ℕ
csr_mscratch = 0x340

abbrev pub csr_mepc : ℕ
csr_mepc = 0x341

abbrev pub csr_mcause : ℕ
csr_mcause = 0x342

abbrev pub csr_mip : ℕ
csr_mip = 0x344

abbrev pub csr_mhartid : ℕ
csr_mhartid = 0xF14

pub record Csr : Type 0 where
  pub rst_n : Bool
  pub bus_stall : Bool
  pub csr_addr : ℕ
  pub csr_wdata : ℕ
  pub csr_op : ℕ
  pub csr_re : Bool
  pub csr_we : Bool
  pub trap : Bool
  pub trap_pc : ℕ
  pub trap_cause : ℕ
  pub is_mret : Bool
  pub timer_irq : Bool
  -- registers
  pub mstatus_mie : Bool
  pub mstatus_mpie : Bool
  pub mstatus_mpp : ℕ
  pub mie_mtie : Bool
  pub priv_m : Bool
  pub mtvec : ℕ
  pub mscratch : ℕ
  pub mepc : ℕ
  pub mcause : ℕ
  -- outputs
  pub csr_rdata : ℕ
  pub csr_illegal : Bool
  pub mtvec_out : ℕ
  pub mepc_out : ℕ
  pub priv_m_out : Bool
  pub interrupt_pending : Bool

-- {19'b0, mstatus_mpp, 3'b0, mstatus_mpie, 3'b0, mstatus_mie, 3'b0}
abbrev pub mstatus_rdata : Csr → ℕ
mstatus_rdata d =
    cat 3 (cat 1 (cat 3 (cat 1 (cat 3 d.mstatus_mpp 0) (bit d.mstatus_mpie)) 0) (bit d.mstatus_mie))
      0

-- {24'b0, mie_mtie, 7'b0} and {24'b0, timer_irq, 7'b0}
abbrev pub mie_rdata : Csr → ℕ
mie_rdata d = cat 7 (bit d.mie_mtie) 0

abbrev pub mip_rdata : Csr → ℕ
mip_rdata d = cat 7 (bit d.timer_irq) 0

-- Recognised but not implemented.
abbrev pub csr_ignored : ℕ → Bool
csr_ignored addr =
    addr == 0x301
    || addr == 0x302
    || addr == 0x303
    || addr == 0x343
    || addr == 0x180
    || addr == 0x3A0
    || addr == 0x3B0

-- The case statement of the read: the value, and whether it ended in the default arm.
abbrev pub is_implemented : ℕ → Bool
is_implemented addr =
    addr == csr_mstatus
    || addr == csr_mie
    || addr == csr_mtvec
    || addr == csr_mscratch
    || addr == csr_mepc
    || addr == csr_mcause
    || addr == csr_mip
    || addr == csr_mhartid

unfoldable pub read_value : ℕ → Csr → ℕ
read_value addr d =
    if addr == csr_mstatus
    then mstatus_rdata d
    else if addr == csr_mie
    then mie_rdata d
    else if addr == csr_mtvec
    then d.mtvec
    else if addr == csr_mscratch
    then d.mscratch
    else if addr == csr_mepc
    then d.mepc
    else if addr == csr_mcause
    then d.mcause
    else if addr == csr_mip
    then mip_rdata d
    else 0

unfoldable pub read_illegal : Csr → Bool
read_illegal d =
    not (is_implemented d.csr_addr) && (d.csr_re || d.csr_we) && not (csr_ignored d.csr_addr)

-- csr_new; ~csr_wdata is the complement of 32 bits.
unfoldable pub csr_new : Csr → ℕ
csr_new d =
    let rdata = read_value d.csr_addr d in
    if d.csr_op == 0b01
    then d.csr_wdata
    else if d.csr_op == 0b10
    then rdata ∣ d.csr_wdata
    else if d.csr_op == 0b11
    then bit_and rdata (2 ^ 32 - 1 - d.csr_wdata)
    else rdata

unfoldable pub do_write : Csr → Bool
unfolding read_illegal
do_write d = d.csr_we && not (read_illegal d) && not (d.csr_addr == csr_mhartid)

unfoldable pub eval : Csr → Csr
unfolding read_value read_illegal
eval d = record d {
  csr_rdata = read_value d.csr_addr d;
  csr_illegal = read_illegal d;
  mtvec_out = d.mtvec;
  mepc_out = d.mepc;
  priv_m_out = d.priv_m;
  interrupt_pending = d.mstatus_mie && d.mie_mtie && d.timer_irq;
}

-- The branches of the clocked block.
reset : Csr → Csr
reset d = record d {
  mstatus_mie = false;
  mstatus_mpie = false;
  mstatus_mpp = 0;
  mie_mtie = false;
  priv_m = true;
  mtvec = 0;
  mscratch = 0;
  mepc = 0;
  mcause = 0;
}

enter_trap : Csr → Csr
enter_trap d = record d {
  mepc = d.trap_pc;
  mcause = d.trap_cause;
  mstatus_mpie = d.mstatus_mie;
  mstatus_mie = false;
  mstatus_mpp = bit d.priv_m * 3;
  priv_m = true;
}

return_from_trap : Csr → Csr
return_from_trap d = record d {
  priv_m = slice d.mstatus_mpp 1 1 == 1;
  mstatus_mie = d.mstatus_mpie;
  mstatus_mpie = true;
  mstatus_mpp = 0;
}

write_register : ℕ → Csr → Csr
write_register v d =
    if d.csr_addr == csr_mstatus
    then record d {
      mstatus_mie = slice v 3 1 == 1;
      mstatus_mpie = slice v 7 1 == 1;
      mstatus_mpp = slice v 11 2;
    }
    else if d.csr_addr == csr_mie
    then record d { mie_mtie = slice v 7 1 == 1 }
    else if d.csr_addr == csr_mtvec
    then record d { mtvec = v }
    else if d.csr_addr == csr_mscratch
    then record d { mscratch = v }
    else if d.csr_addr == csr_mepc
    then record d { mepc = v }
    else if d.csr_addr == csr_mcause
    then record d { mcause = v }
    else d

unfoldable pub posedge : Csr → Csr
unfolding reset enter_trap return_from_trap write_register csr_new do_write
posedge d =
    if not d.rst_n
    then reset d
    else if d.bus_stall
    then d
    else if d.trap
    then enter_trap d
    else if d.is_mret
    then return_from_trap d
    else if do_write d
    then write_register (csr_new d) d
    else d
