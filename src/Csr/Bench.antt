-- ===== src/Csr/Bench.antt =====
-- sim/verilator/tb_csr.cpp: the helpers of main.
use rv32i_core.Prelude.{ℕ, Bool, true, false, ◌|>◌, bit}
use rv32i_core.Tb.{Tb, tb_check, drive, settle, tick}
use rv32i_core.Csr.{Csr, eval, posedge}

abbrev pub csr_misa : ℕ
csr_misa = 0x301

abbrev pub csr_medeleg : ℕ
csr_medeleg = 0x302

abbrev pub csr_mideleg : ℕ
csr_mideleg = 0x303

abbrev pub csr_mtval : ℕ
csr_mtval = 0x343

abbrev pub csr_satp : ℕ
csr_satp = 0x180

abbrev pub csr_pmpcfg0 : ℕ
csr_pmpcfg0 = 0x3A0

abbrev pub csr_pmpaddr0 : ℕ
csr_pmpaddr0 = 0x3B0

abbrev pub csr_mnstatus : ℕ
csr_mnstatus = 0x744

abbrev pub csr_bogus : ℕ
csr_bogus = 0x123

-- The encodings of csr_op.
abbrev pub op_none : ℕ
op_none = 0b00

abbrev pub op_rw : ℕ
op_rw = 0b01

abbrev pub op_rs : ℕ
op_rs = 0b10

abbrev pub op_rc : ℕ
op_rc = 0b11

-- rd(addr): the value, and the bench after the read.
unfoldable pub rd : ℕ → Tb Csr → ℕ × Tb Csr
unfolding drive settle eval
rd addr s =
    let s' =
      s
      |> drive (λ d. record d {
        csr_addr = addr;
        csr_op = op_rs;
        csr_wdata = 0;
        csr_re = true;
        csr_we = false;
      })
      |> settle eval in
    (s'.dut.csr_rdata, s' |> drive (λ d. record d { csr_re = false; csr_op = op_none }))

-- access(addr, op, wdata, re, we): the value read before the write, and the bench after it.
unfoldable pub access : ℕ → ℕ → ℕ → Bool → Bool → Tb Csr → ℕ × Tb Csr
unfolding drive settle tick eval posedge
access addr op wdata re we s =
    let s' =
      s
      |> drive (λ d. record d {
        csr_addr = addr;
        csr_op = op;
        csr_wdata = wdata;
        csr_re = re;
        csr_we = we;
      })
      |> settle eval in
    (
      s'.dut.csr_rdata,
      s'
          |> tick eval posedge
          |> drive (λ d. record d { csr_re = false; csr_we = false; csr_op = op_none }),
    )

-- illegal(addr, op, re, we): whether the access would trap.
unfoldable pub illegal : ℕ → ℕ → Bool → Bool → Tb Csr → Bool × Tb Csr
unfolding drive settle eval
illegal addr op re we s =
    let s' =
      s
      |> drive
          (λ d. record d { csr_addr = addr; csr_op = op; csr_wdata = 0; csr_re = re; csr_we = we })
      |> settle eval in
    (
      s'.dut.csr_illegal,
      s'
          |> drive (λ d. record d { csr_re = false; csr_we = false; csr_op = op_none })
          |> settle eval,
    )

-- access(addr, op, wdata, true, true) as a statement, and CHECK_EQ of each helper.
abbrev pub set : ℕ → ℕ → ℕ → Tb Csr → Tb Csr
set addr op wdata s = (access addr op wdata true true s).1

abbrev pub check_rd : ℕ → ℕ → Tb Csr → Tb Csr
check_rd addr want s = let (got, s') = rd addr s in tb_check got want s'

abbrev pub check_old : ℕ → ℕ → ℕ → ℕ → Tb Csr → Tb Csr
check_old addr op wdata want s =
    let (old, s') = access addr op wdata true true s in tb_check old want s'

abbrev pub check_illegal : ℕ → ℕ → Bool → Bool → Bool → Tb Csr → Tb Csr
check_illegal addr op re we want s =
    let (got, s') = illegal addr op re we s in tb_check (bit got) (bit want) s'

-- CHECK_EQ of an output port.
abbrev pub check_out : (Csr → ℕ) → ℕ → Tb Csr → Tb Csr
check_out port want s = tb_check (port s.dut) want s
