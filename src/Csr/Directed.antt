-- ===== src/Csr/Directed.antt =====
-- sim/verilator/tb_csr.cpp: main up to the end of section 19.
use rv32i_core.Prelude.{ℕ, true, false, ◌|>◌, bit, bit_and}
use rv32i_core.Word.{◌<<◌, ◌>>◌, ◌∣◌}
use rv32i_core.Tb.{Tb, initial, tb_begin, tb_check, drive, settle, tick}
use rv32i_core.Tb.Loop.{for_loop}
use rv32i_core.Csr.{
  Csr, eval, posedge, csr_mstatus, csr_mie, csr_mtvec, csr_mscratch, csr_mepc, csr_mcause, csr_mip,
  csr_mhartid,
}
use rv32i_core.Csr.Bench.{
  csr_misa, csr_medeleg, csr_mideleg, csr_mtval, csr_satp, csr_pmpcfg0, csr_pmpaddr0, csr_mnstatus,
  csr_bogus, op_none, op_rw, op_rs, op_rc, rd, access, illegal, set, check_rd, check_old,
  check_illegal, check_out,
}

-- The inputs at rest, with the reset active.
abbrev pub idle : Csr → Csr
idle d = record d {
  rst_n = false;
  bus_stall = false;
  csr_addr = 0;
  csr_wdata = 0;
  csr_op = op_none;
  csr_re = false;
  csr_we = false;
  trap = false;
  trap_pc = 0;
  trap_cause = 0;
  is_mret = false;
  timer_irq = false;
}

-- The body of the loop of section 7.
abbrev ignored : ℕ → Tb Csr → Tb Csr
ignored a s = s |> check_illegal a op_rw true true false |> set a op_rw 0xFFFFFFFF |> check_rd a 0

-- main up to the end of section 9, from a design whose registers hold anything.
unfoldable pub accesses : Csr → Tb Csr
unfolding initial tb_begin tb_check drive tick eval posedge rd access illegal
accesses d =
    initial d
    |> drive idle
    |> tick eval posedge
    |> tick eval posedge
    |> drive (λ d. record d { rst_n = true })
    |> tick eval posedge
    |> tb_begin "1. reset state"
    |> check_rd csr_mstatus 0
    |> check_rd csr_mtvec 0
    |> check_rd csr_mscratch 0
    |> check_rd csr_mepc 0
    |> check_rd csr_mcause 0
    |> check_rd csr_mie 0
    |> check_rd csr_mip 0
    |> check_out (λ d. bit d.priv_m_out) 1
    |> tb_begin "2. csrrw -- write then read back"
    |> set csr_mscratch op_rw 0xDEADBEEF
    |> check_rd csr_mscratch 0xDEADBEEF
    |> set csr_mtvec op_rw 0x80000100
    |> check_rd csr_mtvec 0x80000100
    |> tb_begin "3. csrrw returns the OLD value"
    |> check_old csr_mscratch op_rw 0x11112222 0xDEADBEEF
    |> check_rd csr_mscratch 0x11112222
    |> tb_begin "4. csrrs sets bits, csrrc clears them"
    |> set csr_mscratch op_rw 0x0000FFFF
    |> set csr_mscratch op_rs 0x00FF0000
    |> check_rd csr_mscratch 0x00FFFFFF
    |> set csr_mscratch op_rc 0x000000FF
    |> check_rd csr_mscratch 0x00FFFF00
    |> check_old csr_mscratch op_rs 0xFF000000 0x00FFFF00
    |> check_rd csr_mscratch 0xFFFFFF00
    |> tb_begin "5. csr_we low means no write"
    |> set csr_mscratch op_rw 0x55555555
    |> drive (λ d. record d {
      csr_addr = csr_mscratch;
      csr_op = op_rw;
      csr_wdata = 0xAAAAAAAA;
      csr_re = true;
      csr_we = false;
    })
    |> tick eval posedge
    |> drive (λ d. record d { csr_re = false })
    |> check_rd csr_mscratch 0x55555555
    |> tb_begin "6. mhartid reads zero and ignores writes"
    |> check_rd csr_mhartid 0
    |> set csr_mhartid op_rw 0xFFFFFFFF
    |> check_rd csr_mhartid 0
    |> check_illegal csr_mhartid op_rw true true false
    |> tb_begin "7. recognised-but-ignored CSRs accept writes, read zero"
    |> ignored csr_misa
    |> ignored csr_medeleg
    |> ignored csr_mideleg
    |> ignored csr_mtval
    |> ignored csr_satp
    |> ignored csr_pmpcfg0
    |> ignored csr_pmpaddr0
    |> tb_begin "8. unimplemented CSRs raise illegal"
    |> check_illegal csr_mnstatus op_rw true true true
    |> check_illegal csr_bogus op_rw true true true
    |> check_illegal csr_bogus op_rs true false true
    |> tb_begin "9. illegal only fires on a real access"
    |> check_illegal csr_bogus op_none false false false
    |> check_illegal 0x7FF op_none false false false

-- main from section 10 to section 15.
unfoldable pub traps_and_masks : Tb Csr → Tb Csr
unfolding tb_begin tb_check drive settle tick eval posedge rd access illegal
traps_and_masks s =
    s
    |> tb_begin "10. trap entry writes mepc and mcause"
    |> set csr_mepc op_rw 0
    |> set csr_mcause op_rw 0
    |> drive (λ d. record d { trap = true; trap_pc = 0x80000234; trap_cause = 2 })
    |> tick eval posedge
    |> drive (λ d. record d { trap = false })
    |> check_rd csr_mepc 0x80000234
    |> check_rd csr_mcause 2
    |> tb_begin "11. trap entry outranks an instruction write"
    |> set csr_mepc op_rw 0xAAAAAAAA
    |> drive (λ d. record d {
      csr_addr = csr_mepc;
      csr_op = op_rw;
      csr_wdata = 0xBBBBBBBB;
      csr_re = true;
      csr_we = true;
      trap = true;
      trap_pc = 0x80000500;
      trap_cause = 11;
    })
    |> tick eval posedge
    |> drive (λ d. record d { trap = false; csr_re = false; csr_we = false; csr_op = op_none })
    |> check_rd csr_mepc 0x80000500
    |> check_rd csr_mcause 11
    |> tb_begin "12. mtvec_out and mepc_out track their registers"
    |> set csr_mtvec op_rw 0x80001000
    |> set csr_mepc op_rw 0x80002000
    |> settle eval
    |> check_out (λ d. d.mtvec_out) 0x80001000
    |> check_out (λ d. d.mepc_out) 0x80002000
    |> tb_begin "13. mie: only bit 7 (MTIE) is real, rest read zero"
    |> set csr_mie op_rw 0xFFFFFFFF
    |> check_rd csr_mie 0x00000080
    |> set csr_mie op_rw 0x00000000
    |> check_rd csr_mie 0x00000000
    |> check_illegal csr_mie op_rw true true false
    |> tb_begin "14. mip: bit 7 mirrors timer_irq live, writes are dropped"
    |> check_rd csr_mip 0x00000000
    |> drive (λ d. record d { timer_irq = true })
    |> check_rd csr_mip 0x00000080
    |> set csr_mip op_rw 0x00000000
    |> check_rd csr_mip 0x00000080
    |> drive (λ d. record d { timer_irq = false })
    |> check_rd csr_mip 0x00000000
    |> check_illegal csr_mip op_rw true true false
    |> tb_begin "14b. interrupt_pending needs mstatus.MIE, mie.MTIE, and mip.MTIP together"
    |> set csr_mstatus op_rw 0
    |> set csr_mie op_rw 0
    |> drive (λ d. record d { timer_irq = false })
    |> settle eval
    |> check_out (λ d. bit d.interrupt_pending) 0
    |> set csr_mie op_rw (1 << 7)
    |> drive (λ d. record d { timer_irq = true })
    |> settle eval
    |> check_out (λ d. bit d.interrupt_pending) 0
    |> set csr_mstatus op_rs (1 << 3)
    |> settle eval
    |> check_out (λ d. bit d.interrupt_pending) 1
    |> drive (λ d. record d { timer_irq = false })
    |> settle eval
    |> check_out (λ d. bit d.interrupt_pending) 0
    |> tb_begin "15. mstatus: only MIE(3)/MPIE(7)/MPP(12:11) are real"
    |> set csr_mstatus op_rw 0xFFFFFFFF
    |> check_rd csr_mstatus (0x3 << 11 ∣ 1 << 7 ∣ 1 << 3)
    |> set csr_mstatus op_rw 0x00000000
    |> check_rd csr_mstatus 0
    |> set csr_mstatus op_rw (1 << 3)
    |> check_rd csr_mstatus (1 << 3)
    |> set csr_mstatus op_rs (1 << 7)
    |> check_rd csr_mstatus (1 << 3 ∣ 1 << 7)

unfoldable pub do_mret : Tb Csr → Tb Csr
unfolding drive tick eval posedge
do_mret s =
    s
    |> drive (λ d. record d { is_mret = true })
    |> tick eval posedge
    |> drive (λ d. record d { is_mret = false })

unfoldable pub do_trap : ℕ → ℕ → Tb Csr → Tb Csr
unfolding drive tick eval posedge
do_trap pc cause s =
    s
    |> drive (λ d. record d { trap = true; trap_pc = pc; trap_cause = cause })
    |> tick eval posedge
    |> drive (λ d. record d { trap = false })

-- CHECK_EQ(rd(CSR_MSTATUS) & mask, want) and CHECK_EQ((rd(CSR_MSTATUS) >> 11) & 0x3, want).
abbrev check_bits : ℕ → ℕ → Tb Csr → Tb Csr
check_bits mask want s = let (got, s') = rd csr_mstatus s in tb_check (bit_and got mask) want s'

abbrev check_mpp : ℕ → Tb Csr → Tb Csr
check_mpp want s = let (got, s') = rd csr_mstatus s in tb_check (bit_and (got >> 11) 0x3) want s'

-- main from section 16 to section 19.
unfoldable pub modes : Tb Csr → Tb Csr
unfolding tb_begin tb_check drive tick eval posedge rd access do_mret do_trap for_loop
modes s =
    s
    |> tb_begin "16. trap entry: MIE->MPIE, MIE<-0, MPP<-priv, priv<-M"
    |> set csr_mstatus op_rw 0
    |> set csr_mstatus op_rs (1 << 3)
    |> check_out (λ d. bit d.priv_m_out) 1
    |> do_trap 0x80000010 7
    |> check_bits (1 << 7) (1 << 7)
    |> check_bits (1 << 3) 0
    |> check_mpp 0x3
    |> check_out (λ d. bit d.priv_m_out) 1
    |> tb_begin "17. mret: MIE<-MPIE, MPIE<-1, MPP<-U, priv<-MPP"
    |> do_mret
    |> check_bits (1 << 3) (1 << 3)
    |> check_bits (1 << 7) (1 << 7)
    |> check_mpp 0x0
    |> check_out (λ d. bit d.priv_m_out) 1
    |> tb_begin "18. dropping to U-mode via MPP, trap records the pre-trap mode"
    |> set csr_mstatus op_rc (0x3 << 11)
    |> do_mret
    |> check_out (λ d. bit d.priv_m_out) 0
    |> do_trap 0x80000020 8
    |> check_out (λ d. bit d.priv_m_out) 1
    |> check_mpp 0x0
    |> tb_begin "19. bus_stall holds mret's effect -- it fires exactly once"
    |> set csr_mstatus op_rw (1 << 3 ∣ 0x3 << 11)
    |> check_out (λ d. bit d.priv_m_out) 1
    |> drive (λ d. record d { is_mret = true; bus_stall = true })
    |> for_loop 5 0 (λ i. tick eval posedge)
    |> drive (λ d. record d { bus_stall = false })
    |> tick eval posedge
    |> drive (λ d. record d { is_mret = false })
    |> check_bits (1 << 3) 0
    |> check_bits (1 << 7) (1 << 7)
    |> check_mpp 0x0
    |> check_out (λ d. bit d.priv_m_out) 1

-- main up to the end of section 19.
unfoldable pub opening : Csr → Tb Csr
unfolding accesses traps_and_masks modes
opening d = d |> accesses |> traps_and_masks |> modes
