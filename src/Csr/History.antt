-- ===== src/Csr/History.antt =====
-- rtl/core/csr.v: what the full-width registers hold after any clock cycles.
use rv32i_core.Prelude.{
  ℕ, ◌-◌, ◌^◌, ◌≡◌, refl, ◌∙◌, ap, not, ◌&&◌, arith, ◌==◌, if◌then◌else◌, bit_and, List, [], ◌∷◌,
}
use rv32i_core.Word.{◌∣◌}
use rv32i_core.Csr.{
  Csr, posedge, read_value, read_illegal, do_write, csr_new, csr_mtvec, csr_mscratch, csr_mepc,
  csr_mcause, enter_trap, return_from_trap, write_register,
}
use rv32i_core.Csr.Traps.{Inputs, present, clock, clocks}

-- csrrw, csrrs and csrrc on a register.
abbrev pub access : ℕ → ℕ → ℕ → ℕ
access op operand old =
    if op == 1
    then operand
    else if op == 2
    then old ∣ operand
    else if op == 3
    then bit_and old (2 ^ 32 - 1 - operand)
    else old

-- The register at `addr` after the cycles, if `on_trap i old` is its value after a trap: a stalled
-- cycle counts for nothing, a trap and a return go before the access of their cycle.
abbrev pub held : ℕ → (Inputs → ℕ → ℕ) → List Inputs → ℕ → ℕ
held addr on_trap [] old = old
held addr on_trap (i ∷ rest) old = held addr on_trap rest (
    if i.bus_stall
    then old
    else if i.trap
    then on_trap i old
    else if not i.is_mret && i.csr_we && i.csr_addr == addr
    then access i.csr_op i.csr_wdata old
    else old)

access-mtvec :
    (d : Csr)
    → (if do_write d then write_register (csr_new d) d else d).mtvec ≡ (
        if d.csr_we && d.csr_addr == csr_mtvec
        then access d.csr_op d.csr_wdata d.mtvec
        else d.mtvec)
unfolding do_write write_register csr_new read_value read_illegal
access-mtvec d = ground arith

clock-mtvec :
    (i : Inputs) (d : Csr) → (clock i d).mtvec ≡ held csr_mtvec (λ j old. old) (i ∷ []) d.mtvec
unfolding posedge enter_trap return_from_trap
clock-mtvec i d = ground (arith, access-mtvec (present i d))

access-mscratch :
    (d : Csr)
    → (if do_write d then write_register (csr_new d) d else d).mscratch ≡ (
        if d.csr_we && d.csr_addr == csr_mscratch
        then access d.csr_op d.csr_wdata d.mscratch
        else d.mscratch)
unfolding do_write write_register csr_new read_value read_illegal
access-mscratch d = ground arith

clock-mscratch :
    (i : Inputs) (d : Csr)
    → (clock i d).mscratch ≡ held csr_mscratch (λ j old. old) (i ∷ []) d.mscratch
unfolding posedge enter_trap return_from_trap
clock-mscratch i d = ground (arith, access-mscratch (present i d))

access-mepc :
    (d : Csr)
    → (if do_write d then write_register (csr_new d) d else d).mepc
      ≡ (if d.csr_we && d.csr_addr == csr_mepc then access d.csr_op d.csr_wdata d.mepc else d.mepc)
unfolding do_write write_register csr_new read_value read_illegal
access-mepc d = ground arith

clock-mepc :
    (i : Inputs) (d : Csr) → (clock i d).mepc ≡ held csr_mepc (λ j old. j.trap_pc) (i ∷ []) d.mepc
unfolding posedge enter_trap return_from_trap
clock-mepc i d = ground (arith, access-mepc (present i d))

access-mcause :
    (d : Csr)
    → (if do_write d then write_register (csr_new d) d else d).mcause ≡ (
        if d.csr_we && d.csr_addr == csr_mcause
        then access d.csr_op d.csr_wdata d.mcause
        else d.mcause)
unfolding do_write write_register csr_new read_value read_illegal
access-mcause d = ground arith

clock-mcause :
    (i : Inputs) (d : Csr)
    → (clock i d).mcause ≡ held csr_mcause (λ j old. j.trap_cause) (i ∷ []) d.mcause
unfolding posedge enter_trap return_from_trap
clock-mcause i d = ground (arith, access-mcause (present i d))

each_clock :
    (register : Csr → ℕ) (addr : ℕ) (on_trap : Inputs → ℕ → ℕ)
    → ((i : Inputs) (d : Csr) → register (clock i d) ≡ held addr on_trap (i ∷ []) (register d))
    → (is : List Inputs) (d : Csr) → register (clocks is d) ≡ held addr on_trap is (register d)
each_clock register addr on_trap one [] d = refl
each_clock register addr on_trap one (i ∷ rest) d =
    each_clock register addr on_trap one rest (clock i d)
    ∙ ap (λ old. held addr on_trap rest old) (one i d)

-- After any clock cycles out of reset, with accesses, traps, returns and stalls in any order, each of
-- mtvec, mscratch, mepc and mcause holds what its own accesses make of its first value: csrrw puts
-- the operand, csrrs sets its bits and csrrc clears them. A trap puts its address into mepc and its
-- cause into mcause and leaves the other two; stalled cycles, returns, the accesses of cycles with
-- a trap or a return, and accesses to any other address leave the register alone.
pub clocks-held :
    (is : List Inputs) (d : Csr)
    → let after = clocks is d in
      (after.mtvec ≡ held csr_mtvec (λ i old. old) is d.mtvec)
      × (after.mscratch ≡ held csr_mscratch (λ i old. old) is d.mscratch)
      × (after.mepc ≡ held csr_mepc (λ i old. i.trap_pc) is d.mepc)
      × (after.mcause ≡ held csr_mcause (λ i old. i.trap_cause) is d.mcause)
clocks-held is d = (
  each_clock (λ c. c.mtvec) csr_mtvec (λ i old. old) clock-mtvec is d,
  each_clock (λ c. c.mscratch) csr_mscratch (λ i old. old) clock-mscratch is d,
  each_clock (λ c. c.mepc) csr_mepc (λ i old. i.trap_pc) clock-mepc is d,
  each_clock (λ c. c.mcause) csr_mcause (λ i old. i.trap_cause) clock-mcause is d,
)
