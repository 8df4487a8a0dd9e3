-- ===== src/Software/Enable.antt =====
-- sw/examples: csrs of mstatus, which enables the interrupts.
use rv32i_core.Prelude.{
  ℕ, zero, suc, ◌+◌, ◌*◌, ◌%◌, ◌/◌, ◌^◌, ◌<◌, ◌≡◌, ◌==◌, bit_or, refl, arith, true,
}
use rv32i_core.Word.{slice, ◌∣◌}
use rv32i_core.Csr
use rv32i_core.Csr.{Csr, csr_mtvec, csr_mie, csr_mstatus, mstatus_rdata}
use rv32i_core.Word.Bits.{or_fields, or_lt}
use rv32i_core.Software.{Board, csr_instruction}

low_bit : (b : ℕ) → b < 2 → bit_or b 1 ≡ 1
low_bit zero h = refl
low_bit (suc zero) h = refl
low_bit (suc (suc b)) h = absurd (omega arith)

or_odd : (q : ℕ) → bit_or q 1 % 2 ≡ 1
or_odd q =
    let split : q ≡ q / 2 * 2 ^ 1 + q % 2 = omega arith in
    let fields : bit_or (q / 2 * 2 ^ 1 + q % 2) 1 ≡ bit_or (q / 2) 0 * 2 ^ 1 + bit_or (q % 2) 1 =
      or_fields 1 (q / 2) (q % 2) 0 1 (omega arith) (omega arith) in
    let low = low_bit (q % 2) (omega arith) in rw split rw fields rw low (omega arith)

sets_bit : (x : ℕ) → slice (x ∣ 2 ^ 3) 3 1 == 1 ≡ true
sets_bit x =
    let split : x ≡ x / 8 * 2 ^ 3 + x % 8 = omega arith in
    let fields : bit_or (x / 8 * 2 ^ 3 + x % 8) 8 ≡ bit_or (x / 8) 1 * 2 ^ 3 + bit_or (x % 8) 0 =
      or_fields 3 (x / 8) (x % 8) 1 0 (omega arith) (omega arith) in
    let low = or_lt 3 (x % 8) 0 (omega arith) (omega arith) in
    let odd = or_odd (x / 8) in rw split rw fields (ground (arith, odd, low))

-- csrs of mstatus with its MIE bit.
pub enables :
    (b : Board)
    → let csr = (csr_instruction 0b10 csr_mstatus (2 ^ 3) b).csr in
      (csr.mtvec ≡ b.csr.mtvec) × (csr.mie_mtie ≡ b.csr.mie_mtie) × (csr.mstatus_mie ≡ true)
unfolding csr_instruction Csr.posedge Csr.read_value
enables b = (refl, refl, sets_bit (mstatus_rdata b.csr))
