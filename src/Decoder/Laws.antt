-- ===== src/Decoder/Laws.antt =====
-- The bench of the decoder as a whole, and which outputs exclude one another.
use rv32i_core.Prelude.{
  ℕ, ◌+◌, ◌/◌, ◌^◌, ◌≤◌, ◌<◌, ◌≡◌, refl, ◌⊎◌, ap, arith, ◌∙◌, Bool-cases, inl, inr, ◌==◌, ◌||◌,
  bit_and, ==_self, bit,
}
use rv32i_core.Word.{shl, ◌>>◌, ◌∣◌}
use rv32i_core.Word.Bits.{or_disjoint, and_low, and_high}
use rv32i_core.Tb.{Tb, tb_begin, rnd, rnd_range}
use rv32i_core.Tb.Loop.{for_loop, for_loop_inv}
use rv32i_core.Tb.Report.{Passed, for_loop-Passed, finish_passed}
use rv32i_core.Immgen.Encode.{op_opimm}
use rv32i_core.Decoder.{Control, Decoder, decode, system_priv, system_csr}
use rv32i_core.Decoder.Encode.{enc_r, enc_i}
use rv32i_core.Decoder.Fields.{decode-enc_r, decode-enc_opimm}
use rv32i_core.Decoder.Directed.{check, decode_word, opening}
use rv32i_core.Decoder.Bench.{check_r, check_opimm, round_13, round_14, run, main}

opening_passed : (opening.fails ≡ 0) × (opening.checks ≡ 77)
unfolding opening decode system_priv system_csr
opening_passed = (refl, refl)

-- From `s₀` to `s` the bench made k checks, none failed, and the design did not change.
record IsChecked (s₀ : Tb Decoder) (k : ℕ) (s : Tb Decoder) : Type 0 where
  same_dut : s.dut ≡ s₀.dut
  passed : Passed k s₀ s

begin_checks : (s : Tb Decoder) → IsChecked s 0 s
begin_checks s = record { same_dut = refl; passed = omega arith }

check-IsChecked :
    {s₀ s : Tb Decoder} {k : ℕ} (output : Control → ℕ) (want : ℕ)
    → output s₀.dut.out ≡ want
    → IsChecked s₀ k s
    → IsChecked s₀ (k + 1) (check output want s)
unfolding check
check-IsChecked output want h c =
    let same = ap (λ (d : Decoder). output d.out) c.same_dut ∙ h in
    record {
      same_dut = rw (same, ==_self) c.same_dut;
      passed = rw (same, ==_self) (omega (arith, c.passed));
    }

check_r-Passed :
    (f7 rs2 rs1 f3 rd : ℕ) (s : Tb Decoder)
    → (f7 ≡ 0) ⊎ (f7 ≡ 0b0100000)
    → rs2 < 32
    → rs1 < 32
    → f3 < 8
    → rd < 32
    → Passed 7 s (check_r f7 rs2 rs1 f3 rd s)
unfolding check_r
check_r-Passed f7 rs2 rs1 f3 rd s h h₂ h₃ h₄ h₅ =
    let r = decode-enc_r f7 rs2 rs1 f3 rd (omega arith) h₂ h₃ h₄ h₅ in
    let op : (decode (enc_r f7 rs2 rs1 f3 rd)).alu_op ≡ (shl (f7 >> 5) 3 ∣ f3) =
      omega (arith, r.op_field, or_disjoint 3 (shl (f7 >> 5) 3) f3 (omega arith) h₄) in
    let c₀ = begin_checks (decode_word (enc_r f7 rs2 rs1 f3 rd) s) in
    let c₁ = check-IsChecked (λ c. c.rs1_addr) rs1 r.rs1_field c₀ in
    let c₂ = check-IsChecked (λ c. c.rs2_addr) rs2 r.rs2_field c₁ in
    let c₃ = check-IsChecked (λ c. c.rd_addr) rd r.rd_field c₂ in
    let c₄ = check-IsChecked (λ c. c.funct3) f3 r.f3_field c₃ in
    let c₅ = check-IsChecked (λ c. c.alu_op) _ op c₄ in
    let c₆ = check-IsChecked (λ c. bit c.reg_we) 1 (ap bit r.writes) c₅ in
    let c₇ = check-IsChecked (λ c. bit c.alu_src) 0 (ap bit r.uses_rs2) c₆ in
    omega (arith, c₇.passed)

-- Bit 3 of the ALU code is clear and its low bits are funct3, or the instruction is skipped.
check_opimm-Passed :
    (imm f3 : ℕ) (s : Tb Decoder)
    → f3 < 8
    → ((check_opimm imm f3 s).fails ≡ s.fails) × (s.checks ≤ (check_opimm imm f3 s).checks)
unfolding check_opimm
check_opimm-Passed imm f3 s h = elim (Bool-cases (f3 == 0b001 || f3 == 0b101)) [
  | inl shift ↦ rw shift (omega arith)
  | inr other ↦ rw other (
      let d = decode-enc_opimm imm f3 5 1 h (omega arith) (omega arith) in
      let op : (decode (enc_i op_opimm 5 f3 1 imm)).alu_op ≡ f3 = ground arith in
      let top : bit_and f3 8 ≡ 0 = omega (arith, and_high 3 f3 1, and_low 1 (f3 / 2 ^ 3)) in
      let low : bit_and f3 7 ≡ f3 = omega (arith, and_low 3 f3) in
      let c₀ = begin_checks (decode_word (enc_i op_opimm 5 f3 1 imm) s) in
      let c₁ = check-IsChecked (λ c. bit_and c.alu_op 0b1000) 0 (rw op top) c₀ in
      let c₂ = check-IsChecked (λ c. bit_and c.alu_op 0b0111) f3 (rw op low) c₁ in
      omega (arith, c₂.passed))
]

module _ (rng : ℕ → ℕ) where
  round_13-Passed : (i : ℕ) (s : Tb Decoder) → Passed 7 s (round_13 rng i s)
  unfolding round_13 rnd_range
  round_13-Passed i s =
      check_r-Passed _ _ _ _ _ _ (ground arith) (omega arith) (omega arith) (omega arith)
        (omega arith)

  round_14-passes :
      (i : ℕ) (s : Tb Decoder)
      → ((round_14 rng i s).fails ≡ s.fails) × (s.checks ≤ (round_14 rng i s).checks)
  unfolding round_14 rnd rnd_range
  round_14-passes i s = check_opimm-Passed _ _ _ (omega arith)

-- Whatever numbers the generator delivers, the bench makes at least 35077 checks of the decoder
-- (section 14 skips the shifts), none of them fails, and it exits with status 0.
pub decoder_run_passes :
    (rng : ℕ → ℕ) → (35077 ≤ (run rng).checks) × ((run rng).fails ≡ 0) × (main rng ≡ 0)
unfolding run main tb_begin
decoder_run_passes rng =
    let (_, passed) =
      for_loop-Passed (λ s. s) (λ _. Unit {0}) 7 (round_13 rng)
        (λ i s _. (tt, round_13-Passed rng i s)) 5000 0
        (tb_begin "13. register fields across random instructions" opening) tt in
    let (clean, enough) =
      for_loop_inv (round_14 rng) (λ i (s : Tb Decoder). (s.fails ≡ 0) × (35077 ≤ s.checks))
        (λ i s h. omega (arith, round_14-passes rng i s)) 0 5000
        (tb_begin "14. OP-IMM never produces SUB, across all immediates" (
          for_loop 5000 0 (round_13 rng)
            (tb_begin "13. register fields across random instructions" opening)))
        (omega (arith, opening_passed)) in
    (enough, clean, finish_passed (run rng) clean)
