-- ===== src/Alu/Laws.antt =====
-- The ALU against the reference model of its bench, and the bench as a whole.
use rv32i_core.Prelude.{
  ℕ, ◌+◌, ◌-◌, ◌%◌, ◌^◌, ◌<◌, ◌≡◌, refl, arith, ◌==◌, get_or, get_or-All, Bool-cases, inl, inr,
}
use rv32i_core.Word.{u32, signed_lt, signed_shr}
use rv32i_core.Word.Bits.{and_low}
use rv32i_core.Word.Signed.{signed_lt-ltb_ℤ, signed_shr-asr}
use rv32i_core.Tb.{Tb, tb_begin, rnd_range}
use rv32i_core.Tb.Report.{Passed, Passed-trans, for_loop-Passed, finish_passed}
use rv32i_core.Alu.{Alu, alu}
use rv32i_core.Alu.Bench.{ref, chk, opening, ops, edge, operands, round, run, main}

-- For every operation code, defined or not, and all 32-bit operands the ALU computes what the
-- reference model of its bench computes: shifts by the low five bits, the arithmetic shift and the
-- signed comparison on the integers that the operands stand for, and 0 for an undefined code.
pub alu-ref : (op a b : ℕ) → a < 2 ^ 32 → b < 2 ^ 32 → alu a b op ≡ ref op a b
unfolding alu ref
alu-ref op a b ha hb =
    ground (arith, and_low 5 b, signed_lt-ltb_ℤ a b ha hb, signed_shr-asr a (b % 32) ha)

chk-Passed : (op a b want : ℕ) (s : Tb Alu) → alu a b op ≡ want → Passed 1 s (chk op a b want s)
unfolding chk
chk-Passed op a b want s h = ground arith

opening_passed : (opening.fails ≡ 0) × (opening.checks ≡ 28)
unfolding opening alu signed_lt signed_shr
opening_passed = (refl, refl)

edge-lt : (i : ℕ) → get_or edge i 0 < 2 ^ 32
edge-lt i = get_or-All (λ x. x < 2 ^ 32) edge i 0 (omega arith) (omega arith)

-- Both operands of a round are words, on either branch of the bias, and drawing them checks nothing.
operands_lem :
    (rng : ℕ → ℕ) (s : Tb Alu)
    → ((operands rng s).0 < 2 ^ 32) × ((operands rng s).1 < 2 ^ 32) × Passed 0 s (operands rng s).2
unfolding operands
operands_lem rng s = elim (Bool-cases (u32 (0 + rng (s.drawn + 1 + 1) % (2 - 0 + 1)) == 0)) [
  | inl biased ↦ rw biased (edge-lt _, edge-lt _, omega arith)
  | inr plain ↦ rw plain (omega arith)
]

round-Passed : (rng : ℕ → ℕ) (i : ℕ) (s : Tb Alu) → Passed 1 s (round rng i s)
unfolding round rnd_range
round-Passed rng i s =
    let s' : Tb Alu = (rnd_range rng 0 9 s).1 in
    let op : ℕ = get_or ops (rnd_range rng 0 9 s).0 0 in
    let (ha, hb, e) = operands_lem rng s' in
    Passed-trans 0 1 s (operands rng s').2 (round rng i s) e
      (chk-Passed op _ _ _ _ (alu-ref op _ _ ha hb))

-- Whatever numbers the generator delivers, the bench makes its 20028 checks of the ALU, none of
-- them fails, and it exits with status 0.
pub alu_run_passes :
    (rng : ℕ → ℕ) → ((run rng).checks ≡ 20028) × ((run rng).fails ≡ 0) × (main rng ≡ 0)
unfolding run main tb_begin
alu_run_passes rng =
    let (_, passed) =
      for_loop-Passed (λ s. s) (λ _. Unit {0}) 1 (round rng) (λ i s _. (tt, round-Passed rng i s))
        20000 0 (tb_begin "6. random against reference model" opening) tt in
    let clean : (run rng).fails ≡ 0 = omega (arith, opening_passed) in
    (omega (arith, opening_passed), clean, finish_passed (run rng) clean)
