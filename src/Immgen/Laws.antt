-- ===== src/Immgen/Laws.antt =====
-- The bench of the immediate generator as a whole.
use rv32i_core.Prelude.{ℕ, ◌*◌, ◌/◌, ◌%◌, ◌^◌, ◌<◌, ◌≡◌, refl, inl, ◌∙◌, arith, bit_and}
use rv32i_core.Word.Bits.{and_low, and_high}
use rv32i_core.Tb.{Tb, tb_begin, rnd, rnd_range}
use rv32i_core.Tb.Report.{Passed, for_loop-Passed, finish_passed}
use rv32i_core.Immgen.{Immgen, immgen, imm_u, imm_j, imm_b, imm_s, imm_i}
use rv32i_core.Immgen.Encode.{op_lui, op_opimm, enc_u, sext}
use rv32i_core.Immgen.Sext.{sext_lem}
use rv32i_core.Immgen.RoundTrip.{
  IsSigned, immgen-enc_i, immgen-enc_s, immgen-enc_b, immgen-enc_u, immgen-enc_j, and_upper,
}
use rv32i_core.Immgen.Bench.{chk, opening, format_case, round, run, main}

chk-Passed : (instr want : ℕ) (s : Tb Immgen) → immgen instr ≡ want → Passed 1 s (chk instr want s)
unfolding chk
chk-Passed instr want s h = ground arith

opening_passed : (opening.fails ≡ 0) × (opening.checks ≡ 25)
unfolding opening immgen imm_u imm_j imm_b imm_s imm_i
opening_passed = (refl, refl)

-- The random immediates of the signed formats are in range, and even where that is wanted.
sext-IsSigned : (r : ℕ) → IsSigned 12 (sext r 12)
sext-IsSigned r = ground (arith, sext_lem r 11)

clear_bit0 : (r : ℕ) → r < 2 ^ 32 → bit_and r 0xFFFFFFFE ≡ r / 2 * 2
clear_bit0 r h = omega (arith, and_high 1 r 0x7FFFFFFF, and_low 31 (r / 2))

sext_even_b :
    (r : ℕ)
    → r < 2 ^ 32
    → IsSigned 13 (sext (bit_and r 0xFFFFFFFE) 13) × (sext (bit_and r 0xFFFFFFFE) 13 % 2 ≡ 0)
sext_even_b r h = rw (clear_bit0 r h) (ground (arith, sext_lem (r / 2 * 2) 12))

sext_even_j :
    (r : ℕ)
    → r < 2 ^ 32
    → IsSigned 21 (sext (bit_and r 0xFFFFFFFE) 21) × (sext (bit_and r 0xFFFFFFFE) 21 % 2 ≡ 0)
sext_even_j r h = rw (clear_bit0 r h) (ground (arith, sext_lem (r / 2 * 2) 20))

format_case-Passed :
    (rng : ℕ → ℕ) (format rd rs1 rs2 f3 : ℕ) (s : Tb Immgen)
    → rd < 32
    → rs1 < 32
    → rs2 < 32
    → f3 < 8
    → Passed 1 s (format_case rng format rd rs1 rs2 f3 s)
unfolding format_case
format_case-Passed rng format rd rs1 rs2 f3 s h₁ h₂ h₃ h₄ =
    let r : ℕ = (rnd rng s).0 in
    let word : r < 2 ^ 32 = unfold rnd in omega arith in
    let (b_signed, b_even) = sext_even_b r word in
    let (j_signed, j_even) = sext_even_j r word in
    let upper : bit_and r 0xFFFFF000 < 2 ^ 32 = omega (arith, and_upper r word) in
    let u : ℕ = bit_and r 0xFFFFF000 in
    let kept : immgen (enc_u op_lui rd u) ≡ u =
      immgen-enc_u op_lui rd u (inl refl) h₁ upper ∙ omega (arith, and_upper r word) in
    let s' : Tb Immgen = (rnd rng s).1 in
    ground (
      arith,
      chk-Passed _ _ s' (immgen-enc_i op_opimm rd f3 rs1 _ (inl refl) h₁ h₄ h₂ (sext-IsSigned r)),
      chk-Passed _ _ s' (immgen-enc_s f3 rs1 rs2 _ h₄ h₂ h₃ (sext-IsSigned r)),
      chk-Passed _ _ s' (immgen-enc_b f3 rs1 rs2 _ h₄ h₂ h₃ b_signed b_even),
      chk-Passed _ _ s' kept,
      chk-Passed _ _ s' (immgen-enc_j rd _ h₁ j_signed j_even),
    )

round-Passed : (rng : ℕ → ℕ) (i : ℕ) (s : Tb Immgen) → Passed 1 s (round rng i s)
unfolding round rnd_range
round-Passed rng i s =
    format_case-Passed rng _ _ _ _ _ _ (omega arith) (omega arith) (omega arith) (omega arith)

-- Whatever numbers the generator delivers, the bench makes its 20025 checks of the immediate
-- generator, none of them fails, and it exits with status 0.
pub immgen_run_passes :
    (rng : ℕ → ℕ) → ((run rng).checks ≡ 20025) × ((run rng).fails ≡ 0) × (main rng ≡ 0)
unfolding run main tb_begin
immgen_run_passes rng =
    let (_, passed) =
      for_loop-Passed (λ s. s) (λ _. Unit {0}) 1 (round rng) (λ i s _. (tt, round-Passed rng i s))
        20000 0 (tb_begin "8. random round-trip" opening) tt in
    let clean : (run rng).fails ≡ 0 = omega (arith, opening_passed) in
    (omega (arith, opening_passed), clean, finish_passed (run rng) clean)
