-- ===== src/BranchCmp/Laws.antt =====
-- The branch comparator against the reference model of its bench, and the bench as a whole.
use rv32i_core.Prelude.{ℕ, ◌+◌, ◌-◌, ◌%◌, ◌^◌, ◌<◌, ◌≡◌, refl, Bool, arith, get_or, get_or-All}
use rv32i_core.Word.{u32, signed_lt}
use rv32i_core.Word.Signed.{signed_lt-ltb_ℤ}
use rv32i_core.Tb.{Tb, tb_begin, rnd_range}
use rv32i_core.Tb.Report.{Passed, Passed-trans, for_loop-Passed, finish_passed}
use rv32i_core.BranchCmp.{BranchCmp, branch_taken}
use rv32i_core.BranchCmp.Bench.{ref, chk, opening, edge, f3s, operands, round, run, main}

-- For every funct3, defined or not, and all 32-bit operands the module decides a branch as the
-- reference model does on the integers that the operands stand for.
pub branch_taken-ref : (f3 a b : ℕ) → a < 2 ^ 32 → b < 2 ^ 32 → branch_taken a b f3 ≡ ref f3 a b
unfolding branch_taken ref
branch_taken-ref f3 a b ha hb = ground (arith, signed_lt-ltb_ℤ a b ha hb)

chk-Passed :
    (f3 a b : ℕ) (want : Bool) (s : Tb BranchCmp)
    → branch_taken a b f3 ≡ want
    → Passed 1 s (chk f3 a b want s)
unfolding chk
chk-Passed f3 a b want s h = ground arith

opening_passed : (opening.fails ≡ 0) × (opening.checks ≡ 42)
unfolding opening branch_taken signed_lt
opening_passed = (refl, refl)

edge-lt : (i : ℕ) → get_or edge i 0 < 2 ^ 32
edge-lt i = get_or-All (λ x. x < 2 ^ 32) edge i 0 (omega arith) (omega arith)

-- Both operands of a round are words, on every branch of the switch, and drawing them checks
-- nothing.
operands_lem :
    (rng : ℕ → ℕ) (s : Tb BranchCmp)
    → ((operands rng s).0 < 2 ^ 32) × ((operands rng s).1 < 2 ^ 32) × Passed 0 s (operands rng s).2
unfolding operands
operands_lem rng s = ground (
  arith,
  edge-lt (u32 (0 + rng (s.drawn + 1 + 1 + 1) % (8 - 0 + 1))),
  edge-lt (u32 (0 + rng (s.drawn + 1 + 1 + 1 + 1) % (8 - 0 + 1))),
)

round-Passed : (rng : ℕ → ℕ) (i : ℕ) (s : Tb BranchCmp) → Passed 1 s (round rng i s)
unfolding round rnd_range
round-Passed rng i s =
    let s' : Tb BranchCmp = (rnd_range rng 0 5 s).1 in
    let f3 : ℕ = get_or f3s (rnd_range rng 0 5 s).0 0 in
    let (ha, hb, e) = operands_lem rng s' in
    Passed-trans 0 1 s (operands rng s').2 (round rng i s) e
      (chk-Passed f3 _ _ _ _ (branch_taken-ref f3 _ _ ha hb))

-- Whatever numbers the generator delivers, the bench makes its 20042 checks of the branch
-- comparator, none of them fails, and it exits with status 0.
pub branch_cmp_run_passes :
    (rng : ℕ → ℕ) → ((run rng).checks ≡ 20042) × ((run rng).fails ≡ 0) × (main rng ≡ 0)
unfolding run main tb_begin
branch_cmp_run_passes rng =
    let (_, passed) =
      for_loop-Passed (λ s. s) (λ _. Unit {0}) 1 (round rng) (λ i s _. (tt, round-Passed rng i s))
        20000 0 (tb_begin "9. random against the reference model" opening) tt in
    let clean : (run rng).fails ≡ 0 = omega (arith, opening_passed) in
    (omega (arith, opening_passed), clean, finish_passed (run rng) clean)
