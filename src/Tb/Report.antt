-- ===== src/Tb/Report.antt =====
-- What the counters of a bench say about the checks that it made.
use rv32i_core.Prelude.{
  ℕ, zero, suc, ◌+◌, ◌*◌, ◌≡◌, refl, ◌↔◌, List, [], ◌∷◌, arith, ◌==◌, if◌then◌else◌, length, All,
}
use Prim.Native.Nat.{min}
use rv32i_core.Word.{u64}
use rv32i_core.Tb.{Tb, initial, tb_check, finish, tb_max_report}
use rv32i_core.Tb.Loop.{for_loop}

-- From `s` to `s'` the bench made n checks and none of them failed.
abbrev pub Passed : {D : Type 0} → ℕ → Tb D → Tb D → Type 0
Passed n s s' = (s'.fails ≡ s.fails) × (s'.checks ≡ s.checks + n)

module _ {D : Type 0} where
  pub Passed-trans :
      (m n : ℕ) (s s' s'' : Tb D) → Passed m s s' → Passed n s' s'' → Passed (m + n) s s''
  Passed-trans m n s s' s'' h k = omega arith

  -- A check whose two sides agree passes, and leaves the design alone.
  pub tb_check-Passed :
      (got want : ℕ) (s : Tb D)
      → got ≡ want
      → Passed 1 s (tb_check got want s) × ((tb_check got want s).dut ≡ s.dut)
  unfolding tb_check
  tb_check-Passed got want s h = ground arith

  pub tb_check-dut : (got want : ℕ) (s : Tb D) → (tb_check got want s).dut ≡ s.dut
  unfolding tb_check
  tb_check-dut got want s = ground arith

  -- A round that passes k checks passes k * left of them in a loop of `left` rounds. The state of
  -- the loop may hold more than the bench: `tb` picks the bench.
  pub for_loop-Passed :
      {S : Type 0} (tb : S → Tb D) (P : S → Type 0) (k : ℕ) (body : ℕ → S → S)
      → ((i : ℕ) (s : S) → P s → P (body i s) × Passed k (tb s) (tb (body i s)))
      → (left i : ℕ) (s : S) → P s
      → P (for_loop left i body s) × Passed (k * left) (tb s) (tb (for_loop left i body s))
  unfolding for_loop
  for_loop-Passed tb P k body keep zero i s h = (h, omega arith)
  for_loop-Passed tb P k body keep (suc left) i s h =
      let (h', passed) = keep i s h in
      let (h'', rest) = for_loop-Passed tb P k body keep left (i + 1) (body i s) h' in
      (h'', omega arith)

  pub finish_passed : (s : Tb D) → s.fails ≡ 0 → finish s ≡ 0
  unfolding finish
  finish_passed s h = ground arith

-- A bench that does nothing but the given checks, in order.
abbrev pub check_all : {D : Type 0} → List (ℕ × ℕ) → Tb D → Tb D
check_all [] s = s
check_all ((got, want) ∷ rest) s = check_all rest (tb_check got want s)

abbrev pub mismatches : List (ℕ × ℕ) → ℕ
mismatches [] = 0
mismatches ((got, want) ∷ rest) = (if u64 got == u64 want then 0 else 1) + mismatches rest

-- The reports agree with the counters.
pub record IsConsistent {D : Type 0} (s : Tb D) : Type 0 where
  pub each_reported : s.reported ≡ s.fails
  pub capped : length s.printed ≡ min s.fails tb_max_report

module _ {D : Type 0} where
  tb_check-IsConsistent :
      (got want : ℕ) (s : Tb D) → IsConsistent s → IsConsistent (tb_check got want s)
  unfolding tb_check
  tb_check-IsConsistent got want s h = ground arith

  tb_check_counts :
      (got want : ℕ) (s : Tb D)
      → ((tb_check got want s).checks ≡ s.checks + 1)
        × ((tb_check got want s).fails ≡ s.fails + mismatches ((got, want) ∷ []))
  unfolding tb_check
  tb_check_counts got want s = ground arith

  pub check_all_counts :
      (ps : List (ℕ × ℕ)) (s : Tb D)
      → IsConsistent s
      → IsConsistent (check_all ps s)
        × ((check_all ps s).checks ≡ s.checks + length ps)
        × ((check_all ps s).fails ≡ s.fails + mismatches ps)
  check_all_counts [] s h = (h, omega arith, omega arith)
  check_all_counts ((got, want) ∷ rest) s h =
      let (h', checks, fails) =
        check_all_counts rest (tb_check got want s) (tb_check-IsConsistent got want s h) in
      (h', omega (arith, tb_check_counts got want s), omega (arith, tb_check_counts got want s))

  pub finish_iff : (s : Tb D) → (finish s ≡ 0) ↔ (s.fails ≡ 0)
  unfolding finish
  finish_iff s = ground arith

mismatches_iff : (ps : List (ℕ × ℕ)) → (mismatches ps ≡ 0) ↔ All (λ p. u64 p.0 ≡ u64 p.1) ps
mismatches_iff [] = (λ _. tt, λ _. refl)
mismatches_iff ((got, want) ∷ rest) = ground (arith, mismatches_iff rest)

-- For any checks made by a fresh bench: every check is counted, the failures are the checks whose
-- two sides differ as 64-bit values, at most 25 of them are printed, and the exit status is 0
-- exactly when no check failed.
pub check_all_verdict :
    {D : Type 0} (d : D) (ps : List (ℕ × ℕ))
    → let s = check_all ps (initial d) in
      (s.checks ≡ length ps)
      × (s.fails ≡ mismatches ps)
      × (length s.printed ≡ min s.fails 25)
      × ((finish s ≡ 0) ↔ All (λ p. u64 p.0 ≡ u64 p.1) ps)
unfolding initial
check_all_verdict d ps =
    let (h, checks, fails) = check_all_counts ps (initial d) (omega arith) in
    (
      omega arith,
      omega arith,
      h.capped,
      (
        λ e. (mismatches_iff ps).0 (omega (arith, (finish_iff (check_all ps (initial d))).0 e)),
        λ e. (finish_iff (check_all ps (initial d))).1 (omega (arith, (mismatches_iff ps).1 e)),
      ),
    )
