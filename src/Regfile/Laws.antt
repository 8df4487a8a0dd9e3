-- ===== src/Regfile/Laws.antt =====
-- The register file against the array model of its bench, and the bench as a whole.
use rv32i_core.Prelude.{ℕ, ◌+◌, ◌<◌, ◌≡◌, refl, false, arith, ◌==◌, if◌then◌else◌, update}
use rv32i_core.Tb.{Tb, tb_begin, tb_check, rnd, rnd_range}
use rv32i_core.Tb.Report.{Passed, Passed-trans, for_loop-Passed, finish_passed}
use rv32i_core.Tb.Loop.{for_loop, for_loop_inv}
use rv32i_core.Regfile.{Regfile}
use rv32i_core.Regfile.Bench.{
  wr, rd1, rd2, check_rd1, check_rd2, opening, Shadowed, resync, round, run, main,
}

opening_passed : (opening.fails ≡ 0) × (opening.checks ≡ 14) × (opening.dut.rd_we ≡ false)
unfolding opening
opening_passed = (refl, refl, refl)

-- The model holds what the register file stores, but for x0, and no write is pending.
record IsSynced (s : Shadowed) : Type 0 where
  idle : s.tb.dut.rd_we ≡ false
  agrees : (i : ℕ) → i < 32 → (i == 0) ≡ false → s.model i ≡ s.tb.dut.regs i

-- A read changes no register, draws no number and makes no check.
rd1_lem :
    (a : ℕ) (s : Tb Regfile)
    → s.dut.rd_we ≡ false
    → ((rd1 a s).0 ≡ (if a == 0 then 0 else s.dut.regs a))
      × Passed 0 s (rd1 a s).1
      × ((rd1 a s).1.dut.regs ≡ s.dut.regs)
      × ((rd1 a s).1.dut.rd_we ≡ false)
unfolding rd1
rd1_lem a s h = (ground arith, omega arith, refl, h)

rd2_lem :
    (a : ℕ) (s : Tb Regfile)
    → s.dut.rd_we ≡ false
    → ((rd2 a s).0 ≡ (if a == 0 then 0 else s.dut.regs a))
      × Passed 0 s (rd2 a s).1
      × ((rd2 a s).1.dut.regs ≡ s.dut.regs)
      × ((rd2 a s).1.dut.rd_we ≡ false)
unfolding rd2
rd2_lem a s h = (ground arith, omega arith, refl, h)

wr-regs :
    (a v i : ℕ) (s : Tb Regfile)
    → (i == 0) ≡ false
    → (wr a v s).dut.regs i ≡ (if i == a then v else s.dut.regs i)
unfolding wr
wr-regs a v i s h = ground arith

wr-Passed : (a v : ℕ) (s : Tb Regfile) → ((wr a v s).dut.rd_we ≡ false) × Passed 0 s (wr a v s)
unfolding wr
wr-Passed a v s = ground arith

-- A read that the model foresees passes its check.
check_rd1-Passed :
    (a want : ℕ) (s : Tb Regfile)
    → s.dut.rd_we ≡ false
    → want ≡ (if a == 0 then 0 else s.dut.regs a)
    → Passed 1 s (check_rd1 a want s)
      × ((check_rd1 a want s).dut.regs ≡ s.dut.regs)
      × ((check_rd1 a want s).dut.rd_we ≡ false)
unfolding tb_check
check_rd1-Passed a want s idle h = ground (arith, rd1_lem a s idle)

check_rd2-Passed :
    (a want : ℕ) (s : Tb Regfile)
    → s.dut.rd_we ≡ false
    → want ≡ (if a == 0 then 0 else s.dut.regs a)
    → Passed 1 s (check_rd2 a want s)
      × ((check_rd2 a want s).dut.regs ≡ s.dut.regs)
      × ((check_rd2 a want s).dut.rd_we ≡ false)
unfolding tb_check
check_rd2-Passed a want s idle h = ground (arith, rd2_lem a s idle)

-- model[a] = v unless a is 0.
abbrev modelled : (ℕ → ℕ) → ℕ → ℕ → ℕ → ℕ
modelled model a v = if a == 0 then model else update model a v

-- After the same write on both sides the model foresees every read.
foreseen :
    (model : ℕ → ℕ) (a v i : ℕ) (s : Tb Regfile)
    → ((i == 0) ≡ false → model i ≡ s.dut.regs i)
    → (if i == 0 then 0 else modelled model a v i) ≡ (if i == 0 then 0 else (wr a v s).dut.regs i)
foreseen model a v i s h = ground (arith, wr-regs a v i s)

kept :
    (model : ℕ → ℕ) (a v i : ℕ) (s : Tb Regfile)
    → (i == 0) ≡ false
    → model i ≡ s.dut.regs i
    → modelled model a v i ≡ (wr a v s).dut.regs i
kept model a v i s h e = ground (arith, wr-regs a v i s h)

module _ (rng : ℕ → ℕ) where
  round-IsSynced :
      (i : ℕ) (s : Shadowed)
      → IsSynced s
      → IsSynced (round rng i s) × Passed 2 s.tb (round rng i s).tb
  unfolding round
  round-IsSynced i s h =
      let (a, tb₁) = rnd_range rng 0 31 s.tb in
      let (v, tb₂) = rnd rng tb₁ in
      let (b, tb₃) = rnd_range rng 0 31 (wr a v tb₂) in
      let (c, tb₄) = rnd_range rng 0 31 tb₃ in
      let want_b : ℕ = if b == 0 then 0 else modelled s.model a v b in
      let want_c : ℕ = if c == 0 then 0 else modelled s.model a v c in
      let (idle, written) = wr-Passed a v tb₂ in
      let (passed₁, regs₁, idle₁) =
        check_rd1-Passed b want_b tb₄ idle
          (foreseen s.model a v b tb₂ (h.agrees b (omega arith))) in
      let (passed₂, regs₂, idle₂) =
        check_rd2-Passed c want_c (check_rd1 b want_b tb₄) idle₁
          (rw regs₁ (foreseen s.model a v c tb₂ (h.agrees c (omega arith)))) in
      (
        record {
          idle = idle₂;
          agrees = λ j small nonzero.
              rw (regs₂, regs₁) (kept s.model a v j tb₂ nonzero (h.agrees j small nonzero));
        },
        omega arith,
      )

-- Before round i of the resynchronisation the model holds the registers below i.
record IsResynced (start : Tb Regfile) (i : ℕ) (s : Shadowed) : Type 0 where
  idle : s.tb.dut.rd_we ≡ false
  agrees : (j : ℕ) → j < i → (j == 0) ≡ false → s.model j ≡ s.tb.dut.regs j
  passed : Passed 0 start s.tb

resync-IsResynced :
    (start : Tb Regfile) (i : ℕ) (s : Shadowed)
    → IsResynced start i s
    → IsResynced start (i + 1) (resync i s)
unfolding resync
resync-IsResynced start i s h =
    let (value, passed, regs, idle) = rd1_lem i s.tb h.idle in
    record {
      idle = idle;
      agrees = λ j below nonzero. rw regs (ground (arith, value, h.agrees j));
      passed = Passed-trans 0 0 start s.tb (rd1 i s.tb).1 h.passed passed;
    }

abbrev section_10 : Tb Regfile
section_10 = tb_begin "10. random against shadow model" opening

abbrev cleared : Shadowed
cleared =
    for_loop 32 0 (λ i s. record s { model = update s.model i 0 })
      (record { tb = section_10; model = λ i. 0 })

cleared-tb : cleared.tb ≡ section_10
cleared-tb =
    for_loop_inv {S = Shadowed} (λ i s. record s { model = update s.model i 0 })
      (λ _ s. s.tb ≡ section_10) (λ i s e. e) 0 32 _ refl

resynced : IsResynced section_10 32 (for_loop 32 0 resync cleared)
unfolding tb_begin
resynced =
    for_loop_inv resync (IsResynced section_10) (resync-IsResynced section_10) 0 32 cleared
      (record {
        idle = rw cleared-tb (opening_passed.2);
        agrees = λ j below. absurd (omega arith);
        passed = rw cleared-tb (omega arith);
      })

-- Whatever numbers the generator delivers, the bench makes its 10014 checks of the register
-- file, none of them fails, and it exits with status 0.
pub regfile_run_passes :
    (rng : ℕ → ℕ) → ((run rng).checks ≡ 10014) × ((run rng).fails ≡ 0) × (main rng ≡ 0)
unfolding run main tb_begin
regfile_run_passes rng =
    let synced = for_loop 32 0 resync cleared in
    let (_, passed) =
      for_loop-Passed (λ s. s.tb) IsSynced 2 (round rng) (round-IsSynced rng) 5000 0 synced
        (record { idle = resynced.idle; agrees = resynced.agrees }) in
    let clean : (run rng).fails ≡ 0 = omega (arith, opening_passed, resynced.passed) in
    (omega (arith, opening_passed, resynced.passed), clean, finish_passed (run rng) clean)
