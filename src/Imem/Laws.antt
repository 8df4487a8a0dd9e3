-- ===== src/Imem/Laws.antt =====
-- The instruction memory against the array of its bench, and the bench as a whole.
use rv32i_core.Prelude.{
  ℕ, ◌+◌, ◌*◌, ◌<◌, ◌≤◌, ◌≡◌, refl, ap, ◌∙◌, arith, Bool, true, false, List, [], ◌∷◌, length, All,
  String,
}
use rv32i_core.Word.{slice}
use rv32i_core.Tb.{Tb, initial, tb_begin, tb_check, drive, tick, rnd_range}
use rv32i_core.Tb.Report.{tb_check-Passed, finish_passed}
use rv32i_core.Tb.Loop.{for_loop, for_loop_inv}
use rv32i_core.Imem.{Imem, eval, posedge}
use rv32i_core.Imem.Bench.{
  fetch, check_fetch, check_instr, check_fetches, golden, first_words, index_words, low_bits,
  base_words, last_word, section_6, opening, sweep, round, run, main,
}

module _ (gen : ℕ → ℕ) (loaded : ℕ → ℕ)
    (reads_back : (i : ℕ) → i < 16384 → loaded i ≡ golden gen i) where
  -- After n checks none has failed, and the array is as loaded.
  record IsGood (n : ℕ) (s : Tb Imem) : Type 0 where
    clean : s.fails ≡ 0
    count : s.checks ≡ n
    mem_is : s.dut.mem ≡ loaded

  check-IsGood :
      (got want n : ℕ) (s : Tb Imem)
      → got ≡ want
      → IsGood n s
      → IsGood (n + 1) (tb_check got want s)
  check-IsGood got want n s e h =
      let (passed, dut) = tb_check-Passed got want s e in
      record {
        clean = passed.0 ∙ h.clean;
        count = omega (arith, h.count);
        mem_is = ap (λ (d : Imem). d.mem) dut ∙ h.mem_is;
      }

  fetch-IsGood : (a n : ℕ) (s : Tb Imem) → IsGood n s → IsGood n (fetch a s)
  unfolding fetch
  fetch-IsGood a n s h = record { clean = h.clean; count = h.count; mem_is = h.mem_is }

  fetch-instr :
      (a i n : ℕ) (s : Tb Imem)
      → slice a 2 14 ≡ i
      → IsGood n s
      → (fetch a s).dut.instr ≡ golden gen i
  unfolding fetch
  fetch-instr a i n s e h =
      let small : i < 16384 = omega arith in
      rw e (ap (λ (m : ℕ → ℕ). m i) h.mem_is ∙ reads_back i small)

  check_fetch-IsGood :
      (a i n : ℕ) (s : Tb Imem)
      → slice a 2 14 ≡ i
      → IsGood n s
      → IsGood (n + 1) (check_fetch a (golden gen i) s)
  check_fetch-IsGood a i n s e h =
      check-IsGood (fetch a s).dut.instr (golden gen i) n (fetch a s) (fetch-instr a i n s e h)
        (fetch-IsGood a n s h)

  check_fetches-IsGood :
      (ps : List (ℕ × ℕ)) (n : ℕ) (s : Tb Imem)
      → All (λ p. slice p.0 2 14 ≡ p.1) ps
      → IsGood n s
      → IsGood (n + length ps) (check_fetches (golden gen) ps s)
  unfolding check_fetches
  check_fetches-IsGood [] n s e h = let sum : n + 0 ≡ n = omega arith in rw sum h
  check_fetches-IsGood ((a, i) ∷ rest) n s (e, es) h =
      let sum : n + length ((a, i) ∷ rest) ≡ n + 1 + length rest = omega arith in
      rw sum (
        check_fetches-IsGood rest (n + 1) (check_fetch a (golden gen i) s) es
          (check_fetch-IsGood a i n s e h))

  tb_begin-IsGood : (name : String) (n : ℕ) (s : Tb Imem) → IsGood n s → IsGood n (tb_begin name s)
  unfolding tb_begin
  tb_begin-IsGood name n s h = record { clean = h.clean; count = h.count; mem_is = h.mem_is }

  -- A cycle with the read enabled or not.
  tick-IsGood : (n : ℕ) (s : Tb Imem) → IsGood n s → IsGood n (tick eval posedge s)
  unfolding tick posedge
  tick-IsGood n s h = record { clean = h.clean; count = h.count; mem_is = h.mem_is }

  drive-IsGood :
      (addr : ℕ) (en : Bool) (n : ℕ) (s : Tb Imem)
      → IsGood n s
      → IsGood n (drive (λ d. record d { addr = addr; en = en }) s)
  unfolding drive
  drive-IsGood addr en n s h = record { clean = h.clean; count = h.count; mem_is = h.mem_is }

  drive_en-IsGood :
      (n : ℕ) (s : Tb Imem) → IsGood n s → IsGood n (drive (λ d. record d { en = true }) s)
  unfolding drive
  drive_en-IsGood n s h = record { clean = h.clean; count = h.count; mem_is = h.mem_is }

  -- With the read disabled the output holds word 8, whatever the address.
  record IsHeld (n : ℕ) (s : Tb Imem) : Type 0 where
    good : IsGood n s
    disabled : s.dut.en ≡ false
    elsewhere : s.dut.addr ≡ 0x80000040
    held : s.dut.instr ≡ golden gen 8

  tick-IsHeld : (n : ℕ) (s : Tb Imem) → IsHeld n s → IsHeld n (tick eval posedge s)
  unfolding tick posedge
  tick-IsHeld n s h = record {
    good = tick-IsGood n s h.good;
    disabled = h.disabled;
    elsewhere = h.elsewhere;
    held = rw h.disabled h.held;
  }

  check-IsHeld : (n : ℕ) (s : Tb Imem) → IsHeld n s → IsHeld (n + 1) (check_instr (golden gen 8) s)
  check-IsHeld n s h =
      let (_, dut) = tb_check-Passed s.dut.instr (golden gen 8) s h.held in
      record {
        good = check-IsGood s.dut.instr (golden gen 8) n s h.held h.good;
        disabled = rw dut h.disabled;
        elsewhere = rw dut h.elsewhere;
        held = rw dut h.held;
      }

  disable-IsHeld :
      (n : ℕ) (s : Tb Imem)
      → IsGood n s
      → s.dut.instr ≡ golden gen 8
      → IsHeld n (drive (λ d. record d { addr = 0x80000040; en = false }) s)
  unfolding drive
  disable-IsHeld n s h e = record {
    good = drive-IsGood 0x80000040 false n s h;
    disabled = refl;
    elsewhere = refl;
    held = e;
  }

  -- Enabled again, it loads word 16.
  enabled-instr :
      (n : ℕ) (s : Tb Imem)
      → IsHeld n s
      → (tick eval posedge (drive (λ d. record d { en = true }) s)).dut.instr ≡ golden gen 16
  unfolding tick posedge drive
  enabled-instr n s h =
      rw h.elsewhere (ap (λ (m : ℕ → ℕ). m 16) h.good.mem_is ∙ reads_back 16 (omega arith))

  section_6-IsGood : (n : ℕ) (s : Tb Imem) → IsGood n s → IsGood (n + 4) (section_6 gen s)
  unfolding section_6
  section_6-IsGood n s h =
      let s₀ = tb_begin "6. en low holds the output" s in
      let h₀ = tb_begin-IsGood "6. en low holds the output" n s h in
      let s₁ = fetch 0x80000020 s₀ in
      let e₁ = fetch-instr 0x80000020 8 n s₀ refl h₀ in
      let s₂ = check_instr (golden gen 8) s₁ in
      let h₂ = check_fetch-IsGood 0x80000020 8 n s₀ refl h₀ in
      let (_, dut) = tb_check-Passed s₁.dut.instr (golden gen 8) s₁ e₁ in
      let h₃ = disable-IsHeld (n + 1) s₂ h₂ (rw dut e₁) in
      let h₅ = check-IsHeld (n + 1) _ (tick-IsHeld (n + 1) _ h₃) in
      let h₇ = check-IsHeld (n + 1 + 1) _ (tick-IsHeld (n + 1 + 1) _ h₅) in
      let h₉ = tick-IsGood (n + 1 + 1 + 1) _ (drive_en-IsGood (n + 1 + 1 + 1) _ h₇.good) in
      let sum : n + 1 + 1 + 1 + 1 ≡ n + 4 = omega arith in
      rw (← sum)
        (check-IsGood _ (golden gen 16) (n + 1 + 1 + 1) _ (enabled-instr (n + 1 + 1 + 1) _ h₇) h₉)

  opening-IsGood : (d : Imem) → IsGood 17 (opening gen loaded d)
  unfolding opening drive initial
  opening-IsGood d = section_6-IsGood 13 _ (
      check_fetches-IsGood last_word 12 _ (refl, tt)
        (tb_begin-IsGood _ 12 _ (
          check_fetches-IsGood base_words 10 _ (refl, (refl, tt))
            (tb_begin-IsGood _ 10 _ (
              check_fetches-IsGood low_bits 6 _ (refl, (refl, (refl, (refl, tt))))
                (tb_begin-IsGood _ 6 _ (
                  check_fetches-IsGood index_words 4 _ (refl, (refl, tt))
                    (tb_begin-IsGood _ 4 _ (
                      check_fetches-IsGood first_words 0 _ (refl, (refl, (refl, (refl, tt))))
                        (tb_begin-IsGood _ 0 _
                          (record { clean = refl; count = refl; mem_is = refl })))))))))))

  sweep-IsGood : (i n : ℕ) (s : Tb Imem) → i < 16384 → IsGood n s → IsGood (n + 1) (sweep gen i s)
  unfolding sweep
  sweep-IsGood i n s small h = check_fetch-IsGood (0x80000000 + i * 4) i n s (omega arith) h

  round-IsGood :
      (rng : ℕ → ℕ) (i n : ℕ) (s : Tb Imem) → IsGood n s → IsGood (n + 1) (round gen rng i s)
  unfolding round rnd_range
  round-IsGood rng i n s h =
      let (idx, s') = rnd_range rng 0 16383 s in
      check_fetch-IsGood (0x80000000 + idx * 4) idx n s' (omega arith)
        (record { clean = h.clean; count = h.count; mem_is = h.mem_is })

  -- If the array that the design loads is the one that main printed, then whatever its other
  -- registers hold at power-on and whatever numbers the generators deliver, the bench makes its 21401
  -- checks of the instruction memory, none of them fails, and it exits with status 0.
  pub imem_run_passes :
      (rng : ℕ → ℕ) (d : Imem)
      → ((run gen rng loaded d).checks ≡ 21401)
        × ((run gen rng loaded d).fails ≡ 0)
        × (main gen rng loaded d ≡ 0)
  unfolding run main
  imem_run_passes rng d =
      let section_7 = tb_begin "7. sweep every word" (opening gen loaded d) in
      let swept = for_loop 16384 0 (sweep gen) section_7 in
      let h₇ : IsGood (17 + 16384) swept =
        for_loop_inv (sweep gen) (λ i s. i ≤ 16384 → IsGood (17 + i) s)
          (λ i s h below.
            let next : 17 + i + 1 ≡ 17 + (i + 1) = omega arith in
            rw (← next) (sweep-IsGood i (17 + i) s (omega arith) (h (omega arith))))
          0 16384 section_7 (λ below. tb_begin-IsGood _ 17 _ (opening-IsGood d)) (omega arith) in
      let section_8 = tb_begin "8. random access order" swept in
      let h₈ : IsGood (16401 + 5000) (for_loop 5000 0 (round gen rng) section_8) =
        for_loop_inv (round gen rng) (λ i s. IsGood (16401 + i) s)
          (λ i s h.
            let next : 16401 + i + 1 ≡ 16401 + (i + 1) = omega arith in
            rw (← next) (round-IsGood rng i (16401 + i) s h))
          0 5000 section_8 (tb_begin-IsGood _ 16401 swept h₇) in
      (h₈.count, h₈.clean, finish_passed _ h₈.clean)
