-- ===== src/Dmem/Laws.antt =====
-- The data memory against the byte array of its bench, and the bench as a whole.
use rv32i_core.Prelude.{
  ℕ, ◌+◌, ◌-◌, ◌*◌, ◌/◌, ◌^◌, ◌<◌, ◌≤◌, ◌≡◌, refl, sym, ◌∙◌, true, arith, ◌==◌, if◌then◌else◌,
  update,
}
use rv32i_core.Word.Bits.{and_low, and_high}
use rv32i_core.Tb.{Tb, initial, drive, tick, tb_begin, tb_check, rnd, rnd_range}
use rv32i_core.Tb.Report.{tb_check-Passed, Passed, for_loop-Passed, finish_passed}
use rv32i_core.Tb.Loop.{for_loop, for_loop_inv}
use rv32i_core.Dmem.{Dmem, posedge, written}
use rv32i_core.Dmem.Ports.{store-mem, store-Passed, load-rdata, load-mem, load-Passed}
use rv32i_core.Dmem.Bytes.{SameWord, stored-SameWord, wanted-SameWord, split_word-SameWord}
use rv32i_core.Dmem.Words.{
  HasWords, IsWorded, tb_check-IsWorded, store-IsWorded, load-IsWorded, load-IsWorded,
  opening-IsWorded,
}
use rv32i_core.Dmem.Bench.{
  at, store, load, directed, opening, Shadowed, resync, word_aligned, stored, wanted, store_both,
  load_both, round, run, main,
}

opening_passed :
    (d : Dmem) → ((opening d).fails ≡ 0) × ((opening d).checks ≡ 11) × ((opening d).dut.en ≡ true)
unfolding opening directed initial drive tick posedge store load tb_begin tb_check
opening_passed d = (refl, refl, refl)

-- The array holds the bytes of the memory, and the read port is enabled.
record IsSynced (s : Shadowed) : Type 0 where
  enabled : s.tb.dut.en ≡ true
  worded : IsWorded s.tb
  agrees : (i : ℕ) → i < 16384 → SameWord i s.model (s.tb.dut.mem i)

pub word_aligned_lem : (raw : ℕ) → raw < 2 ^ 16 → word_aligned raw ≡ 4 * (raw / 4)
word_aligned_lem raw h = omega (arith, and_high 2 raw (2 ^ 30 - 1), and_low 30 (raw / 4))

store_both-IsSynced :
    (i v strb : ℕ) (s : Tb Dmem) (model : ℕ → ℕ)
    → i < 16384
    → IsSynced (record { tb = s; model = model })
    → IsSynced (store_both (4 * i) v strb s model)
      × Passed 0 s (store_both (4 * i) v strb s model).tb
unfolding store_both
store_both-IsSynced i v strb s model small h =
    let (en, passed) = store-Passed (at (4 * i)) v strb s in
    let same : (j : ℕ)
        → j < 16384
        → SameWord j (stored (4 * i) v strb model)
            (if j == i then written strb v (s.dut.mem j) else s.dut.mem j) =
      λ j below. stored-SameWord i j v strb model (s.dut.mem j) (h.agrees j below) in
    (
      record {
        enabled = en ∙ h.enabled;
        worded = store-IsWorded (at (4 * i)) v strb s h.worded;
        agrees = λ j below. rw (store-mem i v strb j s small) (same j below);
      },
      passed,
    )

load-IsSynced :
    (i : ℕ) (s : Tb Dmem) (model : ℕ → ℕ)
    → i < 16384
    → IsSynced (record { tb = s; model = model })
    → IsSynced (record { tb = load (at (4 * i)) s; model = model })
load-IsSynced i s model small h = record {
  enabled = (load-Passed (at (4 * i)) s).0 ∙ h.enabled;
  worded = load-IsWorded (at (4 * i)) s h.worded;
  agrees = λ j below. rw (load-mem i j s small h.worded.words) (h.agrees j below);
}

load_both-IsSynced :
    (i : ℕ) (s : Tb Dmem) (model : ℕ → ℕ)
    → i < 16384
    → IsSynced (record { tb = s; model = model })
    → IsSynced (load_both (4 * i) s model) × Passed 1 s (load_both (4 * i) s model).tb
unfolding load_both
load_both-IsSynced i s model small h =
    let after = load (at (4 * i)) s in
    let loaded = load-IsSynced i s model small h in
    let equal : after.dut.rdata ≡ wanted (4 * i) model =
      load-rdata i s small h.enabled
      ∙ sym (wanted-SameWord i model (s.dut.mem i) (h.worded.words i) (h.agrees i small)) in
    let (passed, dut) = tb_check-Passed after.dut.rdata (wanted (4 * i) model) after equal in
    (
      record {
        enabled = rw dut loaded.enabled;
        worded = tb_check-IsWorded after.dut.rdata (wanted (4 * i) model) after loaded.worded;
        agrees = rw dut loaded.agrees;
      },
      omega (arith, load-Passed (at (4 * i)) s),
    )

module _ (rng : ℕ → ℕ) where
  round-IsSynced :
      (i : ℕ) (s : Shadowed)
      → IsSynced s
      → IsSynced (round rng i s) × Passed 1 s.tb (round rng i s).tb
  unfolding round rnd rnd_range
  round-IsSynced i s h =
      let (raw, tb₁) = rnd_range rng 0 0xFFFF s.tb in
      let (v, tb₂) = rnd rng tb₁ in
      let (strb, tb₃) = rnd_range rng 0 15 tb₂ in
      let off_is = word_aligned_lem raw (omega arith) in
      let after = store_both (word_aligned raw) v strb tb₃ s.model in
      let (lraw, tb₄) = rnd_range rng 0 0xFFFF after.tb in
      let loff_is = word_aligned_lem lraw (omega arith) in
      let before : IsSynced (record { tb = tb₃; model = s.model }) = record {
        enabled = h.enabled;
        worded = record { words = h.worded.words };
        agrees = h.agrees;
      } in
      let (h', stores) : IsSynced after × Passed 0 tb₃ after.tb =
        rw off_is (store_both-IsSynced (raw / 4) v strb tb₃ s.model (omega arith) before) in
      let between : IsSynced (record { tb = tb₄; model = after.model }) = record {
        enabled = h'.enabled;
        worded = record { words = h'.worded.words };
        agrees = h'.agrees;
      } in
      let (h'', loads) : IsSynced (load_both (word_aligned lraw) tb₄ after.model)
          × Passed 1 tb₄ (load_both (word_aligned lraw) tb₄ after.model).tb =
        rw loff_is (load_both-IsSynced (lraw / 4) tb₄ after.model (omega arith) between) in
      (h'', omega arith)

-- Before round w of the resynchronisation the array holds the words below w.
record IsResynced (start : Tb Dmem) (w : ℕ) (s : Shadowed) : Type 0 where
  enabled : s.tb.dut.en ≡ true
  worded : IsWorded s.tb
  agrees : (i : ℕ) → i < w → SameWord i s.model (s.tb.dut.mem i)
  passed : Passed 0 start s.tb

resync-IsResynced :
    (start : Tb Dmem) (w : ℕ) (s : Shadowed)
    → w < 16384
    → IsResynced start w s
    → IsResynced start (w + 1) (resync w s)
unfolding resync
resync-IsResynced start w s small h =
    let order : w * 4 ≡ 4 * w = omega arith in
    let (en, passed) = load-Passed (at (4 * w)) s.tb in
    rw order (record {
      enabled = en ∙ h.enabled;
      worded = load-IsWorded (at (4 * w)) s.tb h.worded;
      agrees = λ j below.
          rw (load-rdata w s.tb small h.enabled) rw (load-mem w j s.tb small h.worded.words)
            (split_word-SameWord w j s.model s.tb.dut.mem below (h.agrees j));
      passed = omega (arith, h.passed);
    })

module _ (d : Dmem) (words : HasWords d.mem) where
  abbrev section_6 : Tb Dmem
  section_6 = tb_begin "6. random against byte-array model" (opening d)

  abbrev cleared : Shadowed
  cleared =
      for_loop 65536 0 (λ i s. record s { model = update s.model i 0 })
        (record { tb = section_6; model = λ i. 0 })

  cleared-tb : cleared.tb ≡ section_6
  cleared-tb =
      for_loop_inv {S = Shadowed} (λ i s. record s { model = update s.model i 0 })
        (λ _ s. s.tb ≡ section_6) (λ i s e. e) 0 65536 _ refl

  resynced : IsResynced section_6 16384 (for_loop 16384 0 resync cleared)
  unfolding tb_begin
  resynced =
      for_loop_inv resync (λ w s. w ≤ 16384 → IsResynced section_6 w s)
        (λ w s h below. resync-IsResynced section_6 w s (omega arith) (h (omega arith))) 0 16384
        cleared
        (λ below. record {
          enabled = rw cleared-tb ((opening_passed d).2);
          worded = rw cleared-tb (record { words = (opening-IsWorded d words).words });
          agrees = λ j none_yet. absurd (omega arith);
          passed = rw cleared-tb (omega arith);
        })
        (omega arith)

  -- Whatever 32-bit words the memory holds at power-on and whatever numbers the generator delivers,
  -- the bench makes its 20011 checks of the data memory, none of them fails, and it exits with
  -- status 0.
  pub dmem_run_passes :
      (rng : ℕ → ℕ) → ((run rng d).checks ≡ 20011) × ((run rng d).fails ≡ 0) × (main rng d ≡ 0)
  unfolding run main tb_begin
  dmem_run_passes rng =
      let synced = for_loop 16384 0 resync cleared in
      let (_, passed) =
        for_loop-Passed (λ s. s.tb) IsSynced 1 (round rng) (round-IsSynced rng) 20000 0 synced
          (record {
            enabled = resynced.enabled;
            worded = resynced.worded;
            agrees = resynced.agrees;
          }) in
      let clean : (run rng d).fails ≡ 0 = omega (arith, opening_passed d, resynced.passed) in
      (omega (arith, opening_passed d, resynced.passed), clean, finish_passed (run rng d) clean)
