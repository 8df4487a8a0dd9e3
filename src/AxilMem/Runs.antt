-- ===== src/AxilMem/Runs.antt =====
-- The bench of sim/verilator/tb_axil_mem.cpp passes over any register interface with its handshake.
use rv32i_core.Prelude.{
  ℕ, ◌+◌, ◌*◌, ◌/◌, ◌<◌, ◌≤◌, ◌≡◌, refl, sym, ap, ◌∙◌, ◌==◌, if◌then◌else◌, update, arith,
}
use rv32i_core.Tb.{Tb, initial, tb_begin, tb_check, rnd, rnd_range}
use rv32i_core.Tb.Report.{Passed, tb_check-Passed, tb_check-dut, for_loop-Passed, finish_passed}
use rv32i_core.Tb.Loop.{for_loop, for_loop_inv}
use rv32i_core.Dmem.{written}
use rv32i_core.Dmem.Bench.{word_aligned, wanted}
use rv32i_core.Dmem.Bytes.{SameWord, stored-SameWord, wanted-SameWord, split_word-SameWord}
use rv32i_core.Dmem.Laws.{word_aligned_lem}
use rv32i_core.Dmem.Words.{HasWords}
use rv32i_core.RegIf.{RegIf, WriteIdle, ReadIdle, IsHandshake, System}
use rv32i_core.RegIf.Transfer.{axil_bus, check_read}
use rv32i_core.RegIf.Follow.{Follows, log, model_bus, opening_model}
use rv32i_core.RegIf.Bench.{Simulates, Follows-Simulates, opening-Follows}
use rv32i_core.AxilMem.{AxilMem, axil_mem}
use rv32i_core.AxilMem.Array.{Words, index, words, Shows, written-HasWords, axil_mem_law}
use rv32i_core.AxilMem.Sections.{directed-R, section_4-R, sections-R}
use rv32i_core.AxilMem.Bench.{
  at, Shadowed, section_1, section_2, section_3, round_4, section_4, resync, store_both, load_both,
  round_5, section_5, sections, run, main,
}

-- Sections 1 to 4 at the array.
abbrev directed : Tb Words → Tb Words
directed s =
    section_4 (model_bus words)
      (section_3 (model_bus words) (section_2 (model_bus words) (section_1 (model_bus words) s)))

directed_lem :
    (m : Words)
    → let s = directed (opening_model words (initial m)) in (s.checks ≡ 61) × (s.fails ≡ 0)
unfolding section_1 section_2 section_3 section_4 round_4 for_loop check_read tb_check tb_begin
    initial
directed_lem m = (refl, refl)

-- A bench at the array whose words fit 32 bits, and itself.
abbrev Fits : Tb Words → Tb Words → Type 0
Fits s t = HasWords s.dut × (t ≡ s)

tb_check-Fits :
    (got want : ℕ) (s t : Tb Words) → Fits s t → Fits (tb_check got want s) (tb_check got want t)
tb_check-Fits got want s t (h, e) =
    (rw (tb_check-dut got want s) h, ap (λ u. tb_check got want u) e)

Fits-Simulates : Simulates Fits (model_bus words) (model_bus words)
unfolding check_read tb_begin rnd rnd_range
Fits-Simulates = record {
  write = λ a v strb s t h.
      (written-HasWords a v strb s.dut h.0, ap (λ u. (model_bus words).write a v strb u) h.1);
  read = λ a s t h.
      (ap (λ u. u.dut (index a)) h.1, (h.0, ap (λ u. ((model_bus words).read a u).1) h.1));
  check_read = λ a want s t h. (
    rw (tb_check-dut (s.dut (index a)) want ((model_bus words).read a s).1) h.0,
    ap (λ u. check_read (model_bus words) a want u) h.1,
  );
  clock = λ s t h. (h.0, ap (λ u. (model_bus words).clock u) h.1);
  check = tb_check-Fits;
  begin = λ name s t h. (h.0, ap (λ u. tb_begin name u) h.1);
  draw = λ rng s t h. (ap (λ u. (rnd rng u).0) h.1, (h.0, ap (λ u. (rnd rng u).1) h.1));
  draw_range = λ rng lo hi s t h.
      (ap (λ u. (rnd_range rng lo hi u).0) h.1, (h.0, ap (λ u. (rnd_range rng lo hi u).1) h.1));
  logs = λ s t h. ap log h.1;
}

-- The array of the bench holds the bytes of the words below w.
record IsSynced (w : ℕ) (s : Shadowed Words) : Type 0 where
  fits : HasWords s.tb.dut
  agrees : (i : ℕ) → i < w → SameWord i s.model (s.tb.dut i)

index-at : (i : ℕ) → i < 2048 → index (at (4 * i)) ≡ i
index-at i h = omega arith

updated :
    (m : Words) (i j v strb : ℕ)
    → update m i (written strb v (m i)) j ≡ (if j == i then written strb v (m j) else m j)
updated m i j v strb = ground arith

store_both-IsSynced :
    (i v strb : ℕ) (s : Shadowed Words)
    → i < 2048
    → IsSynced 2048 s
    → IsSynced 2048 (store_both (model_bus words) (4 * i) v strb s)
      × Passed 0 s.tb (store_both (model_bus words) (4 * i) v strb s).tb
unfolding store_both
store_both-IsSynced i v strb s small h = (
  record {
    fits = written-HasWords (at (4 * i)) v strb s.tb.dut h.fits;
    agrees = λ j below.
        rw (index-at i small) rw (updated s.tb.dut i j v strb)
          (stored-SameWord i j v strb s.model (s.tb.dut j) (h.agrees j below));
  },
  omega arith,
)

load_both-IsSynced :
    (i : ℕ) (s : Shadowed Words)
    → i < 2048
    → IsSynced 2048 s
    → IsSynced 2048 (load_both (model_bus words) (4 * i) s)
      × Passed 1 s.tb (load_both (model_bus words) (4 * i) s).tb
unfolding load_both check_read
load_both-IsSynced i s small h =
    let got = (model_bus words).read (at (4 * i)) s.tb in
    let equal : got.0 ≡ wanted (4 * i) s.model =
      ap s.tb.dut (index-at i small)
      ∙ sym (wanted-SameWord i s.model (s.tb.dut i) (h.fits i) (h.agrees i small)) in
    let (passed, dut) = tb_check-Passed got.0 (wanted (4 * i) s.model) got.1 equal in
    (record { fits = rw dut h.fits; agrees = rw dut h.agrees }, passed)

resync-IsSynced :
    (w : ℕ) (s : Shadowed Words)
    → w < 2048
    → IsSynced w s
    → IsSynced (w + 1) (resync (model_bus words) w s)
      × Passed 0 s.tb (resync (model_bus words) w s).tb
unfolding resync
resync-IsSynced w s small h =
    let order : w * 4 ≡ 4 * w = omega arith in
    (
      rw order (record {
        fits = h.fits;
        agrees = λ j below.
            rw (index-at w small) (split_word-SameWord w j s.model s.tb.dut below (h.agrees j));
      }),
      omega arith,
    )

module _ (rng : ℕ → ℕ) where
  round_5-IsSynced :
      (i : ℕ) (s : Shadowed Words)
      → IsSynced 2048 s
      → IsSynced 2048 (round_5 (model_bus words) rng i s)
        × Passed 1 s.tb (round_5 (model_bus words) rng i s).tb
  unfolding round_5 rnd rnd_range
  round_5-IsSynced i s h =
      let (raw, s₁) = rnd_range rng 0 8191 s.tb in
      let (v, s₂) = rnd rng s₁ in
      let (strb, s₃) = rnd_range rng 1 15 s₂ in
      let before : Shadowed Words = record { tb = s₃; model = s.model } in
      let after = store_both (model_bus words) (word_aligned raw) v strb before in
      let (lraw, s₄) = rnd_range rng 0 8191 after.tb in
      let between : Shadowed Words = record { tb = s₄; model = after.model } in
      let (h', stores) : IsSynced 2048 after × Passed 0 s₃ after.tb =
        rw (word_aligned_lem raw (omega arith)) (
          store_both-IsSynced (raw / 4) v strb before (omega arith)
            (record { fits = h.fits; agrees = h.agrees })) in
      let loaded = load_both (model_bus words) (word_aligned lraw) between in
      let (h'', loads) : IsSynced 2048 loaded × Passed 1 s₄ loaded.tb =
        rw (word_aligned_lem lraw (omega arith)) (
          load_both-IsSynced (lraw / 4) between (omega arith)
            (record { fits = h'.fits; agrees = h'.agrees })) in
      (h'', omega arith)

  -- All sections at the array.
  sections_lem :
      (m : Words)
      → HasWords m
      → let s = sections (model_bus words) rng (opening_model words (initial m)) in
        (s.checks ≡ 3061) × (s.fails ≡ 0)
  unfolding sections section_5 tb_begin initial
  sections_lem m h =
      let start : Shadowed Words = record {
        tb =
            tb_begin "5. random against a byte-array shadow model"
              (directed (opening_model words (initial m)));
        model = λ i. 0;
      } in
      let fits : HasWords start.tb.dut =
        (section_4-R Fits (model_bus words) (model_bus words) Fits-Simulates _ _ (
          directed-R Fits (model_bus words) (model_bus words) Fits-Simulates
            (opening_model words (initial m)) _ (h, refl))).0 in
      let resynced = for_loop 2048 0 (resync (model_bus words)) start in
      let (synced, read) : IsSynced 2048 resynced × Passed 0 start.tb resynced.tb =
        for_loop_inv (resync (model_bus words))
          (λ w s. w ≤ 2048 → IsSynced w s × Passed 0 start.tb s.tb)
          (λ w s k below.
            let (synced, passed) = k (omega arith) in
            let (synced', passed') = resync-IsSynced w s (omega arith) synced in
            (synced', omega arith))
          0 2048 start
          (λ below.
            (record { fits = fits; agrees = λ i none_yet. absurd (omega arith) }, omega arith))
          (omega arith) in
      let (_, passed) =
        for_loop-Passed (λ (s : Shadowed Words). s.tb) (IsSynced 2048) 1
          (round_5 (model_bus words) rng) round_5-IsSynced 3000 0 resynced synced in
      (omega (arith, directed_lem m), omega (arith, directed_lem m))

-- From any state of the design at power-on in which the register interface is idle and the memory
-- holds 32-bit words, and whatever numbers the generator delivers, the bench of the AXI4-Lite memory
-- makes its 3061 checks, none of them fails, and it exits with status 0.
pub axil_mem_run_passes :
    {S : Type 0} (r : RegIf S)
    → IsHandshake r
    → (rng : ℕ → ℕ) (x : System S AxilMem) → WriteIdle r x.regs
    → ReadIdle r x.regs
    → HasWords x.dev.u_dmem.mem
    → ((run r rng x).checks ≡ 3061) × ((run r rng x).fails ≡ 0) × (main r rng x ≡ 0)
unfolding run main initial
axil_mem_run_passes r bus rng x write read fits =
    let m : Words = x.dev.u_dmem.mem in
    let opened =
      opening-Follows r bus axil_mem words axil_mem_law (initial m) (initial x) write read
        (record { same = λ i. refl; fits = fits }) refl in
    let agree = Follows-Simulates r bus axil_mem words axil_mem_law in
    let follows =
      sections-R (Follows r Shows) (model_bus words) (axil_bus r axil_mem) agree rng _ _ opened in
    let (checks, fails) = sections_lem rng m fits in
    let clean = ap (λ l. l.fails) follows.logs ∙ fails in
    (ap (λ l. l.checks) follows.logs ∙ checks, clean, finish_passed (run r rng x) clean)
