-- ===== src/AxilMaster/Rounds.antt =====
-- The random sections of sim/verilator/tb_axil_master.cpp, 8 and 12, keep the shadow array in step
-- with the slave's memory.
use rv32i_core.Prelude.{
  ℕ, ◌+◌, ◌*◌, ◌^◌, ◌<◌, ◌≤◌, ◌≡◌, refl, sym, ap, ◌∙◌, arith, not, ◌==◌, update,
}
use rv32i_core.Tb.Loop.{for_loop, for_loop_inv}
use rv32i_core.AxilMaster.Agreement.{
  Agrees, shadowed-Agrees, gathered-load_bytes, store_f3_lem, load_f3_lem, aligned_fits,
  wanted-extended, load_bytes-lt,
}
use rv32i_core.AxilMaster.Bench.{loop}
use rv32i_core.AxilMaster.Bytes.{access_bytes, store_bytes}
use rv32i_core.AxilMaster.Directed.{at}
use rv32i_core.AxilMaster.Keeps.{HasBytes, wr_word-HasBytes}
use rv32i_core.AxilMaster.Logic.{Ghost, Takes, Ends, Takes-last, Takes-first, Ends-seq, Ends-loop}
use rv32i_core.AxilMaster.Statements.{
  section-Takes, check-Takes, gather-Takes, shadow-Takes, write_word-Takes, draw-Takes,
  draw_word-Takes, store-Takes, load-Takes,
}
use rv32i_core.AxilMaster.ReadBytes.{extended}
use rv32i_core.AxilMaster.ReadLanes.{load_bytes}
use rv32i_core.AxilMaster.Random.{
  clear, store_half, load_half, round, zero_word, section_8, section_12,
}
use rv32i_core.AxilMaster.RoundTrip.{store_bytes-lt}
use rv32i_core.AxilMaster.Shadow.{store_f3, load_f3, wanted, aligned}
use rv32i_core.AxilMaster.Slave.{wr_word}

-- After n checks the shadow array agrees with a memory of bytes.
pub record IsSynced (n : ℕ) (g : Ghost) : Type 0 where
  pub count : g.checks ≡ n
  pub bytes : HasBytes g.mem
  pub agrees : Agrees g.model g.mem

module _ (rng : ℕ → ℕ) (top : ℕ) (place : ℕ → ℕ → ℕ) (small_top : top < 2 ^ 32)
    (fits : (sz raw : ℕ) → sz ≤ 2 → raw ≤ top → place sz raw + 2 ^ sz ≤ 8192) where
  store_half-Ends :
      (n : ℕ) (g : Ghost) → IsSynced n g → Ends g (store_half rng top place) (IsSynced n)
  unfolding store_half
  store_half-Ends n g h = Takes-first (draw-Takes rng 0 2 g (omega arith) (omega arith)) λ sz two.
      Takes-first (draw-Takes rng 0 top g (omega arith) small_top) λ raw low.
        Takes-first (draw_word-Takes rng g) λ v word.
          Takes-first (draw-Takes rng 0 3 g (omega arith) (omega arith)) λ aw_delay aw.
            Takes-first (draw-Takes rng 0 3 g (omega arith) (omega arith)) λ w_delay w.
              let (size, bytes, four) = store_f3_lem sz two in
              let room = fits sz raw two low in
              let off = place sz raw in
              let stored : ℕ → ℕ = store_bytes (at off) v (access_bytes (store_f3 sz)) g.mem in
              Takes-first
                (store-Takes (at off) v (store_f3 sz) aw_delay w_delay g (omega arith) word size
                  (omega arith) (omega arith))
                λ _ _.
                  Takes-last (shadow-Takes off v (2 ^ sz) (record g { mem = stored })) (record {
                    count = h.count;
                    bytes = store_bytes-lt (at off) v (access_bytes (store_f3 sz)) g.mem h.bytes;
                    agrees = rw bytes (shadowed-Agrees off v (2 ^ sz) g.model g.mem room h.agrees);
                  })

  load_half-Ends :
      (n : ℕ) (g : Ghost) → IsSynced n g → Ends g (load_half rng top place) (IsSynced (n + 1))
  unfolding load_half
  load_half-Ends n g h = Takes-first (draw-Takes rng 0 2 g (omega arith) (omega arith)) λ lsz two.
      Takes-first (draw-Takes rng 0 top g (omega arith) small_top) λ raw low.
        Takes-first (draw-Takes rng 0 1 g (omega arith) (omega arith)) λ u one.
          let uns = not (u == 0) in
          let off = place lsz raw in
          let room = fits lsz raw two low in
          let (f3_small, size, bytes) = load_f3_lem lsz uns two in
          let (_, _, four) = store_f3_lem lsz two in
          Takes-first (gather-Takes off (2 ^ lsz) g) λ want want_is.
            Takes-first (draw-Takes rng 0 3 g (omega arith) (omega arith)) λ ar_delay ar.
              Takes-first
                (load-Takes (at off) (load_f3 lsz uns) ar_delay g (omega arith) f3_small size
                  (omega arith) h.bytes)
                λ got got_is.
                  let read = load_bytes (at off) (2 ^ lsz) g.mem in
                  let gathers : want ≡ read =
                    want_is
                    ∙ gathered-load_bytes off (2 ^ lsz) g.model g.mem room four h.bytes h.agrees in
                  let extends : wanted lsz uns read ≡ extended (load_f3 lsz uns) read =
                    wanted-extended lsz uns read two
                      (load_bytes-lt (at off) (2 ^ lsz) g.mem h.bytes four) in
                  let same : got ≡ wanted lsz uns want =
                    rw gathers rw extends (rw (← bytes) got_is) in
                  Takes-last (check-Takes got (wanted lsz uns want) g same)
                    (record { count = omega (arith, h.count); bytes = h.bytes; agrees = h.agrees })

  pub rounds-Ends :
      (n : ℕ) (g : Ghost)
      → IsSynced n g
      → Ends g (loop 3000 0 (round rng top place)) (IsSynced (n + 3000))
  rounds-Ends n g h =
      let start : n + 0 ≡ n = omega arith in
      Ends-loop (round rng top place) (λ i g'. IsSynced (n + i) g')
        (λ i g' h'.
          let next : n + i + 1 ≡ n + (i + 1) = omega arith in
          Ends-seq (store_half-Ends (n + i) g' h')
            (λ g'' h''. rw (← next) (load_half-Ends (n + i) g'' h'')))
        3000 0 g (rw start h)

-- The start of section 8.
cleared : (m : ℕ → ℕ) (a : ℕ) → a < 8192 → for_loop 8192 0 (λ i model. update model i 0) m a ≡ 0
cleared m =
    for_loop_inv {S = ℕ → ℕ} (λ i model. update model i 0)
      (λ i model. (a : ℕ) → a < i → model a ≡ 0) (λ i model h a below. ground (arith, h a)) 0 8192 m
      (λ a below. absurd (omega arith))

clear-Takes :
    (g : Ghost)
    → Takes g clear
        (λ _. Unit {0})
        (record g { model = for_loop 8192 0 (λ i model. update model i 0) g.model })
unfolding clear
clear-Takes g s h = (
  tt,
  _,
  refl,
  tt,
  record {
    quiet = h.quiet;
    mem_is = h.mem_is;
    model_is = ap (for_loop 8192 0 (λ i model. update model i 0)) h.model_is;
    clean = h.clean;
    count = h.count;
  },
)

-- The first i words are zero, and the shadow array is.
record IsZeroed (n i : ℕ) (g : Ghost) : Type 0 where
  count : g.checks ≡ n
  bytes : HasBytes g.mem
  zeros : (a : ℕ) → a < 4 * i → g.mem (at a) ≡ 0
  model_zeros : (a : ℕ) → a < 8192 → g.model a ≡ 0

zero_word-zeros :
    (w a : ℕ) (mem : ℕ → ℕ)
    → w < 2048
    → a < 4 * (w + 1)
    → (a < 4 * w → mem (at a) ≡ 0)
    → wr_word (at (w * 4)) 0 0xF mem (at a) ≡ 0
unfolding wr_word
zero_word-zeros w a mem small below h = ground (arith, h)

zero_words-Ends :
    (rng : ℕ → ℕ) (n : ℕ) (g : Ghost)
    → IsZeroed n 0 g
    → Ends g (loop 2048 0 (zero_word)) (λ g'. 2048 ≤ 2048 → IsZeroed n 2048 g')
zero_words-Ends rng n g h =
    Ends-loop (zero_word) (λ i g'. i ≤ 2048 → IsZeroed n i g')
      (λ i g' h'. Takes-last (write_word-Takes (at (i * 4)) 0 0xF g') (λ below.
        let known = h' (omega arith) in
        record {
          count = known.count;
          bytes = wr_word-HasBytes (at (i * 4)) 0 0xF g'.mem known.bytes;
          zeros = λ a low. zero_word-zeros i a g'.mem (omega arith) low (known.zeros a);
          model_zeros = known.model_zeros;
        }))
      2048 0 g (λ _. h)

pub section_8-Ends :
    (rng : ℕ → ℕ) (n : ℕ) (g : Ghost)
    → g.checks ≡ n
    → HasBytes g.mem
    → Ends g (section_8 rng) (IsSynced (n + 3000))
unfolding section_8
section_8-Ends rng n g count bytes =
    let emptied : Ghost = record g {
      model = for_loop 8192 0 (λ i model. update model i 0) g.model;
    } in
    let zeroed : IsZeroed n 0 emptied = record {
      count = count;
      bytes = bytes;
      zeros = λ a none_yet. absurd (omega arith);
      model_zeros = cleared g.model;
    } in
    Takes-first (section-Takes "8. random against byte-array shadow model, random delays" g) λ _ _.
      Takes-first (clear-Takes g) λ _ _. Ends-seq (zero_words-Ends rng n emptied zeroed) λ g' h.
        let known = h (omega arith) in
        rounds-Ends rng 8191 aligned (omega arith) aligned_fits n g' (record {
          count = known.count;
          bytes = known.bytes;
          agrees = λ a below. known.model_zeros a below ∙ sym (known.zeros a (omega arith));
        })

pub section_12-Ends :
    (rng : ℕ → ℕ) (n : ℕ) (g : Ghost) → IsSynced n g → Ends g (section_12 rng) (IsSynced (n + 3000))
unfolding section_12
section_12-Ends rng n g h = Takes-first (section-Takes _ g) λ _ _.
    rounds-Ends rng 8187 (λ sz off. off) (omega arith)
      (λ sz raw two low. let (_, _, four) = store_f3_lem sz two in omega arith) n g h
