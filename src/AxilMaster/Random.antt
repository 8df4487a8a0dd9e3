-- ===== src/AxilMaster/Random.antt =====
-- sim/verilator/tb_axil_master.cpp: sections 8 to 12 of main, and main as a whole. Where the source
-- draws two arguments of one call, whose order C++ leaves open, the first one is drawn first.
use rv32i_core.Prelude.{ℕ, ◌+◌, ◌*◌, ◌/◌, ◌%◌, ◌^◌, not, ◌==◌, Option, none, some, bit_and, update}
use rv32i_core.Tb.{finish}
use rv32i_core.Tb.Loop.{for_loop}
use rv32i_core.AxilMaster.{AxilMaster}
use rv32i_core.AxilMaster.Bench.{
  Bench, M, ◌>>=◌, ◌>>◌, loop, section, check, store, load, read_word, write_word, check_load,
  shadow, gather, draw, draw_word,
}
use rv32i_core.AxilMaster.Directed.{at, opening, begin}
use rv32i_core.AxilMaster.Shadow.{
  f3_h, f3_w, f3_hu, store_f3, load_f3, wanted, aligned, combined, from_bit,
}

-- for (auto& b : model) b = 0.
unfoldable pub clear : M (Unit {0})
unfolding for_loop
clear s = some (tt, record s { model = for_loop 8192 0 (λ i model. update model i 0) s.model })

abbrev pub zero_word : ℕ → M (Unit {0})
zero_word w = write_word (at (w * 4)) 0 0xF

module _ (rng : ℕ → ℕ) where
  -- The first and the second half of a round of section 8 or 12: `top` is the largest offset drawn
  -- and `place` what the section makes of it.
  unfoldable pub store_half : ℕ → (ℕ → ℕ → ℕ) → M (Unit {0})
  unfolding draw draw_word store shadow
  store_half top place = do
    sz ← draw rng 0 2
    raw ← draw rng 0 top
    v ← draw_word rng
    aw_delay ← draw rng 0 3
    w_delay ← draw rng 0 3
    store (at (place sz raw)) v (store_f3 sz) aw_delay w_delay
    shadow (place sz raw) v (2 ^ sz)

  unfoldable pub load_half : ℕ → (ℕ → ℕ → ℕ) → M (Unit {0})
  unfolding draw gather load check
  load_half top place = do
    lsz ← draw rng 0 2
    raw ← draw rng 0 top
    uns ← draw rng 0 1
    want ← gather (place lsz raw) (2 ^ lsz)
    ar_delay ← draw rng 0 3
    got ← load (at (place lsz raw)) (load_f3 lsz (not (uns == 0))) ar_delay
    check got (wanted lsz (not (uns == 0)) want)

  abbrev pub round : ℕ → (ℕ → ℕ → ℕ) → ℕ → M (Unit {0})
  round top place i = do store_half top place; load_half top place

  unfoldable pub section_8 : M (Unit {0})
  unfolding section clear loop write_word store_half load_half
  section_8 = do
    section "8. random against byte-array shadow model, random delays"
    clear
    loop 2048 0 zero_word
    loop 3000 0 (round 8191 aligned)

  abbrev pub crossing_store : ℕ → M (Unit {0})
  crossing_store lane = do
    let off = 8300 + lane * 16
    store (at off) 0 f3_w 0 0
    store (at (off + 4)) 0 f3_w 0 0
    aw_delay ← draw rng 0 2
    w_delay ← draw rng 0 2
    store (at (off + lane)) 0xAABBCCDD f3_w aw_delay w_delay
    hi ← read_word (at (off + 4))
    lo ← read_word (at off)
    check (from_bit (lane * 8) (combined hi lo)) 0xAABBCCDD

  unfoldable pub section_9 : M (Unit {0})
  unfolding section loop store draw read_word check
  section_9 = do section "9. crossing word store, every non-zero lane"; loop 3 1 crossing_store

  abbrev pub crossing_load : ℕ → M (Unit {0})
  crossing_load lane = do
    let off = 8400 + lane * 16
    write_word (at off) 0x11223344 0xF
    write_word (at (off + 4)) 0x55667788 0xF
    let want = from_bit (lane * 8) (combined 0x55667788 0x11223344)
    ar_delay ← draw rng 0 2
    check_load (at (off + lane)) f3_w ar_delay want

  unfoldable pub section_10 : M (Unit {0})
  unfolding section loop write_word draw load check
  section_10 = do section "10. crossing word load, every non-zero lane"; loop 3 1 crossing_load

  unfoldable pub section_12 : M (Unit {0})
  unfolding section loop store_half load_half
  section_12 = do
    section
        "12. random against shadow model, unaligned offsets -- exercises crossing lanes alongside non-crossing ones"
    loop 3000 0 (round 8187 (λ sz off. off))

-- Section 11: the store, and the loads.
unfoldable pub half_store : M (Unit {0})
unfolding store read_word check
half_store = do
  let base = at 8500
  store base 0 f3_w 0 0
  store (base + 4) 0 f3_w 0 0
  store (base + 3) 0xBEEF f3_h 0 0
  hi ← read_word (base + 4)
  lo ← read_word base
  check (bit_and (combined hi lo / 2 ^ 24) 0xFFFF % 2 ^ 32) 0xBEEF

unfoldable pub half_load : M (Unit {0})
unfolding write_word load check
half_load = do
  let base = at 8500
  write_word base 0x00000000 0xF
  write_word (base + 4) 0x000000FF 0xF
  check_load (base + 3) f3_h 0 0xFFFFFF00
  check_load (base + 3) f3_hu 0 0x0000FF00

unfoldable pub section_11 : M (Unit {0})
unfolding section half_store half_load
section_11 = do
  section "11. crossing half, lane 3 -- store, load, sign/zero extend"
  half_store
  half_load

unfoldable pub exit_status : Option (Unit {0} × Bench) → Option ℕ
exit_status none = none
exit_status (some (tt, s)) = some (finish s.sys.tb)

module _ (rng : ℕ → ℕ) where
  -- Sections 8 to 12, main up to `return tb.finish()`, and main.
  unfoldable pub later : M (Unit {0})
  later = do section_8 rng; section_9 rng; section_10 rng; section_11; section_12 rng

  unfoldable pub run : AxilMaster → Option (Unit {0} × Bench)
  run d = (do opening; later) (begin d)

  unfoldable pub main : AxilMaster → Option ℕ
  unfolding exit_status
  main d = exit_status (run d)
