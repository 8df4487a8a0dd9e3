-- ===== src/AxilMem/Sections.antt =====
-- The sections of sim/verilator/tb_axil_mem.cpp do the same over two buses that agree.
use rv32i_core.Prelude.{ℕ, ◌*◌, ◌≡◌, refl}
use rv32i_core.Tb.{Tb, rnd, rnd_range}
use rv32i_core.Tb.Loop.{for_loop_rel}
use rv32i_core.Dmem.Bench.{word_aligned}
use rv32i_core.RegIf.Transfer.{Bus}
use rv32i_core.RegIf.Bench.{Simulates}
use rv32i_core.AxilMem.Bench.{
  at, Shadowed, section_1, section_2, section_3, round_4, section_4, resync, store_both, load_both,
  round_5, section_5, sections,
}

module _ {D E : Type 0} (R : Tb D → Tb E → Type 0) (b : Bus D) (c : Bus E)
    (sim : Simulates R b c) where
  pub directed-R :
      (s : Tb D) (t : Tb E)
      → R s t
      → R (section_3 b (section_2 b (section_1 b s))) (section_3 c (section_2 c (section_1 c t)))
  unfolding section_1 section_2 section_3
  directed-R s t h = search (sim.write, sim.check_read, sim.begin) depth 60 fits 100000

  pub section_4-R : (s : Tb D) (t : Tb E) → R s t → R (section_4 b s) (section_4 c t)
  unfolding section_4 round_4
  section_4-R s t h =
      for_loop_rel R (round_4 b) (round_4 c) (λ i s t h. search (sim.write, sim.check_read)) 50 0 _
        _ (sim.begin _ s t h)

  abbrev Shadows : Shadowed D → Shadowed E → Type 0
  Shadows s t = R s.tb t.tb × (t.model ≡ s.model)

  resync-Shadows :
      (w : ℕ) (s : Shadowed D) (t : Shadowed E)
      → Shadows s t
      → Shadows (resync b w s) (resync c w t)
  unfolding resync
  resync-Shadows w s t (h, e) =
      let (v, h') = sim.read (at (w * 4)) s.tb t.tb h in (h', rw v rw e refl)

  store_both-Shadows :
      (off v strb : ℕ) (s : Shadowed D) (t : Shadowed E)
      → Shadows s t
      → Shadows (store_both b off v strb s) (store_both c off v strb t)
  unfolding store_both
  store_both-Shadows off v strb s t (h, e) = (sim.write (at off) v strb s.tb t.tb h, rw e refl)

  load_both-Shadows :
      (loff : ℕ) (s : Shadowed D) (t : Shadowed E)
      → Shadows s t
      → Shadows (load_both b loff s) (load_both c loff t)
  unfolding load_both
  load_both-Shadows loff s t (h, e) = (rw e (sim.check_read (at loff) _ s.tb t.tb h), e)

  module _ (rng : ℕ → ℕ) where
    round_5-Shadows :
        (i : ℕ) (s : Shadowed D) (t : Shadowed E)
        → Shadows s t
        → Shadows (round_5 b rng i s) (round_5 c rng i t)
    unfolding round_5
    round_5-Shadows i s t (h, e) =
        let (raw, h₁) = sim.draw_range rng 0 8191 s.tb t.tb h in
        let (v, h₂) = sim.draw rng _ _ h₁ in
        let (strb, h₃) = sim.draw_range rng 1 15 _ _ h₂ in
        let raw' = rnd_range rng 0 8191 s.tb in
        let v' = rnd rng raw'.1 in
        let strb' = rnd_range rng 1 15 v'.1 in
        let (h₄, e') =
          store_both-Shadows (word_aligned raw'.0) v'.0 strb'.0
            (record { tb = strb'.1; model = s.model })
            (record {
              tb = (rnd_range rng 1 15 (rnd rng (rnd_range rng 0 8191 t.tb).1).1).1;
              model = t.model;
            })
            (h₃, e) in
        let (lraw, h₅) = sim.draw_range rng 0 8191 _ _ h₄ in
        rw raw rw v rw strb rw lraw (load_both-Shadows _ _ _ (h₅, e'))

    pub sections-R : (s : Tb D) (t : Tb E) → R s t → R (sections b rng s) (sections c rng t)
    unfolding sections section_5
    sections-R s t h =
        let start : Shadows (record { tb = _; model = λ i. 0 })
            (record { tb = _; model = λ i. 0 }) =
          (
            sim.begin "5. random against a byte-array shadow model" _ _
                (section_4-R _ _ (directed-R s t h)),
            refl,
          ) in
        (for_loop_rel Shadows (round_5 b rng) (round_5 c rng) round_5-Shadows 3000 0 _ _
          (for_loop_rel Shadows (resync b) (resync c) resync-Shadows 2048 0 _ _ start)).0
