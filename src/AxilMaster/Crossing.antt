-- ===== src/AxilMaster/Crossing.antt =====
-- The sections of sim/verilator/tb_axil_master.cpp on accesses across two words, 9 and 10.
use rv32i_core.Prelude.{ℕ, zero, suc, ◌+◌, ◌*◌, ◌^◌, ◌<◌, ◌≤◌, ◌≡◌, refl, arith}
use rv32i_core.AxilMaster.Agreement.{store_above-Agrees, write_above-Agrees}
use rv32i_core.AxilMaster.Bench.{M, loop}
use rv32i_core.AxilMaster.Bytes.{store_bytes}
use rv32i_core.AxilMaster.Directed.{at}
use rv32i_core.AxilMaster.Keeps.{wr_word-HasBytes}
use rv32i_core.AxilMaster.Logic.{Ghost, Ends, Takes-last, Takes-first, Ends-seq}
use rv32i_core.AxilMaster.Statements.{
  section-Takes, check-Takes, read_word-Takes, write_word-Takes, draw-Takes, store-Takes,
  check_load-Takes,
}
use rv32i_core.AxilMaster.ReadBytes.{extended}
use rv32i_core.AxilMaster.ReadLanes.{load_bytes}
use rv32i_core.AxilMaster.Random.{crossing_store, crossing_load, section_9, section_10}
use rv32i_core.AxilMaster.RoundTrip.{store_bytes-lt}
use rv32i_core.AxilMaster.Rounds.{IsSynced}
use rv32i_core.AxilMaster.Shadow.{f3_w, combined, from_bit}
use rv32i_core.AxilMaster.Slave.{rd_word, wr_word}

-- The ghost after a store of n bytes, and after a write by the bench itself.
abbrev pub storing : ℕ → ℕ → ℕ → Ghost → Ghost
storing off v n g = record g { mem = store_bytes (at off) v n g.mem }

abbrev pub writing : ℕ → ℕ → Ghost → Ghost
writing off word g = record g { mem = wr_word (at off) word 0xF g.mem }

-- Above the first 8192 bytes both keep the array in step.
pub storing-IsSynced :
    (off v n k : ℕ) (g : Ghost)
    → 8192 ≤ off
    → off + n < 2 ^ 31
    → IsSynced k g
    → IsSynced k (storing off v n g)
storing-IsSynced off v n k g above fits h = record {
  count = h.count;
  bytes = store_bytes-lt (at off) v n g.mem h.bytes;
  agrees = store_above-Agrees off v n g.model g.mem above fits h.agrees;
}

pub writing-IsSynced :
    (off word k : ℕ) (g : Ghost)
    → 8192 ≤ off
    → off < 10000
    → IsSynced k g
    → IsSynced k (writing off word g)
writing-IsSynced off word k g above fits h = record {
  count = h.count;
  bytes = wr_word-HasBytes (at off) word 0xF g.mem h.bytes;
  agrees = write_above-Agrees off word 0xF g.model g.mem above fits h.agrees;
}

-- One more check.
pub checking-IsSynced :
    (k : ℕ) (g : Ghost) → IsSynced k g → IsSynced (k + 1) (record g { checks = g.checks + 1 })
checking-IsSynced k g h = record {
  count = omega (arith, h.count);
  bytes = h.bytes;
  agrees = h.agrees;
}

-- A loop over the lanes 1 to 3, with a check in each.
lanes-Ends :
    (body : ℕ → M (Unit {0}))
    → ((lane n : ℕ) (g : Ghost)
        → 1 ≤ lane
        → lane ≤ 3
        → IsSynced n g
        → Ends g (body lane) (IsSynced (n + 1)))
    → (n : ℕ) (g : Ghost) → IsSynced n g
    → Ends g (loop 3 1 body) (IsSynced (n + 3))
unfolding loop
lanes-Ends body step n g h = Ends-seq (step 1 n g (omega arith) (omega arith) h) λ g₁ h₁.
    Ends-seq (step 2 (n + 1) g₁ (omega arith) (omega arith) h₁) λ g₂ h₂.
      Ends-seq (step 3 (n + 1 + 1) g₂ (omega arith) (omega arith) h₂) λ g₃ h₃ s stands.
        let sum : n + 1 + 1 + 1 ≡ n + 3 = omega arith in (tt, s, g₃, refl, stands, rw (← sum) h₃)

-- A word stored at the given lane over two zero words is found there.
crossing_word :
    (lane : ℕ) (mem : ℕ → ℕ)
    → 1 ≤ lane
    → lane ≤ 3
    → let off = 8300 + lane * 16 in
      let m =
        store_bytes
          (at (off + lane))
          0xAABBCCDD
          4
          (store_bytes (at (off + 4)) 0 4 (store_bytes (at off) 0 4 mem)) in
      from_bit (lane * 8) (combined (rd_word m (at (off + 4))) (rd_word m (at off))) ≡ 0xAABBCCDD
unfolding store_bytes rd_word
crossing_word zero mem low high = absurd (omega arith)
crossing_word (suc zero) mem low high = refl
crossing_word (suc (suc zero)) mem low high = refl
crossing_word (suc (suc (suc zero))) mem low high = refl
crossing_word (suc (suc (suc (suc lane)))) mem low high = absurd (omega arith)

crossing_store-Ends :
    (rng : ℕ → ℕ) (lane n : ℕ) (g : Ghost)
    → 1 ≤ lane
    → lane ≤ 3
    → IsSynced n g
    → Ends g (crossing_store rng lane) (IsSynced (n + 1))
crossing_store-Ends rng lane n g low high h =
    let off = 8300 + lane * 16 in
    let g₁ = storing off 0 4 g in
    let g₂ = storing (off + 4) 0 4 g₁ in
    let g₃ = storing (off + lane) 0xAABBCCDD 4 g₂ in
    let h₁ = storing-IsSynced off 0 4 n g (omega arith) (omega arith) h in
    let h₂ = storing-IsSynced (off + 4) 0 4 n g₁ (omega arith) (omega arith) h₁ in
    let h₃ = storing-IsSynced (off + lane) 0xAABBCCDD 4 n g₂ (omega arith) (omega arith) h₂ in
    Takes-first
      (store-Takes (at off) 0 f3_w 0 0 g (omega arith) (omega arith) (omega arith) (omega arith)
        (omega arith))
      λ _ _.
        Takes-first
          (store-Takes (at (off + 4)) 0 f3_w 0 0 g₁ (omega arith) (omega arith) (omega arith)
            (omega arith) (omega arith))
          λ _ _. Takes-first (draw-Takes rng 0 2 g₂ (omega arith) (omega arith)) λ aw_delay aw.
            Takes-first (draw-Takes rng 0 2 g₂ (omega arith) (omega arith)) λ w_delay w.
              Takes-first
                (store-Takes (at (off + lane)) 0xAABBCCDD f3_w aw_delay w_delay g₂ (omega arith)
                  (omega arith) (omega arith) (omega arith) (omega arith))
                λ _ _. Takes-first (read_word-Takes (at (off + 4)) g₃) λ hi hi_is.
                  Takes-first (read_word-Takes (at off) g₃) λ lo lo_is.
                    Takes-last
                      (check-Takes (from_bit (lane * 8) (combined hi lo)) 0xAABBCCDD g₃
                        (rw (hi_is, lo_is) (crossing_word lane g.mem low high)))
                      (checking-IsSynced n g₃ h₃)

pub section_9-Ends :
    (rng : ℕ → ℕ) (n : ℕ) (g : Ghost) → IsSynced n g → Ends g (section_9 rng) (IsSynced (n + 3))
unfolding section_9
section_9-Ends rng n g h =
    Takes-first (section-Takes _ g)
      λ _ _. lanes-Ends (crossing_store rng) (crossing_store-Ends rng) n g h

-- A word loaded at the given lane from the two words that the bench wrote.
crossing_value :
    (lane : ℕ) (mem : ℕ → ℕ)
    → 1 ≤ lane
    → lane ≤ 3
    → let off = 8400 + lane * 16 in
      let m = wr_word (at (off + 4)) 0x55667788 0xF (wr_word (at off) 0x11223344 0xF mem) in
      extended f3_w (load_bytes (at (off + lane)) 4 m)
      ≡ from_bit (lane * 8) (combined 0x55667788 0x11223344)
unfolding load_bytes wr_word extended
crossing_value zero mem low high = absurd (omega arith)
crossing_value (suc zero) mem low high = refl
crossing_value (suc (suc zero)) mem low high = refl
crossing_value (suc (suc (suc zero))) mem low high = refl
crossing_value (suc (suc (suc (suc lane)))) mem low high = absurd (omega arith)

crossing_load-Ends :
    (rng : ℕ → ℕ) (lane n : ℕ) (g : Ghost)
    → 1 ≤ lane
    → lane ≤ 3
    → IsSynced n g
    → Ends g (crossing_load rng lane) (IsSynced (n + 1))
crossing_load-Ends rng lane n g low high h =
    let off = 8400 + lane * 16 in
    let g₁ = writing off 0x11223344 g in
    let g₂ = writing (off + 4) 0x55667788 g₁ in
    let h₁ = writing-IsSynced off 0x11223344 n g (omega arith) (omega arith) h in
    let h₂ = writing-IsSynced (off + 4) 0x55667788 n g₁ (omega arith) (omega arith) h₁ in
    Takes-first (write_word-Takes (at off) 0x11223344 0xF g) λ _ _.
      Takes-first (write_word-Takes (at (off + 4)) 0x55667788 0xF g₁) λ _ _.
        Takes-first (draw-Takes rng 0 2 g₂ (omega arith) (omega arith)) λ ar_delay ar.
          Takes-last
            (check_load-Takes (at (off + lane)) f3_w ar_delay _ g₂ (omega arith) (omega arith)
              (omega arith) (omega arith) h₂.bytes (crossing_value lane g.mem low high))
            (checking-IsSynced n g₂ h₂)

pub section_10-Ends :
    (rng : ℕ → ℕ) (n : ℕ) (g : Ghost) → IsSynced n g → Ends g (section_10 rng) (IsSynced (n + 3))
unfolding section_10
section_10-Ends rng n g h =
    Takes-first (section-Takes _ g)
      λ _ _. lanes-Ends (crossing_load rng) (crossing_load-Ends rng) n g h
