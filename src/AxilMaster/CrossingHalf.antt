-- ===== src/AxilMaster/CrossingHalf.antt =====
-- Section 11 of sim/verilator/tb_axil_master.cpp: a half across two words.
use rv32i_core.Prelude.{ℕ, ◌+◌, ◌/◌, ◌%◌, ◌^◌, ◌≡◌, refl, arith, bit_and}
use rv32i_core.AxilMaster.Bytes.{store_bytes}
use rv32i_core.AxilMaster.Directed.{at}
use rv32i_core.AxilMaster.Logic.{Ghost, Ends, Takes-last, Takes-first, Ends-seq}
use rv32i_core.AxilMaster.Statements.{
  section-Takes, check-Takes, read_word-Takes, write_word-Takes, store-Takes, check_load-Takes,
}
use rv32i_core.AxilMaster.ReadBytes.{extended}
use rv32i_core.AxilMaster.ReadLanes.{load_bytes}
use rv32i_core.AxilMaster.Random.{half_store, half_load, section_11}
use rv32i_core.AxilMaster.Rounds.{IsSynced}
use rv32i_core.AxilMaster.Shadow.{f3_h, f3_w, f3_hu, combined}
use rv32i_core.AxilMaster.Slave.{rd_word, wr_word}
use rv32i_core.AxilMaster.Crossing.{
  storing, writing, storing-IsSynced, writing-IsSynced, checking-IsSynced,
}

-- What section 11 finds.
crossing_half :
    (mem : ℕ → ℕ)
    → let m =
        store_bytes
          (at 8503)
          0xBEEF
          2
          (store_bytes (at 8504) 0 4 (store_bytes (at 8500) 0 4 mem)) in
      bit_and (combined (rd_word m (at 8504)) (rd_word m (at 8500)) / 2 ^ 24) 0xFFFF % 2 ^ 32
      ≡ 0xBEEF
unfolding store_bytes rd_word
crossing_half mem = refl

half_value :
    (mem : ℕ → ℕ)
    → let m = wr_word (at 8504) 0x000000FF 0xF (wr_word (at 8500) 0x00000000 0xF mem) in
      (extended f3_h (load_bytes (at 8503) 2 m) ≡ 0xFFFFFF00)
      × (extended f3_hu (load_bytes (at 8503) 2 m) ≡ 0x0000FF00)
unfolding load_bytes wr_word extended
half_value mem = (refl, refl)

half_store-Ends : (n : ℕ) (g : Ghost) → IsSynced n g → Ends g half_store (IsSynced (n + 1))
unfolding half_store
half_store-Ends n g h =
    let g₁ = storing 8500 0 4 g in
    let g₂ = storing 8504 0 4 g₁ in
    let g₃ = storing 8503 0xBEEF 2 g₂ in
    let h₁ = storing-IsSynced 8500 0 4 n g (omega arith) (omega arith) h in
    let h₂ = storing-IsSynced 8504 0 4 n g₁ (omega arith) (omega arith) h₁ in
    let h₃ = storing-IsSynced 8503 0xBEEF 2 n g₂ (omega arith) (omega arith) h₂ in
    Takes-first
      (store-Takes (at 8500) 0 f3_w 0 0 g (omega arith) (omega arith) (omega arith) (omega arith)
        (omega arith))
      λ _ _.
        Takes-first
          (store-Takes (at 8504) 0 f3_w 0 0 g₁ (omega arith) (omega arith) (omega arith)
            (omega arith) (omega arith))
          λ _ _.
            Takes-first
              (store-Takes (at 8503) 0xBEEF f3_h 0 0 g₂ (omega arith) (omega arith) (omega arith)
                (omega arith) (omega arith))
              λ _ _. Takes-first (read_word-Takes (at 8504) g₃) λ hi hi_is.
                Takes-first (read_word-Takes (at 8500) g₃) λ lo lo_is.
                  Takes-last
                    (check-Takes (bit_and (combined hi lo / 2 ^ 24) 0xFFFF % 2 ^ 32) 0xBEEF g₃
                      (rw (hi_is, lo_is) (crossing_half g.mem)))
                    (checking-IsSynced n g₃ h₃)

half_load-Ends : (n : ℕ) (g : Ghost) → IsSynced n g → Ends g half_load (IsSynced (n + 2))
unfolding half_load
half_load-Ends n g h =
    let g₁ = writing 8500 0x00000000 g in
    let g₂ = writing 8504 0x000000FF g₁ in
    let g₃ = record g₂ { checks = g.checks + 1 } in
    let h₁ = writing-IsSynced 8500 0x00000000 n g (omega arith) (omega arith) h in
    let h₂ = writing-IsSynced 8504 0x000000FF n g₁ (omega arith) (omega arith) h₁ in
    let (signed, unsigned) = half_value g.mem in
    Takes-first (write_word-Takes (at 8500) 0x00000000 0xF g) λ _ _.
      Takes-first (write_word-Takes (at 8504) 0x000000FF 0xF g₁) λ _ _.
        Takes-first
          (check_load-Takes (at 8503) f3_h 0 0xFFFFFF00 g₂ (omega arith) (omega arith) (omega arith)
            (omega arith) h₂.bytes signed)
          λ _ _.
            Takes-last
              (check_load-Takes (at 8503) f3_hu 0 0x0000FF00 g₃ (omega arith) (omega arith)
                (omega arith) (omega arith) h₂.bytes unsigned)
              (record { count = omega (arith, h.count); bytes = h₂.bytes; agrees = h₂.agrees })

pub section_11-Ends : (n : ℕ) (g : Ghost) → IsSynced n g → Ends g section_11 (IsSynced (n + 3))
unfolding section_11
section_11-Ends n g h =
    let sum : n + 1 + 2 ≡ n + 3 = omega arith in
    Takes-first (section-Takes _ g) λ _ _.
      Ends-seq {k = half_load} (half_store-Ends n g h)
        λ g' h'. rw (← sum) (half_load-Ends (n + 1) g' h')
