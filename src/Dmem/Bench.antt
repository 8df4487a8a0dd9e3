-- ===== src/Dmem/Bench.antt =====
-- sim/verilator/tb_dmem.cpp: the helpers and the whole of main.
use rv32i_core.Prelude.{
  ℕ, ◌+◌, ◌-◌, ◌*◌, ◌^◌, true, false, ◌==◌, if◌then◌else◌, ◌|>◌, bit_and, update,
}
use rv32i_core.Word.{◌<<◌, ◌>>◌, ◌∣◌}
use rv32i_core.Tb.{Tb, initial, tb_begin, tb_check, drive, tick, finish, rnd, rnd_range}
use rv32i_core.Tb.Loop.{for_loop}
use rv32i_core.Dmem.{Dmem, eval, posedge}

-- BASE + off.
abbrev pub at : ℕ → ℕ
at off = 0x80000000 + off

unfoldable pub store : ℕ → ℕ → ℕ → Tb Dmem → Tb Dmem
unfolding drive tick posedge
store a v strb s =
    s
    |> drive (λ d. record d { addr = a; wdata = v; wstrb = strb })
    |> tick eval posedge
    |> drive (λ d. record d { wstrb = 0 })

-- load: the bench afterwards; the value is its d.rdata.
unfoldable pub load : ℕ → Tb Dmem → Tb Dmem
unfolding drive tick posedge
load a s = s |> drive (λ d. record d { addr = a; wstrb = 0 }) |> tick eval posedge

abbrev check_rdata : ℕ → Tb Dmem → Tb Dmem
check_rdata want s = tb_check s.dut.rdata want s

abbrev pub check_load : ℕ → ℕ → Tb Dmem → Tb Dmem
check_load a want s = let s' = load a s in tb_check s'.dut.rdata want s'

-- Sections 1 to 5.
unfoldable pub directed : Tb Dmem → Tb Dmem
directed s =
    s
    |> tb_begin "1. word round-trip"
    |> store (at 0) 0xDEADBEEF 0xF
    |> check_load (at 0) 0xDEADBEEF
    |> store (at 4) 0x12345678 0xF
    |> check_load (at 4) 0x12345678
    |> check_load (at 0) 0xDEADBEEF
    |> tb_begin "2. wstrb selects individual byte lanes"
    |> store (at 8) 0x00000000 0xF
    |> store (at 8) 0x000000AA 0x1
    |> check_load (at 8) 0x000000AA
    |> store (at 8) 0x0000BB00 0x2
    |> check_load (at 8) 0x0000BBAA
    |> store (at 8) 0x00CC0000 0x4
    |> check_load (at 8) 0x00CCBBAA
    |> store (at 8) 0xDD000000 0x8
    |> check_load (at 8) 0xDDCCBBAA
    |> tb_begin "3. wstrb combinations do not disturb other lanes"
    |> store (at 12) 0xFFFFFFFF 0xF
    |> store (at 12) 0x00000000 0x2
    |> check_load (at 12) 0xFFFF00FF
    |> store (at 12) 0x12340000 0xC
    |> check_load (at 12) 0x123400FF
    |> tb_begin "4. wstrb == 0 means no write"
    |> store (at 16) 0xCAFEBABE 0xF
    |> drive (λ d. record d { addr = at 16; wdata = 0x00000000; wstrb = 0 })
    |> tick eval posedge
    |> check_load (at 16) 0xCAFEBABE
    |> tb_begin "5. en == 0 holds rdata (no new sync read)"
    |> store (at 20) 0x11223344 0xF
    |> load (at 20)
    |> drive (λ d. record d { en = false; addr = at 24 })
    |> tick eval posedge
    |> check_rdata 0x11223344
    |> drive (λ d. record d { en = true })

-- main up to the end of section 5.
unfoldable pub opening : Dmem → Tb Dmem
opening d =
    directed (drive (λ d. record d { en = true; addr = 0; wdata = 0; wstrb = 0 }) (initial d))

-- The bench and the array model[65536].
pub record Shadowed : Type 0 where
  pub tb : Tb Dmem
  pub model : ℕ → ℕ

-- model[off+k] = (v >> 8k) & 0xFF, for the four bytes of a word.
abbrev pub split_word : ℕ → ℕ → (ℕ → ℕ) → ℕ → ℕ
split_word off v model =
    model
    |> (λ m. update m (off + 0) (bit_and v 0xFF))
    |> (λ m. update m (off + 1) (bit_and (v >> 8) 0xFF))
    |> (λ m. update m (off + 2) (bit_and (v >> 16) 0xFF))
    |> (λ m. update m (off + 3) (bit_and (v >> 24) 0xFF))

-- A round of the loop that reads every word into the array.
unfoldable pub resync : ℕ → Shadowed → Shadowed
resync w s =
    let tb = load (at (w * 4)) s.tb in
    record { tb = tb; model = split_word (w * 4) tb.dut.rdata s.model }

-- rnd(0, 0xFFFF) & ~3u.
abbrev pub word_aligned : ℕ → ℕ
word_aligned raw = bit_and raw (2 ^ 32 - 1 - 3)

-- if (strb & (1 << k)) model[off + k] = (v >> (8 * k)) & 0xFF.
abbrev pub put_byte : ℕ → ℕ → ℕ → ℕ → (ℕ → ℕ) → ℕ → ℕ
put_byte off v strb k model =
    if bit_and strb (1 << k) == 0
    then model
    else update model (off + k) (bit_and (v >> (8 * k)) 0xFF)

abbrev pub stored : ℕ → ℕ → ℕ → (ℕ → ℕ) → ℕ → ℕ
stored off v strb model =
    model
    |> put_byte off v strb 0
    |> put_byte off v strb 1
    |> put_byte off v strb 2
    |> put_byte off v strb 3

-- want, after its loop.
abbrev pub wanted : ℕ → (ℕ → ℕ) → ℕ
wanted loff model =
    0
    ∣ (model (loff + 0) << 0)
    ∣ (model (loff + 1) << 8)
    ∣ (model (loff + 2) << 16)
    ∣ (model (loff + 3) << 24)

-- The two halves of a round whose numbers have been drawn.
unfoldable pub store_both : ℕ → ℕ → ℕ → Tb Dmem → (ℕ → ℕ) → Shadowed
unfolding store
store_both off v strb s model = record {
  tb = store (at off) v strb s;
  model = stored off v strb model;
}

unfoldable pub load_both : ℕ → Tb Dmem → (ℕ → ℕ) → Shadowed
unfolding load tb_check
load_both loff s model = record { tb = check_load (at loff) (wanted loff model) s; model = model }

module _ (rng : ℕ → ℕ) where
  unfoldable pub round : ℕ → Shadowed → Shadowed
  round i s =
      let (raw, tb₁) = rnd_range rng 0 0xFFFF s.tb in
      let (v, tb₂) = rnd rng tb₁ in
      let (strb, tb₃) = rnd_range rng 0 15 tb₂ in
      let after = store_both (word_aligned raw) v strb tb₃ s.model in
      let (lraw, tb₄) = rnd_range rng 0 0xFFFF after.tb in
      load_both (word_aligned lraw) tb₄ after.model

  -- main up to `return tb.finish()`.
  unfoldable pub run : Dmem → Tb Dmem
  run d =
      (record { tb = opening d |> tb_begin "6. random against byte-array model"; model = λ i. 0 }
        |> for_loop 65536 0 (λ i s. record s { model = update s.model i 0 })
        |> for_loop 16384 0 resync
        |> for_loop 20000 0 round).tb

  unfoldable pub main : Dmem → ℕ
  main d = finish (run d)
