-- ===== src/AxilMem/Bench.antt =====
-- sim/verilator/tb_axil_mem.cpp: main, over a bus that makes the transfers. The loops over the bytes
-- of a word are those of tb_dmem.cpp.
use rv32i_core.Prelude.{ℕ, ◌+◌, ◌*◌, ◌|>◌}
use rv32i_core.Word.{u32}
use rv32i_core.Tb.{Tb, initial, tb_begin, finish, rnd, rnd_range}
use rv32i_core.Tb.Loop.{for_loop}
use rv32i_core.Dmem.Bench.{split_word, word_aligned, stored, wanted}
use rv32i_core.RegIf.{RegIf, System}
use rv32i_core.RegIf.Transfer
use rv32i_core.RegIf.Transfer.{Bus, opening, check_read}
use rv32i_core.AxilMem.{AxilMem, axil_mem}

-- BASE + off.
abbrev pub at : ℕ → ℕ
at off = 0x80000000 + off

-- The bench and the array model[8192].
pub record Shadowed (D : Type 0) : Type 0 where
  pub tb : Tb D
  pub model : ℕ → ℕ

module _ {D : Type 0} (bus : Bus D) where
  unfoldable pub section_1 : Tb D → Tb D
  section_1 s =
      s
      |> tb_begin "1. word round-trip"
      |> bus.write (at 0) 0xDEADBEEF 0xF
      |> check_read bus (at 0) 0xDEADBEEF
      |> bus.write (at 4) 0x12345678 0xF
      |> check_read bus (at 4) 0x12345678
      |> check_read bus (at 0) 0xDEADBEEF

  unfoldable pub section_2 : Tb D → Tb D
  section_2 s =
      s
      |> tb_begin "2. wstrb selects individual byte lanes"
      |> bus.write (at 8) 0x00000000 0xF
      |> bus.write (at 8) 0x000000AA 0x1
      |> check_read bus (at 8) 0x000000AA
      |> bus.write (at 8) 0x0000BB00 0x2
      |> check_read bus (at 8) 0x0000BBAA
      |> bus.write (at 8) 0x00CC0000 0x4
      |> check_read bus (at 8) 0x00CCBBAA
      |> bus.write (at 8) 0xDD000000 0x8
      |> check_read bus (at 8) 0xDDCCBBAA

  unfoldable pub section_3 : Tb D → Tb D
  section_3 s =
      s
      |> tb_begin "3. reads and writes to different addresses interleave cleanly"
      |> bus.write (at 100) 0x11111111 0xF
      |> bus.write (at 104) 0x22222222 0xF
      |> check_read bus (at 100) 0x11111111
      |> check_read bus (at 104) 0x22222222
      |> bus.write (at 100) 0x33333333 0xF
      |> check_read bus (at 100) 0x33333333
      |> check_read bus (at 104) 0x22222222

  unfoldable pub round_4 : ℕ → Tb D → Tb D
  round_4 i s =
      let v = u32 (i * 0x01010101) in s |> bus.write (at 200) v 0xF |> check_read bus (at 200) v

  unfoldable pub section_4 : Tb D → Tb D
  section_4 s =
      s |> tb_begin "4. back-to-back transactions, no idle cycle between" |> for_loop 50 0 round_4

  -- A round of the loop that reads every word into the array.
  unfoldable pub resync : ℕ → Shadowed D → Shadowed D
  resync w s =
      let (v, tb) = bus.read (at (w * 4)) s.tb in
      record { tb = tb; model = split_word (w * 4) v s.model }

  -- The two halves of a round whose numbers have been drawn.
  unfoldable pub store_both : ℕ → ℕ → ℕ → Shadowed D → Shadowed D
  store_both off v strb s = record {
    tb = bus.write (at off) v strb s.tb;
    model = stored off v strb s.model;
  }

  unfoldable pub load_both : ℕ → Shadowed D → Shadowed D
  load_both loff s = record {
    tb = check_read bus (at loff) (wanted loff s.model) s.tb;
    model = s.model;
  }

  module _ (rng : ℕ → ℕ) where
    unfoldable pub round_5 : ℕ → Shadowed D → Shadowed D
    round_5 i s =
        let (raw, s₁) = rnd_range rng 0 8191 s.tb in
        let (v, s₂) = rnd rng s₁ in
        let (strb, s₃) = rnd_range rng 1 15 s₂ in
        let after = store_both (word_aligned raw) v strb (record { tb = s₃; model = s.model }) in
        let (lraw, s₄) = rnd_range rng 0 8191 after.tb in
        load_both (word_aligned lraw) (record { tb = s₄; model = after.model })

    -- `model` is static, so it starts from 0.
    unfoldable pub section_5 : Tb D → Shadowed D
    section_5 s =
        record { tb = tb_begin "5. random against a byte-array shadow model" s; model = λ i. 0 }
        |> for_loop 2048 0 resync
        |> for_loop 3000 0 round_5

    unfoldable pub sections : Tb D → Tb D
    sections s = (s |> section_1 |> section_2 |> section_3 |> section_4 |> section_5).tb

module _ {S : Type 0} (r : RegIf S) where
  abbrev pub axil_write : ℕ → ℕ → ℕ → Tb (System S AxilMem) → Tb (System S AxilMem)
  axil_write addr value strb s = Transfer.axil_write r axil_mem addr value strb s

  abbrev pub axil_read : ℕ → Tb (System S AxilMem) → ℕ × Tb (System S AxilMem)
  axil_read addr s = Transfer.axil_read r axil_mem addr s

  -- The bus of the sections, and tb.tick().
  abbrev pub bus : Bus (System S AxilMem)
  bus = record { write = axil_write; read = axil_read; clock = Transfer.clock r axil_mem }

  -- main up to `return tb.finish()`.
  unfoldable pub run : (ℕ → ℕ) → System S AxilMem → Tb (System S AxilMem)
  run rng x = initial x |> opening r axil_mem |> sections bus rng

  unfoldable pub main : (ℕ → ℕ) → System S AxilMem → ℕ
  main rng x = finish (run rng x)
