-- ===== src/Imem/Bench.antt =====
-- sim/verilator/tb_imem.cpp: the whole of main. The generator std::mt19937(12345) that fills the
-- array `golden` is a parameter, the stream of its outputs, and so is the array that $readmemh
-- leaves in the design when it reads the file that main printed.
use rv32i_core.Prelude.{ℕ, ◌+◌, ◌*◌, true, false, ◌|>◌, List, [], ◌∷◌}
use rv32i_core.Word.{u32}
use rv32i_core.Tb.{Tb, initial, tb_begin, tb_check, drive, tick, finish, rnd_range}
use rv32i_core.Tb.Loop.{for_loop}
use rv32i_core.Imem.{Imem, eval, posedge}

unfoldable pub fetch : ℕ → Tb Imem → Tb Imem
unfolding drive tick posedge
fetch byte_addr s = s |> drive (λ d. record d { addr = byte_addr; en = true }) |> tick eval posedge

abbrev pub check_fetch : ℕ → ℕ → Tb Imem → Tb Imem
check_fetch byte_addr want s = let s' = fetch byte_addr s in tb_check s'.dut.instr want s'

abbrev pub check_instr : ℕ → Tb Imem → Tb Imem
check_instr want s = tb_check s.dut.instr want s

-- CHECK_EQ(fetch(address), golden[index]) for each pair, in order.
unfoldable pub check_fetches : (ℕ → ℕ) → List (ℕ × ℕ) → Tb Imem → Tb Imem
check_fetches golden [] s = s
check_fetches golden ((byte_addr, i) ∷ rest) s =
    check_fetches golden rest (check_fetch byte_addr (golden i) s)

-- The pairs of sections 1 to 5.
abbrev pub first_words : List (ℕ × ℕ)
first_words = (0x80000000, 0) ∷ (0x80000004, 1) ∷ (0x80000008, 2) ∷ (0x8000000C, 3) ∷ []

abbrev pub index_words : List (ℕ × ℕ)
index_words = (0x80000040, 16) ∷ (0x80001000, 1024) ∷ []

abbrev pub low_bits : List (ℕ × ℕ)
low_bits = (0x80000004, 1) ∷ (0x80000005, 1) ∷ (0x80000006, 1) ∷ (0x80000007, 1) ∷ []

abbrev pub base_words : List (ℕ × ℕ)
base_words = (0x00000000, 0) ∷ (0x80000000, 0) ∷ []

abbrev pub last_word : List (ℕ × ℕ)
last_word = (0x8000FFFC, 16383) ∷ []

module _ (gen : ℕ → ℕ) where
  abbrev pub golden : ℕ → ℕ
  golden i = u32 (gen i)

  unfoldable pub section_6 : Tb Imem → Tb Imem
  section_6 s =
      s
      |> tb_begin "6. en low holds the output"
      |> check_fetch 0x80000020 (golden 8)
      |> drive (λ d. record d { addr = 0x80000040; en = false })
      |> tick eval posedge
      |> check_instr (golden 8)
      |> tick eval posedge
      |> check_instr (golden 8)
      |> drive (λ d. record d { en = true })
      |> tick eval posedge
      |> check_instr (golden 16)

  -- main up to the end of section 6; the design is as constructed, but for the loaded array.
  unfoldable pub opening : (ℕ → ℕ) → Imem → Tb Imem
  opening loaded d =
      initial (record d { mem = loaded })
      |> drive (λ d. record d { en = false; addr = 0 })
      |> tb_begin "1. first few words"
      |> check_fetches golden first_words
      |> tb_begin "2. byte address maps to word index"
      |> check_fetches golden index_words
      |> tb_begin "3. low two bits are ignored"
      |> check_fetches golden low_bits
      |> tb_begin "4. base address is ignored"
      |> check_fetches golden base_words
      |> tb_begin "5. last word in range"
      |> check_fetches golden last_word
      |> section_6

  unfoldable pub sweep : ℕ → Tb Imem → Tb Imem
  sweep i = check_fetch (0x80000000 + i * 4) (golden i)

  module _ (rng : ℕ → ℕ) where
    unfoldable pub round : ℕ → Tb Imem → Tb Imem
    round i s =
        let (idx, s') = rnd_range rng 0 16383 s in
        check_fetch (0x80000000 + idx * 4) (golden idx) s'

    -- main up to `return tb.finish()`.
    unfoldable pub run : (ℕ → ℕ) → Imem → Tb Imem
    run loaded d =
        opening loaded d
        |> tb_begin "7. sweep every word"
        |> for_loop 16384 0 sweep
        |> tb_begin "8. random access order"
        |> for_loop 5000 0 round

    unfoldable pub main : (ℕ → ℕ) → Imem → ℕ
    main loaded d = finish (run loaded d)
