-- ===== src/Alu/Bench.antt =====
-- sim/verilator/tb_alu.cpp: the reference model `ref` and the whole of main.
use rv32i_core.Prelude.{
  ℕ, ◌+◌, ◌-◌, ◌^◌, List, [], ◌∷◌, ltb, ◌==◌, if◌then◌else◌, ◌|>◌, bit, bit_and, bit_or, bit_xor,
  get_or,
}
use rv32i_core.Word.{u32, ◌<<◌, ◌>>◌}
use rv32i_core.Word.Signed.{int32, uint32, ltb_ℤ, asr}
use rv32i_core.Tb.{Tb, initial, tb_begin, tb_check, drive, settle, finish, rnd, rnd_range}
use rv32i_core.Tb.Loop.{for_loop}
use rv32i_core.Alu.{Alu, eval}

-- The enumeration of the bench, with the codes that it gives the operations.
pub data Op : Type 0 where
  add sll slt sltu xor srl or and sub sra : Op

abbrev pub code : Op → ℕ
code add = 0b0000
code sll = 0b0001
code slt = 0b0010
code sltu = 0b0011
code xor = 0b0100
code srl = 0b0101
code or = 0b0110
code and = 0b0111
code sub = 0b1000
code sra = 0b1101

-- The C++ casts to int32_t are read as integers.
unfoldable pub ref : ℕ → ℕ → ℕ → ℕ
ref op a b =
    let sh = bit_and b 31 in
    if op == code add
    then u32 (a + b)
    else if op == code sub
    then u32 (a + 2 ^ 32 - b)
    else if op == code and
    then bit_and a b
    else if op == code or
    then bit_or a b
    else if op == code xor
    then bit_xor a b
    else if op == code sll
    then u32 (a << sh)
    else if op == code srl
    then a >> sh
    else if op == code sra
    then uint32 (asr (int32 a) sh)
    else if op == code slt
    then bit (ltb_ℤ (int32 a) (int32 b))
    else if op == code sltu
    then bit (ltb a b)
    else 0

-- CHECK_EQ(d.result, want).
check_result : ℕ → Tb Alu → Tb Alu
unfolding tb_check
check_result want s = tb_check s.dut.result want s

unfoldable pub chk : ℕ → ℕ → ℕ → ℕ → Tb Alu → Tb Alu
unfolding check_result drive settle eval
chk op a b want s =
    s |> drive (λ d. record d { a = a; b = b; alu_op = op }) |> settle eval |> check_result want

-- main up to the end of section 5.
unfoldable pub opening : Tb Alu
unfolding chk tb_begin initial
opening =
    initial (record { a = 0; b = 0; alu_op = 0; result = 0 })
    |> tb_begin "1. add / sub"
    |> chk (code add) 5 10 15
    |> chk (code add) 0xFFFFFFFF 1 0
    |> chk (code sub) 10 5 5
    |> chk (code sub) 0 1 0xFFFFFFFF
    |> tb_begin "2. bitwise"
    |> chk (code and) 0xF0F0F0F0 0xFF00FF00 0xF000F000
    |> chk (code or) 0 1 1
    |> chk (code or) 1 1 1
    |> chk (code or) 1 0 1
    |> chk (code or) 0 0 0
    |> chk (code xor) 0 1 1
    |> chk (code xor) 0 0 0
    |> chk (code xor) 1 0 1
    |> chk (code xor) 1 1 0
    |> tb_begin "3. shifts"
    |> chk (code sll) 0x00000001 4 0x00000010
    |> chk (code srl) 0x80000000 4 0x08000000
    |> chk (code sra) 0x80000000 4 0xF8000000
    |> chk (code sra) 0xFFFFFFFF 0xFFFFFFFF 0xFFFFFFFF
    |> tb_begin "4. shift amount masking"
    |> chk (code sll) 0x00000001 32 0x00000001
    |> chk (code sll) 0x00000001 33 0x00000002
    |> chk (code sll) 0x00000001 31 0x80000000
    |> chk (code srl) 0x80000000 31 0x00000001
    |> chk (code sra) 0x80000000 63 0xFFFFFFFF
    |> tb_begin "5. slt vs sltu"
    |> chk (code slt) 0xFFFFFFFF 1 1
    |> chk (code sltu) 0xFFFFFFFF 1 0
    |> chk (code slt) 5 5 0
    |> chk (code sltu) 5 5 0
    |> chk (code slt) 0x80000000 0x7FFFFFFF 1
    |> chk (code sltu) 0x80000000 0x7FFFFFFF 0

abbrev pub ops : List ℕ
ops =
    code add
    ∷ code sub
    ∷ code and
    ∷ code or
    ∷ code xor
    ∷ code sll
    ∷ code srl
    ∷ code sra
    ∷ code slt
    ∷ code sltu
    ∷ []

abbrev pub edge : List ℕ
edge = 0 ∷ 1 ∷ 0x7FFFFFFF ∷ 0x80000000 ∷ 0xFFFFFFFF ∷ 0x0000FFFF ∷ 32 ∷ 31 ∷ []

module _ (rng : ℕ → ℕ) where
  -- The operands of one round: a third of the time both are edge values.
  unfoldable pub operands : Tb Alu → ℕ × ℕ × Tb Alu
  unfolding rnd rnd_range
  operands s =
      let (a, s) = rnd rng s in
      let (b, s) = rnd rng s in
      let (biased, s) = rnd_range rng 0 2 s in
      let (i, s') = rnd_range rng 0 7 s in
      let (j, s'') = rnd_range rng 0 7 s' in
      if biased == 0 then (get_or edge i 0, get_or edge j 0, s'') else (a, b, s)

  unfoldable pub round : ℕ → Tb Alu → Tb Alu
  unfolding rnd_range
  round i s =
      let (k, s) = rnd_range rng 0 9 s in
      let op = get_or ops k 0 in let (a, b, s) = operands s in chk op a b (ref op a b) s

  -- main up to `return tb.finish()`.
  unfoldable pub run : Tb Alu
  run = opening |> tb_begin "6. random against reference model" |> for_loop 20000 0 round

  unfoldable pub main : ℕ
  main = finish run
