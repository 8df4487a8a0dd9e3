-- ===== src/BranchCmp/Bench.antt =====
-- sim/verilator/tb_branch_cmp.cpp: the reference model `ref` and the whole of main.
use rv32i_core.Prelude.{
  ℕ, List, [], ◌∷◌, Bool, true, false, not, ltb, leb, ◌==◌, if◌then◌else◌, ◌|>◌, bit, get_or,
}
use rv32i_core.Word.Signed.{int32, ltb_ℤ}
use rv32i_core.Tb.{Tb, initial, tb_begin, tb_check, drive, settle, finish, rnd, rnd_range}
use rv32i_core.Tb.Loop.{for_loop}
use rv32i_core.BranchCmp.{BranchCmp, eval}

abbrev pub f3_beq : ℕ
f3_beq = 0b000

abbrev pub f3_bne : ℕ
f3_bne = 0b001

abbrev pub f3_blt : ℕ
f3_blt = 0b100

abbrev pub f3_bge : ℕ
f3_bge = 0b101

abbrev pub f3_bltu : ℕ
f3_bltu = 0b110

abbrev pub f3_bgeu : ℕ
f3_bgeu = 0b111

-- The C++ casts to int32_t are read as integers.
unfoldable pub ref : ℕ → ℕ → ℕ → Bool
ref f3 a b =
    if f3 == f3_beq
    then a == b
    else if f3 == f3_bne
    then not (a == b)
    else if f3 == f3_blt
    then ltb_ℤ (int32 a) (int32 b)
    else if f3 == f3_bge
    then not (ltb_ℤ (int32 a) (int32 b))
    else if f3 == f3_bltu
    then ltb a b
    else if f3 == f3_bgeu
    then leb b a
    else false

-- CHECK_EQ(d.taken, want ? 1 : 0).
check_taken : Bool → Tb BranchCmp → Tb BranchCmp
unfolding tb_check
check_taken want s = tb_check (bit s.dut.taken) (if want then 1 else 0) s

unfoldable pub chk : ℕ → ℕ → ℕ → Bool → Tb BranchCmp → Tb BranchCmp
unfolding check_taken drive settle eval
chk f3 a b want s =
    s |> drive (λ d. record d { funct3 = f3; a = a; b = b }) |> settle eval |> check_taken want

-- main up to the end of section 8.
unfoldable pub opening : Tb BranchCmp
unfolding chk tb_begin initial
opening =
    initial (record { a = 0; b = 0; funct3 = 0; taken = false })
    |> tb_begin "1. beq / bne"
    |> chk f3_beq 5 5 true
    |> chk f3_beq 5 6 false
    |> chk f3_beq 0xFFFFFFFF 0xFFFFFFFF true
    |> chk f3_bne 5 5 false
    |> chk f3_bne 5 6 true
    |> chk f3_bne 0 0xFFFFFFFF true
    |> tb_begin "2. blt -- signed"
    |> chk f3_blt 5 10 true
    |> chk f3_blt 10 5 false
    |> chk f3_blt 5 5 false
    |> chk f3_blt 0xFFFFFFFF 1 true
    |> chk f3_blt 1 0xFFFFFFFF false
    |> chk f3_blt 0xFFFFFFFE 0xFFFFFFFF true
    |> tb_begin "3. bge -- signed, and it is >= not >"
    |> chk f3_bge 10 5 true
    |> chk f3_bge 5 10 false
    |> chk f3_bge 5 5 true
    |> chk f3_bge 1 0xFFFFFFFF true
    |> chk f3_bge 0xFFFFFFFF 1 false
    |> tb_begin "4. bltu -- unsigned"
    |> chk f3_bltu 5 10 true
    |> chk f3_bltu 10 5 false
    |> chk f3_bltu 5 5 false
    |> chk f3_bltu 0xFFFFFFFF 1 false
    |> chk f3_bltu 1 0xFFFFFFFF true
    |> chk f3_bltu 0 1 true
    |> tb_begin "5. bgeu -- unsigned"
    |> chk f3_bgeu 10 5 true
    |> chk f3_bgeu 5 10 false
    |> chk f3_bgeu 5 5 true
    |> chk f3_bgeu 0xFFFFFFFF 1 true
    |> chk f3_bgeu 0 0 true
    |> tb_begin "6. the sign boundary -- signed and unsigned disagree"
    |> chk f3_blt 0x80000000 0x7FFFFFFF true
    |> chk f3_bltu 0x80000000 0x7FFFFFFF false
    |> chk f3_bge 0x80000000 0x7FFFFFFF false
    |> chk f3_bgeu 0x80000000 0x7FFFFFFF true
    |> chk f3_blt 0x7FFFFFFF 0x80000000 false
    |> chk f3_bltu 0x7FFFFFFF 0x80000000 true
    |> tb_begin "7. zero as an operand -- beqz/bnez are built on this"
    |> chk f3_beq 0 0 true
    |> chk f3_bne 0 0 false
    |> chk f3_blt 0xFFFFFFFF 0 true
    |> chk f3_bltu 0xFFFFFFFF 0 false
    |> chk f3_bge 0 0xFFFFFFFF true
    |> tb_begin "8. unused funct3 encodings never take"
    |> chk 0b010 5 5 false
    |> chk 0b011 5 5 false
    |> chk 0b010 0 0 false

abbrev pub edge : List ℕ
edge = 0 ∷ 1 ∷ 2 ∷ 0x7FFFFFFE ∷ 0x7FFFFFFF ∷ 0x80000000 ∷ 0x80000001 ∷ 0xFFFFFFFE ∷ 0xFFFFFFFF ∷ []

abbrev pub f3s : List ℕ
f3s = f3_beq ∷ f3_bne ∷ f3_blt ∷ f3_bge ∷ f3_bltu ∷ f3_bgeu ∷ []

module _ (rng : ℕ → ℕ) where
  -- The operands of one round: the switch replaces both by edge values, makes them equal,
  -- replaces the first, or leaves both.
  unfoldable pub operands : Tb BranchCmp → ℕ × ℕ × Tb BranchCmp
  unfolding rnd rnd_range
  operands s =
      let (a, s) = rnd rng s in
      let (b, s) = rnd rng s in
      let (choice, s) = rnd_range rng 0 3 s in
      let (i, s') = rnd_range rng 0 8 s in
      let (j, s'') = rnd_range rng 0 8 s' in
      if choice == 0
      then (get_or edge i 0, get_or edge j 0, s'')
      else if choice == 1
      then (a, a, s)
      else if choice == 2
      then (get_or edge i 0, b, s')
      else (a, b, s)

  unfoldable pub round : ℕ → Tb BranchCmp → Tb BranchCmp
  unfolding rnd_range
  round i s =
      let (k, s) = rnd_range rng 0 5 s in
      let f3 = get_or f3s k 0 in let (a, b, s) = operands s in chk f3 a b (ref f3 a b) s

  -- main up to `return tb.finish()`.
  unfoldable pub run : Tb BranchCmp
  run = opening |> tb_begin "9. random against the reference model" |> for_loop 20000 0 round

  unfoldable pub main : ℕ
  main = finish run
