-- ===== src/Software/Hello.antt =====
-- sw/examples/hello.c: its main.
use rv32i_core.Prelude.{ℕ, ◌+◌, ◌*◌, ◌==◌, if◌then◌else◌, List, [], ◌∷◌}
use rv32i_core.Word.{u32}
use rv32i_core.Tb.Loop.{for_loop}
use rv32i_core.Software.{Board, codes, uart_puts}

abbrev pub operand_a : ℕ
operand_a = 55

abbrev pub operand_b : ℕ
operand_b = 3

abbrev pub prod : ℕ
prod = u32 (operand_a * operand_b)

abbrev pub sum : ℕ
sum = for_loop 10 1 (λ i total. u32 (total + i)) 0

module _ (delay switches : ℕ → ℕ) where
  -- The values stored to `result`, in order, the board after, and what main returns.
  unfoldable pub main : Board → List ℕ × Board × ℕ
  unfolding uart_puts
  main b = (
    sum ∷ prod ∷ [],
    uart_puts delay switches
        (codes (if prod == 165 then "self-test: PASS\r\n" else "self-test: FAIL\r\n"))
        (uart_puts delay switches (codes "hello from rv32i-core\r\n") b),
    if prod == 165 then 0 else 1,
  )
