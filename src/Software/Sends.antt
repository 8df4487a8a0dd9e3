-- ===== src/Software/Sends.antt =====
-- sw/examples: the writes to the UART as texts, and what they leave alone.
use rv32i_core.Prelude.{ℕ, ◌%◌, ◌^◌, ◌≡◌, refl, ap, ◌∙◌, sym, List, [], ◌∷◌, ◌++◌, map}
use rv32i_core.Software.{Board, pause, uart_putc, uart_puts, read_timer, write_timer}
use rv32i_core.Software.Rearm.{rearm}
use rv32i_core.Software.SocDemo.{interval}

unfoldable pub bytes : List ℕ → List ℕ
bytes text = map (λ c. c % 2 ^ 8) text

pub ++_assoc : (xs ys zs : List ℕ) → (xs ++ ys) ++ zs ≡ xs ++ (ys ++ zs)
++_assoc [] ys zs = refl
++_assoc (x ∷ xs) ys zs = ap (λ rest. x ∷ rest) (++_assoc xs ys zs)

pub ++_nil : (xs : List ℕ) → xs ++ [] ≡ xs
++_nil [] = refl
++_nil (x ∷ xs) = ap (λ rest. x ∷ rest) (++_nil xs)

-- The text goes out, and the LEDs and the control registers stay.
unfoldable pub Sends : List ℕ → Board → Board → Type 0
Sends text b b' = (b'.sent ≡ b.sent ++ text) × (b'.gpio ≡ b.gpio) × (b'.csr ≡ b.csr)

pub Sends-both :
    (t u : List ℕ) (b b' b'' : Board) → Sends t b b' → Sends u b' b'' → Sends (t ++ u) b b''
unfolding Sends
Sends-both t u b b' b'' (sent, leds, control) (sent', leds', control') =
    (sent' ∙ ap (λ s. s ++ u) sent ∙ ++_assoc b.sent t u, leds' ∙ leds, control' ∙ control)

module _ (delay switches : ℕ → ℕ) where
  pub uart_puts-Sends :
      (text : List ℕ) (b : Board) → Sends (bytes text) b (uart_puts delay switches text b)
  unfolding uart_puts uart_putc pause bytes Sends
  uart_puts-Sends [] b = (sym (++_nil b.sent), refl, refl)
  uart_puts-Sends (c ∷ rest) b =
      let (text, leds, control) = uart_puts-Sends rest (uart_putc delay switches c b) in
      (text ∙ ++_assoc b.sent ((c % 2 ^ 8) ∷ []) (bytes rest), leds, control)

  pub rearm-Sends : (b : Board) → Sends [] b (rearm delay switches interval b)
  unfolding rearm read_timer write_timer pause Sends
  rearm-Sends b = (sym (++_nil b.sent), refl, refl)
