-- ===== src/Word/Bits.antt =====
-- Bitwise operations as arithmetic: `|` of disjoint fields is a sum, `&` with a mask of low bits
-- is a remainder.
use Prim.Native.Nat.{min, max, digits, differ, bit_and-bitwise, bit_or-bitwise, bit_xor-bitwise}
use native.Mathlib.Nat.{
  pow-suc, pow-succ', one-le-pow, div-add-mod', div-div-eq-div-mul, div-one, mul-one, le_refl,
  add_comm,
}
use rv32i_core.Prelude.{
  ℕ, zero, suc, ◌+◌, ◌-◌, ◌*◌, ◌/◌, ◌%◌, ◌^◌, ◌≤◌, ◌<◌, bit_and, bit_or, bit_xor, ltb,
  if◌then◌else◌, ◌≡◌, refl, sym, ◌∙◌, ap, arith,
}
use rv32i_core.Word.{◌∣◌}

-- The digit recursion does not depend on its fuel, once that covers the first operand.
module _ (rest : ℕ → ℕ) (digit : ℕ → ℕ → ℕ) where
  fuel_irrelevant :
      (m n x y : ℕ) → x ≤ m → x ≤ n → digits rest digit m x y ≡ digits rest digit n x y
  fuel_irrelevant m n zero y hm hn = at_zero m n
    where
      at_zero : (m n : ℕ) → digits rest digit m 0 y ≡ digits rest digit n 0 y
      at_zero zero zero = refl
      at_zero zero (suc n) = refl
      at_zero (suc m) zero = refl
      at_zero (suc m) (suc n) = refl
  fuel_irrelevant zero n (suc x) y hm hn = absurd (omega arith)
  fuel_irrelevant (suc m) zero (suc x) y hm hn = absurd (omega arith)
  fuel_irrelevant (suc m) (suc n) (suc x) y hm hn =
      rw (fuel_irrelevant m n (suc x / 2) (y / 2) (omega arith) (omega arith))

-- One equation for the lowest digit of each operation.
or_lowest : (x y : ℕ) → bit_or x y ≡ 2 * bit_or (x / 2) (y / 2) + max (x % 2) (y % 2)
or_lowest zero y = simp bit_or-bitwise (omega arith)
or_lowest (suc x) y = simp bit_or-bitwise (
    omega (
      arith,
      fuel_irrelevant (λ b. b) max x (suc x / 2) (suc x / 2) (y / 2) (omega arith) (omega arith),
    ))

and_lowest : (x y : ℕ) → bit_and x y ≡ 2 * bit_and (x / 2) (y / 2) + min (x % 2) (y % 2)
and_lowest zero y = simp bit_and-bitwise (omega arith)
and_lowest (suc x) y = simp bit_and-bitwise (
    omega (
      arith,
      fuel_irrelevant (λ b. 0) min x (suc x / 2) (suc x / 2) (y / 2) (omega arith) (omega arith),
    ))

half-lt : (x n : ℕ) → suc x ≤ suc n → suc x / 2 ≤ n
half-lt x n h = omega arith

or-zero_fuel : (n x : ℕ) → x ≤ n → bit_or x 0 ≡ x
or-zero_fuel n zero h = refl
or-zero_fuel zero (suc x) h = absurd (omega arith)
or-zero_fuel (suc n) (suc x) h =
    omega (arith, or_lowest (suc x) 0, or-zero_fuel n (suc x / 2) (half-lt x n h))

and-zero_fuel : (n x : ℕ) → x ≤ n → bit_and x 0 ≡ 0
and-zero_fuel n zero h = refl
and-zero_fuel zero (suc x) h = absurd (omega arith)
and-zero_fuel (suc n) (suc x) h =
    omega (arith, and_lowest (suc x) 0, and-zero_fuel n (suc x / 2) (half-lt x n h))

double_pow : (q k : ℕ) → q * 2 ^ suc k ≡ 2 * (q * 2 ^ k)
double_pow q k = omega (arith, ap (λ (p : ℕ). q * p) (pow-suc 2 k))

or_low : (k q r : ℕ) → r < 2 ^ k → bit_or (q * 2 ^ k) r ≡ q * 2 ^ k + r
or_low zero q r h = ground (arith, or-zero_fuel q q)
or_low (suc k) q r h =
    ground (arith, or_lowest (q * 2 ^ suc k) r, double_pow q k, or_low k q (r / 2), pow-suc 2 k)

-- `a | r` is a sum where the low k bits of `a` are clear and `r` fits them.
pub or_disjoint : (k a r : ℕ) → a % 2 ^ k ≡ 0 → r < 2 ^ k → a ∣ r ≡ a + r
or_disjoint k a r clear h =
    let e : a ≡ a / 2 ^ k * 2 ^ k = omega (arith, div-add-mod' a (2 ^ k)) in
    rw (e) (or_low k (a / 2 ^ k) r h)

-- One more field below those of `p`, which are known to add up to `a`.
pub or_next : (k : ℕ) {p a : ℕ} (r : ℕ) → p ≡ a → a % 2 ^ k ≡ 0 → r < 2 ^ k → p ∣ r ≡ a + r
or_next k {a} r e clear h = rw e (or_disjoint k a r clear h)

or_comm_fuel : (n x y : ℕ) → x + y ≤ n → bit_or x y ≡ bit_or y x
or_comm_fuel zero x y h =
    let ex : x ≡ 0 = omega arith in let ey : y ≡ 0 = omega arith in rw ex rw ey refl
or_comm_fuel (suc n) x y h =
    omega (arith, or_lowest x y, or_lowest y x, or_comm_fuel n (x / 2) (y / 2) (omega arith))

-- One more byte above those of `p`, which are known to add up to `a`.
pub or_above : (k : ℕ) {p a : ℕ} (b : ℕ) → p ≡ a → a < 2 ^ k → b % 2 ^ k ≡ 0 → p ∣ b ≡ a + b
or_above k {p} {a} b e h clear =
    rw e (or_comm_fuel (a + b) a b (omega arith) ∙ or_disjoint k b a clear h ∙ add_comm b a)

-- `|` of two words of k bits is a word of k bits, and `&` is at most its first operand.
pub or_lt : (k x y : ℕ) → x < 2 ^ k → y < 2 ^ k → x ∣ y < 2 ^ k
or_lt zero x y hx hy =
    let ex : x ≡ 0 = omega arith in let ey : y ≡ 0 = omega arith in rw ex rw ey (omega arith)
or_lt (suc k) x y hx hy =
    let half = or_lt k (x / 2) (y / 2) (omega (arith, pow-suc 2 k)) (omega (arith, pow-suc 2 k)) in
    omega (arith, or_lowest x y, pow-suc 2 k, half)

and-le_fuel : (n x y : ℕ) → x ≤ n → bit_and x y ≤ x
and-le_fuel n zero y h = rw (bit_and-bitwise 0 y) (omega arith)
and-le_fuel zero (suc x) y h = absurd (omega arith)
and-le_fuel (suc n) (suc x) y h =
    omega (arith, and_lowest (suc x) y, and-le_fuel n (suc x / 2) (y / 2) (half-lt x n h))

pub and_le : (x y : ℕ) → bit_and x y ≤ x
and_le x y = and-le_fuel x x y (le_refl x)

-- The same for `&`: of a high field and a low one a mask of low bits keeps the low one.
and_mask_fields : (k q r : ℕ) → r < 2 ^ k → bit_and (q * 2 ^ k + r) (2 ^ k - 1) ≡ r
and_mask_fields zero q r h = rw (and-zero_fuel (q * 2 ^ 0 + r) _ (le_refl _)) (omega arith)
and_mask_fields (suc k) q r h = ground (
  arith,
  double_pow q k,
  pow-suc 2 k,
  one-le-pow k 2,
  and_lowest (q * 2 ^ suc k + r) (2 ^ suc k - 1),
  and_mask_fields k q (r / 2),
)

-- A mask of k low bits is the remainder by 2 ^ k.
pub and_low : (k a : ℕ) → bit_and a (2 ^ k - 1) ≡ a % 2 ^ k
and_low k a =
    ground
      (arith, one-le-pow k 2, div-add-mod' a (2 ^ k), and_mask_fields k (a / 2 ^ k) (a % 2 ^ k))

-- A mask whose low k bits are clear: those bits are dropped from `a`.
pub and_high : (k a m : ℕ) → bit_and a (m * 2 ^ k) ≡ bit_and (a / 2 ^ k) m * 2 ^ k
and_high zero a m = simp (div-one, mul-one)
and_high (suc k) a m = ground (
  arith,
  and_lowest a (m * 2 ^ suc k),
  double_pow m k,
  double_pow (bit_and (a / 2 ^ suc k) m) k,
  and_high k (a / 2) m,
  ap (λ (t : ℕ). bit_and t m * 2 ^ k) (halves a (2 ^ k)),
  ap (λ (t : ℕ). bit_and (a / t) m * 2 ^ k) (pow-succ' 2 k),
)
  where
    halves : (x p : ℕ) → x / 2 / p ≡ x / (2 * p)
    halves x p = div-div-eq-div-mul x 2 p

xor_lowest : (x y : ℕ) → bit_xor x y ≡ 2 * bit_xor (x / 2) (y / 2) + differ (x % 2) (y % 2)
xor_lowest zero y = simp bit_xor-bitwise (omega (arith, differ_zero (y % 2)))
  where
    differ_zero : (d : ℕ) → differ 0 d ≡ d
    differ_zero d = refl
xor_lowest (suc x) y = simp bit_xor-bitwise (
    omega (
      arith,
      fuel_irrelevant (λ b. b) differ x (suc x / 2) (suc x / 2) (y / 2) (omega arith) (omega arith),
    ))

differ-zero : (d : ℕ) → differ d 0 ≡ d
differ-zero zero = refl
differ-zero (suc d) = refl

-- Flipping the top bit of a number of k + 1 bits.
pub xor_top :
    (k v : ℕ) → v < 2 ^ suc k → bit_xor v (2 ^ k) ≡ (if ltb v (2 ^ k) then v + 2 ^ k else v - 2 ^ k)
xor_top zero zero h = refl
xor_top zero (suc zero) h = refl
xor_top zero (suc (suc v)) h = absurd (omega arith)
xor_top (suc k) v h = ground (
  arith,
  xor_lowest v (2 ^ suc k),
  differ-zero (v % 2),
  pow-suc 2 k,
  pow-suc 2 (suc k),
  xor_top k (v / 2),
)

fields_half : (k q s : ℕ) → (q * 2 ^ suc k + s) / 2 ≡ q * 2 ^ k + s / 2
fields_half k q s = omega (arith, double_pow q k)

-- `&` and `|` act on the high and the low fields of two numbers apart.
pub and_fields :
    (k q s m l : ℕ)
    → s < 2 ^ k
    → l < 2 ^ k
    → bit_and (q * 2 ^ k + s) (m * 2 ^ k + l) ≡ bit_and q m * 2 ^ k + bit_and s l
and_fields zero q s m l hs hl =
    let es : s ≡ 0 = omega arith in
    let el : l ≡ 0 = omega arith in
    let none : bit_and s l ≡ 0 = rw es rw el refl in
    let high : q * 2 ^ 0 + s ≡ q = omega arith in
    let high' : m * 2 ^ 0 + l ≡ m = omega arith in rw high rw high' (omega arith)
and_fields (suc k) q s m l hs hl = omega (
  arith,
  pow-suc 2 k,
  double_pow q k,
  double_pow m k,
  double_pow (bit_and q m) k,
  and_lowest (q * 2 ^ suc k + s) (m * 2 ^ suc k + l),
  and_lowest s l,
  fields_half k q s,
  fields_half k m l,
  ap (λ (t : ℕ). bit_and t ((m * 2 ^ suc k + l) / 2)) (fields_half k q s),
  ap (λ (t : ℕ). bit_and (q * 2 ^ k + s / 2) t) (fields_half k m l),
  and_fields k q (s / 2) m (l / 2) (omega (arith, pow-suc 2 k)) (omega (arith, pow-suc 2 k)),
)

pub or_fields :
    (k q s m l : ℕ)
    → s < 2 ^ k
    → l < 2 ^ k
    → bit_or (q * 2 ^ k + s) (m * 2 ^ k + l) ≡ bit_or q m * 2 ^ k + bit_or s l
or_fields zero q s m l hs hl =
    let es : s ≡ 0 = omega arith in
    let el : l ≡ 0 = omega arith in
    let none : bit_or s l ≡ 0 = rw es rw el refl in
    let high : q * 2 ^ 0 + s ≡ q = omega arith in
    let high' : m * 2 ^ 0 + l ≡ m = omega arith in rw high rw high' (omega arith)
or_fields (suc k) q s m l hs hl = omega (
  arith,
  pow-suc 2 k,
  double_pow q k,
  double_pow m k,
  double_pow (bit_or q m) k,
  or_lowest (q * 2 ^ suc k + s) (m * 2 ^ suc k + l),
  or_lowest s l,
  fields_half k q s,
  fields_half k m l,
  ap (λ (t : ℕ). bit_or t ((m * 2 ^ suc k + l) / 2)) (fields_half k q s),
  ap (λ (t : ℕ). bit_or (q * 2 ^ k + s / 2) t) (fields_half k m l),
  or_fields k q (s / 2) m (l / 2) (omega (arith, pow-suc 2 k)) (omega (arith, pow-suc 2 k)),
)

pub and_split :
    (k m h l : ℕ)
    → l < 2 ^ k
    → bit_and m (h * 2 ^ k + l) ≡ bit_and (m / 2 ^ k) h * 2 ^ k + bit_and (m % 2 ^ k) l
and_split k m h l hl =
    let parts : m / 2 ^ k * 2 ^ k + m % 2 ^ k ≡ m = omega (arith, div-add-mod' m (2 ^ k)) in
    let below : m % 2 ^ k < 2 ^ k = grind (arith, one-le-pow k 2) in
    ap (λ (t : ℕ). bit_and t (h * 2 ^ k + l)) (sym parts)
    ∙ and_fields k (m / 2 ^ k) (m % 2 ^ k) h l below hl
