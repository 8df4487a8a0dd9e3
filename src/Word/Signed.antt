-- ===== src/Word/Signed.antt =====
-- int32_t values as integers, and the agreement of the Verilog vector operations with them.
use native.Mathlib.Nat.{
  one-le-pow, div-le_self, div-eq_of_lt-le, div-lt_iff_lt-mul, div-mul-le_self, lt-div-mul-add,
}
use rv32i_core.Prelude.{
  ℕ, ◌+◌, ◌-◌, ◌*◌, ◌/◌, ◌%◌, ◌^◌, ◌≤◌, ◌<◌, ◌≡◌, refl, Bool, true, false, ap, arith, ltb,
  if◌then◌else◌, ◌==◌, ==_iff, holds_below, holds_below_lem,
}
use rv32i_core.Word.{signed_lt, signed_shr}

-- `negsuc n` is -(n + 1).
pub data ℤ : Type 0 where
  pos : ℕ → ℤ
  negsuc : ℕ → ℤ

-- (int32_t)w and (uint32_t)z.
abbrev pub int32 : ℕ → ℤ
int32 w = if ltb w (2 ^ 31) then pos w else negsuc (2 ^ 32 - 1 - w)

abbrev pub uint32 : ℤ → ℕ
uint32 (pos n) = n % 2 ^ 32
uint32 (negsuc n) = 2 ^ 32 - 1 - n % 2 ^ 32

abbrev pub ltb_ℤ : ℤ → ℤ → Bool
ltb_ℤ (pos a) (pos b) = ltb a b
ltb_ℤ (pos a) (negsuc b) = false
ltb_ℤ (negsuc a) (pos b) = true
ltb_ℤ (negsuc a) (negsuc b) = ltb b a

-- z >> n of a signed operand: the quotient by 2 ^ n, rounded down.
abbrev pub asr : ℤ → ℕ → ℤ
asr (pos a) n = pos (a / 2 ^ n)
asr (negsuc a) n = negsuc (a / 2 ^ n)

-- The comparator of vectors decides the order of the integers that they stand for.
pub signed_lt-ltb_ℤ :
    (a b : ℕ) → a < 2 ^ 32 → b < 2 ^ 32 → signed_lt a b ≡ ltb_ℤ (int32 a) (int32 b)
unfolding signed_lt
signed_lt-ltb_ℤ a b ha hb = ground arith

-- d * e - 1 - a divided by d, where a < d * e.
module _ (d e a : ℕ) (hd : 0 < d) (ha : a < d * e) where
  quotient_below : a / d < e
  quotient_below = (div-lt_iff_lt-mul hd).1 (omega arith)

  spread : d * e ≡ d * (e - 1 - a / d + 1 + a / d)
  spread = let h : a / d < e = quotient_below in ap (λ (t : ℕ). d * t) (omega arith)

  complement-div : (d * e - 1 - a) / d ≡ e - 1 - a / d
  complement-div =
      div-eq_of_lt-le {k = e - 1 - a / d} d
        (omega (arith, spread, div-mul-le_self a d, lt-div-mul-add {a = a} hd))
        (omega (arith, spread, div-mul-le_self a d, lt-div-mul-add {a = a} hd))

pow_table : holds_below (λ n. 2 ^ n * 2 ^ (32 - n) == 2 ^ 32) 32 ≡ true
unfolding holds_below
pow_table = refl

pow_split : (n : ℕ) → n < 32 → 2 ^ n * 2 ^ (32 - n) ≡ 2 ^ 32
pow_split n h = (==_iff _ (2 ^ 32)).0 (holds_below_lem _ 32 n h pow_table)

shr_negative :
    (d e a : ℕ)
    → 0 < d
    → d * e ≡ 2 ^ 32
    → a < 2 ^ 32
    → a / d + (2 ^ 32 - e) ≡ 2 ^ 32 - 1 - (2 ^ 32 - 1 - a) / d % 2 ^ 32
shr_negative d e a hd split ha =
    let ha' : a < d * e = rw split ha in
    let q : (2 ^ 32 - 1 - a) / d ≡ e - 1 - a / d = rw split at (complement-div d e a hd ha') in
    let small : e ≤ 2 ^ 32 = rw (← split) (grind arith) in
    rw q (omega (arith, quotient_below d e a hd ha'))

-- The shift of vectors is the quotient of integers, rounded down.
pub signed_shr-asr : (a n : ℕ) → a < 2 ^ 32 → n < 32 → signed_shr a n ≡ uint32 (asr (int32 a) n)
unfolding signed_shr
signed_shr-asr a n ha hn = ground (
  arith,
  shr_negative (2 ^ n) (2 ^ (32 - n)) a (one-le-pow n 2 (omega arith)) (pow_split n hn) ha,
  div-le_self a (2 ^ n),
)
