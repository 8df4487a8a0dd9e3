-- ===== src/Word.antt =====
-- Words of fixed width as natural numbers: the wrap-around of uint32_t, the slices and
-- concatenations of Verilog vectors, and the two readings of a signed word.
pub mod Bits
pub mod Signed
use rv32i_core.Prelude.{
  ℕ, ◌+◌, ◌-◌, ◌*◌, ◌/◌, ◌%◌, ◌^◌, Bool, true, false, ltb, if◌then◌else◌, bit_or,
}

abbrev pub u32 : ℕ → ℕ
u32 n = n % 2 ^ 32

abbrev pub u64 : ℕ → ℕ
u64 n = n % 2 ^ 64

-- The two's complement pattern of -n, for a literal n.
abbrev pub neg32 : ℕ → ℕ
neg32 n = 2 ^ 32 - n

-- x << k and x >> k before any truncation.
infixl 68 ◌<<◌ ◌>>◌
abbrev pub ◌<<◌ : ℕ → ℕ → ℕ
x << k = x * 2 ^ k

abbrev pub ◌>>◌ : ℕ → ℕ → ℕ
x >> k = x / 2 ^ k

-- x << k of a uint32_t.
abbrev pub shl : ℕ → ℕ → ℕ
shl x k = u32 (x << k)

infixl 60 ◌∣◌
abbrev pub ◌∣◌ : ℕ → ℕ → ℕ
x ∣ y = bit_or x y

-- The slice w[hi:lo] of a vector, as its offset and width.
abbrev pub slice : ℕ → ℕ → ℕ → ℕ
slice w lo width = w / 2 ^ lo % 2 ^ width

-- {hi, lo} where lo is `width` bits wide.
abbrev pub cat : ℕ → ℕ → ℕ → ℕ
cat width hi lo = hi * 2 ^ width + lo

-- {n{b}} for a one-bit b.
abbrev pub rep : ℕ → ℕ → ℕ
rep n b = b * (2 ^ n - 1)

-- The sign bit of a 32-bit vector.
abbrev pub negative : ℕ → Bool
negative a = ltb (2 ^ 31 - 1) a

-- $signed(a) < $signed(b): a vector comparator that looks at the sign bits first.
unfoldable pub signed_lt : ℕ → ℕ → Bool
signed_lt a b =
    if negative a
    then (if negative b then ltb a b else true)
    else (if negative b then false else ltb a b)

-- $signed(a) >>> n for n below 32: a shift to the right whose vacated bits copy the sign bit.
unfoldable pub signed_shr : ℕ → ℕ → ℕ
signed_shr a n = if negative a then a >> n + (2 ^ 32 - 2 ^ (32 - n)) else a >> n
