-- ===== src/Immgen/Sext.antt =====
-- What `sext` computes.
use native.Mathlib.Nat.{pow-suc, pow-le-pow_right, one-le-pow, mod-lt}
use rv32i_core.Prelude.{ℕ, suc, ◌+◌, ◌-◌, ◌%◌, ◌^◌, ◌<◌, ◌≡◌, arith, ltb, if◌then◌else◌}
use rv32i_core.Word.Bits.{and_low, xor_top}
use rv32i_core.Immgen.Encode.{sext}

-- The xor-and-subtract trick sign-extends: for a width of k + 1 up to 31 bits, the low k + 1 bits
-- of v are kept, and 2 ^ 32 - 2 ^ (k + 1) is added if bit k is set.
pub sext_lem :
    (v k : ℕ)
    → k < 31
    → sext v (suc k)
      ≡ (if ltb (v % 2 ^ suc k) (2 ^ k) then v % 2 ^ suc k else v % 2 ^ suc k + 2 ^ 32 - 2 ^ suc k)
unfolding sext
sext_lem v k h = ground (
  arith,
  pow-suc 2 k,
  pow-le-pow_right {n = 2} (omega arith) {i = suc k} {j = 31} h,
  one-le-pow k 2 (omega arith),
  and_low (suc k) v,
  xor_top k (v % 2 ^ suc k) (mod-lt v (one-le-pow (suc k) 2 (omega arith))),
)
