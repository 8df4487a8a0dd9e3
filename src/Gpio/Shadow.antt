-- ===== src/Gpio/Shadow.antt =====
-- The shadow model of sim/verilator/tb_gpio.cpp replaces the bytes that rtl/soc/gpio.v replaces.
use rv32i_core.Prelude.{
  ℕ, ◌+◌, ◌-◌, ◌*◌, ◌/◌, ◌%◌, ◌^◌, ◌<◌, ◌≡◌, refl, ◌∙◌, arith, ◌==◌, if◌then◌else◌, bit_and, bit_or,
}
use rv32i_core.Word.{slice, shl, ◌∣◌}
use rv32i_core.Word.Bits.{and_low, and_high, and_split, or_fields, or_disjoint}
use rv32i_core.Dmem.{written_lane, written}
use rv32i_core.Dmem.Words.{written_lane-lt}
use rv32i_core.Dmem.Bytes.{strobe}
use rv32i_core.Gpio.Bench.{put_lane, put_lanes}

-- A byte between a high field and a low one.
merge :
    (k q l b : ℕ)
    → l < 2 ^ k
    → b < 2 ^ 8
    → bit_or (q * 2 ^ 8 * 2 ^ k + l) (b * 2 ^ k + 0) ≡ (q * 2 ^ 8 + b) * 2 ^ k + l
merge k q l b hl hb =
    let zero_fits : 0 < 2 ^ k = omega (arith, hl) in
    let high : bit_or (q * 2 ^ 8) b ≡ q * 2 ^ 8 + b =
      or_disjoint 8 (q * 2 ^ 8) b (omega arith) hb in
    let low : bit_or l 0 ≡ l = or_disjoint 0 l 0 (omega arith) (omega arith) ∙ omega arith in
    or_fields k (q * 2 ^ 8) l b 0 hl zero_fits ∙ rw high rw low refl

-- Byte k of m replaced by that of v, in a word.
abbrev set_lane : ℕ → ℕ → ℕ → ℕ
set_lane k v m = (m / 2 ^ (8 * k + 8) * 2 ^ 8 + slice v (8 * k) 8) * 2 ^ (8 * k) + m % 2 ^ (8 * k)

abbrev masked : ℕ → ℕ → ℕ → ℕ
masked k v m = bit_and m (2 ^ 32 - 1 - shl 0xFF (8 * k)) ∣ bit_and v (shl 0xFF (8 * k))

-- From what the two masks keep.
masked_fields :
    (k v m : ℕ)
    → bit_and m (2 ^ 32 - 1 - shl 0xFF (8 * k))
      ≡ m / 2 ^ (8 * k + 8) * 2 ^ 8 * 2 ^ (8 * k) + m % 2 ^ (8 * k)
    → bit_and v (shl 0xFF (8 * k)) ≡ slice v (8 * k) 8 * 2 ^ (8 * k) + 0
    → m % 2 ^ (8 * k) < 2 ^ (8 * k)
    → masked k v m ≡ set_lane k v m
masked_fields k v m keeps takes fits =
    rw keeps rw takes
      (merge (8 * k) (m / 2 ^ (8 * k + 8)) (m % 2 ^ (8 * k)) (slice v (8 * k) 8) fits (omega arith))

masked_lane_0 : (v m : ℕ) → m < 2 ^ 32 → masked 0 v m ≡ set_lane 0 v m
masked_lane_0 v m h =
    masked_fields 0 v m (and_high 8 m 0xFFFFFF ∙ omega (arith, and_low 24 (m / 2 ^ 8)))
      (omega (arith, and_low 8 v)) (omega arith)

masked_lane_1 : (v m : ℕ) → m < 2 ^ 32 → masked 1 v m ≡ set_lane 1 v m
masked_lane_1 v m h =
    masked_fields 1 v m
      (and_split 16 m (2 ^ 16 - 1) (2 ^ 8 - 1) (omega arith)
        ∙ omega (arith, and_low 16 (m / 2 ^ 16), and_low 8 (m % 2 ^ 16)))
      (and_high 8 v 0xFF ∙ omega (arith, and_low 8 (v / 2 ^ 8))) (omega arith)

masked_lane_2 : (v m : ℕ) → m < 2 ^ 32 → masked 2 v m ≡ set_lane 2 v m
masked_lane_2 v m h =
    masked_fields 2 v m
      (and_split 24 m (2 ^ 8 - 1) (2 ^ 16 - 1) (omega arith)
        ∙ omega (arith, and_low 8 (m / 2 ^ 24), and_low 16 (m % 2 ^ 24)))
      (and_high 16 v 0xFF ∙ omega (arith, and_low 8 (v / 2 ^ 16))) (omega arith)

masked_lane_3 : (v m : ℕ) → m < 2 ^ 32 → masked 3 v m ≡ set_lane 3 v m
masked_lane_3 v m h =
    masked_fields 3 v m (and_low 24 m ∙ omega arith)
      (and_high 24 v 0xFF ∙ omega (arith, and_low 8 (v / 2 ^ 24))) (omega arith)

put_lane_lem :
    (k strb v m : ℕ)
    → masked k v m ≡ set_lane k v m
    → put_lane k strb v m ≡ (if slice strb k 1 == 1 then set_lane k v m else m)
put_lane_lem k strb v m e = ground (arith, strobe k strb)

-- On 32-bit words the loop over the strobes does what the four lane writes do.
pub put_lanes-written : (strb v m : ℕ) → m < 2 ^ 32 → put_lanes strb v m ≡ written strb v m
put_lanes-written strb v m h =
    let (w₀, w₁, w₂, w₃) : ℕ × ℕ × ℕ × ℕ = (
      written_lane 0 strb v m,
      written_lane 1 strb v m,
      written_lane 2 strb v m,
      written_lane 3 strb v m,
    ) in
    let h₀ : w₀ < 2 ^ 8 = written_lane-lt 0 strb v m in
    let h₁ : w₁ < 2 ^ 8 = written_lane-lt 1 strb v m in
    let h₂ : w₂ < 2 ^ 8 = written_lane-lt 2 strb v m in
    let m₁ = put_lane 0 strb v m in
    let e₁ : m₁ ≡ m / 2 ^ 8 * 2 ^ 8 + w₀ =
      put_lane_lem 0 strb v m (masked_lane_0 v m h) ∙ ground arith in
    let m₂ = put_lane 1 strb v m₁ in
    let e₂ : m₂ ≡ m / 2 ^ 16 * 2 ^ 16 + w₁ * 2 ^ 8 + w₀ =
      put_lane_lem 1 strb v m₁ (masked_lane_1 v m₁ (omega arith)) ∙ ground arith in
    let m₃ = put_lane 2 strb v m₂ in
    let e₃ : m₃ ≡ m / 2 ^ 24 * 2 ^ 24 + w₂ * 2 ^ 16 + w₁ * 2 ^ 8 + w₀ =
      put_lane_lem 2 strb v m₂ (masked_lane_2 v m₂ (omega arith)) ∙ ground arith in
    put_lane_lem 3 strb v m₃ (masked_lane_3 v m₃ (omega arith)) ∙ ground arith
