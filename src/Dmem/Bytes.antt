-- ===== src/Dmem/Bytes.antt =====
-- The byte array of sim/verilator/tb_dmem.cpp against the words of the memory.
use rv32i_core.Prelude.{
  ℕ, ◌+◌, ◌*◌, ◌/◌, ◌%◌, ◌^◌, ◌<◌, ◌≡◌, refl, ◌∙◌, ap, not, ◌&&◌, arith, ◌==◌, if◌then◌else◌,
  bit_and,
}
use rv32i_core.Word.{slice, ◌<<◌, ◌>>◌, ◌∣◌}
use rv32i_core.Word.Bits.{and_low, and_high, or_above}
use rv32i_core.Dmem.{written_lane, written}
use rv32i_core.Dmem.Words.{written_lane-lt}
use rv32i_core.Dmem.Bench.{split_word, stored, wanted}

-- The four bytes of the array that stand for word i.
abbrev pub SameWord : ℕ → (ℕ → ℕ) → ℕ → Type 0
SameWord i model word =
    (model (4 * i + 0) ≡ slice word 0 8)
    × (model (4 * i + 1) ≡ slice word 8 8)
    × (model (4 * i + 2) ≡ slice word 16 8)
    × (model (4 * i + 3) ≡ slice word 24 8)

-- The loop of a store gives the bytes of the written word.
pub strobe : (k strb : ℕ) → bit_and strb (1 << k) ≡ strb / 2 ^ k % 2 * 2 ^ k
strobe k strb = and_high k strb 1 ∙ ap (λ t. t * 2 ^ k) (and_low 1 (strb / 2 ^ k))

-- Byte k of word j after the loop, whether or not its strobe is set.
abbrev put : ℕ → ℕ → ℕ → ℕ → ℕ → (ℕ → ℕ) → ℕ
put i j k v strb model =
    if j == i && not (bit_and strb (1 << k) == 0)
    then bit_and (v >> (8 * k)) 0xFF
    else model (4 * j + k)

stored_bytes :
    (i j v strb : ℕ) (model : ℕ → ℕ)
    → (stored (4 * i) v strb model (4 * j + 0) ≡ put i j 0 v strb model)
      × (stored (4 * i) v strb model (4 * j + 1) ≡ put i j 1 v strb model)
      × (stored (4 * i) v strb model (4 * j + 2) ≡ put i j 2 v strb model)
      × (stored (4 * i) v strb model (4 * j + 3) ≡ put i j 3 v strb model)
stored_bytes i j v strb model = (ground arith, ground arith, ground arith, ground arith)

pub written_bytes :
    (strb v old : ℕ)
    → (slice (written strb v old) 0 8 ≡ written_lane 0 strb v old)
      × (slice (written strb v old) 8 8 ≡ written_lane 1 strb v old)
      × (slice (written strb v old) 16 8 ≡ written_lane 2 strb v old)
      × (slice (written strb v old) 24 8 ≡ written_lane 3 strb v old)
written_bytes strb v old =
    let h₀ = written_lane-lt 0 strb v old in
    let h₁ = written_lane-lt 1 strb v old in
    let h₂ = written_lane-lt 2 strb v old in
    let h₃ = written_lane-lt 3 strb v old in (omega arith, omega arith, omega arith, omega arith)

put-written_lane :
    (i j k v strb : ℕ) (model : ℕ → ℕ) (word : ℕ)
    → model (4 * j + k) ≡ slice word (8 * k) 8
    → put i j k v strb model ≡ (if j == i then written_lane k strb v word else slice word (8 * k) 8)
put-written_lane i j k v strb model word h = ground (arith, strobe k strb, and_low 8 (v >> (8 * k)))

pub stored-SameWord :
    (i j v strb : ℕ) (model : ℕ → ℕ) (word : ℕ)
    → SameWord j model word
    → SameWord j (stored (4 * i) v strb model) (if j == i then written strb v word else word)
stored-SameWord i j v strb model word (h₀, h₁, h₂, h₃) =
    let (s₀, s₁, s₂, s₃) = stored_bytes i j v strb model in
    let (w₀, w₁, w₂, w₃) = written_bytes strb v word in
    (
      s₀ ∙ put-written_lane i j 0 v strb model word h₀ ∙ ground arith,
      s₁ ∙ put-written_lane i j 1 v strb model word h₁ ∙ ground arith,
      s₂ ∙ put-written_lane i j 2 v strb model word h₂ ∙ ground arith,
      s₃ ∙ put-written_lane i j 3 v strb model word h₃ ∙ ground arith,
    )

-- And the loop of a load puts them together again.
pub wanted-SameWord :
    (i : ℕ) (model : ℕ → ℕ) (word : ℕ)
    → word < 2 ^ 32
    → SameWord i model word
    → wanted (4 * i) model ≡ word
wanted-SameWord i model word h (h₀, h₁, h₂, h₃) =
    let low : 0 ∣ (model (4 * i + 0) << 0) ≡ model (4 * i + 0) =
      or_above 0 _ refl (omega arith) (omega arith) ∙ omega arith in
    or_above 24 _
      (or_above 16 _ (or_above 8 _ low (omega arith) (omega arith)) (omega arith) (omega arith))
      (omega arith) (omega arith)
    ∙ omega arith

-- One more word in the array.
abbrev split : ℕ → ℕ → ℕ → ℕ → (ℕ → ℕ) → ℕ
split w j k v model = if j == w then bit_and (v >> (8 * k)) 0xFF else model (4 * j + k)

split_bytes :
    (w j v : ℕ) (model : ℕ → ℕ)
    → (split_word (4 * w) v model (4 * j + 0) ≡ split w j 0 v model)
      × (split_word (4 * w) v model (4 * j + 1) ≡ split w j 1 v model)
      × (split_word (4 * w) v model (4 * j + 2) ≡ split w j 2 v model)
      × (split_word (4 * w) v model (4 * j + 3) ≡ split w j 3 v model)
split_bytes w j v model = (ground arith, ground arith, ground arith, ground arith)

split_byte :
    (w j k : ℕ) (model mem : ℕ → ℕ)
    → j < w + 1
    → (j < w → model (4 * j + k) ≡ slice (mem j) (8 * k) 8)
    → split w j k (mem w) model ≡ slice (mem j) (8 * k) 8
split_byte w j k model mem below h = ground (arith, h, and_low 8 (mem w >> (8 * k)))

pub split_word-SameWord :
    (w j : ℕ) (model mem : ℕ → ℕ)
    → j < w + 1
    → (j < w → SameWord j model (mem j))
    → SameWord j (split_word (4 * w) (mem w) model) (mem j)
split_word-SameWord w j model mem below h =
    let (b₀, b₁, b₂, b₃) = split_bytes w j (mem w) model in
    (
      b₀ ∙ split_byte w j 0 model mem below (λ k. (h k).0),
      b₁ ∙ split_byte w j 1 model mem below (λ k. (h k).1),
      b₂ ∙ split_byte w j 2 model mem below (λ k. (h k).2),
      b₃ ∙ split_byte w j 3 model mem below (λ k. (h k).3),
    )
