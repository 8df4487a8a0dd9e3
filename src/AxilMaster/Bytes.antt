-- ===== src/AxilMaster/Bytes.antt =====
-- The bytes that a store writes.
use rv32i_core.Prelude.{
  ℕ, zero, suc, ◌+◌, ◌*◌, ◌%◌, ◌^◌, ◌<◌, ◌≡◌, refl, ◌∙◌, ap, arith, bit_and, update, ◌⊎◌, inl, inr,
}
use rv32i_core.Word.{u32, ◌>>◌, slice}
use rv32i_core.Word.Bits.{and_low}
use rv32i_core.AxilMaster.Lanes.{crosses, addr_lo, addr_hi, wdata_lo, wdata_hi, wstrb_lo, wstrb_hi}
use rv32i_core.AxilMaster.Slave.{wr_word}
use rv32i_core.AxilMaster.Store.{store_mem}

-- model[off + k] = (v >> (8 * k)) & 0xFF.
abbrev pub put : ℕ → ℕ → ℕ → (ℕ → ℕ) → ℕ → ℕ
put addr v k mem = update mem (u32 (addr + k)) (bit_and (v >> (8 * k)) 0xFF)

-- for (int k = 0; k < (1 << sz); k++) of the shadow model.
unfoldable pub store_bytes : ℕ → ℕ → ℕ → (ℕ → ℕ) → ℕ → ℕ
store_bytes addr v zero mem = mem
store_bytes addr v (suc k) mem = put addr v k (store_bytes addr v k mem)

-- The same byte at the same address.
put_same :
    {m m' : ℕ → ℕ} {a a' : ℕ}
    → (x x' : ℕ) → a ≡ a'
    → x % 256 ≡ x' % 256
    → m ≡ m'
    → update m a (bit_and x 255) ≡ update m' a' (bit_and x' 255)
put_same {m} {m'} {a} {a'} x x' ea ex em = rw (and_low 8 x) rw (and_low 8 x') rw ea rw ex rw em refl

module _ (addr v f3 : ℕ) (mem : ℕ → ℕ) (ha : addr < 2 ^ 32) (hv : v < 2 ^ 32) where
  -- With a given lane and size, the words that the phases write are the bytes of the access.
  abbrev Writes : ℕ → ℕ → ℕ → Type 0
  Writes lane size n =
      slice addr 0 2 ≡ lane
      → slice f3 0 2 ≡ size
      → store_mem addr v f3 0 0 mem ≡ store_bytes addr v n mem

  byte_0 : Writes 0 0 1
  unfolding crosses wr_word wstrb_lo wstrb_hi store_bytes addr_lo addr_hi wdata_lo wdata_hi
  byte_0 hl hs = rw hl rw hs (put_same _ _ (omega arith) (omega arith) refl)

  byte_1 : Writes 1 0 1
  unfolding crosses wr_word wstrb_lo wstrb_hi store_bytes addr_lo addr_hi wdata_lo wdata_hi
  byte_1 hl hs = rw hl rw hs (put_same _ _ (omega arith) (omega arith) refl)

  byte_2 : Writes 2 0 1
  unfolding crosses wr_word wstrb_lo wstrb_hi store_bytes addr_lo addr_hi wdata_lo wdata_hi
  byte_2 hl hs = rw hl rw hs (put_same _ _ (omega arith) (omega arith) refl)

  byte_3 : Writes 3 0 1
  unfolding crosses wr_word wstrb_lo wstrb_hi store_bytes addr_lo addr_hi wdata_lo wdata_hi
  byte_3 hl hs = rw hl rw hs (put_same _ _ (omega arith) (omega arith) refl)

  half_0 : Writes 0 1 2
  unfolding crosses wr_word wstrb_lo wstrb_hi store_bytes addr_lo addr_hi wdata_lo wdata_hi
  half_0 hl hs =
      rw hl rw hs
        (put_same _ _ (omega arith) (omega arith) (put_same _ _ (omega arith) (omega arith) refl))

  half_1 : Writes 1 1 2
  unfolding crosses wr_word wstrb_lo wstrb_hi store_bytes addr_lo addr_hi wdata_lo wdata_hi
  half_1 hl hs =
      rw hl rw hs
        (put_same _ _ (omega arith) (omega arith) (put_same _ _ (omega arith) (omega arith) refl))

  half_2 : Writes 2 1 2
  unfolding crosses wr_word wstrb_lo wstrb_hi store_bytes addr_lo addr_hi wdata_lo wdata_hi
  half_2 hl hs =
      rw hl rw hs
        (put_same _ _ (omega arith) (omega arith) (put_same _ _ (omega arith) (omega arith) refl))

  half_3 : Writes 3 1 2
  unfolding crosses wr_word wstrb_lo wstrb_hi store_bytes addr_lo addr_hi wdata_lo wdata_hi
  half_3 hl hs =
      rw hl rw hs
        (put_same _ _ (omega arith) (omega arith) (put_same _ _ (omega arith) (omega arith) refl))

  word_0 : Writes 0 2 4
  unfolding crosses wr_word wstrb_lo wstrb_hi store_bytes addr_lo addr_hi wdata_lo wdata_hi
  word_0 hl hs = rw hl rw hs (
      put_same _ _ (omega arith) (omega arith) (
        put_same _ _ (omega arith) (omega arith) (
          put_same _ _ (omega arith) (omega arith)
            (put_same _ _ (omega arith) (omega arith) refl))))

  word_1 : Writes 1 2 4
  unfolding crosses wr_word wstrb_lo wstrb_hi store_bytes addr_lo addr_hi wdata_lo wdata_hi
  word_1 hl hs = rw hl rw hs (
      put_same _ _ (omega arith) (omega arith) (
        put_same _ _ (omega arith) (omega arith) (
          put_same _ _ (omega arith) (omega arith)
            (put_same _ _ (omega arith) (omega arith) refl))))

  word_2 : Writes 2 2 4
  unfolding crosses wr_word wstrb_lo wstrb_hi store_bytes addr_lo addr_hi wdata_lo wdata_hi
  word_2 hl hs = rw hl rw hs (
      put_same _ _ (omega arith) (omega arith) (
        put_same _ _ (omega arith) (omega arith) (
          put_same _ _ (omega arith) (omega arith)
            (put_same _ _ (omega arith) (omega arith) refl))))

  word_3 : Writes 3 2 4
  unfolding crosses wr_word wstrb_lo wstrb_hi store_bytes addr_lo addr_hi wdata_lo wdata_hi
  word_3 hl hs = rw hl rw hs (
      put_same _ _ (omega arith) (omega arith) (
        put_same _ _ (omega arith) (omega arith) (
          put_same _ _ (omega arith) (omega arith)
            (put_same _ _ (omega arith) (omega arith) refl))))

-- The number of bytes of an access: 1 << funct3[1:0].
abbrev pub access_bytes : ℕ → ℕ
access_bytes f3 = 2 ^ slice f3 0 2

pub below_four : (n : ℕ) → n < 4 → (n ≡ 0) ⊎ ((n ≡ 1) ⊎ ((n ≡ 2) ⊎ (n ≡ 3)))
below_four n h = omega arith

byte_bytes :
    (addr v f3 : ℕ) (mem : ℕ → ℕ)
    → addr < 2 ^ 32
    → v < 2 ^ 32
    → slice f3 0 2 ≡ 0
    → store_mem addr v f3 0 0 mem ≡ store_bytes addr v 1 mem
byte_bytes addr v f3 mem ha hv hs = elim (below_four (slice addr 0 2) (omega arith)) [
  | inl l ↦ byte_0 addr v f3 mem ha hv l hs
  | inr (inl l) ↦ byte_1 addr v f3 mem ha hv l hs
  | inr (inr (inl l)) ↦ byte_2 addr v f3 mem ha hv l hs
  | inr (inr (inr l)) ↦ byte_3 addr v f3 mem ha hv l hs
]

half_bytes :
    (addr v f3 : ℕ) (mem : ℕ → ℕ)
    → addr < 2 ^ 32
    → v < 2 ^ 32
    → slice f3 0 2 ≡ 1
    → store_mem addr v f3 0 0 mem ≡ store_bytes addr v 2 mem
half_bytes addr v f3 mem ha hv hs = elim (below_four (slice addr 0 2) (omega arith)) [
  | inl l ↦ half_0 addr v f3 mem ha hv l hs
  | inr (inl l) ↦ half_1 addr v f3 mem ha hv l hs
  | inr (inr (inl l)) ↦ half_2 addr v f3 mem ha hv l hs
  | inr (inr (inr l)) ↦ half_3 addr v f3 mem ha hv l hs
]

word_bytes :
    (addr v f3 : ℕ) (mem : ℕ → ℕ)
    → addr < 2 ^ 32
    → v < 2 ^ 32
    → slice f3 0 2 ≡ 2
    → store_mem addr v f3 0 0 mem ≡ store_bytes addr v 4 mem
word_bytes addr v f3 mem ha hv hs = elim (below_four (slice addr 0 2) (omega arith)) [
  | inl l ↦ word_0 addr v f3 mem ha hv l hs
  | inr (inl l) ↦ word_1 addr v f3 mem ha hv l hs
  | inr (inr (inl l)) ↦ word_2 addr v f3 mem ha hv l hs
  | inr (inr (inr l)) ↦ word_3 addr v f3 mem ha hv l hs
]

-- The words of the phases are the bytes of the access, one by one.
pub store_mem-store_bytes :
    (addr v f3 aw_delay w_delay : ℕ) (mem : ℕ → ℕ)
    → addr < 2 ^ 32
    → v < 2 ^ 32
    → slice f3 0 2 < 3
    → store_mem addr v f3 aw_delay w_delay mem ≡ store_bytes addr v (access_bytes f3) mem
store_mem-store_bytes addr v f3 aw_delay w_delay mem ha hv hs =
    elim (below_four (slice f3 0 2) (omega arith)) [
      | inl s ↦ byte_bytes addr v f3 mem ha hv s ∙ ap (λ k. store_bytes addr v k mem) (rw s refl)
      | inr (inl s) ↦
          half_bytes addr v f3 mem ha hv s ∙ ap (λ k. store_bytes addr v k mem) (rw s refl)
      | inr (inr (inl s)) ↦
          word_bytes addr v f3 mem ha hv s ∙ ap (λ k. store_bytes addr v k mem) (rw s refl)
      | inr (inr (inr s)) ↦ absurd (omega arith)
    ]
