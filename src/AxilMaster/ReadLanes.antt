-- ===== src/AxilMaster/ReadLanes.antt =====
-- The lanes that a load reads are the bytes of the access.
use rv32i_core.Prelude.{
  ℕ, zero, suc, ◌+◌, ◌*◌, ◌%◌, ◌^◌, ◌<◌, ◌≡◌, refl, ◌∙◌, ap, arith, if◌then◌else◌, inl, inr,
}
use rv32i_core.Word.{u32, ◌<<◌, ◌∣◌, slice}
use rv32i_core.Word.Bits.{or_above}
use rv32i_core.AxilMaster.Lanes.{crosses, addr_lo, addr_hi, shifted}
use rv32i_core.AxilMaster.Slave.{rd_word}
use rv32i_core.AxilMaster.Bytes.{below_four}

-- The little-endian number in the n bytes from addr on.
unfoldable pub load_bytes : ℕ → ℕ → (ℕ → ℕ) → ℕ
load_bytes addr zero mem = 0
load_bytes addr (suc k) mem = load_bytes addr k mem + mem (u32 (addr + k)) * 2 ^ (8 * k)

module _ (mem : ℕ → ℕ) (bytes : (a : ℕ) → mem a < 256) where
  rd_word-sum :
      (a : ℕ)
      → rd_word mem a
        ≡ mem (u32 (a + 0))
          + mem (u32 (a + 1)) * 2 ^ 8
          + mem (u32 (a + 2)) * 2 ^ 16
          + mem (u32 (a + 3)) * 2 ^ 24
  unfolding rd_word
  rd_word-sum a =
      let b0 = bytes (u32 (a + 0)) in
      let b1 = bytes (u32 (a + 1)) in
      let b2 = bytes (u32 (a + 2)) in
      let low : 0 ∣ (mem (u32 (a + 0)) << 0) ≡ mem (u32 (a + 0)) =
        or_above 0 _ refl (omega arith) (omega arith) ∙ omega arith in
      or_above 24 _ (or_above 16 _ (or_above 8 _ low b0 (omega arith)) (omega arith) (omega arith))
        (omega arith) (omega arith)

  module _ (addr f3 old : ℕ) (ha : addr < 2 ^ 32) where
    abbrev pub lanes_read : ℕ
    lanes_read =
        if crosses addr f3
        then shifted addr f3 (rd_word mem (addr_lo addr)) (rd_word mem (addr_hi addr))
        else shifted addr f3 old (rd_word mem (addr_lo addr))

    -- With a given lane and size, the wanted lanes of the words are the bytes of the access.
    abbrev Reads : ℕ → ℕ → ℕ → Type 0
    Reads lane size n =
        slice addr 0 2 ≡ lane
        → slice f3 0 2 ≡ size
        → lanes_read % 2 ^ (8 * n) ≡ load_bytes addr n mem

    byte_0 : Reads 0 0 1
    unfolding crosses shifted load_bytes addr_lo addr_hi
    byte_0 hl hs =
        let b0 = bytes (u32 (addr_lo addr + 0)) in
        let b1 = bytes (u32 (addr_lo addr + 1)) in
        let b2 = bytes (u32 (addr_lo addr + 2)) in
        let b3 = bytes (u32 (addr_lo addr + 3)) in
        let e0 : mem (u32 (addr_lo addr + 0)) ≡ mem (u32 (addr + 0)) = ap mem (omega arith) in
        rw hl rw hs rw (rd_word-sum (addr_lo addr)) (omega arith)

    byte_1 : Reads 1 0 1
    unfolding crosses shifted load_bytes addr_lo addr_hi
    byte_1 hl hs =
        let b0 = bytes (u32 (addr_lo addr + 0)) in
        let b1 = bytes (u32 (addr_lo addr + 1)) in
        let b2 = bytes (u32 (addr_lo addr + 2)) in
        let b3 = bytes (u32 (addr_lo addr + 3)) in
        let e0 : mem (u32 (addr_lo addr + 1)) ≡ mem (u32 (addr + 0)) = ap mem (omega arith) in
        rw hl rw hs rw (rd_word-sum (addr_lo addr)) (omega arith)

    byte_2 : Reads 2 0 1
    unfolding crosses shifted load_bytes addr_lo addr_hi
    byte_2 hl hs =
        let b0 = bytes (u32 (addr_lo addr + 0)) in
        let b1 = bytes (u32 (addr_lo addr + 1)) in
        let b2 = bytes (u32 (addr_lo addr + 2)) in
        let b3 = bytes (u32 (addr_lo addr + 3)) in
        let e0 : mem (u32 (addr_lo addr + 2)) ≡ mem (u32 (addr + 0)) = ap mem (omega arith) in
        rw hl rw hs rw (rd_word-sum (addr_lo addr)) (omega arith)

    byte_3 : Reads 3 0 1
    unfolding crosses shifted load_bytes addr_lo addr_hi
    byte_3 hl hs =
        let b0 = bytes (u32 (addr_lo addr + 0)) in
        let b1 = bytes (u32 (addr_lo addr + 1)) in
        let b2 = bytes (u32 (addr_lo addr + 2)) in
        let b3 = bytes (u32 (addr_lo addr + 3)) in
        let e0 : mem (u32 (addr_lo addr + 3)) ≡ mem (u32 (addr + 0)) = ap mem (omega arith) in
        rw hl rw hs rw (rd_word-sum (addr_lo addr)) (omega arith)

    half_0 : Reads 0 1 2
    unfolding crosses shifted load_bytes addr_lo addr_hi
    half_0 hl hs =
        let b0 = bytes (u32 (addr_lo addr + 0)) in
        let b1 = bytes (u32 (addr_lo addr + 1)) in
        let b2 = bytes (u32 (addr_lo addr + 2)) in
        let b3 = bytes (u32 (addr_lo addr + 3)) in
        let e0 : mem (u32 (addr_lo addr + 0)) ≡ mem (u32 (addr + 0)) = ap mem (omega arith) in
        let e1 : mem (u32 (addr_lo addr + 1)) ≡ mem (u32 (addr + 1)) = ap mem (omega arith) in
        rw hl rw hs rw (rd_word-sum (addr_lo addr)) (omega arith)

    half_1 : Reads 1 1 2
    unfolding crosses shifted load_bytes addr_lo addr_hi
    half_1 hl hs =
        let b0 = bytes (u32 (addr_lo addr + 0)) in
        let b1 = bytes (u32 (addr_lo addr + 1)) in
        let b2 = bytes (u32 (addr_lo addr + 2)) in
        let b3 = bytes (u32 (addr_lo addr + 3)) in
        let e0 : mem (u32 (addr_lo addr + 1)) ≡ mem (u32 (addr + 0)) = ap mem (omega arith) in
        let e1 : mem (u32 (addr_lo addr + 2)) ≡ mem (u32 (addr + 1)) = ap mem (omega arith) in
        rw hl rw hs rw (rd_word-sum (addr_lo addr)) (omega arith)

    half_2 : Reads 2 1 2
    unfolding crosses shifted load_bytes addr_lo addr_hi
    half_2 hl hs =
        let b0 = bytes (u32 (addr_lo addr + 0)) in
        let b1 = bytes (u32 (addr_lo addr + 1)) in
        let b2 = bytes (u32 (addr_lo addr + 2)) in
        let b3 = bytes (u32 (addr_lo addr + 3)) in
        let e0 : mem (u32 (addr_lo addr + 2)) ≡ mem (u32 (addr + 0)) = ap mem (omega arith) in
        let e1 : mem (u32 (addr_lo addr + 3)) ≡ mem (u32 (addr + 1)) = ap mem (omega arith) in
        rw hl rw hs rw (rd_word-sum (addr_lo addr)) (omega arith)

    half_3 : Reads 3 1 2
    unfolding crosses shifted load_bytes addr_lo addr_hi
    half_3 hl hs =
        let b0 = bytes (u32 (addr_lo addr + 0)) in
        let b1 = bytes (u32 (addr_lo addr + 1)) in
        let b2 = bytes (u32 (addr_lo addr + 2)) in
        let b3 = bytes (u32 (addr_lo addr + 3)) in
        let b4 = bytes (u32 (addr_hi addr + 0)) in
        let b5 = bytes (u32 (addr_hi addr + 1)) in
        let b6 = bytes (u32 (addr_hi addr + 2)) in
        let b7 = bytes (u32 (addr_hi addr + 3)) in
        let e0 : mem (u32 (addr_lo addr + 3)) ≡ mem (u32 (addr + 0)) = ap mem (omega arith) in
        let e1 : mem (u32 (addr_hi addr + 0)) ≡ mem (u32 (addr + 1)) = ap mem (omega arith) in
        rw hl rw hs rw (rd_word-sum (addr_lo addr)) rw (rd_word-sum (addr_hi addr)) (omega arith)

    word_0 : Reads 0 2 4
    unfolding crosses shifted load_bytes addr_lo addr_hi
    word_0 hl hs =
        let b0 = bytes (u32 (addr_lo addr + 0)) in
        let b1 = bytes (u32 (addr_lo addr + 1)) in
        let b2 = bytes (u32 (addr_lo addr + 2)) in
        let b3 = bytes (u32 (addr_lo addr + 3)) in
        let e0 : mem (u32 (addr_lo addr + 0)) ≡ mem (u32 (addr + 0)) = ap mem (omega arith) in
        let e1 : mem (u32 (addr_lo addr + 1)) ≡ mem (u32 (addr + 1)) = ap mem (omega arith) in
        let e2 : mem (u32 (addr_lo addr + 2)) ≡ mem (u32 (addr + 2)) = ap mem (omega arith) in
        let e3 : mem (u32 (addr_lo addr + 3)) ≡ mem (u32 (addr + 3)) = ap mem (omega arith) in
        rw hl rw hs rw (rd_word-sum (addr_lo addr)) (omega arith)

    word_1 : Reads 1 2 4
    unfolding crosses shifted load_bytes addr_lo addr_hi
    word_1 hl hs =
        let b0 = bytes (u32 (addr_lo addr + 0)) in
        let b1 = bytes (u32 (addr_lo addr + 1)) in
        let b2 = bytes (u32 (addr_lo addr + 2)) in
        let b3 = bytes (u32 (addr_lo addr + 3)) in
        let b4 = bytes (u32 (addr_hi addr + 0)) in
        let b5 = bytes (u32 (addr_hi addr + 1)) in
        let b6 = bytes (u32 (addr_hi addr + 2)) in
        let b7 = bytes (u32 (addr_hi addr + 3)) in
        let e0 : mem (u32 (addr_lo addr + 1)) ≡ mem (u32 (addr + 0)) = ap mem (omega arith) in
        let e1 : mem (u32 (addr_lo addr + 2)) ≡ mem (u32 (addr + 1)) = ap mem (omega arith) in
        let e2 : mem (u32 (addr_lo addr + 3)) ≡ mem (u32 (addr + 2)) = ap mem (omega arith) in
        let e3 : mem (u32 (addr_hi addr + 0)) ≡ mem (u32 (addr + 3)) = ap mem (omega arith) in
        rw hl rw hs rw (rd_word-sum (addr_lo addr)) rw (rd_word-sum (addr_hi addr)) (omega arith)

    word_2 : Reads 2 2 4
    unfolding crosses shifted load_bytes addr_lo addr_hi
    word_2 hl hs =
        let b0 = bytes (u32 (addr_lo addr + 0)) in
        let b1 = bytes (u32 (addr_lo addr + 1)) in
        let b2 = bytes (u32 (addr_lo addr + 2)) in
        let b3 = bytes (u32 (addr_lo addr + 3)) in
        let b4 = bytes (u32 (addr_hi addr + 0)) in
        let b5 = bytes (u32 (addr_hi addr + 1)) in
        let b6 = bytes (u32 (addr_hi addr + 2)) in
        let b7 = bytes (u32 (addr_hi addr + 3)) in
        let e0 : mem (u32 (addr_lo addr + 2)) ≡ mem (u32 (addr + 0)) = ap mem (omega arith) in
        let e1 : mem (u32 (addr_lo addr + 3)) ≡ mem (u32 (addr + 1)) = ap mem (omega arith) in
        let e2 : mem (u32 (addr_hi addr + 0)) ≡ mem (u32 (addr + 2)) = ap mem (omega arith) in
        let e3 : mem (u32 (addr_hi addr + 1)) ≡ mem (u32 (addr + 3)) = ap mem (omega arith) in
        rw hl rw hs rw (rd_word-sum (addr_lo addr)) rw (rd_word-sum (addr_hi addr)) (omega arith)

    word_3 : Reads 3 2 4
    unfolding crosses shifted load_bytes addr_lo addr_hi
    word_3 hl hs =
        let b0 = bytes (u32 (addr_lo addr + 0)) in
        let b1 = bytes (u32 (addr_lo addr + 1)) in
        let b2 = bytes (u32 (addr_lo addr + 2)) in
        let b3 = bytes (u32 (addr_lo addr + 3)) in
        let b4 = bytes (u32 (addr_hi addr + 0)) in
        let b5 = bytes (u32 (addr_hi addr + 1)) in
        let b6 = bytes (u32 (addr_hi addr + 2)) in
        let b7 = bytes (u32 (addr_hi addr + 3)) in
        let e0 : mem (u32 (addr_lo addr + 3)) ≡ mem (u32 (addr + 0)) = ap mem (omega arith) in
        let e1 : mem (u32 (addr_hi addr + 0)) ≡ mem (u32 (addr + 1)) = ap mem (omega arith) in
        let e2 : mem (u32 (addr_hi addr + 1)) ≡ mem (u32 (addr + 2)) = ap mem (omega arith) in
        let e3 : mem (u32 (addr_hi addr + 2)) ≡ mem (u32 (addr + 3)) = ap mem (omega arith) in
        rw hl rw hs rw (rd_word-sum (addr_lo addr)) rw (rd_word-sum (addr_hi addr)) (omega arith)

    pub byte_reads : slice f3 0 2 ≡ 0 → lanes_read % 2 ^ 8 ≡ load_bytes addr 1 mem
    byte_reads hs = elim (below_four (slice addr 0 2) (omega arith)) [
      | inl l ↦ byte_0 l hs
      | inr (inl l) ↦ byte_1 l hs
      | inr (inr (inl l)) ↦ byte_2 l hs
      | inr (inr (inr l)) ↦ byte_3 l hs
    ]

    pub half_reads : slice f3 0 2 ≡ 1 → lanes_read % 2 ^ 16 ≡ load_bytes addr 2 mem
    half_reads hs = elim (below_four (slice addr 0 2) (omega arith)) [
      | inl l ↦ half_0 l hs
      | inr (inl l) ↦ half_1 l hs
      | inr (inr (inl l)) ↦ half_2 l hs
      | inr (inr (inr l)) ↦ half_3 l hs
    ]

    pub word_reads : slice f3 0 2 ≡ 2 → lanes_read % 2 ^ 32 ≡ load_bytes addr 4 mem
    word_reads hs = elim (below_four (slice addr 0 2) (omega arith)) [
      | inl l ↦ word_0 l hs
      | inr (inl l) ↦ word_1 l hs
      | inr (inr (inl l)) ↦ word_2 l hs
      | inr (inr (inr l)) ↦ word_3 l hs
    ]

    pub lanes_read-lt : lanes_read < 2 ^ 32
    unfolding shifted
    lanes_read-lt = ground arith
