-- ===== src/AxilMaster/ReadBytes.antt =====
-- The value of a load: the bytes of the access as a little-endian number, sign-extended or
-- zero-extended.
use rv32i_core.Prelude.{
  ℕ, ◌+◌, ◌%◌, ◌^◌, ◌<◌, ◌≡◌, ◌∙◌, ap, sym, arith, if◌then◌else◌, ◌&&◌, leb, ◌==◌, inl, inr,
}
use rv32i_core.Word.{slice}
use rv32i_core.AxilMaster.Bytes.{access_bytes, below_four}
use rv32i_core.AxilMaster.Lanes.{rdata_ext}
use rv32i_core.AxilMaster.Load.{loaded}
use rv32i_core.AxilMaster.ReadLanes.{
  load_bytes, lanes_read, lanes_read-lt, byte_reads, half_reads, word_reads,
}

-- With the upper bytes that funct3 asks for: ones if a signed byte or half is negative.
unfoldable pub extended : ℕ → ℕ → ℕ
extended f3 want =
    if f3 == 0b000 && leb 0x80 want
    then want + 0xFFFFFF00
    else if f3 == 0b001 && leb 0x8000 want
    then want + 0xFFFF0000
    else want

-- The extension only reads the bits of the access.
byte_extended :
    (f3 w : ℕ) → f3 < 8 → w < 2 ^ 32 → slice f3 0 2 ≡ 0 → rdata_ext f3 w ≡ extended f3 (w % 2 ^ 8)
unfolding rdata_ext extended
byte_extended f3 w hf hw hs = ground arith

half_extended :
    (f3 w : ℕ) → f3 < 8 → w < 2 ^ 32 → slice f3 0 2 ≡ 1 → rdata_ext f3 w ≡ extended f3 (w % 2 ^ 16)
unfolding rdata_ext extended
half_extended f3 w hf hw hs = ground arith

word_extended :
    (f3 w : ℕ) → f3 < 8 → w < 2 ^ 32 → slice f3 0 2 ≡ 2 → rdata_ext f3 w ≡ extended f3 (w % 2 ^ 32)
unfolding rdata_ext extended
word_extended f3 w hf hw hs = ground arith

loaded_ext :
    (addr f3 ar_delay : ℕ) (mem : ℕ → ℕ) (bytes : (a : ℕ) → mem a < 256) (old : ℕ)
    (ha : addr < 2 ^ 32)
    → loaded addr f3 ar_delay mem old ≡ rdata_ext f3 (lanes_read mem bytes addr f3 old ha)
loaded_ext addr f3 ar_delay mem bytes old ha = ground arith

-- A load gives back the bytes of the access, extended.
pub loaded-load_bytes :
    (addr f3 ar_delay : ℕ) (mem : ℕ → ℕ) (old : ℕ)
    → addr < 2 ^ 32
    → f3 < 8
    → slice f3 0 2 < 3
    → ((a : ℕ) → mem a < 256)
    → loaded addr f3 ar_delay mem old ≡ extended f3 (load_bytes addr (access_bytes f3) mem)
loaded-load_bytes addr f3 ar_delay mem old ha hf hs bytes =
    let w = lanes_read mem bytes addr f3 old ha in
    let bound : w < 2 ^ 32 = lanes_read-lt mem bytes addr f3 old ha in
    elim (below_four (slice f3 0 2) (omega arith)) [
      | inl s ↦
          loaded_ext addr f3 ar_delay mem bytes old ha
          ∙ byte_extended f3 w hf bound s
          ∙ ap (extended f3) (
              byte_reads mem bytes addr f3 old ha s ∙ ap (λ k. load_bytes addr (2 ^ k) mem) (sym s))
      | inr (inl s) ↦
          loaded_ext addr f3 ar_delay mem bytes old ha
          ∙ half_extended f3 w hf bound s
          ∙ ap (extended f3) (
              half_reads mem bytes addr f3 old ha s ∙ ap (λ k. load_bytes addr (2 ^ k) mem) (sym s))
      | inr (inr (inl s)) ↦
          loaded_ext addr f3 ar_delay mem bytes old ha
          ∙ word_extended f3 w hf bound s
          ∙ ap (extended f3) (
              word_reads mem bytes addr f3 old ha s ∙ ap (λ k. load_bytes addr (2 ^ k) mem) (sym s))
      | inr (inr (inr s)) ↦ absurd (omega arith)
    ]
