-- ===== src/AxilMaster/RoundTrip.antt =====
-- A load after a store to the same place.
use rv32i_core.Prelude.{ℕ, zero, suc, ◌*◌, ◌%◌, ◌^◌, ◌<◌, ◌≡◌, arith, bit_and, inl, inr}
use rv32i_core.Word.{◌>>◌, slice}
use rv32i_core.Word.Bits.{and_low}
use rv32i_core.AxilMaster.Bytes.{access_bytes, store_bytes, below_four}
use rv32i_core.AxilMaster.ReadLanes.{load_bytes}

byte_lt : (x : ℕ) → bit_and x 255 < 256
byte_lt x = omega (arith, and_low 8 x)

-- A store leaves bytes in the memory.
pub store_bytes-lt :
    (addr v n : ℕ) (mem : ℕ → ℕ)
    → ((a : ℕ) → mem a < 256)
    → (a : ℕ) → store_bytes addr v n mem a < 256
unfolding store_bytes
store_bytes-lt addr v zero mem bytes a = bytes a
store_bytes-lt addr v (suc n) mem bytes a =
    ground (arith, byte_lt (v >> (8 * n)), store_bytes-lt addr v n mem bytes a)

module _ (addr v : ℕ) (mem : ℕ → ℕ) (ha : addr < 2 ^ 32) (hv : v < 2 ^ 32) where
  byte_back : load_bytes addr 1 (store_bytes addr v 1 mem) ≡ v % 2 ^ 8
  unfolding load_bytes store_bytes
  byte_back = ground (arith, and_low 8 v)

  half_back : load_bytes addr 2 (store_bytes addr v 2 mem) ≡ v % 2 ^ 16
  unfolding load_bytes store_bytes
  half_back = ground (arith, and_low 8 v, and_low 8 (v >> 8))

  word_back : load_bytes addr 4 (store_bytes addr v 4 mem) ≡ v % 2 ^ 32
  unfolding load_bytes store_bytes
  word_back =
      ground (arith, and_low 8 v, and_low 8 (v >> 8), and_low 8 (v >> 16), and_low 8 (v >> 24))

  pub bytes_back :
      (f3 : ℕ)
      → slice f3 0 2 < 3
      → load_bytes addr (access_bytes f3) (store_bytes addr v (access_bytes f3) mem)
        ≡ v % 2 ^ (8 * access_bytes f3)
  bytes_back f3 hs = elim (below_four (slice f3 0 2) (omega arith)) [
    | inl size ↦ rw size byte_back
    | inr (inl size) ↦ rw size half_back
    | inr (inr (inl size)) ↦ rw size word_back
    | inr (inr (inr size)) ↦ absurd (omega arith)
  ]
