-- ===== src/AxilMaster/Agreement.antt =====
-- sim/verilator/tb_axil_master.cpp: the shadow array against the slave's memory.
use native.Mathlib.Nat.{mul-mod_left}
use rv32i_core.Prelude.{
  ℕ, zero, suc, ◌+◌, ◌*◌, ◌-◌, ◌/◌, ◌^◌, ◌<◌, ◌≤◌, ◌≡◌, refl, ◌∙◌, ap, Bool, arith, bit_and, ◌⊎◌,
  inl, inr,
}
use rv32i_core.Word.{u32, slice}
use rv32i_core.Word.Bits.{and_low, and_high, or_above}
use rv32i_core.AxilMaster.Bytes.{access_bytes, store_bytes}
use rv32i_core.AxilMaster.Directed.{at}
use rv32i_core.AxilMaster.Keeps.{HasBytes}
use rv32i_core.AxilMaster.ReadBytes.{extended}
use rv32i_core.AxilMaster.ReadLanes.{load_bytes}
use rv32i_core.AxilMaster.Shadow.{shadowed, gathered, store_f3, load_f3, wanted, aligned}
use rv32i_core.AxilMaster.Slave.{wr_word}

-- The array holds the first 8192 bytes of the memory.
abbrev pub Agrees : (ℕ → ℕ) → (ℕ → ℕ) → Type 0
Agrees model mem = (a : ℕ) → a < 8192 → model a ≡ mem (at a)

-- The byte loop follows a store.
pub shadowed-Agrees :
    (off v n : ℕ) (model mem : ℕ → ℕ)
    → off + n ≤ 8192
    → Agrees model mem
    → Agrees (shadowed off v n model) (store_bytes (at off) v n mem)
unfolding shadowed store_bytes
shadowed-Agrees off v zero model mem fits h a below = h a below
shadowed-Agrees off v (suc n) model mem fits h a below =
    ground (arith, shadowed-Agrees off v n model mem (omega arith) h a below)

-- What is written above the first 8192 bytes does not matter.
pub store_above-Agrees :
    (off v n : ℕ) (model mem : ℕ → ℕ)
    → 8192 ≤ off
    → off + n < 2 ^ 31
    → Agrees model mem
    → Agrees model (store_bytes (at off) v n mem)
unfolding store_bytes
store_above-Agrees off v zero model mem above fits h a below = h a below
store_above-Agrees off v (suc n) model mem above fits h a below =
    ground (arith, store_above-Agrees off v n model mem above (omega arith) h a below)

pub write_above-Agrees :
    (off word strb : ℕ) (model mem : ℕ → ℕ)
    → 8192 ≤ off
    → off < 10000
    → Agrees model mem
    → Agrees model (wr_word (at off) word strb mem)
unfolding wr_word
write_above-Agrees off word strb model mem above fits h a below = ground (arith, h a below)

pub load_bytes-lt :
    (addr n : ℕ) (mem : ℕ → ℕ) → HasBytes mem → n ≤ 4 → load_bytes addr n mem < 2 ^ (8 * n)
unfolding load_bytes
load_bytes-lt addr zero mem h small = omega arith
load_bytes-lt addr (suc zero) mem h small = omega (arith, h (u32 (addr + 0)))
load_bytes-lt addr (suc (suc zero)) mem h small =
    omega (arith, h (u32 (addr + 0)), h (u32 (addr + 1)))
load_bytes-lt addr (suc (suc (suc zero))) mem h small =
    omega (arith, h (u32 (addr + 0)), h (u32 (addr + 1)), h (u32 (addr + 2)))
load_bytes-lt addr (suc (suc (suc (suc zero)))) mem h small =
    omega (arith, h (u32 (addr + 0)), h (u32 (addr + 1)), h (u32 (addr + 2)), h (u32 (addr + 3)))
load_bytes-lt addr (suc (suc (suc (suc (suc n))))) mem h small = absurd (omega arith)

-- The byte loop gathers what a load reads.
pub gathered-load_bytes :
    (off n : ℕ) (model mem : ℕ → ℕ)
    → off + n ≤ 8192
    → n ≤ 4
    → HasBytes mem
    → Agrees model mem
    → gathered off n model ≡ load_bytes (at off) n mem
unfolding gathered load_bytes
gathered-load_bytes off zero model mem fits small bytes h = refl
gathered-load_bytes off (suc n) model mem fits small bytes h =
    let same : model (off + n) ≡ mem (u32 (at off + n)) =
      h (off + n) (omega arith) ∙ ap mem (omega arith) in
    let before = gathered-load_bytes off n model mem (omega arith) (omega arith) bytes h in
    rw same (
      or_above (8 * n) (mem (u32 (at off + n)) * 2 ^ (8 * n)) before
        (load_bytes-lt (at off) n mem bytes (omega arith)) (mul-mod_left _ _))

-- The sizes that a round draws.
pub below_three : (sz : ℕ) → sz ≤ 2 → (sz ≡ 0) ⊎ ((sz ≡ 1) ⊎ (sz ≡ 2))
below_three sz h = omega arith

pub store_f3_lem :
    (sz : ℕ)
    → sz ≤ 2
    → (slice (store_f3 sz) 0 2 < 3) × (access_bytes (store_f3 sz) ≡ 2 ^ sz) × (2 ^ sz ≤ 4)
store_f3_lem sz h = elim (below_three sz h) [
  | inl e ↦ rw e (omega arith, refl, omega arith)
  | inr (inl e) ↦ rw e (omega arith, refl, omega arith)
  | inr (inr e) ↦ rw e (omega arith, refl, omega arith)
]

pub load_f3_lem :
    (lsz : ℕ) (uns : Bool)
    → lsz ≤ 2
    → (load_f3 lsz uns < 8)
      × (slice (load_f3 lsz uns) 0 2 < 3)
      × (access_bytes (load_f3 lsz uns) ≡ 2 ^ lsz)
load_f3_lem lsz uns h = ground arith

pub aligned_fits : (sz raw : ℕ) → sz ≤ 2 → raw ≤ 8191 → aligned sz raw + 2 ^ sz ≤ 8192
aligned_fits sz raw h below = elim (below_three sz h) [
  | inl e ↦ rw e omega (arith, and_low 32 raw)
  | inr (inl e) ↦ rw e omega (arith, and_high 1 raw (2 ^ 31 - 1), and_low 31 (raw / 2))
  | inr (inr e) ↦ rw e omega (arith, and_high 2 raw (2 ^ 30 - 1), and_low 30 (raw / 4))
]

byte_sign : (w : ℕ) → w < 2 ^ 8 → bit_and w 0x80 ≡ w / 2 ^ 7 * 2 ^ 7
byte_sign w h = omega (arith, and_high 7 w 1, and_low 1 (w / 2 ^ 7))

half_sign : (w : ℕ) → w < 2 ^ 16 → bit_and w 0x8000 ≡ w / 2 ^ 15 * 2 ^ 15
half_sign w h = omega (arith, and_high 15 w 1, and_low 1 (w / 2 ^ 15))

-- The sign extension of the shadow model is that of a load.
pub wanted-extended :
    (lsz : ℕ) (uns : Bool) (w : ℕ)
    → lsz ≤ 2
    → w < 2 ^ (8 * 2 ^ lsz)
    → wanted lsz uns w ≡ extended (load_f3 lsz uns) w
unfolding extended
wanted-extended zero uns w h small =
    ground (arith, byte_sign w small, or_above 8 {p = w} 0xFFFFFF00 refl small (omega arith))
wanted-extended (suc zero) uns w h small =
    ground (arith, half_sign w small, or_above 16 {p = w} 0xFFFF0000 refl small (omega arith))
wanted-extended (suc (suc zero)) uns w h small = refl
wanted-extended (suc (suc (suc lsz))) uns w h small = absurd (omega arith)
