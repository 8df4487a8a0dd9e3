-- ===== src/AxilMaster/Shadow.antt =====
-- sim/verilator/tb_axil_master.cpp: the shadow array of the random sections, and what its loops say
-- of the slave's memory.
use rv32i_core.Prelude.{
  ℕ, zero, suc, ◌+◌, ◌*◌, ◌-◌, ◌^◌, Bool, not, ◌&&◌, ◌==◌, if◌then◌else◌, bit_and, update,
}
use rv32i_core.Word.{u32, ◌<<◌, ◌>>◌, ◌∣◌}

-- for (int k = 0; k < n; k++) model[off + k] = (v >> (8 * k)) & 0xFF.
unfoldable pub shadowed : ℕ → ℕ → ℕ → (ℕ → ℕ) → ℕ → ℕ
shadowed off v zero model = model
shadowed off v (suc k) model =
    update (shadowed off v k model) (off + k) (bit_and (v >> (8 * k)) 0xFF)

-- for (int k = 0; k < n; k++) want |= model[off + k] << (8 * k).
unfoldable pub gathered : ℕ → ℕ → (ℕ → ℕ) → ℕ
gathered off zero model = 0
gathered off (suc k) model = gathered off k model ∣ (model (off + k) << (8 * k))

abbrev pub f3_b : ℕ
f3_b = 0b000

abbrev pub f3_h : ℕ
f3_h = 0b001

abbrev pub f3_w : ℕ
f3_w = 0b010

abbrev pub f3_bu : ℕ
f3_bu = 0b100

abbrev pub f3_hu : ℕ
f3_hu = 0b101

-- f3 of a store and lf3 of a load of 2 ^ sz bytes.
abbrev pub store_f3 : ℕ → ℕ
store_f3 sz = if sz == 0 then f3_b else if sz == 1 then f3_h else f3_w

abbrev pub load_f3 : ℕ → Bool → ℕ
load_f3 lsz uns =
    if lsz == 2
    then f3_w
    else if lsz == 0
    then (if uns then f3_bu else f3_b)
    else if uns
    then f3_hu
    else f3_h

-- want, after the branches that choose lf3.
abbrev pub wanted : ℕ → Bool → ℕ → ℕ
wanted lsz uns want =
    if lsz == 2
    then want
    else if lsz == 0
    then (if not uns && not (bit_and want 0x80 == 0) then want ∣ 0xFFFFFF00 else want)
    else if not uns && not (bit_and want 0x8000 == 0)
    then want ∣ 0xFFFF0000
    else want

-- off & ~((1u << sz) - 1).
abbrev pub aligned : ℕ → ℕ → ℕ
aligned sz off = bit_and off (2 ^ 32 - 1 - (1 << sz - 1))

-- The two words of `combined`, and 32 bits of it from the given bit on.
abbrev pub combined : ℕ → ℕ → ℕ
combined hi lo = (hi << 32) ∣ lo

abbrev pub from_bit : ℕ → ℕ → ℕ
from_bit n pair = u32 (pair >> n)
