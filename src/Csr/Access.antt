-- ===== src/Csr/Access.antt =====
-- rtl/core/csr.v: what an access leaves behind, register by register.
use rv32i_core.Prelude.{
  ℕ, ◌+◌, ◌*◌, ◌^◌, ◌≡◌, refl, Bool, true, false, ◌&&◌, ◌||◌, arith, ◌==◌, if◌then◌else◌, bit,
}
use rv32i_core.Word.{slice}
use rv32i_core.Csr.{
  Csr, posedge, read_value, csr_new, do_write, csr_mstatus, csr_mie, csr_mtvec, csr_mscratch,
  csr_mepc, csr_mcause, write_register,
}

-- The bits of a write that the register at `addr` keeps.
abbrev pub legal : ℕ → ℕ → ℕ → ℕ
legal addr v old =
    if addr == csr_mstatus
    then slice v 3 1 * 2 ^ 3 + slice v 7 1 * 2 ^ 7 + slice v 11 2 * 2 ^ 11
    else if addr == csr_mie
    then slice v 7 1 * 2 ^ 7
    else if addr == csr_mtvec
    then v
    else if addr == csr_mscratch
    then v
    else if addr == csr_mepc
    then v
    else if addr == csr_mcause
    then v
    else old

slice_bit_lem : (v k : ℕ) → bit (slice v k 1 == 1) ≡ slice v k 1
slice_bit_lem v k = ground arith

abbrev Writes : ℕ → ℕ → Csr → Type 0
Writes addr v d =
    read_value addr (write_register v d)
    ≡ (if addr == d.csr_addr then legal addr v (read_value addr d) else read_value addr d)

mstatus-Writes : (addr v : ℕ) (d : Csr) → d.csr_addr ≡ csr_mstatus → Writes addr v d
unfolding read_value write_register
mstatus-Writes addr v d e = rw e ground (arith, slice_bit_lem v 3, slice_bit_lem v 7)

mie-Writes : (addr v : ℕ) (d : Csr) → d.csr_addr ≡ csr_mie → Writes addr v d
unfolding read_value write_register
mie-Writes addr v d e = rw e ground (arith, slice_bit_lem v 7)

mtvec-Writes : (addr v : ℕ) (d : Csr) → d.csr_addr ≡ csr_mtvec → Writes addr v d
unfolding read_value write_register
mtvec-Writes addr v d e = rw e ground arith

mscratch-Writes : (addr v : ℕ) (d : Csr) → d.csr_addr ≡ csr_mscratch → Writes addr v d
unfolding read_value write_register
mscratch-Writes addr v d e = rw e ground arith

mepc-Writes : (addr v : ℕ) (d : Csr) → d.csr_addr ≡ csr_mepc → Writes addr v d
unfolding read_value write_register
mepc-Writes addr v d e = rw e ground arith

mcause-Writes : (addr v : ℕ) (d : Csr) → d.csr_addr ≡ csr_mcause → Writes addr v d
unfolding read_value write_register
mcause-Writes addr v d e = rw e ground arith

-- An address that holds no register of the file.
abbrev is_register : ℕ → Bool
is_register addr =
    addr == csr_mstatus
    || addr == csr_mie
    || addr == csr_mtvec
    || addr == csr_mscratch
    || addr == csr_mepc
    || addr == csr_mcause

writes_nothing : (addr v : ℕ) (d : Csr) → is_register d.csr_addr ≡ false → write_register v d ≡ d
unfolding write_register
writes_nothing addr v d e = ground arith

drops : (addr v old : ℕ) → is_register addr ≡ false → legal addr v old ≡ old
drops addr v old e = ground arith

read_value-write_register : (addr v : ℕ) (d : Csr) → Writes addr v d
read_value-write_register addr v d = ground (
  arith,
  mstatus-Writes addr v d,
  mie-Writes addr v d,
  mtvec-Writes addr v d,
  mscratch-Writes addr v d,
  mepc-Writes addr v d,
  mcause-Writes addr v d,
  writes_nothing addr v d,
  drops addr v (read_value addr d),
)

posedge-do_write :
    (d : Csr)
    → d.rst_n ≡ true
    → d.bus_stall ≡ false
    → d.trap ≡ false
    → d.is_mret ≡ false
    → posedge d ≡ (if do_write d then write_register (csr_new d) d else d)
unfolding posedge
posedge-do_write d h₁ h₂ h₃ h₄ = rw h₁ rw h₂ rw h₃ rw h₄ refl

-- In a running cycle with no stall, trap or return, the CSR at `addr` reads afterwards the legal
-- bits of the new value if the access writes it, and what it read before if not.
pub read_value-posedge :
    (addr : ℕ) (d : Csr)
    → d.rst_n ≡ true
    → d.bus_stall ≡ false
    → d.trap ≡ false
    → d.is_mret ≡ false
    → read_value addr (posedge d) ≡ (
        if do_write d && addr == d.csr_addr
        then legal addr (csr_new d) (read_value addr d)
        else read_value addr d)
read_value-posedge addr d h₁ h₂ h₃ h₄ =
    ground (arith, posedge-do_write d h₁ h₂ h₃ h₄, read_value-write_register addr (csr_new d) d)
