-- ===== src/Csr/Traps.antt =====
-- rtl/core/csr.v: trap entry and mret.
use rv32i_core.Prelude.{
  ℕ, ◌≡◌, refl, Bool, true, false, not, ◌||◌, arith, ◌==◌, if◌then◌else◌, bit, List, [], ◌∷◌, All,
  ◌*◌,
}
use rv32i_core.Csr.{
  Csr, eval, posedge, do_write, csr_mstatus, csr_new, enter_trap, return_from_trap, write_register,
}

-- What the core presents to the CSR file in one clock cycle.
pub record Inputs : Type 0 where
  pub bus_stall : Bool
  pub csr_addr : ℕ
  pub csr_wdata : ℕ
  pub csr_op : ℕ
  pub csr_re : Bool
  pub csr_we : Bool
  pub trap : Bool
  pub trap_pc : ℕ
  pub trap_cause : ℕ
  pub is_mret : Bool
  pub timer_irq : Bool

abbrev pub present : Inputs → Csr → Csr
present i d = record d {
  rst_n = true;
  bus_stall = i.bus_stall;
  csr_addr = i.csr_addr;
  csr_wdata = i.csr_wdata;
  csr_op = i.csr_op;
  csr_re = i.csr_re;
  csr_we = i.csr_we;
  trap = i.trap;
  trap_pc = i.trap_pc;
  trap_cause = i.trap_cause;
  is_mret = i.is_mret;
  timer_irq = i.timer_irq;
}

-- One clock cycle, and a sequence of them, the earliest first.
abbrev pub clock : Inputs → Csr → Csr
clock i d = posedge (present i d)

abbrev pub clocks : List Inputs → Csr → Csr
clocks [] d = d
clocks (i ∷ rest) d = clocks rest (clock i d)

clock-enter_trap :
    (i : Inputs) (d : Csr)
    → i.bus_stall ≡ false
    → i.trap ≡ true
    → clock i d ≡ enter_trap (present i d)
unfolding posedge
clock-enter_trap i d h k = rw h rw k refl

clock-return_from_trap :
    (i : Inputs) (d : Csr)
    → i.bus_stall ≡ false
    → i.trap ≡ false
    → i.is_mret ≡ true
    → clock i d ≡ return_from_trap (present i d)
unfolding posedge
clock-return_from_trap i d h k l = rw h rw k rw l refl

-- A cycle of a trap handler that leaves mstatus alone: no trap, no return, and if it writes a CSR,
-- then another one.
abbrev pub SparesMstatus : Inputs → Type 0
SparesMstatus i =
    (i.trap ≡ false)
    × (i.is_mret ≡ false)
    × (not i.csr_we || not (i.csr_addr == csr_mstatus)) ≡ true

-- What mret will restore.
abbrev Saved : Bool → Bool → Csr → Type 0
Saved mie priv d = (d.mstatus_mpie ≡ mie) × (d.mstatus_mpp ≡ bit priv * 3)

enter_trap-Saved : (i : Inputs) (d : Csr) → Saved d.mstatus_mie d.priv_m (enter_trap (present i d))
unfolding enter_trap
enter_trap-Saved i d = (refl, refl)

write_register-Saved :
    (v : ℕ) (mie priv : Bool) (d : Csr)
    → (d.csr_addr == csr_mstatus) ≡ false
    → Saved mie priv d
    → Saved mie priv (write_register v d)
unfolding write_register
write_register-Saved v mie priv d e h = ground arith

write-Saved :
    (v : ℕ) (mie priv : Bool) (d : Csr)
    → (not d.csr_we || not (d.csr_addr == csr_mstatus)) ≡ true
    → Saved mie priv d
    → Saved mie priv (if do_write d then write_register v d else d)
unfolding do_write
write-Saved v mie priv d e h = ground (arith, write_register-Saved v mie priv d)

clock-Saved :
    (i : Inputs) (mie priv : Bool) (d : Csr)
    → SparesMstatus i
    → Saved mie priv d
    → Saved mie priv (clock i d)
unfolding posedge
clock-Saved i mie priv d (no_trap, no_mret, other) h =
    rw no_trap rw no_mret ground
      (arith, write-Saved (csr_new (present i d)) mie priv (present i d) other h)

clocks-Saved :
    (handler : List Inputs) (mie priv : Bool) (d : Csr)
    → All SparesMstatus handler
    → Saved mie priv d
    → Saved mie priv (clocks handler d)
clocks-Saved [] mie priv d spares h = h
clocks-Saved (i ∷ rest) mie priv d spares h =
    clocks-Saved rest mie priv (clock i d) spares.1 (clock-Saved i mie priv d spares.0 h)

return_from_trap-Restored :
    (i : Inputs) (mie priv : Bool) (d : Csr)
    → Saved mie priv d
    → let after = return_from_trap (present i d) in
      (after.mstatus_mie ≡ mie)
      × (after.priv_m ≡ priv)
      × (after.mstatus_mpie ≡ true)
      × (after.mstatus_mpp ≡ 0)
unfolding return_from_trap
return_from_trap-Restored i mie true d h = ground arith
return_from_trap-Restored i mie false d h = ground arith

-- A trap records its address and cause, enters machine mode, and leaves no interrupt pending,
-- whatever the timer line says; after any cycles of a handler that leave mstatus alone, mret gives
-- back the interrupt enable and the mode from before the trap, and drops MPP to user mode.
pub mret_after_trap :
    (enter leave : Inputs) (handler : List Inputs) (d : Csr)
    → (enter.bus_stall ≡ false) × (enter.trap ≡ true)
    → All SparesMstatus handler
    → (leave.bus_stall ≡ false) × (leave.trap ≡ false) × (leave.is_mret ≡ true)
    → let entered = clock enter d in
      let after = clock leave (clocks handler entered) in
      (entered.mepc ≡ enter.trap_pc)
      × (entered.mcause ≡ enter.trap_cause)
      × (entered.priv_m ≡ true)
      × ((eval entered).interrupt_pending ≡ false)
      × (after.mstatus_mie ≡ d.mstatus_mie)
      × (after.priv_m ≡ d.priv_m)
      × (after.mstatus_mpie ≡ true)
      × (after.mstatus_mpp ≡ 0)
unfolding eval enter_trap
mret_after_trap enter leave handler d (moving, trap) spares (moving', no_trap, mret) =
    let saved : Saved d.mstatus_mie d.priv_m (clocks handler (enter_trap (present enter d))) =
      clocks-Saved handler d.mstatus_mie d.priv_m (enter_trap (present enter d)) spares
        (enter_trap-Saved enter d) in
    let (m, p, e, z) =
      return_from_trap-Restored leave d.mstatus_mie d.priv_m
        (clocks handler (enter_trap (present enter d))) saved in
    rw (clock-enter_trap enter d moving trap) rw
      (clock-return_from_trap leave (clocks handler (enter_trap (present enter d))) moving' no_trap
        mret)
      (refl, refl, refl, refl, m, p, e, z)
