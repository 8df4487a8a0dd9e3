-- ===== src/Regfile/Ports.antt =====
-- What the read ports of the register file show.
use rv32i_core.Prelude.{
  ℕ, ◌≡◌, refl, List, [], ◌∷◌, ◌++◌, Bool, true, false, ◌&&◌, arith, ◌==◌, if◌then◌else◌,
}
use rv32i_core.Regfile.{Regfile, read_port, posedge}

-- With BYPASS = 1 a port shows, before the edge, what a port without the bypass shows after it:
-- the write of the running cycle is already visible, and x0 stays 0.
pub read_port_bypass : (d : Regfile) (a : ℕ) → read_port true d a ≡ read_port false (posedge d) a
unfolding read_port posedge
read_port_bypass d a = ground arith

-- What is on the write port in one clock cycle.
pub record Write : Type 0 where
  pub we : Bool
  pub addr : ℕ
  pub value : ℕ

-- The register file after the edges of the given cycles, the earliest first.
abbrev pub after : List Write → Regfile → Regfile
after [] d = d
after (w ∷ ws) d =
    after ws (posedge (record d { rd_we = w.we; rd_addr = w.addr; rd_data = w.value }))

-- The last enabled write to `a`, or `old` if there is none.
abbrev pub last_write : List Write → ℕ → ℕ → ℕ
last_write [] a old = old
last_write (w ∷ ws) a old = last_write ws a (if w.we && w.addr == a then w.value else old)

regs-posedge :
    (d : Regfile) (a : ℕ)
    → (a == 0) ≡ false
    → (posedge d).regs a ≡ (if d.rd_we && d.rd_addr == a then d.rd_data else d.regs a)
unfolding posedge
regs-posedge d a h = ground arith

regs-after :
    (ws : List Write) (d : Regfile) (a : ℕ)
    → (a == 0) ≡ false
    → (after ws d).regs a ≡ last_write ws a (d.regs a)
regs-after [] d a h = refl
regs-after (w ∷ ws) d a h =
    let d' : Regfile = record d { rd_we = w.we; rd_addr = w.addr; rd_data = w.value } in
    rw (← regs-posedge d' a h) (regs-after ws (posedge d') a h)

last_write-append :
    (ws : List Write) (w : Write) (a old : ℕ)
    → last_write (ws ++ w ∷ []) a old
      ≡ (if w.we && w.addr == a then w.value else last_write ws a old)
last_write-append [] w a old = refl
last_write-append (v ∷ ws) w a old =
    last_write-append ws w a (if v.we && v.addr == a then v.value else old)

-- After any clock cycles, with any write on the port in the running cycle, a read port shows 0 at x0
-- and elsewhere the last value written: with BYPASS = 1 the write of the running cycle counts, with
-- BYPASS = 0 it does not. An address that was never written shows what the array held at first.
pub read_port-after :
    (bypass : Bool) (ws : List Write) (w : Write) (d : Regfile) (a : ℕ)
    → read_port bypass (record (after ws d) { rd_we = w.we; rd_addr = w.addr; rd_data = w.value }) a
      ≡ (if a == 0 then 0 else last_write (if bypass then ws ++ w ∷ [] else ws) a (d.regs a))
unfolding read_port
read_port-after true ws w d a =
    ground (arith, regs-after ws d a, last_write-append ws w a (d.regs a))
read_port-after false ws w d a = ground (arith, regs-after ws d a)
