-- ===== src/Uart/Status.antt =====
-- rtl/soc/uart_axil.v: the sticky flags of STATUS.
use rv32i_core.Prelude.{
  ℕ, ◌^◌, ◌≡◌, refl, ◌∙◌, ap, sym, ◌<◌, Bool, true, false, ◌&&◌, ◌||◌, ◌==◌, List, [], ◌∷◌, bit,
  arith, if◌then◌else◌, All,
}
use rv32i_core.Word.{slice, cat}
use rv32i_core.RegIf.{Wires}
use rv32i_core.Uart.{Transmitter, Receiver, Uart, posedge, reg_rd_data, uart}

-- The inputs of a cycle out of reset.
pub record Inputs : Type 0 where
  pub wires : Wires
  pub rxd : Bool

abbrev reads_status : Inputs → Bool
reads_status i = i.wires.rd_en && slice i.wires.rd_addr 2 2 == 0b01

-- A sticky flag after a cycle, from the pulse, the read and the flag before.
abbrev next_flag : Bool → Bool → Bool → Bool
next_flag pulse read old = if pulse then true else if read then false else old

or_false : (a : Bool) → (a || false) ≡ a
or_false true = refl
or_false false = refl

kept :
    (pulse old later : Bool) {new : Bool}
    → new ≡ next_flag pulse false old
    → (new || later) ≡ (old || (pulse || later))
kept true true later e = rw e refl
kept true false later e = rw e refl
kept false true later e = rw e refl
kept false false later e = rw e refl

cleared : (pulse old : Bool) → next_flag pulse true old ≡ pulse
cleared true old = refl
cleared false old = refl

fields :
    (b v o f : Bool)
    → let value = cat 3 (bit f) (cat 2 (bit o) (cat 1 (bit v) (bit b))) in
      (value < 2 ^ 4)
      × (slice value 0 1 ≡ bit b)
      × (slice value 1 1 ≡ bit v)
      × (slice value 2 1 ≡ bit o)
      × (slice value 3 1 ≡ bit f)
fields b v o f = ground arith

module _ {T R : Type 0} (t : Transmitter T) (r : Receiver R) (prescale_init : ℕ) where
  unfoldable pub drive : Inputs → Uart T R → Uart T R
  unfolding uart
  drive i u = record ((uart t r prescale_init).connect true i.wires u) { rxd = i.rxd }

  unfoldable pub cycle : Inputs → Uart T R → Uart T R
  unfolding posedge drive
  cycle i u = posedge t r prescale_init (drive i u)

  abbrev pub run : List Inputs → Uart T R → Uart T R
  run [] u = u
  run (i ∷ rest) u = run rest (cycle i u)

  -- Whether the receiver has shown a pulse in some cycle of the run.
  abbrev pub seen : (R → Bool) → List Inputs → Uart T R → Bool
  seen pulse [] u = false
  seen pulse (i ∷ rest) u = pulse u.rx || seen pulse rest (cycle i u)

  cycle-overrun_sticky :
      (i : Inputs) (u : Uart T R)
      → (cycle i u).overrun_sticky ≡ next_flag (r.overrun u.rx) (reads_status i) u.overrun_sticky
  unfolding cycle drive posedge uart
  cycle-overrun_sticky i u = refl

  cycle-frame_sticky :
      (i : Inputs) (u : Uart T R)
      → (cycle i u).frame_sticky ≡ next_flag (r.frame u.rx) (reads_status i) u.frame_sticky
  unfolding cycle drive posedge uart
  cycle-frame_sticky i u = refl

  Flags : List Inputs → Uart T R → Uart T R → Type 0
  Flags is u v =
      (v.overrun_sticky ≡ (u.overrun_sticky || seen r.overrun is u))
      × (v.frame_sticky ≡ (u.frame_sticky || seen r.frame is u))

  run-Flags :
      (is : List Inputs) (u : Uart T R)
      → All (λ i. reads_status i ≡ false) is
      → Flags is u (run is u)
  unfolding Flags
  run-Flags [] u quiet = (sym (or_false u.overrun_sticky), sym (or_false u.frame_sticky))
  run-Flags (i ∷ rest) u (none, quiet) =
      let (overrun, frame) = run-Flags rest (cycle i u) quiet in
      (
        overrun
            ∙ kept _ _ _ (
                cycle-overrun_sticky i u
                ∙ ap (λ b. next_flag (r.overrun u.rx) b u.overrun_sticky) none),
        frame
            ∙ kept _ _ _
                (cycle-frame_sticky i u ∙ ap (λ b. next_flag (r.frame u.rx) b u.frame_sticky) none),
      )

  -- After a cycle that reads STATUS and any cycles that do not, a read of STATUS shows in bit 2
  -- whether the receiver has reported an overrun and in bit 3 whether it has reported a frame error
  -- in any of these cycles, the first included; bit 1 shows whether a byte is waiting and bit 0
  -- whether the transmitter is busy.
  pub read-status :
      (i : Inputs) (rest : List Inputs) (addr : ℕ) (u : Uart T R)
      → reads_status i ≡ true
      → All (λ j. reads_status j ≡ false) rest
      → slice addr 2 2 ≡ 1
      → let v = run rest (cycle i u) in
        let value = reg_rd_data t r prescale_init (record v { reg_rd_addr = addr }) in
        (value < 2 ^ 4)
        × (slice value 0 1 ≡ bit (t.busy v.tx))
        × (slice value 1 1 ≡ bit (r.tvalid v.rx))
        × (slice value 2 1 ≡ bit (seen r.overrun (i ∷ rest) u))
        × (slice value 3 1 ≡ bit (seen r.frame (i ∷ rest) u))
  unfolding reg_rd_data Flags
  read-status i rest addr u read quiet at_status =
      let v = run rest (cycle i u) in
      let (overrun, frame) = run-Flags rest (cycle i u) quiet in
      let overrun' : v.overrun_sticky ≡ seen r.overrun (i ∷ rest) u =
        overrun
        ∙ ap (λ b. b || seen r.overrun rest (cycle i u))
            (cycle-overrun_sticky i u
              ∙ ap (λ b. next_flag (r.overrun u.rx) b u.overrun_sticky) read
              ∙ cleared (r.overrun u.rx) u.overrun_sticky) in
      let frame' : v.frame_sticky ≡ seen r.frame (i ∷ rest) u =
        frame
        ∙ ap (λ b. b || seen r.frame rest (cycle i u))
            (cycle-frame_sticky i u
              ∙ ap (λ b. next_flag (r.frame u.rx) b u.frame_sticky) read
              ∙ cleared (r.frame u.rx) u.frame_sticky) in
      rw at_status rw (sym overrun') rw (sym frame')
        (fields (t.busy v.tx) (r.tvalid v.rx) v.overrun_sticky v.frame_sticky)
