-- ===== src/AxilMaster/WritePhase.antt =====
-- A phase of a store up to the slave's response.
use Prim.Native.Nat.{max}
use rv32i_core.Prelude.{ℕ, zero, suc, ◌<◌, ◌≡◌, refl, Bool, arith, ◌⊎◌, inl, inr}
use rv32i_core.AxilMaster.Cycles.{Reaches, one_stall, Reaches-suc}
use rv32i_core.AxilMaster.Phases.{Channel, todo, accepted, IsWriting, IsResponding}
use rv32i_core.AxilMaster.System.{System, cycle}
use rv32i_core.AxilMaster.WriteSteps.{one_cycle, one_cycle_stalls, stored}

-- Cycles until a channel has been accepted.
abbrev remaining : Channel → ℕ
remaining (todo r) = suc r
remaining accepted = 0

module _ (addr v f3 aw_delay w_delay : ℕ) where
  abbrev Writing : Bool → Channel → Channel → (ℕ → ℕ) → System → Type 0
  Writing = IsWriting addr v f3 aw_delay w_delay

  abbrev Responding : Bool → (ℕ → ℕ) → System → Type 0
  Responding = IsResponding addr v f3 aw_delay w_delay

  abbrev written : Bool → (ℕ → ℕ) → ℕ → ℕ
  written = stored addr v f3 aw_delay w_delay

  -- The slower channel of a phase.
  abbrev slower : Channel → Channel → ℕ
  slower a w = max (remaining a) (remaining w)

  -- A cycle of a phase either is its last or leaves one cycle less.
  abbrev Progress : Bool → Channel → Channel → (ℕ → ℕ) → System → Type 0
  Progress p a w mem s =
      ((slower a w ≡ 1) × Responding p (written p mem) s)
      ⊎ ((a' : Channel) × (w' : Channel) × (slower a w ≡ suc (slower a' w'))
          × (0 < slower a' w')
          × Writing p a' w' mem s)

  progress :
      (p : Bool) (a w : Channel) (mem : ℕ → ℕ) (s : System)
      → 0 < slower a w
      → Writing p a w mem s
      → Progress p a w mem (cycle s).sys
  progress p (todo zero) (todo zero) mem s e h =
      inl (refl, one_cycle addr v f3 aw_delay w_delay p (todo zero) (todo zero) mem s h)
  progress p (todo zero) accepted mem s e h =
      inl (refl, one_cycle addr v f3 aw_delay w_delay p (todo zero) accepted mem s h)
  progress p accepted (todo zero) mem s e h =
      inl (refl, one_cycle addr v f3 aw_delay w_delay p accepted (todo zero) mem s h)
  progress p (todo zero) (todo (suc r)) mem s e h = inr (
    accepted,
    todo r,
    omega arith,
    omega arith,
    one_cycle addr v f3 aw_delay w_delay p (todo zero) (todo (suc r)) mem s h,
  )
  progress p (todo (suc q)) (todo zero) mem s e h = inr (
    todo q,
    accepted,
    omega arith,
    omega arith,
    one_cycle addr v f3 aw_delay w_delay p (todo (suc q)) (todo zero) mem s h,
  )
  progress p (todo (suc q)) (todo (suc r)) mem s e h = inr (
    todo q,
    todo r,
    omega arith,
    omega arith,
    one_cycle addr v f3 aw_delay w_delay p (todo (suc q)) (todo (suc r)) mem s h,
  )
  progress p (todo (suc q)) accepted mem s e h = inr (
    todo q,
    accepted,
    omega arith,
    omega arith,
    one_cycle addr v f3 aw_delay w_delay p (todo (suc q)) accepted mem s h,
  )
  progress p accepted (todo (suc r)) mem s e h = inr (
    accepted,
    todo r,
    omega arith,
    omega arith,
    one_cycle addr v f3 aw_delay w_delay p accepted (todo (suc r)) mem s h,
  )
  progress p accepted accepted mem s e h = absurd (omega arith)

  -- Both channels are accepted after as many cycles as the slower one needs.
  pub phase_runs :
      (k : ℕ) (p : Bool) (a w : Channel) (mem : ℕ → ℕ) (s : System)
      → slower a w ≡ k
      → 0 < k
      → Writing p a w mem s
      → (s' : System) × Reaches k s s' × Responding p (written p mem) s'
  phase_runs zero p a w mem s e pos h = absurd (omega arith)
  phase_runs (suc k) p a w mem s e pos h =
      let first = one_stall s (one_cycle_stalls addr v f3 aw_delay w_delay p a w mem s h) in
      elim (progress p a w mem s (omega arith) h) [
        | inl (last, answered) ↦
            let done : 1 ≡ suc k = omega arith in ((cycle s).sys, rw (← done) first, answered)
        | inr (a', w', less, more, still) ↦
            let (s', reached, answered) =
              phase_runs k p a' w' mem (cycle s).sys (omega arith) (omega arith) still in
            let stall = one_cycle_stalls addr v f3 aw_delay w_delay p a w mem s h in
            (s', Reaches-suc k s s' stall reached, answered)
      ]
