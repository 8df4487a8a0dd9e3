-- ===== src/AxilMaster/WriteSteps.antt =====
-- One clock cycle of a store, in every state of its two request channels.
use rv32i_core.Prelude.{ℕ, zero, suc, ◌≡◌, Bool, true, arith}
use rv32i_core.AxilMaster.Slave.{wr_word}
use rv32i_core.AxilMaster.System.{System, cycle}
use rv32i_core.AxilMaster.Phases.{
  Channel, todo, accepted, InPhase, IsWriting, IsResponding, target, lanes, word,
}

module _ (addr v f3 aw_delay w_delay : ℕ) where
  abbrev Writing : Bool → Channel → Channel → (ℕ → ℕ) → System → Type 0
  Writing = IsWriting addr v f3 aw_delay w_delay

  abbrev Phase : Bool → System → Type 0
  Phase = InPhase addr v f3 aw_delay w_delay

  abbrev Responding : Bool → (ℕ → ℕ) → System → Type 0
  Responding = IsResponding addr v f3 aw_delay w_delay

  -- The memory after the word of phase p.
  abbrev pub stored : Bool → (ℕ → ℕ) → ℕ → ℕ
  stored p mem =
      wr_word (target addr v f3 aw_delay w_delay p) (word addr v f3 aw_delay w_delay p)
        (lanes addr v f3 aw_delay w_delay p) mem

  -- What a cycle makes of the channels: the response comes when both have been accepted.
  abbrev pub After : Bool → Channel → Channel → (ℕ → ℕ) → System → Type 0
  After p (todo zero) (todo zero) mem s = Responding p (stored p mem) s
  After p (todo zero) accepted mem s = Responding p (stored p mem) s
  After p accepted (todo zero) mem s = Responding p (stored p mem) s
  After p (todo zero) (todo (suc r)) mem s = Writing p accepted (todo r) mem s
  After p (todo (suc r)) (todo zero) mem s = Writing p (todo r) accepted mem s
  After p (todo (suc q)) (todo (suc r)) mem s = Writing p (todo q) (todo r) mem s
  After p (todo (suc q)) accepted mem s = Writing p (todo q) accepted mem s
  After p accepted (todo (suc r)) mem s = Writing p accepted (todo r) mem s
  After p accepted accepted mem s = Unit

  Writing-InPhase :
      (p : Bool) (a w : Channel) (mem : ℕ → ℕ) (s : System)
      → Writing p a w mem s
      → Phase p (cycle s).sys
  unfolding cycle
  Writing-InPhase p a w mem s h = record {
    storing = ground arith;
    phase_is = ground arith;
    awaddr_is = ground arith;
    wdata_is = ground arith;
    wstrb_is = ground arith;
  }

  step_both_zero :
      (p : Bool) (mem : ℕ → ℕ) (s : System)
      → Writing p (todo zero) (todo zero) mem s
      → Responding p (stored p mem) (cycle s).sys
  unfolding cycle
  step_both_zero p mem s h = record {
    in_phase = Writing-InPhase p (todo zero) (todo zero) mem s h;
    state_is = ground arith;
    answered = ground arith;
    no_aw = ground arith;
    no_w = ground arith;
    mem_is = ground arith;
  }

  step_zero_accepted :
      (p : Bool) (mem : ℕ → ℕ) (s : System)
      → Writing p (todo zero) accepted mem s
      → Responding p (stored p mem) (cycle s).sys
  unfolding cycle
  step_zero_accepted p mem s h = record {
    in_phase = Writing-InPhase p (todo zero) accepted mem s h;
    state_is = ground arith;
    answered = ground arith;
    no_aw = ground arith;
    no_w = ground arith;
    mem_is = ground arith;
  }

  step_accepted_zero :
      (p : Bool) (mem : ℕ → ℕ) (s : System)
      → Writing p accepted (todo zero) mem s
      → Responding p (stored p mem) (cycle s).sys
  unfolding cycle
  step_accepted_zero p mem s h = record {
    in_phase = Writing-InPhase p accepted (todo zero) mem s h;
    state_is = ground arith;
    answered = ground arith;
    no_aw = ground arith;
    no_w = ground arith;
    mem_is = ground arith;
  }

  step_zero_later :
      (p : Bool) (r : ℕ) (mem : ℕ → ℕ) (s : System)
      → Writing p (todo zero) (todo (suc r)) mem s
      → Writing p accepted (todo r) mem (cycle s).sys
  unfolding cycle
  step_zero_later p r mem s h = record {
    in_phase = Writing-InPhase p (todo zero) (todo (suc r)) mem s h;
    state_is = ground arith;
    unanswered = ground arith;
    mem_is = ground arith;
    aw_at = ground arith;
    w_at = ground arith;
  }

  step_later_zero :
      (p : Bool) (q : ℕ) (mem : ℕ → ℕ) (s : System)
      → Writing p (todo (suc q)) (todo zero) mem s
      → Writing p (todo q) accepted mem (cycle s).sys
  unfolding cycle
  step_later_zero p q mem s h = record {
    in_phase = Writing-InPhase p (todo (suc q)) (todo zero) mem s h;
    state_is = ground arith;
    unanswered = ground arith;
    mem_is = ground arith;
    aw_at = ground arith;
    w_at = ground arith;
  }

  step_later_later :
      (p : Bool) (q r : ℕ) (mem : ℕ → ℕ) (s : System)
      → Writing p (todo (suc q)) (todo (suc r)) mem s
      → Writing p (todo q) (todo r) mem (cycle s).sys
  unfolding cycle
  step_later_later p q r mem s h = record {
    in_phase = Writing-InPhase p (todo (suc q)) (todo (suc r)) mem s h;
    state_is = ground arith;
    unanswered = ground arith;
    mem_is = ground arith;
    aw_at = ground arith;
    w_at = ground arith;
  }

  step_later_accepted :
      (p : Bool) (q : ℕ) (mem : ℕ → ℕ) (s : System)
      → Writing p (todo (suc q)) accepted mem s
      → Writing p (todo q) accepted mem (cycle s).sys
  unfolding cycle
  step_later_accepted p q mem s h = record {
    in_phase = Writing-InPhase p (todo (suc q)) accepted mem s h;
    state_is = ground arith;
    unanswered = ground arith;
    mem_is = ground arith;
    aw_at = ground arith;
    w_at = ground arith;
  }

  step_accepted_later :
      (p : Bool) (r : ℕ) (mem : ℕ → ℕ) (s : System)
      → Writing p accepted (todo (suc r)) mem s
      → Writing p accepted (todo r) mem (cycle s).sys
  unfolding cycle
  step_accepted_later p r mem s h = record {
    in_phase = Writing-InPhase p accepted (todo (suc r)) mem s h;
    state_is = ground arith;
    unanswered = ground arith;
    mem_is = ground arith;
    aw_at = ground arith;
    w_at = ground arith;
  }

  -- One cycle of ST_WRITE, whatever the channels wait for.
  pub one_cycle :
      (p : Bool) (a w : Channel) (mem : ℕ → ℕ) (s : System)
      → Writing p a w mem s
      → After p a w mem (cycle s).sys
  one_cycle p (todo zero) (todo zero) mem s h = step_both_zero p mem s h
  one_cycle p (todo zero) accepted mem s h = step_zero_accepted p mem s h
  one_cycle p accepted (todo zero) mem s h = step_accepted_zero p mem s h
  one_cycle p (todo zero) (todo (suc r)) mem s h = step_zero_later p r mem s h
  one_cycle p (todo (suc q)) (todo zero) mem s h = step_later_zero p q mem s h
  one_cycle p (todo (suc q)) (todo (suc r)) mem s h = step_later_later p q r mem s h
  one_cycle p (todo (suc q)) accepted mem s h = step_later_accepted p q mem s h
  one_cycle p accepted (todo (suc r)) mem s h = step_accepted_later p r mem s h
  one_cycle p accepted accepted mem s h = tt

  pub one_cycle_stalls :
      (p : Bool) (a w : Channel) (mem : ℕ → ℕ) (s : System)
      → Writing p a w mem s
      → (cycle s).stall ≡ true
  unfolding cycle
  one_cycle_stalls p a w mem s h = ground arith
