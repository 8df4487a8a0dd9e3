-- ===== src/AxilMaster/Store.antt =====
-- The run of a whole store of sim/verilator/tb_axil_master.cpp: its cycles, and the words of its
-- phases.
use Prim.Native.Nat.{max}
use rv32i_core.Prelude.{
  ℕ, suc, ◌+◌, ◌*◌, ◌≡◌, refl, Bool, true, false, arith, if◌then◌else◌, not, ◌&&◌, some, Bool-cases,
  inl, inr,
}
use rv32i_core.AxilMaster.Cycles.{IsQuiet, Reaches, Reaches-end, one_stall, Reaches-trans}
use rv32i_core.AxilMaster.Lanes.{crosses}
use rv32i_core.AxilMaster.System.{System, cycle, Done, start_store, end_store, do_store}
use rv32i_core.AxilMaster.Phases.{Channel, todo, IsWriting, IsResponding}
use rv32i_core.AxilMaster.WriteSteps.{stored}
use rv32i_core.AxilMaster.WritePhase.{phase_runs}

module _ (addr v f3 aw_delay w_delay : ℕ) where
  abbrev Writing : Bool → Channel → Channel → (ℕ → ℕ) → System → Type 0
  Writing = IsWriting addr v f3 aw_delay w_delay

  abbrev Responding : Bool → (ℕ → ℕ) → System → Type 0
  Responding = IsResponding addr v f3 aw_delay w_delay

  abbrev written : Bool → (ℕ → ℕ) → ℕ → ℕ
  written = stored addr v f3 aw_delay w_delay

  store_starts :
      (s : System)
      → IsQuiet s
      → let t = start_store addr v f3 aw_delay w_delay s in
        Writing false (todo aw_delay) (todo w_delay) s.slave.mem (cycle t).sys
        × ((cycle t).stall ≡ true)
  unfolding cycle start_store
  store_starts s h = ground arith

  -- The second phase follows at once if the access crosses into the next word.
  second_phase_starts :
      (mem : ℕ → ℕ) (s : System)
      → crosses addr f3 ≡ true
      → Responding false mem s
      → Writing true (todo aw_delay) (todo w_delay) mem (cycle s).sys × ((cycle s).stall ≡ true)
  unfolding cycle
  second_phase_starts mem s c h = ground arith

  last_phase_ends :
      (p : Bool) (mem : ℕ → ℕ) (s : System)
      → (crosses addr f3 && not p) ≡ false
      → Responding p mem s
      → IsQuiet (end_store (cycle s).sys)
        × ((cycle s).sys.slave.mem ≡ mem)
        × ((cycle s).stall ≡ false)
  unfolding cycle end_store
  last_phase_ends p mem s c h = ground arith

  -- The cycles of a store: one to start, and one more than the longer delay and one for the
  -- response in every phase.
  abbrev pub store_cycles : ℕ
  store_cycles = if crosses addr f3 then 2 * max aw_delay w_delay + 5 else max aw_delay w_delay + 3

  -- The memory after the store.
  abbrev pub store_mem : (ℕ → ℕ) → ℕ → ℕ
  store_mem mem = if crosses addr f3 then written true (written false mem) else written false mem

  one_phase :
      (p : Bool) (mem : ℕ → ℕ) (s : System)
      → Writing p (todo aw_delay) (todo w_delay) mem s
      → (s' : System) × Reaches (max aw_delay w_delay + 1) s s' × Responding p (written p mem) s'
  one_phase p mem s h =
      phase_runs addr v f3 aw_delay w_delay (max aw_delay w_delay + 1) p (todo aw_delay)
        (todo w_delay) mem s (omega arith) (omega arith) h

  second_phase_stalls :
      (mem : ℕ → ℕ) (s : System)
      → crosses addr f3 ≡ true
      → Responding false mem s
      → Reaches 1 s (cycle s).sys
  second_phase_stalls mem s c h =
      let (next, stall) = second_phase_starts mem s c h in one_stall s stall

  -- The last cycle of a store ends the loop.
  last_cycle :
      (p : Bool) (k total : ℕ) (mem : ℕ → ℕ) (s s' : System)
      → total ≡ suc k
      → (crosses addr f3 && not p) ≡ false
      → Reaches k (start_store addr v f3 aw_delay w_delay s) s'
      → Responding p mem s'
      → (fuel : ℕ)
      → (r : Done) × (do_store (fuel + total) addr v f3 aw_delay w_delay s ≡ some r)
        × IsQuiet r.sys
        × (r.sys.slave.mem ≡ mem)
        × (r.cycles ≡ total)
  unfolding end_store do_store
  last_cycle p k total mem s s' e c h answered fuel =
      let (quiet, mem_is, stall) = last_phase_ends p mem s' c answered in
      let count : k + 1 ≡ total = omega arith in
      (
        record { sys = end_store (cycle s').sys; rdata = (cycle s').rdata; cycles = k + 1 },
        rw (Reaches-end k total (start_store addr v f3 aw_delay w_delay s) s' fuel e h stall) refl,
        quiet,
        mem_is,
        count,
      )

  -- All cycles of a store within one word but the last.
  aligned-Reaches :
      (s : System)
      → IsQuiet s
      → (s' : System) × Reaches
          (max aw_delay w_delay + 2)
          (start_store addr v f3 aw_delay w_delay s)
          s'
        × Responding false (written false s.slave.mem) s'
  aligned-Reaches s q =
      let t = start_store addr v f3 aw_delay w_delay s in
      let (writing, stall) = store_starts s q in
      let (s', reached, answered) = one_phase false s.slave.mem (cycle t).sys writing in
      let total : 1 + (max aw_delay w_delay + 1) ≡ max aw_delay w_delay + 2 = omega arith in
      (
        s',
        rw (← total) (
            Reaches-trans 1 (max aw_delay w_delay + 1) t (cycle t).sys s' (one_stall t stall)
              reached),
        answered,
      )

  -- All cycles of a store across two words but the last.
  crossing-Reaches :
      (s : System)
      → crosses addr f3 ≡ true
      → IsQuiet s
      → (s' : System) × Reaches
          (2 * max aw_delay w_delay + 4)
          (start_store addr v f3 aw_delay w_delay s)
          s'
        × Responding true (written true (written false s.slave.mem)) s'
  crossing-Reaches s c q =
      let t = start_store addr v f3 aw_delay w_delay s in
      let mem = written false s.slave.mem in
      let (u, reached, answered) = aligned-Reaches s q in
      let (writing, stall) = second_phase_starts mem u c answered in
      let (s', reached', answered') = one_phase true mem (cycle u).sys writing in
      let half : 1 + (max aw_delay w_delay + 1) ≡ max aw_delay w_delay + 2 = omega arith in
      let total : (max aw_delay w_delay + 2) + (1 + (max aw_delay w_delay + 1))
          ≡ 2 * max aw_delay w_delay + 4 =
        omega arith in
      let second =
        Reaches-trans 1 (max aw_delay w_delay + 1) u (cycle u).sys s' (one_stall u stall)
          reached' in
      (
        s',
        rw (← total) (
            Reaches-trans (max aw_delay w_delay + 2) (1 + (max aw_delay w_delay + 1)) t u s' reached
              second),
        answered',
      )

  -- What a store does to a quiet system, given enough fuel.
  abbrev StoreResult : ℕ → System → Type 0
  StoreResult fuel s =
      (r : Done) × (do_store (fuel + store_cycles) addr v f3 aw_delay w_delay s ≡ some r)
      × IsQuiet r.sys
      × (r.sys.slave.mem ≡ store_mem s.slave.mem)
      × (r.cycles ≡ store_cycles)

  -- The word of the one phase is written, or of the two phases in order.
  pub store_completes : (fuel : ℕ) (s : System) → IsQuiet s → StoreResult fuel s
  store_completes fuel s q = elim (Bool-cases (crosses addr f3)) [
    | inl c ↦
        let (s', reached, answered) = crossing-Reaches s c q in
        rw c (
          last_cycle true (2 * max aw_delay w_delay + 4) (2 * max aw_delay w_delay + 5)
            (written true (written false s.slave.mem)) s s' (omega arith) (rw c refl) reached
            answered fuel)
    | inr c ↦
        let (s', reached, answered) = aligned-Reaches s q in
        rw c (
          last_cycle false (max aw_delay w_delay + 2) (max aw_delay w_delay + 3)
            (written false s.slave.mem) s s' (omega arith) (rw c refl) reached answered fuel)
  ]
