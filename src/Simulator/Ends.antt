-- ===== src/Simulator/Ends.antt =====
-- The main loop of `sim_advanced` of crates/maybenot-simulator/src/lib.rs from a world that is ready:
-- it ends where the arguments limit the iterations.
use maybenot_simv.Base.{
  ℕ, zero, suc, ◌+◌, ◌≤◌, ◌<◌, false, List, [], Option, none, some, ◌≡◌, ◌≢◌, refl, arith, inl, inr,
  Bool-cases, length,
}
use maybenot_simv.Outcome.{Outcome, ok, panic, out_of_fuel, Returns, Returns-ok}
use maybenot_simv.SimEvent.{SimEvent}
use maybenot_simv.SimQueue
use maybenot_simv.SimQueue.{SimQueue}
use maybenot_simv.Platform.{Platform}
use maybenot_simv.Dist.Sampling.{Laws}
use maybenot_simv.Framework.{Framework}
use maybenot_simv.TriggerUpdate.Running.{framework_env}
use maybenot_simv.PickNext.{World, pick_next, pending_work}
use maybenot_simv.Simulator.{
  SimulatorArgs, Progress, should_stop, sim_round, sim_loop, sim_advanced,
}
use maybenot_simv.Simulator.Trace.{
  IsChronological, advance-pick_next, sim_round-length, sort-IsChronological, length-sort,
}
use maybenot_simv.Simulator.Returns.{
  WorldIsReady, Picked, RoundLeaves, pick_next-Picked, sim_round-RoundLeaves,
}

stop-iterations :
    (args : SimulatorArgs) (trace : List SimEvent) (iterations : ℕ) (sq : SimQueue)
    → 0 < args.max_sim_iterations
    → should_stop args trace iterations sq ≡ false
    → iterations < args.max_sim_iterations
unfolding should_stop
stop-iterations args trace iterations sq l h = ground arith

-- A trace of no more events than there are iterations.
abbrev IsWithin : SimulatorArgs → List SimEvent → Type 0
IsWithin args out = length out ≤ args.max_sim_iterations

abbrev pub IsTrace : SimulatorArgs → List SimEvent → Type 0
IsTrace args out = IsChronological out × IsWithin args out

module _ {F64 F32 Rng Bins Rand : Type 0} (pl : Platform F64 F32 Rng) (laws : Laws pl)
    (sample : Bins → Rand → Outcome (ℕ × Rand)) where
  module _ (args : SimulatorArgs) where
    sim_loop-IsWithin :
        (fuel : ℕ) (w : World (Framework F64 F32 Rng) Bins Rand) (now : ℕ) (trace : List SimEvent)
        (iterations : ℕ)
        → WorldIsReady pl sample w
        → iterations < args.max_sim_iterations
        → args.max_sim_iterations ≤ iterations + fuel
        → length trace ≤ iterations
        → Returns
            (IsWithin args)
            (sim_loop (framework_env pl sample) fuel args w now trace iterations)
    unfolding sim_loop
    sim_loop-IsWithin zero w now trace iterations k l f t = absurd (omega arith)
    sim_loop-IsWithin (suc fuel) w now trace iterations k l f t =
        picked (λ v n tr j. sim_loop-IsWithin fuel v n tr j) _ refl
          (pick_next-Picked pl laws sample w now k)
      where
        Ih : Type 0
        Ih =
            (v : World (Framework F64 F32 Rng) Bins Rand) (n : ℕ) (tr : List SimEvent) (j : ℕ)
            → WorldIsReady pl sample v
            → j < args.max_sim_iterations
            → args.max_sim_iterations ≤ j + fuel
            → length tr ≤ j
            → Returns (IsWithin args) (sim_loop (framework_env pl sample) fuel args v n tr j)

        Goal : Type 0
        Goal =
            Returns (IsWithin args)
              (sim_loop (framework_env pl sample) (suc fuel) args w now trace iterations)

        rounded :
            Ih
            → (next : SimEvent) (w' : World (Framework F64 F32 Rng) Bins Rand)
            → pick_next (framework_env pl sample) (suc (pending_work w)) w now ≡ ok (some next, w')
            → (r : Outcome (Progress (Framework F64 F32 Rng) Bins Rand))
            → sim_round (framework_env pl sample) args next w' now trace ≡ r
            → Returns (RoundLeaves pl laws sample) r
            → Goal
        rounded ih next w' q (panic b) u h = absurd h
        rounded ih next w' q out_of_fuel u h = absurd h
        rounded ih next w' q (ok p) u h =
            let one = sim_round-length (framework_env pl sample) args next w' now trace p u in
            elim (Bool-cases (should_stop args p.trace (suc iterations) p.world.sq)) [
              | inl s ↦ rw (q, u, s, sim_loop) (omega (arith, one))
              | inr s ↦
                  rw (q, u, s, sim_loop)
                    (ih p.world p.now p.trace (suc iterations) h
                      (stop-iterations args p.trace (suc iterations) p.world.sq (omega arith) s)
                      (omega arith) (omega (arith, one)))
            ]

        picked :
            Ih
            → (r : Outcome (Option SimEvent × World (Framework F64 F32 Rng) Bins Rand))
            → pick_next (framework_env pl sample) (suc (pending_work w)) w now ≡ r
            → Returns (Picked pl laws sample) r
            → Goal
        picked ih (panic b) q h = absurd h
        picked ih out_of_fuel q h = absurd h
        picked ih (ok (none, w')) q h = rw (q, sim_loop) (omega arith)
        picked ih (ok (some next, w')) q h = rounded ih next w' q _ refl (
            sim_round-RoundLeaves pl laws sample args next w' now trace h.0 h.1
              (advance-pick_next (framework_env pl sample) (suc (pending_work w)) w w' now next
                q).0)

    -- When the platform keeps its laws, both sides are ready, their delays can be sampled, no event
    -- lies before the delay that is subtracted from it, there is a first event, the arguments limit the iterations, and there is
    -- fuel for each of them, `sim_advanced` returns: no call of the loop panics, and the trace is in
    -- the order of time, with no more events than iterations.
    pub sim_advanced-IsTrace :
        (fuel : ℕ) (w : World (Framework F64 F32 Rng) Bins Rand)
        → WorldIsReady pl sample w
        → SimQueue.get_first_time w.sq ≢ none
        → 0 < args.max_sim_iterations
        → args.max_sim_iterations ≤ fuel
        → Returns (IsTrace args) (sim_advanced (framework_env pl sample) fuel args w)
    unfolding sim_advanced
    sim_advanced-IsTrace fuel w k h l f = go (SimQueue.get_first_time w.sq) refl
      where
        go :
            (t : Option ℕ)
            → SimQueue.get_first_time w.sq ≡ t
            → Returns (IsTrace args) (sim_advanced (framework_env pl sample) fuel args w)
        go none e = absurd (h e)
        go (some start) e =
            let (trace, u, b) =
              Returns-ok (IsWithin args) (sim_loop (framework_env pl sample) fuel args w start [] 0)
                (sim_loop-IsWithin fuel w start [] 0 k l (omega arith) (omega arith)) in
            rw (e, u, sim_advanced) (sort-IsChronological trace, omega (arith, length-sort trace))
