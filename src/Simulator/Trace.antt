-- ===== src/Simulator/Trace.antt =====
-- The trace that `sim_advanced` returns: its order and its length; and time in the loop.
use maybenot_simv.Base.{
  ℕ, zero, suc, ◌+◌, ◌≤◌, ◌<◌, Bool, false, List, [], ◌∷◌, Option, none, some, ◌≡◌, refl, arith,
  inl, inr, Bool-cases, All, All-map, length, length-append, leb, subst, not,
}
use maybenot_simv.Outcome.{Outcome, ok, panic, out_of_fuel, >>=-eq-ok, unwrap}
use maybenot_simv.SimEvent.{SimEvent}
use maybenot_simv.SimQueue
use maybenot_simv.SimQueue.{SimQueue}
use maybenot_simv.SimState.{Env}
use maybenot_simv.NetworkStack.{sim_network_stack}
use maybenot_simv.TriggerUpdate.{trigger_update}
use maybenot_simv.PickNext.{World, pick_next, pending_work, side_state}
use maybenot_simv.PickNext.Time.{pick_next-le}
use maybenot_simv.Simulator.{
  SimulatorArgs, Progress, adjust, record_event, should_stop, insert_by_time, sort_by_time, advance,
  sim_round, network_round, trigger_round, end_round, sim_loop, sim_advanced,
}

-- No event is later than one behind it.
abbrev pub IsChronological : List SimEvent → Type 0
IsChronological [] = Unit {0}
IsChronological (e ∷ es) = All (λ x. e.time ≤ x.time) es × IsChronological es

insert_All :
    (t : ℕ) (e : SimEvent) (es : List SimEvent)
    → t ≤ e.time
    → All (λ x. t ≤ x.time) es
    → All (λ x. t ≤ x.time) (insert_by_time e es)
unfolding insert_by_time
insert_All t e [] h k = (h, tt)
insert_All t e (x ∷ xs) h k = ground (arith, insert_All t e xs h k.1)

insert-IsChronological :
    (e : SimEvent) (es : List SimEvent) → IsChronological es → IsChronological (insert_by_time e es)
unfolding insert_by_time
insert-IsChronological e [] k = (tt, tt)
insert-IsChronological e (x ∷ xs) k = elim (Bool-cases (leb e.time x.time)) [
  | inl t ↦ rw t ((ground arith, All-map xs (λ y h. ground arith) k.0), k)
  | inr t ↦ rw t (insert_All x.time e xs (ground arith) k.0, insert-IsChronological e xs k.1)
]

pub sort-IsChronological : (es : List SimEvent) → IsChronological (sort_by_time es)
unfolding sort_by_time
sort-IsChronological [] = tt
sort-IsChronological (e ∷ es) = insert-IsChronological e (sort_by_time es) (sort-IsChronological es)

length-insert : (e : SimEvent) (es : List SimEvent) → length (insert_by_time e es) ≡ suc (length es)
unfolding insert_by_time
length-insert e [] = refl
length-insert e (x ∷ xs) = ground (arith, length-insert e xs)

pub length-sort : (es : List SimEvent) → length (sort_by_time es) ≡ length es
unfolding sort_by_time
length-sort [] = refl
length-sort (e ∷ es) = omega (arith, length-insert e (sort_by_time es), length-sort es)

length-record_event :
    (args : SimulatorArgs) (b : Bool) (next : SimEvent) (trace trace' : List SimEvent)
    → record_event args b next trace ≡ ok trace'
    → length trace' ≤ length trace + 1
unfolding record_event
length-record_event args b next trace trace' h = go (adjust next) refl
  where
    go : (a : Outcome SimEvent) → adjust next ≡ a → length trace' ≤ length trace + 1
    go (ok e) p = ground (arith, length-append trace (e ∷ []))
    go (panic x) p = ground arith
    go out_of_fuel p = ground arith

module _ {Fw Bins Rng : Type 0} (env : Env Fw Bins Rng) where
  -- When `pick_next` returns an event, the time goes on to that of the event: the panic on an event
  -- that moves time backwards is out of reach.
  pub advance-pick_next :
      (fuel : ℕ) (w w' : World Fw Bins Rng) (now : ℕ) (e : SimEvent)
      → pick_next env fuel w now ≡ ok (some e, w')
      → (advance e now ≡ ok e.time) × (now ≤ e.time)
  unfolding advance
  advance-pick_next fuel w w' now e h =
      let l = pick_next-le env fuel w w' now e h in (ground arith, l)

  pub sim_round-length :
      (args : SimulatorArgs) (next : SimEvent) (w : World Fw Bins Rng) (now : ℕ)
      (trace : List SimEvent) (p : Progress Fw Bins Rng)
      → sim_round env args next w now trace ≡ ok p
      → length p.trace ≤ length trace + 1
  unfolding sim_round
  sim_round-length args next w now trace p h =
      let (now', _, h1) = >>=-eq-ok (advance next now) (network_round env args next w trace) h in
      let (r, _, h2) =
        >>=-eq-ok
          (sim_network_stack env next (side_state w next.client) (side_state w (not next.client))
            (w.sq, w.network) now' w.rng)
          (trigger_round env args next w trace now') h1 in
      let (t, _, h3) =
        >>=-eq-ok (trigger_update env (side_state w next.client) next now' r.1.0 next.client r.2)
          (end_round args next w trace now' r) h2 in
      let (trace', e, h4) = >>=-eq-ok (record_event args r.0 next trace) _ h3 in
      ground (arith, length-record_event args r.0 next trace trace' e)

  stop-length :
      (args : SimulatorArgs) (trace : List SimEvent) (iterations : ℕ) (sq : SimQueue)
      → 0 < args.max_trace_length
      → should_stop args trace iterations sq ≡ false
      → length trace < args.max_trace_length
  unfolding should_stop
  stop-length args trace iterations sq l h = ground arith

  sim_loop-length :
      (fuel : ℕ) (args : SimulatorArgs) (w : World Fw Bins Rng) (now : ℕ) (trace : List SimEvent)
      (iterations : ℕ) (out : List SimEvent)
      → length trace < args.max_trace_length
      → sim_loop env fuel args w now trace iterations ≡ ok out
      → length out ≤ args.max_trace_length
  unfolding sim_loop
  sim_loop-length zero args w now trace iterations out l h = cc
  sim_loop-length (suc fuel) args w now trace iterations out l h =
      picked (λ v t tr j. sim_loop-length fuel args v t tr j out)
        (pick_next env (suc (pending_work w)) w now) refl
    where
      Ih : Type 0
      Ih =
          (v : World Fw Bins Rng) (t : ℕ) (tr : List SimEvent) (j : ℕ)
          → length tr < args.max_trace_length
          → sim_loop env fuel args v t tr j ≡ ok out
          → length out ≤ args.max_trace_length

      rounded :
          Ih
          → (next : SimEvent) (w' : World Fw Bins Rng)
          → pick_next env (suc (pending_work w)) w now ≡ ok (some next, w')
          → (r : Outcome (Progress Fw Bins Rng)) → sim_round env args next w' now trace ≡ r
          → length out ≤ args.max_trace_length
      rounded ih next w' q (panic b) u = absurd (cc (rw (q, u, sim_loop) at h))
      rounded ih next w' q out_of_fuel u = absurd (cc (rw (q, u, sim_loop) at h))
      rounded ih next w' q (ok p) u =
          elim (Bool-cases (should_stop args p.trace (suc iterations) p.world.sq)) [
            | inl t ↦
                let e : ok p.trace ≡ ok out = rw (q, u, t, sim_loop) at h in
                ground (arith, sim_round-length args next w' now trace p u)
            | inr t ↦
                ih p.world p.now p.trace (suc iterations)
                  (stop-length args p.trace (suc iterations) p.world.sq (omega arith) t)
                  (rw (q, u, t, sim_loop) at h)
          ]

      picked :
          Ih
          → (r : Outcome (Option SimEvent × World Fw Bins Rng))
          → pick_next env (suc (pending_work w)) w now ≡ r
          → length out ≤ args.max_trace_length
      picked ih (panic b) q = absurd (cc (rw (q, sim_loop) at h))
      picked ih out_of_fuel q = absurd (cc (rw (q, sim_loop) at h))
      picked ih (ok (none, w')) q =
          let e : ok trace ≡ ok out = rw (q, sim_loop) at h in ground arith
      picked ih (ok (some next, w')) q =
          rounded ih next w' q (sim_round env args next w' now trace) refl

  -- Where the arguments set a maximal length, the trace of a simulation that returns is no longer
  -- than it.
  pub sim_advanced-length :
      (fuel : ℕ) (args : SimulatorArgs) (w : World Fw Bins Rng) (out : List SimEvent)
      → 0 < args.max_trace_length
      → sim_advanced env fuel args w ≡ ok out
      → length out ≤ args.max_trace_length
  unfolding sim_advanced
  sim_advanced-length fuel args w out l h =
      let (start, _, h1) = >>=-eq-ok (unwrap (SimQueue.get_first_time w.sq)) _ h in
      let (trace, q, h2) = >>=-eq-ok (sim_loop env fuel args w start [] 0) _ h1 in
      let k = sim_loop-length fuel args w start [] 0 trace l q in
      let e : sort_by_time trace ≡ out = cc in
      subst (λ o. length o ≤ args.max_trace_length) e (omega (arith, length-sort trace))
