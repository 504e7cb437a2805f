-- ===== src/Simulator/Simulated.antt =====
-- A simulation from the text of a trace: `parse_trace_advanced` and then `sim_advanced` of
-- crates/maybenot-simulator/src/lib.rs, with the framework of crates/maybenot on either side.
use maybenot_simv.Base.{
  ℕ, ◌-◌, false, ◌%◌, ◌^◌, ◌≤◌, ◌<◌, List, Option, none, some, ◌≡◌, ◌≢◌, refl, sym, subst, arith,
  All, ◌==◌,
}
use maybenot_simv.Outcome.{Outcome, ok, Returns, Returns-ok, Returns-bind, IfOk-ok}
use maybenot_simv.Text.{Bytes}
use maybenot_simv.Platform.{Platform}
use maybenot_simv.Verdict.{valid}
use maybenot_simv.Dist.Sampling.{Laws, Any}
use maybenot_simv.SimQueue
use maybenot_simv.SimQueue.{SimQueue}
use maybenot_simv.SimQueue.Sides.{IsSided}
use maybenot_simv.SimQueue.Sound.{IsSound}
use maybenot_simv.SimQueue.Covered.{IsCovered}
use maybenot_simv.SimState.{Env}
use maybenot_simv.SimState.Samples.{CanIntegrate}
use maybenot_simv.Network
use maybenot_simv.Network.{Network, NetworkBottleneck}
use maybenot_simv.QueuePeek.{unwrap_or}
use maybenot_simv.Machine.{Machine}
use maybenot_simv.Machine.Stored.{HasArrays}
use maybenot_simv.Framework.{Framework}
use maybenot_simv.Framework.New.{validate_arguments}
use maybenot_simv.TriggerUpdate.Running.{SideIsReady, framework_env}
use maybenot_simv.ParseTrace.{parse_trace_advanced}
use maybenot_simv.ParseTrace.Invariant.{
  parse_trace_advanced-IsSound, parse_trace_advanced-IsCovered,
}
use maybenot_simv.Simulator.Sides.{new_side_ready}
use maybenot_simv.Simulator.Returns.{WorldIsReady}
use maybenot_simv.Simulator.Ends.{IsTrace, sim_advanced-IsTrace}
use maybenot_simv.Simulator.Start.{
  RngSource, Arguments, one_second, select_rng, next_seed, client_side, server_side, prepare,
  simulate,
}

-- The limit of packets per second that the bottleneck takes, as the `u32` that it divides by.
abbrev pub pps_divisor : Network → SimQueue → ℕ
pps_divisor network sq = unwrap_or network.pps (unwrap_or sq.max_pps (2 ^ 64 - 1)) % 2 ^ 32

bottleneck-Returns :
    (network : Network) (window : ℕ) (sq : SimQueue)
    → pps_divisor network sq ≢ 0
    → Returns Any (Network.new network window sq.max_pps)
unfolding Network.new
bottleneck-Returns network window sq h =
    let e : (pps_divisor network sq == 0) ≡ false = ground arith in rw (e, Network.new) tt

module _ {F64 F32 Thread Xoshiro Bins Rand : Type 0}
    (pl : Platform F64 F32 (RngSource Thread Xoshiro)) (laws : Laws pl)
    (sample : Bins → Rand → Outcome (ℕ × Rand)) (thread_rng : Thread) (seed_from_u64 : ℕ → Xoshiro)
    (machines_client machines_server : List (Machine F64 F32)) (args : Arguments F64 Bins) where
  -- What `Framework::new` asks of the machines and the fractions of either side; and the delays of
  -- both integrations can be sampled.
  pub record AreValid : Type 0 where
    pub client_arrays : All HasArrays machines_client
    pub server_arrays : All HasArrays machines_server
    pub client :
        validate_arguments pl machines_client args.max_padding_frac_client
          args.max_blocking_frac_client
        ≡ valid
    pub server :
        validate_arguments pl machines_server args.max_padding_frac_server
          args.max_blocking_frac_server
        ≡ valid
    pub client_integrates : CanIntegrate (framework_env pl sample) args.client_integration
    pub server_integrates : CanIntegrate (framework_env pl sample) args.server_integration

  prepare-WorldIsReady :
      (sq : SimQueue) (rand : Rand)
      → AreValid
      → IsSided sq
      → IsCovered sq
      → SimQueue.get_first_time sq ≢ none
      → pps_divisor args.network sq ≢ 0
      → Returns
          (λ w. WorldIsReady pl sample w × (w.sq ≡ sq))
          (prepare pl sample thread_rng seed_from_u64 machines_client machines_server sq args rand)
  unfolding prepare client_side server_side
  prepare-WorldIsReady sq rand v s c h d = go (SimQueue.get_first_time sq) refl
    where
      go :
          (t : Option ℕ)
          → SimQueue.get_first_time sq ≡ t
          → Returns
              (λ w. WorldIsReady pl sample w × (w.sq ≡ sq))
              (prepare pl sample thread_rng seed_from_u64 machines_client machines_server sq args
                rand)
      go none e = absurd (h e)
      go (some now) e =
          let (client, p, rc) =
            Returns-ok (λ x. SideIsReady pl (x, sq) × (x.integration ≡ args.client_integration))
              (client_side pl sample thread_rng seed_from_u64 machines_client now args)
              (new_side_ready pl laws machines_client now args.max_padding_frac_client
                args.max_blocking_frac_client args.client_integration
                (select_rng thread_rng seed_from_u64 args.insecure_rng_seed) sq s v.client_arrays
                v.client) in
          let (server, q, rs) =
            Returns-ok (λ x. SideIsReady pl (x, sq) × (x.integration ≡ args.server_integration))
              (server_side pl sample thread_rng seed_from_u64 machines_server now args)
              (new_side_ready pl laws machines_server now args.max_padding_frac_server
                args.max_blocking_frac_server args.server_integration
                (select_rng thread_rng seed_from_u64 (next_seed args.insecure_rng_seed)) sq s
                v.server_arrays v.server) in
          let (network, u, _) =
            Returns-ok Any (Network.new args.network one_second sq.max_pps)
              (bottleneck-Returns args.network one_second sq d) in
          rw (e, p, q, u, prepare)
            (
              record {
                client = rc.0;
                server = rs.0;
                covered = c;
                client_integrates =
                    subst (CanIntegrate (framework_env pl sample)) (sym rc.1) v.client_integrates;
                server_integrates =
                    subst (CanIntegrate (framework_env pl sample)) (sym rs.1) v.server_integrates;
              },
              refl,
            )

  simulate-sided-IsTrace :
      (fuel : ℕ) (sq : SimQueue) (rand : Rand)
      → AreValid
      → IsSided sq
      → IsCovered sq
      → SimQueue.get_first_time sq ≢ none
      → pps_divisor args.network sq ≢ 0
      → 0 < args.loop.max_sim_iterations
      → args.loop.max_sim_iterations ≤ fuel
      → Returns (IsTrace args.loop) (
          simulate pl sample thread_rng seed_from_u64 fuel machines_client machines_server sq args
            rand)
  unfolding simulate
  simulate-sided-IsTrace fuel sq rand v s c h d l f =
      Returns-bind (IsTrace args.loop) (λ w. WorldIsReady pl sample w × (w.sq ≡ sq))
        (prepare pl sample thread_rng seed_from_u64 machines_client machines_server sq args rand) _
        (prepare-WorldIsReady sq rand v s c h d)
        (λ w k. sim_advanced-IsTrace pl laws sample args.loop fuel w k.0 (rw k.1 h) l f)

  -- When the platform keeps its laws, the machines and fractions of both sides are valid, with one
  -- entry for each event in each state, the delays of both integrations can be sampled,
  -- `parse_trace_advanced` returned the queue from any text, the queue has a packet, the limit of
  -- packets per second is not a multiple of 2^32, the arguments limit the iterations, and there is
  -- fuel for each of them, `sim_advanced` returns: with times that have no upper bound, nothing on
  -- the way panics, and the trace is in the order of time, with no more events than iterations.
  pub simulate-IsTrace :
      (env : Env (Framework F64 F32 (RngSource Thread Xoshiro)) Bins Rand) (network : Network)
      (text : Bytes) (start : ℕ) (rand : Rand) (r : SimQueue × Rand) (fuel : ℕ)
      → parse_trace_advanced env network args.client_integration args.server_integration text start
          rand
        ≡ ok r
      → AreValid
      → SimQueue.get_first_time r.0 ≢ none
      → pps_divisor args.network r.0 ≢ 0
      → 0 < args.loop.max_sim_iterations
      → args.loop.max_sim_iterations ≤ fuel
      → Returns (IsTrace args.loop) (
          simulate pl sample thread_rng seed_from_u64 fuel machines_client machines_server r.0 args
            r.1)
  simulate-IsTrace env network text start rand r fuel e v h d l f =
      let m =
        parse_trace_advanced env network args.client_integration args.server_integration text start
          rand in
      let sound : IsSound r.0 =
        IfOk-ok _ m r
          (parse_trace_advanced-IsSound env network args.client_integration args.server_integration
            text start rand)
          e in
      let covered : IsCovered r.0 =
        IfOk-ok _ m r
          (parse_trace_advanced-IsCovered env network args.client_integration
            args.server_integration text start rand)
          e in
      simulate-sided-IsTrace fuel r.0 r.1 v sound.sided covered h d l f
