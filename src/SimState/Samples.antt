-- ===== src/SimState/Samples.antt =====
-- Integrations whose delay distributions can be sampled: what excludes the panics of
-- `BinDist::sample` of crates/maybenot-simulator/src/integration.rs.
use maybenot_simv.Base.{Option, none, some}
use maybenot_simv.Outcome.{Returns}
use maybenot_simv.SimState.{
  Env, Integration, SimState, sample_or_zero, reporting_delay, action_delay, trigger_delay,
}

module _ {Fw Bins Rng : Type 0} (env : Env Fw Bins Rng) where
  -- A sample returns, whatever the random numbers.
  abbrev pub CanSample : Bins → Type 0
  CanSample bins = (rng : Rng) → Returns (λ r. Unit {0}) (env.sample bins rng)

  -- There is no integration, or each of its three distributions can be sampled.
  abbrev pub CanIntegrate : Option (Integration Bins) → Type 0
  CanIntegrate none = Unit {0}
  CanIntegrate (some i) =
      CanSample i.action_delay × CanSample i.reporting_delay × CanSample i.trigger_delay

  pub reporting_delay-Returns :
      (s : SimState Fw Bins) (rng : Rng)
      → CanIntegrate s.integration
      → Returns (λ r. Unit {0}) (reporting_delay env s rng)
  unfolding reporting_delay
  reporting_delay-Returns s rng h = go s.integration h
    where
      go :
          (i : Option (Integration Bins))
          → CanIntegrate i
          → Returns (λ r. Unit {0}) (sample_or_zero env (λ i. i.reporting_delay) i rng)
      go none k = tt
      go (some i) k = k.1 rng

  pub action_delay-Returns :
      (s : SimState Fw Bins) (rng : Rng)
      → CanIntegrate s.integration
      → Returns (λ r. Unit {0}) (action_delay env s rng)
  unfolding action_delay
  action_delay-Returns s rng h = go s.integration h
    where
      go :
          (i : Option (Integration Bins))
          → CanIntegrate i
          → Returns (λ r. Unit {0}) (sample_or_zero env (λ i. i.action_delay) i rng)
      go none k = tt
      go (some i) k = k.0 rng

  pub trigger_delay-Returns :
      (s : SimState Fw Bins) (rng : Rng)
      → CanIntegrate s.integration
      → Returns (λ r. Unit {0}) (trigger_delay env s rng)
  unfolding trigger_delay
  trigger_delay-Returns s rng h = go s.integration h
    where
      go :
          (i : Option (Integration Bins))
          → CanIntegrate i
          → Returns (λ r. Unit {0}) (sample_or_zero env (λ i. i.trigger_delay) i rng)
      go none k = tt
      go (some i) k = k.2 rng
