-- ===== src/SimState.antt =====
-- `SimState`, `ScheduledAction` and `Integration` of the simulator. The instance of the framework,
-- the bins of an integration's delay distributions and the thread's random numbers are parameters:
-- `Env` names what the simulator calls on them.
pub mod Samples
use maybenot_simv.Base.{ℕ, Bool, false, List, Option, none, some, replicate}
use maybenot_simv.Outcome.{Outcome, ok}
use maybenot_simv.Event.{TriggerEvent, TriggerAction}

pub record Env (Fw Bins Rng : Type 0) : Type 0 where
  -- `Framework::trigger_events`, with the framework that it leaves.
  pub trigger_events : Fw → List TriggerEvent → ℕ → Outcome (List TriggerAction × Fw)
  -- `BinDist::sample` on `rand::thread_rng()`: a duration, or a panic.
  pub sample : Bins → Rng → Outcome (ℕ × Rng)

pub record ScheduledAction : Type 0 where
  pub action : TriggerAction
  pub time : ℕ

pub record Integration (Bins : Type 0) : Type 0 where
  pub action_delay : Bins
  pub reporting_delay : Bins
  pub trigger_delay : Bins

pub record SimState (Fw Bins : Type 0) : Type 0 where
  pub framework : Fw
  pub scheduled_action : List (Option ScheduledAction)
  pub scheduled_internal_timer : List (Option ℕ)
  pub blocking_until : Option ℕ
  pub blocking_bypassable : Bool
  pub integration : Option (Integration Bins)

module _ {Fw Bins : Type 0} where
  -- `SimState::new`, given the framework that `Framework::new` returned for these machines.
  abbrev pub new : Fw → ℕ → Option (Integration Bins) → SimState Fw Bins
  new framework num_machines integration = record {
    framework = framework;
    scheduled_action = replicate num_machines none;
    scheduled_internal_timer = replicate num_machines none;
    blocking_until = none;
    blocking_bypassable = false;
    integration = integration;
  }

module _ {Fw Bins Rng : Type 0} (env : Env Fw Bins Rng) where
  unfoldable pub sample_or_zero :
      (Integration Bins → Bins) → Option (Integration Bins) → Rng → Outcome (ℕ × Rng)
  sample_or_zero field none rng = ok (0, rng)
  sample_or_zero field (some i) rng = env.sample (field i) rng

  unfoldable pub reporting_delay : SimState Fw Bins → Rng → Outcome (ℕ × Rng)
  unfolding sample_or_zero
  reporting_delay s = sample_or_zero (λ i. i.reporting_delay) s.integration

  unfoldable pub action_delay : SimState Fw Bins → Rng → Outcome (ℕ × Rng)
  unfolding sample_or_zero
  action_delay s = sample_or_zero (λ i. i.action_delay) s.integration

  unfoldable pub trigger_delay : SimState Fw Bins → Rng → Outcome (ℕ × Rng)
  unfolding sample_or_zero
  trigger_delay s = sample_or_zero (λ i. i.trigger_delay) s.integration
