-- ===== src/Simulator/Start.antt =====
-- The beginning of `sim_advanced` of crates/maybenot-simulator/src/lib.rs, `sim` with its default
-- arguments, and `RngSource`, the random numbers of the two frameworks.
use maybenot_simv.Base.{ℕ, ◌+◌, ◌%◌, ◌^◌, Bool, false, List, Option, none, some}
use maybenot_simv.Outcome.{Outcome, ok, unwrap, ◌>>=◌}
use maybenot_simv.Platform.{Platform, zero64}
use maybenot_simv.SimEvent.{SimEvent}
use maybenot_simv.SimQueue
use maybenot_simv.SimQueue.{SimQueue}
use maybenot_simv.SimState.{Integration, SimState}
use maybenot_simv.Network
use maybenot_simv.Network.{Network}
use maybenot_simv.Machine.{Machine}
use maybenot_simv.Framework.{Framework}
use maybenot_simv.TriggerUpdate.Running.{framework_env}
use maybenot_simv.PickNext.{World}
use maybenot_simv.Simulator.{SimulatorArgs, sim_advanced}
use maybenot_simv.Simulator.Sides.{new_side}

-- `RngCore`: what a generator does, with the state that it leaves. `fill_bytes` and `try_fill_bytes`
-- take the length of the slice that they fill.
pub record RngCore (G : Type 0) : Type 0 where
  pub next_u32 : G → ℕ × G
  pub next_u64 : G → ℕ × G
  pub fill_bytes : ℕ → G → List ℕ × G
  pub try_fill_bytes : ℕ → G → Option (List ℕ) × G

pub data RngSource (Thread Xoshiro : Type 0) : Type 0 where
  thread : Thread → RngSource Thread Xoshiro
  xoshiro : Xoshiro → RngSource Thread Xoshiro

module _ {Thread Xoshiro : Type 0} where
  -- A call on the generator that is selected, whose new state is kept.
  abbrev pub on_source :
      {A : Type 0}
      → (Thread → A × Thread)
      → (Xoshiro → A × Xoshiro)
      → RngSource Thread Xoshiro
      → A × RngSource Thread Xoshiro
  on_source f g (thread rng) = let (a, rng') = f rng in (a, thread rng')
  on_source f g (xoshiro rng) = let (a, rng') = g rng in (a, xoshiro rng')

  -- `impl RngCore for RngSource`
  abbrev pub rng_source : RngCore Thread → RngCore Xoshiro → RngCore (RngSource Thread Xoshiro)
  rng_source t x = record {
    next_u32 = on_source t.next_u32 x.next_u32;
    next_u64 = on_source t.next_u64 x.next_u64;
    fill_bytes = λ n. on_source (t.fill_bytes n) (x.fill_bytes n);
    try_fill_bytes = λ n. on_source (t.try_fill_bytes n) (x.try_fill_bytes n);
  }

  -- A seed selects the deterministic generator.
  abbrev pub select_rng : Thread → (ℕ → Xoshiro) → Option ℕ → RngSource Thread Xoshiro
  select_rng thread_rng seed_from_u64 (some seed) = xoshiro (seed_from_u64 seed)
  select_rng thread_rng seed_from_u64 none = thread thread_rng

-- `seed.wrapping_add(1)` on a `u64`
abbrev pub next_seed : Option ℕ → Option ℕ
next_seed none = none
next_seed (some seed) = some ((seed + 1) % 2 ^ 64)

-- `SimulatorArgs`: the fields that the loop reads are in `loop`.
pub record Arguments (F64 Bins : Type 0) : Type 0 where
  pub network : Network
  pub loop : SimulatorArgs
  pub max_padding_frac_client : F64
  pub max_blocking_frac_client : F64
  pub max_padding_frac_server : F64
  pub max_blocking_frac_server : F64
  pub insecure_rng_seed : Option ℕ
  pub client_integration : Option (Integration Bins)
  pub server_integration : Option (Integration Bins)

-- The window of the network, one second.
abbrev pub one_second : ℕ
one_second = 10 ^ 9

module _ {F64 F32 Thread Xoshiro Bins Rand : Type 0}
    (pl : Platform F64 F32 (RngSource Thread Xoshiro)) (sample : Bins → Rand → Outcome (ℕ × Rand))
    (thread_rng : Thread) (seed_from_u64 : ℕ → Xoshiro) where
  -- `SimulatorArgs::new`
  abbrev pub default_arguments : Network → ℕ → Bool → Arguments F64 Bins
  default_arguments network max_trace_length only_network_activity = record {
    network = network;
    loop = record {
      max_trace_length = max_trace_length;
      max_sim_iterations = 0;
      continue_after_all_normal_packets_processed = false;
      only_client_events = false;
      only_network_activity = only_network_activity;
    };
    max_padding_frac_client = zero64 pl;
    max_blocking_frac_client = zero64 pl;
    max_padding_frac_server = zero64 pl;
    max_blocking_frac_server = zero64 pl;
    insecure_rng_seed = none;
    client_integration = none;
    server_integration = none;
  }

  unfoldable pub client_side :
      List (Machine F64 F32)
      → ℕ
      → Arguments F64 Bins
      → Outcome (SimState (Framework F64 F32 (RngSource Thread Xoshiro)) Bins)
  client_side machines now args =
      new_side pl machines now args.max_padding_frac_client args.max_blocking_frac_client
        args.client_integration (select_rng thread_rng seed_from_u64 args.insecure_rng_seed)

  -- The server's generator has the next seed.
  unfoldable pub server_side :
      List (Machine F64 F32)
      → ℕ
      → Arguments F64 Bins
      → Outcome (SimState (Framework F64 F32 (RngSource Thread Xoshiro)) Bins)
  server_side machines now args =
      new_side pl machines now args.max_padding_frac_server args.max_blocking_frac_server
        args.server_integration
        (select_rng thread_rng seed_from_u64 (next_seed args.insecure_rng_seed))

  -- The world that the loop starts from.
  unfoldable pub prepare :
      List (Machine F64 F32)
      → List (Machine F64 F32)
      → SimQueue
      → Arguments F64 Bins
      → Rand
      → Outcome (World (Framework F64 F32 (RngSource Thread Xoshiro)) Bins Rand)
  prepare machines_client machines_server sq args rand = do
    current_time ← unwrap (SimQueue.get_first_time sq)
    client ← client_side machines_client current_time args
    server ← server_side machines_server current_time args
    network ← Network.new args.network one_second sq.max_pps
    ok (record { sq = sq; client = client; server = server; network = network; rng = rand })

  -- The whole of `sim_advanced`; its loop is on fuel.
  unfoldable pub simulate :
      ℕ
      → List (Machine F64 F32)
      → List (Machine F64 F32)
      → SimQueue
      → Arguments F64 Bins
      → Rand
      → Outcome (List SimEvent)
  simulate fuel machines_client machines_server sq args rand = do
    w ← prepare machines_client machines_server sq args rand
    sim_advanced (framework_env pl sample) fuel args.loop w

  unfoldable pub sim :
      ℕ
      → List (Machine F64 F32)
      → List (Machine F64 F32)
      → SimQueue
      → ℕ
      → ℕ
      → Bool
      → Rand
      → Outcome (List SimEvent)
  sim fuel machines_client machines_server sq delay max_trace_length only_network_activity rand =
      simulate fuel machines_client machines_server sq
        (default_arguments (record { delay = delay; pps = none }) max_trace_length
          only_network_activity)
        rand
