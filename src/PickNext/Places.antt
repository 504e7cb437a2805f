-- ===== src/PickNext/Places.antt =====
-- The places of the sides for actions and timers, in the rounds of `pick_next` of
-- crates/maybenot-simulator/src/lib.rs that the queue and the timers decide.
use maybenot_simv.Base.{
  ℕ, suc, Bool, true, false, List, [], ◌∷◌, Option, none, some, ◌≡◌, refl, ap, ◌∙◌, arith, inl, inr,
  Bool-cases, ◌==◌, length, ltb, if◌then◌else◌,
}
use maybenot_simv.Outcome.{ok, unwrap, ◌>>=◌, IfOk, IfOk-then}
use maybenot_simv.Event.{MachineId}
use maybenot_simv.SimEvent.{SimEvent}
use maybenot_simv.EventQueue.{Queue}
use maybenot_simv.SimQueue
use maybenot_simv.SimQueue.{SimQueue, side, push_sim}
use maybenot_simv.SimQueue.Covered.{
  IsCovered, IsCoveredEvent, CoveredIfSome, PopIsCovered, push_sim-IsCovered, later-IsCoveredEvent,
  pop-IsCovered,
}
use maybenot_simv.SimState.{SimState, ScheduledAction}
use maybenot_simv.Network.{base_delay}
use maybenot_simv.Timers.{take_timer, take_action, do_internal_timer}
use maybenot_simv.PickNext.{World, Round, done, again, pick_from_queue, fire_timer}

pub length-take_timer :
    (target id : ℕ) (ts : List (Option ℕ)) → length (take_timer target id ts).1 ≡ length ts
unfolding take_timer
length-take_timer target id [] = refl
length-take_timer target id (none ∷ ts) = ap suc (length-take_timer target (suc id) ts)
length-take_timer target id (some t ∷ ts) = elim (Bool-cases (t == target)) [
  | inl h ↦ rw h refl
  | inr h ↦ rw h (ap suc (length-take_timer target (suc id) ts))
]

pub length-take_action :
    (target : ℕ) (actions : List (Option ScheduledAction))
    → length (take_action target actions).1 ≡ length actions
unfolding take_action
length-take_action target [] = refl
length-take_action target (none ∷ rest) = ap suc (length-take_action target rest)
length-take_action target (some a ∷ rest) = elim (Bool-cases (a.time == target)) [
  | inl h ↦ rw h refl
  | inr h ↦ rw h (ap suc (length-take_action target rest))
]

-- Both branches of a test have the property.
pub if-either {ℓ} :
    {A : Type ℓ} (P : A → Type 0) (b : Bool) (x y : A) → P x → P y → P (if b then x else y)
if-either P true x y h k = h
if-either P false x y h k = k

-- The framework of a side, and the number of its places for actions and for timers.
module _ {Fw Bins : Type 0} where
  abbrev pub Slots : Fw → ℕ → SimState Fw Bins → Type 0
  Slots fw n s =
      (s.framework ≡ fw) × (length s.scheduled_action ≡ n) × (length s.scheduled_internal_timer ≡ n)

moved-IsCoveredEvent :
    (e : SimEvent) (target : ℕ)
    → IsCoveredEvent e
    → IsCoveredEvent (if ltb e.time target then record e { time = target } else e)
moved-IsCoveredEvent e target h = elim (Bool-cases (ltb e.time target)) [
  | inl t ↦ rw t (later-IsCoveredEvent e target (ground arith) h)
  | inr t ↦ rw t h
]

module _ {Fw Bins Rng : Type 0} (fc fs : Fw) (nc ns : ℕ) where
  pub record Holds (w : World Fw Bins Rng) : Type 0 where
    pub client : Slots fc nc w.client
    pub server : Slots fs ns w.server
    pub covered : IsCovered w.sq

  abbrev pub RoundHolds : Round Fw Bins Rng → Type 0
  RoundHolds (done e w) = CoveredIfSome e × Holds w
  RoundHolds (again w) = Holds w

  pub pick_from_queue-Holds :
      (w : World Fw Bins Rng) (id : Queue) (c : Bool) (target : ℕ)
      → Holds w
      → IfOk RoundHolds (pick_from_queue w id c target)
  unfolding pick_from_queue
  pick_from_queue-Holds w id c target k =
      IfOk-then RoundHolds PopIsCovered (SimQueue.pop id c (base_delay w.network c) w.sq) _
        (pop-IsCovered id c (base_delay w.network c) w.sq k.covered) (λ r h. go r h)
    where
      go :
          (r : Option SimEvent × SimQueue)
          → PopIsCovered r
          → IfOk RoundHolds (
              unwrap r.0 >>= λ e. ok (
                done
                  (some (if ltb e.time target then record e { time = target } else e))
                  (record w { sq = r.1 })))
      go (none, sq) h = tt
      go (some e, sq) h = (
        moved-IsCoveredEvent e target h.0,
        record { client = k.client; server = k.server; covered = h.1 },
      )

  pub fire_timer-Holds :
      (w : World Fw Bins Rng) (target : ℕ) → Holds w → IfOk RoundHolds (fire_timer w target)
  unfolding fire_timer do_internal_timer
  fire_timer-Holds w target k =
      go (take_timer target 0 w.client.scheduled_internal_timer)
        (take_timer target 0 w.server.scheduled_internal_timer) refl refl
        (length-take_timer target 0 w.client.scheduled_internal_timer)
        (length-take_timer target 0 w.server.scheduled_internal_timer)
    where
      go :
          (c s : Option MachineId × List (Option ℕ))
          → take_timer target 0 w.client.scheduled_internal_timer ≡ c
          → take_timer target 0 w.server.scheduled_internal_timer ≡ s
          → length (take_timer target 0 w.client.scheduled_internal_timer).1
            ≡ length w.client.scheduled_internal_timer
          → length (take_timer target 0 w.server.scheduled_internal_timer).1
            ≡ length w.server.scheduled_internal_timer
          → IfOk RoundHolds (fire_timer w target)
      go (some m, ts) s p q lc ls =
          let l : length ts ≡ length w.client.scheduled_internal_timer = rw p at lc in
          rw (p, fire_timer, do_internal_timer)
            (record {
              client = (k.client.0, k.client.1, l ∙ k.client.2);
              server = k.server;
              covered = push_sim-IsCovered _ w.sq tt k.covered;
            })
      go (none, ts) (some m, ts') p q lc ls =
          let l : length ts' ≡ length w.server.scheduled_internal_timer = rw q at ls in
          rw (p, q, fire_timer, do_internal_timer)
            (record {
              client = k.client;
              server = (k.server.0, k.server.1, l ∙ k.server.2);
              covered = push_sim-IsCovered _ w.sq tt k.covered;
            })
      go (none, ts) (none, ts') p q lc ls = rw (p, q, fire_timer, do_internal_timer) tt
