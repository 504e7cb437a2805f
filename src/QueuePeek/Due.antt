-- ===== src/QueuePeek/Due.antt =====
-- The earliest of the timers: what the loops over the machines' timers find.
use maybenot_simv.Base.{
  ℕ, suc, ◌+◌, ◌≤◌, ◌<◌, List, [], ◌∷◌, Option, none, some, ◌≡◌, ◌≢◌, refl, subst, arith, ◌⊎◌, inl,
  inr, Bool-cases, leb, ltb, ◌&&◌,
}
use maybenot_simv.SimEvent.{duration_max, duration_since}
use maybenot_simv.SimState.{ScheduledAction}
use maybenot_simv.QueuePeek.{
  earliest_from, peek_scheduled_action, peek_scheduled_internal_timer, action_times,
}
use maybenot_simv.QueuePeek.Bounds.{earliest_from-le}
use maybenot_simv.Timers.{take_timer, take_action}

-- One of the timers is set to `t`.
abbrev pub Has : ℕ → List (Option ℕ) → Type 0
Has t [] = ⊥
Has t (none ∷ ts) = Has t ts
Has t (some u ∷ ts) = (u ≡ t) ⊎ Has t ts

-- The loop keeps the bound that it starts from, or ends with a timer that is not in the past.
abbrev Ends : ℕ → List (Option ℕ) → ℕ → Type 0
Ends now ts r = (t : ℕ) × Has t ts × (now ≤ t) × (r ≡ duration_since t now)

earliest_from-Ends :
    (now : ℕ) (ts : List (Option ℕ)) (e : ℕ)
    → (earliest_from now ts e ≡ e) ⊎ Ends now ts (earliest_from now ts e)
unfolding earliest_from
earliest_from-Ends now [] e = inl refl
earliest_from-Ends now (none ∷ ts) e = earliest_from-Ends now ts e
earliest_from-Ends now (some t ∷ ts) e =
    elim (Bool-cases (leb now t && ltb (duration_since t now) e)) [
      | inl b ↦ rw b (elim (earliest_from-Ends now ts (duration_since t now)) [
        | inl p ↦ inr (t, inl refl, ground arith, p)
        | inr (u, h, l, p) ↦ inr (u, inr h, l, p)
      ])
      | inr b ↦ rw b (elim (earliest_from-Ends now ts e) [
        | inl p ↦ inl p
        | inr (u, h, l, p) ↦ inr (u, inr h, l, p)
      ])
    ]

-- No timer that is set and not in the past is nearer.
earliest_from-le_of :
    (now : ℕ) (ts : List (Option ℕ)) (e t : ℕ)
    → Has t ts
    → now ≤ t
    → earliest_from now ts e ≤ duration_since t now
unfolding earliest_from
earliest_from-le_of now [] e t h l = absurd h
earliest_from-le_of now (none ∷ ts) e t h l = earliest_from-le_of now ts e t h l
earliest_from-le_of now (some u ∷ ts) e t (inl p) l =
    ground (arith, earliest_from-le now ts (duration_since u now), earliest_from-le now ts e)
earliest_from-le_of now (some u ∷ ts) e t (inr h) l = ground (
  arith,
  earliest_from-le_of now ts (duration_since u now) t h l,
  earliest_from-le_of now ts e t h l,
)

-- The two loops, over the client's timers and then the server's.
pub earliest_both : List (Option ℕ) → List (Option ℕ) → ℕ → ℕ
earliest_both c s now = earliest_from now s (earliest_from now c duration_max)

-- The result is the time to a timer that is set at one of the sides, unless it is `Duration::MAX`.
pub earliest_both-Has :
    (c s : List (Option ℕ)) (now : ℕ)
    → earliest_both c s now < duration_max
    → Has (now + earliest_both c s now) c ⊎ Has (now + earliest_both c s now) s
unfolding earliest_both
earliest_both-Has c s now h = elim (earliest_from-Ends now s (earliest_from now c duration_max)) [
  | inr (t, k, l, p) ↦ inr (subst (λ x. Has x s) (omega arith) k)
  | inl p ↦ elim (earliest_from-Ends now c duration_max) [
    | inl q ↦ absurd (omega arith)
    | inr (t, k, l, q) ↦ inl (subst (λ x. Has x c) (omega arith) k)
  ]
]

-- No timer of either side that is not in the past is nearer.
pub earliest_both-le :
    (c s : List (Option ℕ)) (now t : ℕ)
    → now ≤ t
    → Has t c ⊎ Has t s
    → earliest_both c s now ≤ duration_since t now
unfolding earliest_both
earliest_both-le c s now t l (inl h) = omega (
  arith,
  earliest_from-le now s (earliest_from now c duration_max),
  earliest_from-le_of now c duration_max t h l,
)
earliest_both-le c s now t l (inr h) =
    earliest_from-le_of now s (earliest_from now c duration_max) t h l

pub take_timer-Has :
    (target id : ℕ) (ts : List (Option ℕ)) → Has target ts → (take_timer target id ts).0 ≢ none
unfolding take_timer
take_timer-Has target id [] h e = absurd h
take_timer-Has target id (none ∷ ts) h e = take_timer-Has target (suc id) ts h e
take_timer-Has target id (some t ∷ ts) (inl p) e = ground arith
take_timer-Has target id (some t ∷ ts) (inr h) e =
    ground (arith, take_timer-Has target (suc id) ts h)

pub take_action-Has :
    (target : ℕ) (actions : List (Option ScheduledAction))
    → Has target (action_times actions)
    → (take_action target actions).0 ≢ none
unfolding take_action
take_action-Has target [] h e = absurd h
take_action-Has target (none ∷ rest) h e = take_action-Has target rest h e
take_action-Has target (some a ∷ rest) (inl p) e = ground arith
take_action-Has target (some a ∷ rest) (inr h) e = ground (arith, take_action-Has target rest h)

pub peek_scheduled_action_due :
    (c s : List (Option ScheduledAction)) (now : ℕ)
    → peek_scheduled_action c s now < duration_max
    → ((take_action (now + peek_scheduled_action c s now) c).0 ≢ none)
      ⊎ ((take_action (now + peek_scheduled_action c s now) s).0 ≢ none)
unfolding peek_scheduled_action earliest_both
peek_scheduled_action_due c s now h =
    elim (earliest_both-Has (action_times c) (action_times s) now h) [
      | inl k ↦ inl (take_action-Has _ c k)
      | inr k ↦ inr (take_action-Has _ s k)
    ]

-- The peek at the scheduled actions returns no more than the time to any of them that is not in the
-- past, at either side.
pub peek_scheduled_action-le :
    (c s : List (Option ScheduledAction)) (now t : ℕ)
    → now ≤ t
    → Has t (action_times c) ⊎ Has t (action_times s)
    → peek_scheduled_action c s now ≤ duration_since t now
unfolding peek_scheduled_action earliest_both
peek_scheduled_action-le c s now t l h =
    earliest_both-le (action_times c) (action_times s) now t l h

pub peek_scheduled_internal_timer_due :
    (c s : List (Option ℕ)) (now : ℕ)
    → peek_scheduled_internal_timer c s now < duration_max
    → ((take_timer (now + peek_scheduled_internal_timer c s now) 0 c).0 ≢ none)
      ⊎ ((take_timer (now + peek_scheduled_internal_timer c s now) 0 s).0 ≢ none)
unfolding peek_scheduled_internal_timer earliest_both
peek_scheduled_internal_timer_due c s now h = elim (earliest_both-Has c s now h) [
  | inl k ↦ inl (take_timer-Has _ 0 c k)
  | inr k ↦ inr (take_timer-Has _ 0 s k)
]
