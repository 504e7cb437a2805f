-- ===== src/SimQueue/Sides.antt =====
-- Each side's queue holds events of that side only, which `peek` relies on: it takes the side from
-- the event.
use maybenot_simv.Base.{
  ℕ, Bool, true, false, Option, none, some, ◌≡◌, ◌≢◌, refl, sym, subst, arith, inl, inr, Bool-cases,
  ◌==◌,
}
use native.Mathlib.Decide.{ℕ_discrete}
use maybenot_simv.Outcome.{ok}
use maybenot_simv.SimEvent.{SimEvent}
use maybenot_simv.EventQueue
use maybenot_simv.EventQueue.{EventQueue, Queue}
use maybenot_simv.EventQueue.Peek.{front, peek-Sees}
use maybenot_simv.EventQueue.Every.{Every, push-Every, popped-Every, front-Every}
use maybenot_simv.EventQueue.Kinds.{popped}
use maybenot_simv.SimQueue.{
  SimQueue, push_to, push_sim, side, with_side, len, client_first, peek, peek_sides,
}

abbrev pub IsOf : Bool → SimEvent → Type 0
IsOf b e = e.client ≡ b

pub record IsSided (sq : SimQueue) : Type 0 where
  pub client : Every (IsOf true) sq.client
  pub server : Every (IsOf false) sq.server

push_to-IsSided :
    (b : Bool) (e : SimEvent) (sq : SimQueue) → e.client ≡ b → IsSided sq → IsSided (push_to b e sq)
unfolding push_to
push_to-IsSided true e sq h s = record {
  client = push-Every (IsOf true) e sq.client h s.client;
  server = s.server;
}
push_to-IsSided false e sq h s = record {
  client = s.client;
  server = push-Every (IsOf false) e sq.server h s.server;
}

-- When the events of the queue stand on their own sides, they do so after a push.
pub push_sim-IsSided : (e : SimEvent) (sq : SimQueue) → IsSided sq → IsSided (push_sim e sq)
unfolding push_sim
push_sim-IsSided e sq s = push_to-IsSided e.client e sq refl s

pub popped-IsSided :
    (id : Queue) (c : Bool) (sq : SimQueue)
    → IsSided sq
    → IsSided (with_side sq c (popped id (side sq c)))
popped-IsSided id true sq s = record {
  client = popped-Every (IsOf true) id sq.client s.client;
  server = s.server;
}
popped-IsSided id false sq s = record {
  client = s.client;
  server = popped-Every (IsOf false) id sq.server s.server;
}

-- The front of one of the heaps of its own side.
abbrev pub StandsAt : SimQueue → Option SimEvent × Queue × ℕ → Type 0
StandsAt sq (none, id, t) = ⊥
StandsAt sq (some e, id, t) = front id (side sq e.client) ≡ some e

empty_peek :
    (q : EventQueue) (d now : ℕ)
    → EventQueue.len q ≡ 0
    → EventQueue.peek q d now ≡ ok (none, Queue.blocking, 0)
unfolding EventQueue.peek
empty_peek q d now h = ground arith

front-side :
    (b : Bool) (id : Queue) (sq : SimQueue) (e : SimEvent)
    → IsSided sq
    → front id (side sq b) ≡ some e
    → front id (side sq e.client) ≡ some e
front-side true id sq e s h =
    subst (λ b. front id (side sq b) ≡ some e)
      (sym (front-Every (IsOf true) id sq.client e h s.client)) h
front-side false id sq e s h =
    subst (λ b. front id (side sq b) ≡ some e)
      (sym (front-Every (IsOf false) id sq.server e h s.server)) h

abbrev Looks : EventQueue → Option SimEvent × Queue × ℕ → Type 0
Looks q (none, id, t) = EventQueue.len q ≡ 0
Looks q (some e, id, t) = front id q ≡ some e

side_peek :
    (q : EventQueue) (d now : ℕ)
    → (r : Option SimEvent × Queue × ℕ) × (EventQueue.peek q d now ≡ ok r) × Looks q r
side_peek q d now = elim (ℕ_discrete (EventQueue.len q) 0) [
  | yes e ↦ ((none, Queue.blocking, 0), empty_peek q d now e, e)
  | no ne ↦ let v = peek-Sees q d now ne in ((some v.event, v.id, _), v.peeks, v.at_front)
]

peek_sides-StandsAt :
    (sq : SimQueue) (c s : Option SimEvent × Queue × ℕ)
    → IsSided sq
    → len sq ≢ 0
    → Looks sq.client c
    → Looks sq.server s
    → StandsAt sq (peek_sides c s)
unfolding peek_sides len
peek_sides-StandsAt sq (some c, cq, cd) (some s, sq', sd) k h a b =
    elim (Bool-cases (client_first c cd s sd)) [
      | inl t ↦ rw t (front-side true cq sq c k a)
      | inr t ↦ rw t (front-side false sq' sq s k b)
    ]
peek_sides-StandsAt sq (some c, cq, cd) (none, sq', sd) k h a b = front-side true cq sq c k a
peek_sides-StandsAt sq (none, cq, cd) (some s, sq', sd) k h a b = front-side false sq' sq s k b
peek_sides-StandsAt sq (none, cq, cd) (none, sq', sd) k h a b = h (omega arith)

pub nonempty : (sq : SimQueue) → len sq ≢ 0 → (len sq == 0) ≡ false
nonempty sq h = ground arith

-- When the events of the queue stand on their own sides and there is one, `peek` returns an event and
-- the front of its heap, on the event's own side, is this event.
pub peek-StandsAt :
    (sq : SimQueue) (dc ds now : ℕ)
    → IsSided sq
    → len sq ≢ 0
    → (r : Option SimEvent × Queue × ℕ) × (peek sq dc ds now ≡ ok r) × StandsAt sq r
unfolding peek
peek-StandsAt sq dc ds now k h =
    let (c, pc, lc) = side_peek sq.client dc now in
    let (s, ps, ls) = side_peek sq.server ds now in
    (peek_sides c s, rw (nonempty sq h, pc, ps, peek), peek_sides-StandsAt sq c s k h lc ls)
