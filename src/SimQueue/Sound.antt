-- ===== src/SimQueue/Sound.antt =====
-- What every push keeps of the queue of crates/maybenot-simulator/src/queue.rs.
use maybenot_simv.Base.{Bool, true, false}
use maybenot_simv.SimEvent.{SimEvent}
use maybenot_simv.EventQueue
use maybenot_simv.EventQueue.Every.{new-Every}
use maybenot_simv.EventQueue.Kinds.{IsWellFormed, push-IsWellFormed}
use maybenot_simv.SimQueue
use maybenot_simv.SimQueue.{SimQueue, push_sim, push_to}
use maybenot_simv.SimQueue.Sides.{IsSided, IsOf, push_sim-IsSided}

-- Each event stands on its own side, and in the heap of its kind.
pub record IsSound (sq : SimQueue) : Type 0 where
  pub sided : IsSided sq
  pub client : IsWellFormed sq.client
  pub server : IsWellFormed sq.server

new-IsWellFormed : IsWellFormed EventQueue.new
new-IsWellFormed = record {
  base_heap = tt;
  blocking_heap = tt;
  bypassable_heap = tt;
  internal_heap = tt;
  base_events = tt;
  blocking_events = tt;
  bypassable_events = tt;
  internal_events = tt;
}

pub new-IsSound : IsSound SimQueue.new
new-IsSound = record {
  sided = record { client = new-Every (IsOf true); server = new-Every (IsOf false) };
  client = new-IsWellFormed;
  server = new-IsWellFormed;
}

push_to-IsSound :
    (b : Bool) (e : SimEvent) (sq : SimQueue)
    → IsSided (push_to b e sq)
    → IsSound sq
    → IsSound (push_to b e sq)
unfolding push_to
push_to-IsSound true e sq h s = record {
  sided = h;
  client = push-IsWellFormed e sq.client s.client;
  server = s.server;
}
push_to-IsSound false e sq h s = record {
  sided = h;
  client = s.client;
  server = push-IsWellFormed e sq.server s.server;
}

pub push_sim-IsSound : (e : SimEvent) (sq : SimQueue) → IsSound sq → IsSound (push_sim e sq)
unfolding push_sim
push_sim-IsSound e sq s = push_to-IsSound e.client e sq (push_sim-IsSided e sq s.sided) s
