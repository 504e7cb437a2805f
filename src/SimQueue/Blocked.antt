-- ===== src/SimQueue/Blocked.antt =====
-- `peek_blocking` and `pop_blocking` of crates/maybenot-simulator/src/queue.rs: what blocking holds
-- back is there to be taken.
use maybenot_simv.Base.{
  ℕ, Bool, true, false, some, ◌≡◌, refl, ap, subst, ◌⊎◌, List, [], ◌∷◌, inl, inr, Bool-cases,
}
use maybenot_simv.Outcome.{ok}
use maybenot_simv.SimEvent.{SimEvent, sim_event_ord}
use maybenot_simv.BinaryHeap
use maybenot_simv.BinaryHeap.{gt_option}
use maybenot_simv.EventQueue.{Queue}
use maybenot_simv.EventQueue.Peek.{front, pop-front}
use maybenot_simv.EventQueue.Kinds.{popped}
use maybenot_simv.SimQueue.{SimQueue, side, with_side, pop, peek_blocking, pop_blocking}

head_taken :
    (h : List SimEvent) (e : SimEvent) → BinaryHeap.peek h ≡ some e → (BinaryHeap.pop h).0 ≡ some e
head_taken [] e k = k
head_taken (x ∷ xs) e k = k

-- The heaps that blocking holds back: the bypassable packets only when they may not pass it.
abbrev pub IsHeldBack : Bool → Queue → Type 0
IsHeldBack true id = id ≡ Queue.blocking
IsHeldBack false id = (id ≡ Queue.blocking) ⊎ (id ≡ Queue.bypassable)

-- A pop of the heap `id`, which blocking holds back, takes the event that stands at its front.
abbrev pub Takes : SimQueue → Bool → ℕ → SimEvent → Bool → Queue → Type 0
Takes sq c d e bypassable id =
    IsHeldBack bypassable id
    × (front id (side sq c) ≡ some e)
    × (pop_blocking id bypassable c d sq ≡ ok (some e, with_side sq c (popped id (side sq c))))

-- Where `peek_blocking` sees an event, the heap that it names is one that blocking holds back, that
-- of the blocked packets or, if bypassable packets may not pass, that of the bypassable ones; the
-- event stands at its front; and `pop_blocking` of this heap returns this event at its own time and
-- takes it off the heap.
pub pop_blocking-peek_blocking :
    (sq : SimQueue) (bypassable c : Bool) (d : ℕ) (e : SimEvent) (id : Queue)
    → peek_blocking sq bypassable c ≡ (some e, id)
    → Takes sq c d e bypassable id
unfolding peek_blocking pop_blocking pop
pop_blocking-peek_blocking sq true c d e id h =
    let f : BinaryHeap.peek (side sq c).blocking ≡ some e = ap (λ r. r.0) h in
    subst (Takes sq c d e true) (ap (λ r. r.1) h)
      (refl, f, rw (head_taken (side sq c).blocking e f) refl)
pop_blocking-peek_blocking sq false c d e id h =
    elim (Bool-cases
      (gt_option (BinaryHeap.peek (side sq c).blocking) (BinaryHeap.peek (side sq c).bypassable))) [
        | inl t ↦
            let k : (BinaryHeap.peek (side sq c).blocking, Queue.blocking) ≡ (some e, id) =
              rw (t, peek_blocking) at h in
            let f : front Queue.blocking (side sq c) ≡ some e = ap (λ r. r.0) k in
            subst (Takes sq c d e false) (ap (λ r. r.1) k)
              (inl refl, f, rw (pop-front Queue.blocking d (side sq c) e f, pop) refl)
        | inr t ↦
            let k : (BinaryHeap.peek (side sq c).bypassable, Queue.bypassable) ≡ (some e, id) =
              rw (t, peek_blocking) at h in
            let f : front Queue.bypassable (side sq c) ≡ some e = ap (λ r. r.0) k in
            subst (Takes sq c d e false) (ap (λ r. r.1) k)
              (inr refl, f, rw (pop-front Queue.bypassable d (side sq c) e f, pop) refl)
      ]
