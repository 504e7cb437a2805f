-- ===== src/Network/Aggregate.antt =====
-- The aggregate delays are conserved: what is pushed for a side is pending or has been added to it.
use maybenot_simv.Base.{
  ℕ, ◌+◌, Bool, true, false, List, [], ◌∷◌, ◌≡◌, refl, arith, if◌then◌else◌, inl, inr, Bool-cases,
}
use maybenot_simv.BinaryHeap
use maybenot_simv.BinaryHeap.{gt}
use maybenot_simv.Network.{
  NetworkBottleneck, PendingAggregateDelay, pending_ord, base_delay, push_aggregate_delay,
  pop_aggregate_delay,
}

-- The delay of an entry for one side.
abbrev delay_for : Bool → PendingAggregateDelay → ℕ
delay_for true d = if d.client then d.delay else 0
delay_for false d = if d.client then 0 else d.delay

pub pending_for : Bool → List PendingAggregateDelay → ℕ
pending_for c [] = 0
pending_for c (d ∷ ds) = delay_for c d + pending_for c ds

pending_for-push :
    (c : Bool) (d : PendingAggregateDelay) (h : List PendingAggregateDelay)
    → pending_for c (BinaryHeap.push d h) ≡ delay_for c d + pending_for c h
unfolding pending_for BinaryHeap.push
pending_for-push c d [] = refl
pending_for-push c d (x ∷ xs) = elim (Bool-cases (gt d x)) [
  | inl t ↦ rw t
  | inr t ↦ rw t (omega (arith, pending_for-push c d xs))
]

-- What a side is shifted by, now or later.
pub total_delay : NetworkBottleneck → Bool → ℕ
total_delay n c = base_delay n c + pending_for c n.aggregate_delay_queue

-- A pop of a pending delay leaves what each side is shifted by, now and by pending delays, as it is.
pub total_delay-pop :
    (n : NetworkBottleneck) (c : Bool) → total_delay (pop_aggregate_delay n) c ≡ total_delay n c
unfolding total_delay pop_aggregate_delay pending_for
total_delay-pop n true = ground arith
total_delay-pop n false = ground arith

-- A push of an aggregate delay adds the whole duration to what each side is shifted by, now and by
-- pending delays.
pub total_delay-push :
    (block now : ℕ) (expiry c : Bool) (n : NetworkBottleneck)
    → total_delay (push_aggregate_delay block now expiry n) c ≡ total_delay n c + block
unfolding total_delay push_aggregate_delay
total_delay-push block now expiry true n = simp pending_for-push (omega arith)
total_delay-push block now expiry false n = simp pending_for-push (omega arith)
