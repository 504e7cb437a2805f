-- ===== src/Network/Window.antt =====
-- What `WindowCount` counts.
use maybenot_simv.Base.{
  ℕ, ◌≤◌, List, [], ◌∷◌, ◌++◌, ◌≡◌, refl, ap, arith, All, All-append, length, if◌then◌else◌, leb,
}
use maybenot_simv.SimEvent.{duration_since}
use maybenot_simv.Network.{WindowCount, prune, add}

-- The timestamps that are within the window before `now`.
pub within : ℕ → ℕ → List ℕ → List ℕ
within window now [] = []
within window now (t ∷ ts) =
    if leb (duration_since now t) window then t ∷ within window now ts else within window now ts

-- Oldest first.
abbrev pub IsOrdered : List ℕ → Type 0
IsOrdered [] = Unit {0}
IsOrdered (t ∷ ts) = All (λ u. t ≤ u) ts × IsOrdered ts

within-All :
    (window now t : ℕ) (ts : List ℕ)
    → duration_since now t ≤ window
    → All (λ u. t ≤ u) ts
    → within window now ts ≡ ts
unfolding within
within-All window now t [] h k = refl
within-All window now t (u ∷ us) h k = ground (arith, within-All window now t us h k.1)

prune-within :
    (window now : ℕ) (ts : List ℕ) → IsOrdered ts → prune window now ts ≡ within window now ts
unfolding prune within
prune-within window now [] o = refl
prune-within window now (t ∷ ts) o =
    ground (arith, prune-within window now ts o.1, within-All window now t ts)

IsOrdered-append :
    (ts : List ℕ) (now : ℕ) → IsOrdered ts → All (λ t. t ≤ now) ts → IsOrdered (ts ++ now ∷ [])
IsOrdered-append [] now o h = (tt, tt)
IsOrdered-append (t ∷ ts) now o h =
    (All-append (λ u. t ≤ u) ts (now ∷ []) o.0 (h.0, tt), IsOrdered-append ts now o.1 h.1)

-- When the timestamps are ordered and none is later than now, an addition of now keeps just those that
-- are within the window, counts them and leaves the window as it is.
pub add-within :
    (now : ℕ) (w : WindowCount)
    → IsOrdered w.timestamps
    → All (λ t. t ≤ now) w.timestamps
    → ((add now w).1.timestamps ≡ within w.window now (w.timestamps ++ now ∷ []))
      × ((add now w).0 ≡ length (within w.window now (w.timestamps ++ now ∷ [])))
      × ((add now w).1.window ≡ w.window)
unfolding add
add-within now w o h =
    let p =
      prune-within w.window now (w.timestamps ++ now ∷ [])
        (IsOrdered-append w.timestamps now o h) in
    (p, ap length p, refl)
