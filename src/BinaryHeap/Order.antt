-- ===== src/BinaryHeap/Order.antt =====
-- What a heap promises: the greatest element stands first, and a push adds one element.
use mathlib.Core.List.Perm
use mathlib.Core.List.{Perm}
use maybenot_simv.Base.{
  true, false, List, [], ◌∷◌, ◌≡◌, refl, arith, inl, inr, All, All-map, length, suc, Bool-cases,
}
use maybenot_simv.BinaryHeap.{Ord, gt, push}

module _ {ℓ} {A : Type ℓ} ⦃o : Ord A⦄ where
  -- No later element is greater than an earlier one.
  abbrev pub IsHeap : List A → Type 0
  IsHeap [] = Unit {0}
  IsHeap (a ∷ h) = All (λ b. gt b a ≡ false) h × IsHeap h

  pub push-All : (P : A → Type 0) (a : A) (h : List A) → P a → All P h → All P (push a h)
  unfolding push
  push-All P a [] p ps = (p, tt)
  push-All P a (b ∷ h) p ps = ground (arith, push-All P a h p ps.1)

  push-IsHeap_gt :
      (a b : A) (h : List A)
      → gt a b ≡ true
      → All (λ c. gt c b ≡ false) h
      → All (λ c. gt c a ≡ false) (b ∷ h)
  push-IsHeap_gt a b h g s =
      (o.gt_asym a b g, All-map h (λ c l. o.le_trans c b a l (o.gt_asym a b g)) s)

  -- When no element of the heap is less than one behind it, this holds after a push.
  pub push-IsHeap : (a : A) (h : List A) → IsHeap h → IsHeap (push a h)
  unfolding push
  push-IsHeap a [] s = (tt, tt)
  push-IsHeap a (b ∷ h) s = elim (Bool-cases (gt a b)) [
    | inl g ↦ rw g (push-IsHeap_gt a b h g s.0, s)
    | inr g ↦ rw g (push-All (λ c. gt c b ≡ false) a h g s.0, push-IsHeap a h s.1)
  ]

  -- A push keeps what is there and adds the new element.
  pub push-perm : (a : A) (h : List A) → Perm (push a h) (a ∷ h)
  unfolding push
  push-perm a [] = Perm.refl _
  push-perm a (b ∷ h) = elim (Bool-cases (gt a b)) [
    | inl g ↦ rw g (Perm.refl _)
    | inr g ↦ rw g (Perm.trans (Perm.cons b (push-perm a h)) (Perm.swap a b h))
  ]

  pub length-push : (a : A) (h : List A) → length (push a h) ≡ suc (length h)
  unfolding push
  length-push a [] = refl
  length-push a (b ∷ h) = ground (arith, length-push a h)
