-- ===== src/BinaryHeap.antt =====
-- `std::collections::BinaryHeap`, as the simulator uses it: a list with the greatest element first.
-- Among elements that compare equal, where the documentation leaves the order open, the one that
-- was pushed first is popped first.
pub mod Order
use maybenot_simv.Base.{
  Bool, true, false, Ordering, List, [], ◌∷◌, Option, none, some, if◌then◌else◌, ◌≡◌, head?,
}

abbrev pub is_gt : Ordering → Bool
is_gt Ordering.gt = true
is_gt Ordering.lt = false
is_gt Ordering.eq = false

-- The trait `Ord`, with what its documentation asks of `cmp`: a total preorder.
pub record Ord {ℓ} (A : Type ℓ) : Type ℓ where
  pub cmp : A → A → Ordering
  pub gt_asym : (a b : A) → is_gt (cmp a b) ≡ true → is_gt (cmp b a) ≡ false
  pub le_trans :
      (a b c : A) → is_gt (cmp a b) ≡ false → is_gt (cmp b c) ≡ false → is_gt (cmp a c) ≡ false

module _ {ℓ} {A : Type ℓ} ⦃o : Ord A⦄ where
  abbrev pub gt : A → A → Bool
  gt a b = is_gt (o.cmp a b)

  -- `a > b` on options, where `None` is the least.
  abbrev pub gt_option : Option A → Option A → Bool
  gt_option none b = false
  gt_option (some a) none = true
  gt_option (some a) (some b) = gt a b

  unfoldable pub push : A → List A → List A
  push a [] = a ∷ []
  push a (b ∷ h) = if gt a b then a ∷ b ∷ h else b ∷ push a h

module _ {ℓ} {A : Type ℓ} where
  abbrev pub peek : List A → Option A
  peek = head?

  abbrev pub pop : List A → Option A × List A
  pop [] = (none, [])
  pop (a ∷ h) = (some a, h)
