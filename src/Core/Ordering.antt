-- ===== src/Core/Ordering.antt =====
-- src/core/ordering.ts: the newest first, and the later of two of one time first.
pub mod Laws
use qq_group_ops.Base.{ℕ, Bool, List, leb}
use qq_group_ops.Base.Sort.{sort}
use mathlib.Core.List.{reverse}

module _ {ℓ} {A : Type ℓ} (time_of : A → ℕ) where
  -- `left` may stand before `right` in ascending order.
  abbrev pub earlier : A → A → Bool
  earlier left right = leb (time_of left) (time_of right)

  unfoldable pub newest_first : List A → List A
  newest_first items = reverse (sort earlier items)
