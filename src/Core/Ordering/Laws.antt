-- ===== src/Core/Ordering/Laws.antt =====
-- Theorems on `newestFirst`.
use qq_group_ops.Base.Sort.{sort-All, sort, Sorted, sort-Sorted, sort-count}
use qq_group_ops.Base.{
  All, [], ℕ, ◌≤◌, ◌≡◌, refl, ◌∙◌, Bool, List, ◌∷◌, ◌++◌, arith, count, count-append,
}
use qq_group_ops.Core.Ordering.{earlier, newest_first}
use mathlib.Core.List.{reverse, reverse-cons}

module _ {ℓ κ} {A : Type ℓ} (P : A → Type κ) where
  All-append : (xs ys : List A) → All P xs → All P ys → All P (xs ++ ys)
  All-append [] ys h g = g
  All-append (x ∷ xs) ys (h, hs) g = (h, All-append xs ys hs g)

  pub reverse-All : (xs : List A) → All P xs → All P (reverse xs)
  reverse-All [] h = tt
  reverse-All (x ∷ xs) (h, hs) =
      rw reverse-cons (All-append (reverse xs) (x ∷ []) (reverse-All xs hs) (h, tt))

module _ {ℓ} {A : Type ℓ} (time_of : A → ℕ) where
  -- No element is older than the one after it.
  abbrev pub Descending : List A → Type 0
  Descending [] = Unit
  Descending (x ∷ []) = Unit
  Descending (x ∷ y ∷ ys) = (time_of y ≤ time_of x) × Descending (y ∷ ys)

  Descending-concat :
      (xs : List A) (y z : A)
      → Descending (xs ++ y ∷ [])
      → time_of z ≤ time_of y
      → Descending ((xs ++ y ∷ []) ++ z ∷ [])
  Descending-concat [] y z h k = (k, tt)
  Descending-concat (x ∷ []) y z (h, _) k = (h, (k, tt))
  Descending-concat (x ∷ w ∷ ws) y z (h, hs) k = (h, Descending-concat (w ∷ ws) y z hs k)

  Descending-reverse : (xs : List A) → Sorted (earlier time_of) xs → Descending (reverse xs)
  Descending-reverse [] h = tt
  Descending-reverse (x ∷ []) h = tt
  Descending-reverse (x ∷ y ∷ ys) (h, hs) =
      let ih = Descending-reverse (y ∷ ys) hs in
      rw (reverse-cons, reverse-cons)
        (Descending-concat (reverse ys) y x (rw reverse-cons at ih) (ground arith))

  count-reverse : (p : A → Bool) (xs : List A) → count p (reverse xs) ≡ count p xs
  unfolding count
  count-reverse p [] = refl
  count-reverse p (x ∷ xs) = rw (reverse-cons, count-append) (ground (arith, count-reverse p xs))

  -- What `newest_first` returns is in descending order of time, and every test holds of as many
  -- elements as before.
  pub newest_first_lem :
      (items : List A)
      → Descending (newest_first time_of items)
        × ((p : A → Bool) → count p (newest_first time_of items) ≡ count p items)
  unfolding newest_first
  newest_first_lem items = (
    Descending-reverse _ (sort-Sorted (earlier time_of) (λ x y h. ground arith) items),
    λ p. count-reverse p (sort (earlier time_of) items) ∙ sort-count (earlier time_of) p items,
  )

  -- What holds of every element holds of every element in the new order.
  pub newest_first-All {κ} :
      (P : A → Type κ) (items : List A) → All P items → All P (newest_first time_of items)
  unfolding newest_first
  newest_first-All P items h =
      reverse-All P (sort (earlier time_of) items) (sort-All (earlier time_of) P items h)
