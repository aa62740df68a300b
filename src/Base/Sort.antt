-- ===== src/Base/Sort.antt =====
-- `array.sort(compare)`, which is stable, as insertion; and what it keeps.
use qq_group_ops.Base.{
  [], Bool-cases, inl, inr, not, All, suc, ◌≡◌, refl, ◌∙◌, Bool, true, false, List, ◌∷◌,
  if◌then◌else◌, arith, count, length, contains, Eq, ◌==◌, ◌||◌,
}

module _ {ℓ} {A : Type ℓ} (le : A → A → Bool) where
  unfoldable pub insert_sorted : A → List A → List A
  insert_sorted a [] = a ∷ []
  insert_sorted a (x ∷ xs) = if le a x then a ∷ x ∷ xs else x ∷ insert_sorted a xs

  unfoldable pub sort : List A → List A
  unfolding insert_sorted
  sort [] = []
  sort (x ∷ xs) = insert_sorted x (sort xs)

  -- Every element is below the one after it.
  abbrev pub Sorted : List A → Type 0
  Sorted [] = Unit
  Sorted (x ∷ []) = Unit
  Sorted (x ∷ y ∷ ys) = (le x y ≡ true) × Sorted (y ∷ ys)

  insert_sorted-Sorted :
      ((x y : A) → le x y ≡ false → le y x ≡ true)
      → (a : A) (xs : List A) → Sorted xs
      → Sorted (insert_sorted a xs)
  unfolding insert_sorted
  insert_sorted-Sorted total a [] h = tt
  insert_sorted-Sorted total a (x ∷ []) h = ground (arith, total a x)
  insert_sorted-Sorted total a (x ∷ y ∷ ys) (h, hs) =
      ground (arith, total a x, total a y, insert_sorted-Sorted total a (y ∷ ys) hs)

  pub sort-Sorted : ((x y : A) → le x y ≡ false → le y x ≡ true) → (xs : List A) → Sorted (sort xs)
  unfolding sort
  sort-Sorted total [] = tt
  sort-Sorted total (x ∷ xs) = insert_sorted-Sorted total x (sort xs) (sort-Sorted total xs)

  insert_sorted-count :
      (p : A → Bool) (a : A) (xs : List A) → count p (insert_sorted a xs) ≡ count p (a ∷ xs)
  unfolding insert_sorted count
  insert_sorted-count p a [] = refl
  insert_sorted-count p a (x ∷ xs) = ground (arith, insert_sorted-count p a xs)

  -- Sorting keeps how many elements satisfy any test.
  pub sort-count : (p : A → Bool) (xs : List A) → count p (sort xs) ≡ count p xs
  unfolding sort count
  sort-count p [] = refl
  sort-count p (x ∷ xs) = ground (arith, insert_sorted-count p x (sort xs), sort-count p xs)

  insert_sorted-All {κ} :
      (P : A → Type κ) (a : A) (xs : List A) → P a → All P xs → All P (insert_sorted a xs)
  unfolding insert_sorted
  insert_sorted-All P a [] h hs = (h, tt)
  insert_sorted-All P a (x ∷ xs) h (g, hs) = elim (Bool-cases (le a x)) [
    | inl y ↦ rw y (h, (g, hs))
    | inr n ↦ rw n (g, insert_sorted-All P a xs h hs)
  ]

  -- What holds of every element holds of every element when sorted.
  pub sort-All {κ} : (P : A → Type κ) (xs : List A) → All P xs → All P (sort xs)
  unfolding sort
  sort-All P [] hs = tt
  sort-All P (x ∷ xs) (h, hs) = insert_sorted-All P x (sort xs) h (sort-All P xs hs)

  -- The first element of a sorted list is below all others, when the order is transitive.
  pub Sorted-count_below :
      ((x y z : A) → le x y ≡ true → le y z ≡ true → le x z ≡ true)
      → ((x : A) → le x x ≡ true)
      → (x : A) (xs : List A) → Sorted (x ∷ xs)
      → count (λ y. not (le x y)) (x ∷ xs) ≡ 0
  unfolding count
  Sorted-count_below trans rf x [] h = ground (arith, rf x)
  Sorted-count_below trans rf x (y ∷ []) (h, hs) = ground (arith, rf x)
  Sorted-count_below trans rf x (y ∷ z ∷ ys) (h, (g, hs)) =
      ground (arith, Sorted-count_below trans rf x (z ∷ ys), trans x y z h g, hs, rf x)

  insert_sorted-length : (a : A) (xs : List A) → length (insert_sorted a xs) ≡ suc (length xs)
  unfolding insert_sorted
  insert_sorted-length a [] = refl
  insert_sorted-length a (x ∷ xs) = ground (arith, insert_sorted-length a xs)

  pub sort-length : (xs : List A) → length (sort xs) ≡ length xs
  unfolding sort
  sort-length [] = refl
  sort-length (x ∷ xs) = ground (arith, insert_sorted-length x (sort xs), sort-length xs)

module _ {ℓ} {A : Type ℓ} ⦃e : Eq A⦄ (le : A → A → Bool) where
  insert_sorted-contains :
      (b a : A) (xs : List A) → contains b (insert_sorted le a xs) ≡ (b == a || contains b xs)
  unfolding insert_sorted contains
  insert_sorted-contains b a [] = refl
  insert_sorted-contains b a (x ∷ xs) = ground (arith, insert_sorted-contains b a xs)

  -- Sorting keeps the elements.
  pub sort-contains : (b : A) (xs : List A) → contains b (sort le xs) ≡ contains b xs
  unfolding sort contains
  sort-contains b [] = refl
  sort-contains b (x ∷ xs) =
      insert_sorted-contains b x (sort le xs) ∙ ground (arith, sort-contains b xs)
