-- ===== src/Base/Lists.antt =====
-- Lists: what JavaScript's arrays and sets offer and the components use.
use mathlib.Core.Logic.{inl, inr}
use qq_group_ops.Base.Equality.{Bool-cases, Eq, ◌==◌, if◌then◌else◌}
use mathlib.Core.Bool.{true, Bool, false, ◌&&◌, ◌||◌, not}
use qq_group_ops.Base.Numbers.{ltb}
use Prim.Native.Nat.{ℕ, zero, suc, ◌+◌, ◌≤◌}
use mathlib.Core.Path.{subst, ◌≡◌, refl}
use mathlib.Core.List.{[], List, ◌∷◌, ◌++◌}
use mathlib.Core.Option.{some-injective, Option, none, some}
use native.Mathlib.Omega.{arith}

module _ {ℓ} {A : Type ℓ} where
  abbrev pub length : List A → ℕ
  length [] = 0
  length (x ∷ xs) = suc (length xs)

  -- `array.filter(p)`
  unfoldable pub filter : (A → Bool) → List A → List A
  filter p [] = []
  filter p (x ∷ xs) = let rest = filter p xs in if p x then x ∷ rest else rest

  -- `array.find(p)`
  unfoldable pub find : (A → Bool) → List A → Option A
  find p [] = none
  find p (x ∷ xs) = if p x then some x else find p xs

  -- `array.some(p)`
  unfoldable pub any : (A → Bool) → List A → Bool
  any p [] = false
  any p (x ∷ xs) = p x || any p xs

  -- How many elements satisfy `p`.
  unfoldable pub count : (A → Bool) → List A → ℕ
  count p [] = 0
  count p (x ∷ xs) = let rest = count p xs in if p x then suc rest else rest

  abbrev pub take : ℕ → List A → List A
  take zero xs = []
  take (suc n) [] = []
  take (suc n) (x ∷ xs) = x ∷ take n xs

  pub length-append : (xs ys : List A) → length (xs ++ ys) ≡ length xs + length ys
  length-append [] ys = omega arith
  length-append (x ∷ xs) ys = omega (arith, length-append xs ys)

  pub length-filter : (p : A → Bool) (xs : List A) → length (filter p xs) ≡ count p xs
  unfolding filter count
  length-filter p [] = refl
  length-filter p (x ∷ xs) = ground (arith, length-filter p xs)

  pub count-append : (p : A → Bool) (xs ys : List A) → count p (xs ++ ys) ≡ count p xs + count p ys
  unfolding count
  count-append p [] ys = omega arith
  count-append p (x ∷ xs) ys = ground (arith, count-append p xs ys)

  pub count-le-length : (p : A → Bool) (xs : List A) → count p xs ≤ length xs
  unfolding count
  count-le-length p [] = omega arith
  count-le-length p (x ∷ xs) = ground (arith, count-le-length p xs)

  pub count-filter :
      (p q : A → Bool) (xs : List A) → count q (filter p xs) ≡ count (λ x. p x && q x) xs
  unfolding filter count
  count-filter p q [] = refl
  count-filter p q (x ∷ xs) = ground (arith, count-filter p q xs)

  -- A property of every element.
  abbrev pub All {κ} : (A → Type κ) → List A → Type κ
  All P [] = Unit
  All P (x ∷ xs) = P x × All P xs

  pub filter-All {κ} :
      (P : A → Type κ) (p : A → Bool) (xs : List A)
      → All P xs
      → All (λ x. (p x ≡ true) × P x) (filter p xs)
  unfolding filter
  filter-All P p [] h = tt
  filter-All P p (x ∷ xs) (h, hs) = elim (Bool-cases (p x)) [
    | inl y ↦ rw y ((y, h), filter-All P p xs hs)
    | inr n ↦ rw n (filter-All P p xs hs)
  ]

  pub find-All {κ} :
      (P : A → Type κ) (p : A → Bool) (xs : List A) (a : A)
      → All P xs
      → find p xs ≡ some a
      → (p a ≡ true) × P a
  unfolding find
  find-All P p [] a h e = cc
  find-All P p (x ∷ xs) a (h, hs) e = elim (Bool-cases (p x)) [
    | inl y ↦ subst (λ z. (p z ≡ true) × P z) (some-injective x a (rw y at e)) (y, h)
    | inr n ↦ find-All P p xs a hs (rw n at e)
  ]

  pub find-none : (p : A → Bool) (xs : List A) → find p xs ≡ none → count p xs ≡ 0
  unfolding find count
  find-none p [] e = refl
  find-none p (x ∷ xs) e = ground (arith, find-none p xs)

  pub any-count : (p : A → Bool) (xs : List A) → any p xs ≡ ltb 0 (count p xs)
  unfolding any count
  any-count p [] = refl
  any-count p (x ∷ xs) = ground (arith, any-count p xs)

-- A JavaScript `Set`: its elements in the order of insertion.
module _ {ℓ} {A : Type ℓ} ⦃e : Eq A⦄ where
  unfoldable pub contains : A → List A → Bool
  contains a [] = false
  contains a (x ∷ xs) = a == x || contains a xs

  -- `set.add(a)`
  unfoldable pub add : A → List A → List A
  add a xs = if contains a xs then xs else xs ++ a ∷ []

  -- `set.delete(a)`
  unfoldable pub remove : A → List A → List A
  remove a [] = []
  remove a (x ∷ xs) = let rest = remove a xs in if a == x then rest else x ∷ rest

  pub contains-append :
      (b : A) (xs ys : List A) → contains b (xs ++ ys) ≡ (contains b xs || contains b ys)
  unfolding contains
  contains-append b [] ys = refl
  contains-append b (x ∷ xs) ys = ground (arith, contains-append b xs ys)

  pub contains-add : (b a : A) (xs : List A) → contains b (add a xs) ≡ (b == a || contains b xs)
  unfolding add contains
  contains-add b a xs = ground (arith, contains-append b xs (a ∷ []))

  pub contains-remove :
      (b a : A) (xs : List A) → contains b (remove a xs) ≡ (not (b == a) && contains b xs)
  unfolding contains remove
  contains-remove b a [] = ground arith
  contains-remove b a (x ∷ xs) = ground (arith, contains-remove b a xs)

  -- `[...new Set(list)]`, on top of a set
  unfoldable pub add_all : List A → List A → List A
  unfolding add
  add_all [] set = set
  add_all (x ∷ xs) set = add_all xs (add x set)

  pub contains-add_all :
      (b : A) (xs set : List A) → contains b (add_all xs set) ≡ (contains b xs || contains b set)
  unfolding add_all contains
  contains-add_all b [] set = refl
  contains-add_all b (x ∷ xs) set =
      ground (arith, contains-add_all b xs (add x set), contains-add b x set)
