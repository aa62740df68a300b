-- ===== src/Base/Dict.antt =====
-- A JavaScript `Map`: its entries in the order of insertion. Proofs elsewhere go by the laws.
use qq_group_ops.Base.{
  [], All, true, false, count, ◌≡◌, ◌<◌, ◌+◌, refl, Bool, Option, none, some, List, ◌∷◌, arith, Eq,
  ◌==◌, if◌then◌else◌, is_some,
}

abbrev pub Dict {ℓ κ} : Type ℓ → Type κ → Type (ℓ ⊔ κ)
Dict K V = List (K × V)

module _ {ℓ κ} {K : Type ℓ} {V : Type κ} where
  -- `[...map.keys()]`
  unfoldable pub keys : Dict K V → List K
  keys [] = []
  keys ((k, _) ∷ d) = k ∷ keys d

  -- `[...map.values()]`
  unfoldable pub values : Dict K V → List V
  values [] = []
  values ((_, v) ∷ d) = v ∷ values d

module _ {ℓ κ} {K : Type ℓ} {V : Type κ} ⦃e : Eq K⦄ where
  -- `map.get(k)`
  unfoldable pub lookup : K → Dict K V → Option V
  lookup k [] = none
  lookup k ((j, v) ∷ d) = if k == j then some v else lookup k d

  -- `map.has(k)`
  abbrev pub has : K → Dict K V → Bool
  has k d = is_some (lookup k d)

  -- `map.set(k, v)`: an entry of the key keeps its place.
  unfoldable pub insert : K → V → Dict K V → Dict K V
  insert k v [] = (k, v) ∷ []
  insert k v ((j, w) ∷ d) = if k == j then (k, v) ∷ d else (j, w) ∷ insert k v d

  -- `map.delete(k)`. Every entry of the key goes; a real map has at most one.
  unfoldable pub erase : K → Dict K V → Dict K V
  erase k [] = []
  erase k ((j, w) ∷ d) = let rest = erase k d in if k == j then rest else (j, w) ∷ rest

  abbrev pub NodupKeys : Dict K V → Type κ
  NodupKeys [] = Unit
  NodupKeys ((k, _) ∷ d) = (lookup k d ≡ none) × NodupKeys d

  pub lookup-insert :
      (j k : K) (v : V) (d : Dict K V)
      → lookup j (insert k v d) ≡ (if j == k then some v else lookup j d)
  unfolding insert lookup
  lookup-insert j k v [] = refl
  lookup-insert j k v (_ ∷ d) = ground (arith, lookup-insert j k v d)

  pub lookup-erase :
      (j k : K) (d : Dict K V) → lookup j (erase k d) ≡ (if j == k then none else lookup j d)
  unfolding erase lookup
  lookup-erase j k [] = ground arith
  lookup-erase j k (_ ∷ d) = ground (arith, lookup-erase j k d)

  pub insert-NodupKeys : (k : K) (v : V) (d : Dict K V) → NodupKeys d → NodupKeys (insert k v d)
  unfolding insert lookup
  insert-NodupKeys k v [] _ = (refl, tt)
  insert-NodupKeys k v ((j, _) ∷ d) (fresh, u) =
      ground (arith, insert-NodupKeys k v d u, lookup-insert j k v d)

  pub erase-NodupKeys : (k : K) (d : Dict K V) → NodupKeys d → NodupKeys (erase k d)
  unfolding erase lookup
  erase-NodupKeys k [] _ = tt
  erase-NodupKeys k ((j, _) ∷ d) (fresh, u) =
      ground (arith, erase-NodupKeys k d u, lookup-erase j k d)

-- Counting the values that pass a test, through lookups.
module _ {ℓ κ} {K : Type ℓ} {V : Type κ} ⦃e : Eq K⦄ (p : V → Bool) where
  pub count-values-eq-zero :
      (d : Dict K V)
      → NodupKeys d
      → ((k : K) (v : V) → lookup k d ≡ some v → p v ≡ false)
      → count p (values d) ≡ 0
  unfolding count values lookup
  count-values-eq-zero [] u h = refl
  count-values-eq-zero ((j, w) ∷ d) (fresh, u) h =
      ground (arith, h j w, count-values-eq-zero d u (λ k v f. h k v (ground arith)))

  pub count-values-pos :
      (d : Dict K V) (k : K) (v : V) → lookup k d ≡ some v → p v ≡ true → 0 < count p (values d)
  unfolding count values lookup
  count-values-pos [] k v f h = cc
  count-values-pos ((j, w) ∷ d) k v f h = ground (arith, count-values-pos d k v)

  pub count-values-insert_fresh :
      (k : K) (v : V) (d : Dict K V)
      → lookup k d ≡ none
      → count p (values (insert k v d)) ≡ count p (values d) + (if p v then 1 else 0)
  unfolding count values lookup insert
  count-values-insert_fresh k v [] f = ground arith
  count-values-insert_fresh k v ((j, w) ∷ d) f = ground (arith, count-values-insert_fresh k v d)

  erase-of_absent : (k : K) (d : Dict K V) → lookup k d ≡ none → erase k d ≡ d
  unfolding lookup erase
  erase-of_absent k [] f = refl
  erase-of_absent k ((j, w) ∷ d) f = ground (arith, erase-of_absent k d)

  pub count-values-erase :
      (k : K) (v : V) (d : Dict K V)
      → NodupKeys d
      → lookup k d ≡ some v
      → count p (values (erase k d)) + (if p v then 1 else 0) ≡ count p (values d)
  unfolding count values lookup erase
  count-values-erase k v [] u f = cc
  count-values-erase k v ((j, w) ∷ d) (fresh, u) f =
      ground (arith, count-values-erase k v d u, erase-of_absent k d)

pub values-All {ℓ κ μ} :
    {K : Type ℓ} {V : Type κ} ⦃e : Eq K⦄ (P : V → Type μ) (d : Dict K V)
    → NodupKeys d
    → ((k : K) (v : V) → lookup k d ≡ some v → P v)
    → All P (values d)
unfolding values lookup
values-All P [] u h = tt
values-All P ((j, w) ∷ d) (fresh, u) h =
    (h j w (ground arith), values-All P d u (λ k v f. h k v (ground arith)))
