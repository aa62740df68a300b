-- ===== src/Base/Outcome.antt =====
-- What a call gives back: its value, or what it throws.
use qq_group_ops.Base.{◌≡◌, refl, ◌⊎◌, inl, inr}

module _ {ℓ κ} (E : Type ℓ) (A : Type κ) where
  pub data Outcome : Type (ℓ ⊔ κ) where
    thrown : E → Outcome
    ok : A → Outcome

-- The rest of a `do` block runs when the first call returns.
infixl 5 ◌>>=◌
abbrev pub ◌>>=◌ {ℓ κ μ} :
    {E : Type ℓ} {A : Type κ} {B : Type μ} → Outcome E A → (A → Outcome E B) → Outcome E B
thrown reason >>= rest = thrown reason
ok value >>= rest = rest value

module _ {ℓ κ} {E : Type ℓ} {A : Type κ} where
  pub >>=-eq-ok {μ} :
      {B : Type μ} (m : Outcome E A) (rest : A → Outcome E B) {b : B}
      → (m >>= rest) ≡ ok b
      → (a : A) × (m ≡ ok a) × (rest a ≡ ok b)
  >>=-eq-ok (thrown reason) rest h = cc
  >>=-eq-ok (ok value) rest h = (value, refl, h)

  pub Outcome-cases : (m : Outcome E A) → ((a : A) × (m ≡ ok a)) ⊎ ((e : E) × (m ≡ thrown e))
  Outcome-cases (thrown reason) = inr (reason, refl)
  Outcome-cases (ok value) = inl (value, refl)

  pub ok-injective : (a b : A) (m : Outcome E A) → m ≡ ok a → m ≡ ok b → a ≡ b
  ok-injective a b m p q = cc
