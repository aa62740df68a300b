-- ===== src/Moderation/Laws.antt =====
-- Theorems on `evaluate` and `highestAction` of src/services/moderation.ts.
use qq_group_ops.Base.{
  [], sym, ℕ, ◌≤◌, ◌≡◌, refl, ◌∙◌, ap, String, Bool, true, not, ◌&&◌, ◌||◌, List, ◌∷◌, ◌++◌, map,
  filter, ◌==◌, string_eq, nat_eq, arith, Bool-cases, inl, inr, ◌⊎◌, any, All,
}
use mathlib.Core.List.{append-nil, append_assoc}
use mathlib.Core.Path.{subst}
use qq_group_ops.Moderation.{
  ModerationAction, allow, action_priority, ResolvedRule, RuleMatch, Language, RuleEngine, matches,
  match_of, evaluate_loop, evaluate, higher, highest_match, highest_of, highest_action,
}

abbrev pub priority_of : RuleMatch → ℕ
priority_of m = action_priority m.action

higher-le :
    (h m : RuleMatch)
    → (priority_of h ≤ priority_of (higher h m)) × (priority_of m ≤ priority_of (higher h m))
unfolding higher
higher-le h m = ground arith

higher-cases : (h m : RuleMatch) → (higher h m ≡ h) ⊎ (higher h m ≡ m)
unfolding higher
higher-cases h m = ground arith

highest_match-le :
    (h : RuleMatch) (ms : List RuleMatch)
    → (priority_of h ≤ priority_of (highest_match h ms))
      × All (λ m. priority_of m ≤ priority_of (highest_match h ms)) ms
unfolding highest_match
highest_match-le h [] = (omega arith, tt)
highest_match-le h (m ∷ ms) =
    let (le, all) = highest_match-le (higher h m) ms in
    let (a, b) = higher-le h m in (omega arith, (omega arith, all))

-- One of the matches is the highest.
highest_match-found :
    (q : RuleMatch → Bool) (h : RuleMatch) (ms : List RuleMatch)
    → q (highest_match h ms) ≡ true
    → any q (h ∷ ms) ≡ true
unfolding highest_match any
highest_match-found q h [] e = ground arith
highest_match-found q h (m ∷ ms) e =
    ground (arith, highest_match-found q (higher h m) ms e, higher-cases h m)

any-map-filter {ℓ κ} :
    {A : Type ℓ} {B : Type κ} (q : B → Bool) (f : A → B) (p : A → Bool) (xs : List A)
    → any q (map f (filter p xs)) ≡ any (λ x. p x && q (f x)) xs
unfolding any filter
any-map-filter q f p [] = refl
any-map-filter q f p (x ∷ xs) = elim (Bool-cases (p x)) [
  | inl y ↦ rw y (ap (λ b. q (f x) || b) (any-map-filter q f p xs))
  | inr n ↦ rw n (any-map-filter q f p xs)
]

All-map-filter {ℓ κ μ} :
    {A : Type ℓ} {B : Type κ} (P : B → Type μ) (f : A → B) (p : A → Bool) (xs : List A)
    → All P (map f (filter p xs))
    → All (λ x. p x ≡ true → P (f x)) xs
unfolding filter
All-map-filter P f p [] h = tt
All-map-filter P f p (x ∷ xs) h = elim (Bool-cases (p x)) [
  | inl y ↦ let (here, rest) = rw y at h in ((λ e. here), All-map-filter P f p xs rest)
  | inr n ↦ ((λ e. absurd (ground arith)), All-map-filter P f p xs (rw n at h))
]

module _ (language : Language) (engine : RuleEngine) (content : String) where
  -- The rule is enabled and matches.
  abbrev pub applies : ResolvedRule → Bool
  applies rule = rule.enabled && matches language engine rule content

  skips-eq :
      (rule : ResolvedRule)
      → (not rule.enabled || not (matches language engine rule content)) ≡ not (applies rule)
  skips-eq rule = ground arith

  evaluate_loop-eq :
      (rules : List ResolvedRule) (found : List RuleMatch)
      → evaluate_loop language engine content rules found
        ≡ found ++ map match_of (filter applies rules)
  unfolding evaluate_loop filter
  evaluate_loop-eq [] found = sym (append-nil found)
  evaluate_loop-eq (rule ∷ rules) found = rw (skips-eq rule) (elim (Bool-cases (applies rule)) [
    | inl hit ↦ simp (hit, evaluate_loop-eq rules (found ++ match_of rule ∷ []), append_assoc)
    | inr miss ↦ simp (miss, evaluate_loop-eq rules found)
  ])

  pub evaluate-eq :
      evaluate language engine content ≡ map match_of (filter applies engine.resolved_rules)
  unfolding evaluate
  evaluate-eq = evaluate_loop-eq engine.resolved_rules []

  -- The rules that apply ask for no more than the action, which one of them asks for.
  abbrev pub IsHighest : List RuleMatch → ModerationAction → Type 0
  IsHighest found action =
      All (λ rule. applies rule ≡ true → action_priority rule.action ≤ action_priority action)
        engine.resolved_rules
      × (((action ≡ allow) × (found ≡ []))
          ⊎ (any (λ rule. applies rule && action_priority rule.action == action_priority action)
                engine.resolved_rules
              ≡ true))

  highest_of-IsHighest :
      (ms : List RuleMatch)
      → ms ≡ map match_of (filter applies engine.resolved_rules)
      → IsHighest ms (highest_of ms)
  unfolding highest_of
  highest_of-IsHighest [] e = (
    All-map-filter (λ m. priority_of m ≤ 0) match_of applies _
        (subst (All (λ m. priority_of m ≤ 0)) e tt),
    inl (refl, refl),
  )
  highest_of-IsHighest (m ∷ ms) e =
      let top = highest_match m ms in
      (
        All-map-filter (λ x. priority_of x ≤ priority_of top) match_of applies _
            (subst (All (λ x. priority_of x ≤ priority_of top)) e (highest_match-le m ms)),
        inr (
            sym (any-map-filter (λ x. priority_of x == priority_of top) match_of applies _)
            ∙ ap (any (λ x. priority_of x == priority_of top)) (sym e)
            ∙ highest_match-found (λ x. priority_of x == priority_of top) m ms (ground arith)),
      )

  -- Every enabled rule that matches asks for no more than the highest action, and one of them asks
  -- for it, unless nothing matches and the message is allowed.
  pub highest_action_lem :
      IsHighest (evaluate language engine content) (highest_action language engine content)
  unfolding highest_action
  highest_action_lem = highest_of-IsHighest _ evaluate-eq
