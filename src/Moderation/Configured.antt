-- ===== src/Moderation/Configured.antt =====
-- Theorems on `fromKeywords` and `fromRegex` of src/services/moderation.ts.
use qq_group_ops.Base.{
  [], ◌≡◌, refl, ◌∙◌, ap, String, Bool, false, not, ◌&&◌, Option, List, ◌∷◌, map, filter, count,
  length, string_eq, is_some, arith, Option-cases, Bool-cases, inl, inr, length-filter,
}
use qq_group_ops.Base.Dict.{Dict, insert}
use qq_group_ops.Base.Text.{trim, concat, is_empty, includes}
use qq_group_ops.Base.Outcome.{ok}
use qq_group_ops.Moderation.{
  ModerationAction, RiskLevel, ResolvedRule, Language, RuleEngine, resolve, keyword_rule,
  compile_rules, new_engine, matches, match_of, evaluate, valid_rules, from_regex, from_keywords,
}
use qq_group_ops.Moderation.Laws.{applies, evaluate-eq}

length-map {ℓ κ} :
    {A : Type ℓ} {B : Type κ} (f : A → B) (xs : List A) → length (map f xs) ≡ length xs
length-map f [] = refl
length-map f (x ∷ xs) = ground (arith, length-map f xs)

-- A keyword that is not empty and stands in the message, upper and lower case alike.
abbrev pub found_in : Language → String → String → Bool
found_in language content k =
    not (is_empty k) && includes (language.to_lower_case k) (language.to_lower_case content)

module _ (language : Language) (action : Option ModerationAction) (risk : Option RiskLevel) where
  abbrev keyword_rules : List String → List ResolvedRule
  keyword_rules ks =
      map resolve (map (keyword_rule action risk) (filter (λ k. not (is_empty k)) ks))

  compile_rules-keywords : (ks : List String) → compile_rules language (keyword_rules ks) [] ≡ ok []
  unfolding compile_rules filter
  compile_rules-keywords [] = refl
  compile_rules-keywords (k ∷ ks) = elim (Bool-cases (is_empty k)) [
    | inl blank ↦ rw blank (compile_rules-keywords ks)
    | inr text ↦ rw text (compile_rules-keywords ks)
  ]

  count-keywords :
      (engine : RuleEngine) (content : String) (ks : List String)
      → count (applies language engine content) (keyword_rules ks)
        ≡ count (found_in language content) ks
  unfolding count filter matches
  count-keywords engine content [] = refl
  count-keywords engine content (k ∷ ks) = elim (Bool-cases (is_empty k)) [
    | inl blank ↦ rw blank (count-keywords engine content ks)
    | inr text ↦ rw text (ground (arith, count-keywords engine content ks))
  ]

  -- Keywords always give an engine, which finds as many matches in a message as there are keywords
  -- in it, upper and lower case alike, the empty ones left out.
  pub from_keywords_lem :
      (ks : List String)
      → (engine : RuleEngine) × (from_keywords language ks action risk ≡ ok engine)
        × ((content : String)
            → length (evaluate language engine content) ≡ count (found_in language content) ks)
  unfolding from_keywords new_engine
  from_keywords_lem ks =
      let engine : RuleEngine = record { resolved_rules = keyword_rules ks; compiled = [] } in
      (
        engine,
        rw (compile_rules-keywords ks),
        λ content.
            ap length (evaluate-eq language engine content)
            ∙ length-map match_of _
            ∙ length-filter (applies language engine content) (keyword_rules ks)
            ∙ count-keywords engine content ks,
      )

  compile_rules-valid :
      (patterns : List String) (d : Dict String (String → Bool))
      → (d' : Dict String (String → Bool)) × (compile_rules language
            (map resolve (valid_rules language action risk patterns))
            d
          ≡ ok d')
  unfolding compile_rules valid_rules
  compile_rules-valid [] d = (d, refl)
  compile_rules-valid (p ∷ ps) d = elim (Bool-cases (is_empty (trim p))) [
    | inl blank ↦ rw blank (compile_rules-valid ps d)
    | inr text ↦ elim (Option-cases (language.compile (trim p) false)) [
      | inl bad ↦ rw (text, bad) (compile_rules-valid ps d)
      | inr (test, good) ↦
          rw (text, good, good) (compile_rules-valid ps (insert (concat "regex:" (trim p)) test d))
    ]
  ]

  valid_rules-length :
      (ps : List String)
      → length (valid_rules language action risk ps)
        ≡ count (λ p. not (is_empty (trim p)) && is_some (language.compile (trim p) false)) ps
  unfolding valid_rules count
  valid_rules-length [] = refl
  valid_rules-length (p ∷ ps) = ground (arith, valid_rules-length ps)

  -- Stored patterns always give an engine, with as many rules as there are patterns that are not
  -- blank and compile.
  pub from_regex_lem :
      (patterns : List String)
      → (engine : RuleEngine) × (from_regex language patterns action risk ≡ ok engine)
        × (length engine.resolved_rules
            ≡ count
                (λ p. not (is_empty (trim p)) && is_some (language.compile (trim p) false))
                patterns)
  unfolding from_regex new_engine
  from_regex_lem patterns =
      let (d, e) = compile_rules-valid patterns [] in
      (
        record {
          resolved_rules = map resolve (valid_rules language action risk patterns);
          compiled = d;
        },
        rw e,
        length-map resolve _ ∙ valid_rules-length patterns,
      )
