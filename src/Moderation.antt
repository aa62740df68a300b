-- ===== src/Moderation.antt =====
-- src/services/moderation.ts: the rules that a message is checked against, and the action they ask
-- for. Regular expressions and the lower case are the language's: parameters.
pub mod Laws
pub mod Configured
use qq_group_ops.Base.{
  [], ℕ, String, Bool, true, false, not, ◌||◌, Option, none, some, List, ◌∷◌, ◌++◌, map, ltb,
  filter, string_eq, if◌then◌else◌, is_some,
}
use qq_group_ops.Base.Dict.{Dict, lookup, insert}
use qq_group_ops.Base.Text.{trim, is_empty, concat, includes}
use qq_group_ops.Base.Outcome.{Outcome, ok, thrown, ◌>>=◌}

-- `RiskLevel`
pub data RiskLevel : Type 0 where
  low medium high critical : RiskLevel

-- `ModerationAction`
pub data ModerationAction : Type 0 where
  allow warn review recall mute kick : ModerationAction

-- `ACTION_PRIORITY`
abbrev pub action_priority : ModerationAction → ℕ
action_priority allow = 0
action_priority warn = 1
action_priority review = 2
action_priority recall = 3
action_priority mute = 4
action_priority kick = 5

-- `ModerationRule`
pub record ModerationRule : Type 0 where
  pub rule_id : String
  pub pattern : String
  pub action : Option ModerationAction
  pub reason : Option String
  pub risk : Option RiskLevel
  pub is_regex : Option Bool
  pub enabled : Option Bool
  pub case_sensitive : Option Bool

pub record ResolvedRule : Type 0 where
  pub rule_id : String
  pub pattern : String
  pub action : ModerationAction
  pub reason : String
  pub risk : RiskLevel
  pub is_regex : Bool
  pub enabled : Bool
  pub case_sensitive : Bool

pub record RuleMatch : Type 0 where
  pub rule_id : String
  pub pattern : String
  pub action : ModerationAction
  pub reason : String
  pub risk : RiskLevel

-- What the language gives: `new RegExp(pattern, flags)` for the flags "u" (case-sensitive) and "iu",
-- with `test`, or nothing where it throws; and `toLowerCase`.
pub record Language : Type 0 where
  pub compile : String → (case_sensitive : Bool) → Option (String → Bool)
  pub to_lower_case : String → String

pub record RuleEngine : Type 0 where
  pub resolved_rules : List ResolvedRule
  pub compiled : Dict String (String → Bool)

-- `invalid regex for rule ...`: its id and its pattern
pub data RuleError : Type 0 where
  invalid_regex : String → String → RuleError

abbrev pub given {ℓ} : {A : Type ℓ} → Option A → A → A
given none default = default
given (some value) default = value

abbrev pub resolve : ModerationRule → ResolvedRule
resolve rule = record {
  rule_id = rule.rule_id;
  pattern = rule.pattern;
  action = given rule.action warn;
  reason = given rule.reason "命中规则";
  risk = given rule.risk medium;
  is_regex = given rule.is_regex false;
  enabled = given rule.enabled true;
  case_sensitive = given rule.case_sensitive false;
}

abbrev pub match_of : ResolvedRule → RuleMatch
match_of rule = record {
  rule_id = rule.rule_id;
  pattern = rule.pattern;
  action = rule.action;
  reason = rule.reason;
  risk = rule.risk;
}

-- One step of the `reduce` of `highestAction`: the earlier match stays on a tie.
unfoldable pub higher : RuleMatch → RuleMatch → RuleMatch
higher highest m =
    if ltb (action_priority highest.action) (action_priority m.action) then m else highest

-- The `reduce`, from a first match.
unfoldable pub highest_match : RuleMatch → List RuleMatch → RuleMatch
unfolding higher
highest_match highest [] = highest
highest_match highest (m ∷ ms) = highest_match (higher highest m) ms

unfoldable pub highest_of : List RuleMatch → ModerationAction
unfolding highest_match
highest_of [] = allow
highest_of (m ∷ ms) = (highest_match m ms).action

abbrev pub keyword_rule : Option ModerationAction → Option RiskLevel → String → ModerationRule
keyword_rule action risk keyword = record {
  rule_id = concat "keyword:" keyword;
  pattern = keyword;
  action = some (given action warn);
  reason = some (concat "命中关键词：" keyword);
  risk = some (given risk medium);
  is_regex = none;
  enabled = none;
  case_sensitive = none;
}

abbrev pub regex_rule : Option ModerationAction → Option RiskLevel → String → ModerationRule
regex_rule action risk pattern = record {
  rule_id = concat "regex:" pattern;
  pattern = pattern;
  action = some (given action warn);
  reason = some (concat "命中正则：" pattern);
  risk = some (given risk medium);
  is_regex = some true;
  enabled = none;
  case_sensitive = none;
}

module _ (language : Language) where
  -- The compiled form of a rule that is a regular expression.
  compile_found :
      ResolvedRule
      → Option (String → Bool)
      → Dict String (String → Bool)
      → Outcome RuleError (Dict String (String → Bool))
  compile_found rule none compiled = thrown (invalid_regex rule.rule_id rule.pattern)
  compile_found rule (some test) compiled = ok (insert rule.rule_id test compiled)

  -- The loop of the constructor.
  unfoldable pub compile_rules :
      List ResolvedRule
      → Dict String (String → Bool)
      → Outcome RuleError (Dict String (String → Bool))
  unfolding compile_found
  compile_rules [] compiled = ok compiled
  compile_rules (rule ∷ rules) compiled =
      let skipped = compile_rules rules compiled in
      let further =
        compile_found rule (language.compile rule.pattern rule.case_sensitive) compiled >>= λ more.
        compile_rules rules more in
      if not rule.is_regex then skipped else further

  -- `new RuleEngine(rules)`
  unfoldable pub new_engine : List ModerationRule → Outcome RuleError RuleEngine
  unfolding compile_rules
  new_engine rules = do
    compiled ← compile_rules (map resolve rules) []
    ok (record { resolved_rules = map resolve rules; compiled = compiled })

  test_found : String → Option (String → Bool) → Bool
  test_found content none = false
  test_found content (some test) = test content

  -- `matches`
  unfoldable pub matches : RuleEngine → ResolvedRule → String → Bool
  unfolding test_found
  matches engine rule content =
      if rule.is_regex
      then test_found content (lookup rule.rule_id engine.compiled)
      else if rule.case_sensitive
      then includes rule.pattern content
      else includes (language.to_lower_case rule.pattern) (language.to_lower_case content)

  -- The loop of `evaluate`.
  unfoldable pub evaluate_loop :
      RuleEngine → String → List ResolvedRule → List RuleMatch → List RuleMatch
  unfolding matches
  evaluate_loop engine content [] found = found
  evaluate_loop engine content (rule ∷ rules) found = evaluate_loop engine content rules (
      if not rule.enabled || not (matches engine rule content)
      then found
      else found ++ match_of rule ∷ [])

  -- `evaluate`
  unfoldable pub evaluate : RuleEngine → String → List RuleMatch
  unfolding evaluate_loop
  evaluate engine content = evaluate_loop engine content engine.resolved_rules []

  -- `highestAction`
  unfoldable pub highest_action : RuleEngine → String → ModerationAction
  unfolding highest_of evaluate
  highest_action engine content = highest_of (evaluate engine content)

  -- `fromKeywords`
  unfoldable pub from_keywords :
      List String → Option ModerationAction → Option RiskLevel → Outcome RuleError RuleEngine
  unfolding new_engine
  from_keywords keywords action risk =
      new_engine (map (keyword_rule action risk) (filter (λ k. not (is_empty k)) keywords))

  -- The loop of `fromRegex`: patterns that are blank or do not compile are skipped.
  unfoldable pub valid_rules :
      Option ModerationAction → Option RiskLevel → List String → List ModerationRule
  valid_rules action risk [] = []
  valid_rules action risk (raw ∷ patterns) =
      let rest = valid_rules action risk patterns in
      if is_empty (trim raw)
      then rest
      else if is_some (language.compile (trim raw) false)
      then regex_rule action risk (trim raw) ∷ rest
      else rest

  -- `fromRegex`
  unfoldable pub from_regex :
      List String → Option ModerationAction → Option RiskLevel → Outcome RuleError RuleEngine
  unfolding valid_rules new_engine
  from_regex patterns action risk = new_engine (valid_rules action risk patterns)
