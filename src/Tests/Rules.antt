-- ===== src/Tests/Rules.antt =====
-- The moderation rules of src/services/moderation.ts at concrete inputs.
use qq_group_ops.Base.{[], String, none, some, ◌∷◌, ◌==◌, string_eq, if◌then◌else◌}
use qq_group_ops.Base.Text.{includes}
use qq_group_ops.Moderation.{
  ModerationAction, mute, kick, ModerationRule, Language, RuleEngine, evaluate, highest_action,
  resolve,
}
use qq_group_ops.Moderation.Laws.{IsHighest, highest_action_lem}

-- A language whose regular expressions are plain texts, and "(" is none.
abbrev plain : Language
plain = record {
  compile = λ pattern case_sensitive. if pattern == "(" then none else some (includes pattern);
  to_lower_case = λ s. s;
}

abbrev rule : String → ModerationAction → ModerationRule
rule pattern action = record {
  rule_id = pattern;
  pattern = pattern;
  action = some action;
  reason = none;
  risk = none;
  is_regex = none;
  enabled = none;
  case_sensitive = none;
}

abbrev engine : RuleEngine
engine = record {
  resolved_rules = resolve (rule "spam" mute) ∷ resolve (rule "scam" kick) ∷ [];
  compiled = [];
}

highest_action_lem_example :
    IsHighest plain engine "no spam"
      (evaluate plain engine "no spam")
      (highest_action plain engine "no spam")
highest_action_lem_example = highest_action_lem plain engine "no spam"
