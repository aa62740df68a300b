-- ===== src/MessageGuard/Engines.antt =====
-- src/services/messageGuard.ts: the engine of a group, made of the static rules and of those of its
-- settings, and kept while they stay the same.
use qq_group_ops.Base.{
  nat_eq, String, Bool, Option, none, some, ◌++◌, if◌then◌else◌, map, string_eq, ◌==◌,
}
use qq_group_ops.Base.Dict.{Dict, lookup, insert}
use qq_group_ops.Base.Text.{concat}
use qq_group_ops.Base.Outcome.{Outcome, ok, ◌>>=◌}
use qq_group_ops.Permissions.{PermissionService}
use qq_group_ops.Moderation.{
  Language, ModerationRule, ResolvedRule, RuleEngine, RuleError, new_engine, from_keywords,
  from_regex,
}
use qq_group_ops.JoinRules.Text.{join_with}
use qq_group_ops.MessageGuard.Planning.{GuardConfig}

-- What the constructor is given: the static rules, the permissions, and whether there is a sender of
-- cards.
pub record MessageGuard : Type 0 where
  pub language : Language
  pub rules : RuleEngine
  pub permissions : Option PermissionService
  pub rich : Bool

pub record CachedEngine : Type 0 where
  pub keywords_key : String
  pub engine : RuleEngine

-- A resolved rule as the constructor of an engine takes it.
abbrev pub as_rule : ResolvedRule → ModerationRule
as_rule rule = record {
  rule_id = rule.rule_id;
  pattern = rule.pattern;
  action = some rule.action;
  reason = some rule.reason;
  risk = some rule.risk;
  is_regex = some rule.is_regex;
  enabled = some rule.enabled;
  case_sensitive = some rule.case_sensitive;
}

abbrev pub keywords_key_of : GuardConfig → String
keywords_key_of config =
    concat (join_with "\0" config.keywords) (concat "\u{1}" (join_with "\0" config.regex_rules))

-- The engine of a group, made anew.
unfoldable pub built_engine : MessageGuard → GuardConfig → Outcome RuleError RuleEngine
built_engine guard config = do
  keyword_engine ← from_keywords guard.language config.keywords none none
  regex_engine ← from_regex guard.language config.regex_rules none none
  new_engine guard.language (
      map as_rule (
        guard.rules.resolved_rules ++ keyword_engine.resolved_rules ++ regex_engine.resolved_rules))

abbrev cached_or :
    Option CachedEngine
    → String
    → Outcome RuleError (RuleEngine × Dict String CachedEngine)
    → Dict String CachedEngine
    → Outcome RuleError (RuleEngine × Dict String CachedEngine)
cached_or none key fresh engines = fresh
cached_or (some c) key fresh engines =
    if c.keywords_key == key then ok (c.engine, engines) else fresh

-- `engineFor`
unfoldable pub engine_for :
    MessageGuard
    → GuardConfig
    → Dict String CachedEngine
    → Outcome RuleError (RuleEngine × Dict String CachedEngine)
unfolding built_engine
engine_for guard config engines =
    let key = keywords_key_of config in
    let fresh = built_engine guard config >>= λ engine.
    ok (engine, insert config.group_id (record { keywords_key = key; engine = engine }) engines) in
    cached_or (lookup config.group_id engines) key fresh engines
