-- ===== src/MessageGuard/Sparing.antt =====
-- src/services/messageGuard.ts: which messages no rule is asked about, and what the others go through.
use qq_group_ops.Punishments.{Punishments}
use qq_group_ops.Permissions.{PermissionService, is_member}
use qq_group_ops.Permissions.Levels.{meets_in_group, level_for, level_in}
use qq_group_ops.Moderation.{ModerationAction, RuleEngine, RuleMatch, evaluate, highest_action}
use qq_group_ops.MessageGuard.Planning.{IncomingMessage, GuardConfig}
use qq_group_ops.MessageGuard.{
  carry_out, GuardState, GuardReadings, GuardResult, handle_message, is_exempt, judge, allowed,
  with_engine,
}
use qq_group_ops.Base.Outcome.{Outcome, thrown, ok-injective, ok}
use qq_group_ops.Base.{
  any, filter, none, sym, [], ◌≡◌, refl, ◌∙◌, ap, String, Bool, true, false, ◌||◌, not, Option,
  some, List, ◌∷◌, if◌then◌else◌, arith, contains, string_eq,
}
use qq_group_ops.Base.Dict.{Dict}
use qq_group_ops.Base.Text.{is_empty}
use qq_group_ops.Core.Platform.{Host, World}
use qq_group_ops.MessageGuard.Engines.{MessageGuard, CachedEngine, engine_for}

-- Whether the author holds a role in the group of the message, or is a global super administrator.
abbrev pub holds_role : Option PermissionService → IncomingMessage → Bool
holds_role none message = false
holds_role (some p) message =
    contains message.user_id p.super_admin_ids
    || (is_member message.group_id message.user_id p.group_super_admin_ids
        || (is_member message.group_id message.user_id p.group_admin_ids
            || is_member message.group_id message.user_id p.moderator_ids))

-- The messages that no rule is asked about.
abbrev pub is_spared : MessageGuard → GuardConfig → IncomingMessage → Bool
is_spared guard config message =
    (not config.enabled || not config.word_filter_enabled)
    || holds_role guard.permissions message
    || contains message.user_id config.user_whitelist

is_exempt-holds_role :
    (p : Option PermissionService) (message : IncomingMessage)
    → is_empty message.group_id ≡ false
    → is_exempt p message ≡ holds_role p message
unfolding meets_in_group level_for level_in
is_exempt-holds_role none message named = refl
is_exempt-holds_role (some p) message named = ground (arith, named)

left_alone :
    {X : Type 0} (a b c : Bool) (f : String → X) (rest : X)
    → (a || b || c) ≡ true
    → (d : String) × ((if a
          then f "disabled"
          else if b
          then f "exempt"
          else if c
          then f "whitelisted"
          else rest)
        ≡ f d)
left_alone true b c f rest e = ("disabled", refl)
left_alone false true c f rest e = ("exempt", refl)
left_alone false false true f rest e = ("whitelisted", refl)
left_alone false false false f rest e = absurd (ground (arith, e))

checked :
    {X : Type 0} (a b c : Bool) (f : String → X) (rest : X)
    → (a || b || c) ≡ false
    → (if a then f "disabled" else if b then f "exempt" else if c then f "whitelisted" else rest)
      ≡ rest
checked true b c f rest e = absurd (ground (arith, e))
checked false true c f rest e = absurd (ground (arith, e))
checked false false true f rest e = absurd (ground (arith, e))
checked false false false f rest e = refl

module _ (host : Host) (env : GuardReadings) (guard : MessageGuard) (config : GuardConfig)
    (message : IncomingMessage) (st : GuardState) (named : is_empty message.group_id ≡ false) where
  exempt : is_exempt guard.permissions message ≡ holds_role guard.permissions message
  exempt = is_exempt-holds_role guard.permissions message named

  pub handle_message-spared :
      is_spared guard config message ≡ true
      → (d : String) × (handle_message host env guard config message st ≡ (ok (allowed d), st))
  unfolding handle_message
  handle_message-spared e =
      left_alone (not config.enabled || not config.word_filter_enabled)
        (is_exempt guard.permissions message) (contains message.user_id config.user_whitelist)
        (λ d. (ok (allowed d), st)) _ (rw exempt e)

  pub handle_message-checked :
      (engine : RuleEngine) (engines : Dict String CachedEngine)
      → is_spared guard config message ≡ false
      → engine_for guard config st.engines ≡ ok (engine, engines)
      → handle_message host env guard config message st
        ≡ judge host env guard config message
            (highest_action guard.language engine message.content)
            (evaluate guard.language engine message.content)
            (record st { engines = engines })
  unfolding handle_message
  handle_message-checked engine engines e built =
      checked (not config.enabled || not config.word_filter_enabled)
        (is_exempt guard.permissions message) (contains message.user_id config.user_whitelist)
        (λ d. (ok (allowed d), st)) _ (rw exempt e)
      ∙ ap (λ o. with_engine host env guard config message o st) built

pub filter-none : {A : Type 0} (p : A → Bool) (xs : List A) → any p xs ≡ false → filter p xs ≡ []
unfolding any filter
filter-none p [] e = refl
filter-none p (x ∷ xs) e = ground (arith, e, filter-none p xs)

carry_out-matches :
    (host : Host) (env : GuardReadings) (guard : MessageGuard) (config : GuardConfig)
    (message : IncomingMessage) (action : ModerationAction) (matches : List RuleMatch)
    (reason : String) (opened : Outcome String (Option String × World × Option Punishments))
    (st : GuardState) (r : GuardResult)
    → (carry_out host env guard config message action matches reason opened st).0 ≡ ok r
    → r.matches ≡ matches
carry_out-matches host env guard config message action matches reason (thrown e) st r h = cc
carry_out-matches host env guard config message action matches reason (ok (id, w, p)) st r h =
    ap (λ x. x.matches) (sym (ok-injective _ r _ refl h))

pub judge-matches :
    (host : Host) (env : GuardReadings) (guard : MessageGuard) (config : GuardConfig)
    (message : IncomingMessage) (action : ModerationAction) (matches : List RuleMatch)
    (st : GuardState) (r : GuardResult)
    → (judge host env guard config message action matches st).0 ≡ ok r
    → r.matches ≡ matches
unfolding judge
judge-matches host env guard config message action [] st r h =
    ap (λ x. x.matches) (sym (ok-injective (allowed "no_match") r _ refl h))
judge-matches host env guard config message action (m ∷ ms) st r h =
    carry_out-matches host env guard config message action (m ∷ ms) m.reason _ st r h
