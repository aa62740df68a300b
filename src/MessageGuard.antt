-- ===== src/MessageGuard.antt =====
-- src/services/messageGuard.ts: a message is checked by the rules of its group, and what they ask
-- for is done, recorded and told. `JoinRules.Text.join_with` is `join`.
pub mod Planning
pub mod Engines
pub mod Actions
pub mod Executing
pub mod Sparing
pub mod Recording
pub mod Handling
use qq_group_ops.Base.{
  [], ℕ, ℤ, pos, negsuc, nat_eq, String, Bool, true, false, ◌||◌, not, Option, none, some, List,
  ◌∷◌, ◌++◌, any, if◌then◌else◌, is_some, map, string_eq, ◌==◌, contains,
}
use qq_group_ops.Base.Dict.{Dict, lookup, insert}
use qq_group_ops.Base.Text.{concat, ends_with}
use qq_group_ops.Base.Outcome.{Outcome, ok, thrown, ◌>>=◌}
use qq_group_ops.Core.Levels.{moderator}
use qq_group_ops.Core.Platform.{
  Host, World, Readings, PlatformCall, recall_group_message, mute_group_member, remove_group_member,
  call, append_to,
}
use qq_group_ops.Audit.{AuditRecord, executed, pending}
use qq_group_ops.Permissions.{PermissionService}
use qq_group_ops.Permissions.Levels.{meets_in_group}
use qq_group_ops.Moderation
use qq_group_ops.Moderation.{
  Language, ModerationAction, ModerationRule, ResolvedRule, RuleEngine, RuleError, RuleMatch, allow,
  evaluate, highest_action, new_engine, from_keywords, from_regex,
}
use qq_group_ops.Blacklist
use qq_group_ops.Blacklist.{Blacklist, group_scope}
use qq_group_ops.Punishments
use qq_group_ops.Punishments.{Punishments, PunishmentRecord, create, mark_executed}
use qq_group_ops.JoinRules.Text.{join_with}
use qq_group_ops.MessageGuard.Engines.{MessageGuard, CachedEngine, engine_for}
use qq_group_ops.MessageGuard.Actions.{execute}
use qq_group_ops.MessageGuard.Planning.{
  IncomingMessage, GuardConfig, Plan, plan_for, punishes, is_review, raw_message_excerpt,
  warning_call,
}

-- The engines kept for groups, and what the services share; the audit log is the one of `World`.
pub record GuardState : Type 0 where
  pub engines : Dict String CachedEngine
  pub world : World
  pub punishments : Option Punishments
  pub blacklist : Option Blacklist

-- The clock and the ids: for a record, an entry of the blacklist, the log, and the end.
pub record GuardReadings : Type 0 where
  pub created : Readings
  pub listed : Readings
  pub logged : Readings
  pub marked : Readings

-- `MessageGuardResult`, without the ids of the message.
pub record GuardResult : Type 0 where
  pub action : ModerationAction
  pub matches : List RuleMatch
  pub executed? : Bool
  pub detail : String

-- What `handleMessage` may throw: a rule that does not compile, or the lack of a code.
pub data GuardError : Type 0 where
  bad_rule : RuleError → GuardError
  no_code : String → GuardError

abbrev pub is_zero : ℤ → Bool
is_zero (pos n) = n == 0
is_zero (negsuc n) = false

abbrev pub punishment_input :
    Plan → IncomingMessage → GuardConfig → String → Punishments.PunishmentCreateInput
punishment_input plan message config reason = record {
  group_id = message.group_id;
  user_id = message.user_id;
  actor_id = some "bot";
  source = some "keyword";
  rule_reason = some reason;
  message_id = some message.message_id;
  message_excerpt =
      if is_zero config.raw_message_retention_days
      then none
      else some (raw_message_excerpt message.content);
  actions = record {
    recalled = plan.recall;
    muted = plan.mute;
    mute_duration_seconds = if plan.mute then config.mute_duration_seconds else pos 0;
    kicked = plan.kick;
    blacklist = if plan.blacklist then some group_scope else none;
  };
}

abbrev pub with_record :
    Outcome String (PunishmentRecord × World × Punishments)
    → Outcome String (Option String × World × Option Punishments)
with_record (thrown e) = thrown e
with_record (ok (r, w, p)) = ok (some r.record_id, w, some p)

-- The record that is made before the actions: its id, if one is made.
unfoldable pub open_record :
    Host
    → Readings
    → Plan
    → IncomingMessage
    → GuardConfig
    → String
    → World
    → Option Punishments
    → Outcome String (Option String × World × Option Punishments)
open_record host env plan message config reason w none = ok (none, w, none)
open_record host env plan message config reason w (some p) =
    let made = with_record (create host env (punishment_input plan message config reason) w p) in
    if punishes plan then made else ok (none, w, some p)

-- `markExecuted`, where a record was made
abbrev pub close_record :
    Readings → Option String → String → Option Punishments → Option Punishments
close_record env (some id) detail (some p) = some (mark_executed env id detail p).1
close_record env _ detail p = p

-- The entry of the audit log about the message.
abbrev pub guard_record : Readings → IncomingMessage → String → Bool → String → AuditRecord
guard_record env message action done reason = record {
  record_id = env.record_id;
  group_id = message.group_id;
  actor_id = "bot";
  target_user_id = some message.user_id;
  action = concat "moderation:" action;
  status = if done then executed else pending;
  reason = reason;
  created_at = env.logged_at;
}

-- The values of `ModerationAction`
abbrev pub action_text : ModerationAction → String
action_text allow = "allow"
action_text Moderation.warn = "warn"
action_text Moderation.review = "review"
action_text Moderation.recall = "recall"
action_text Moderation.mute = "mute"
action_text Moderation.kick = "kick"

abbrev pub allowed : String → GuardResult
allowed detail = record { action = allow; matches = []; executed? = false; detail = detail }

-- The rest of `handleMessage` after the record is made.
abbrev pub carry_out :
    Host
    → GuardReadings
    → MessageGuard
    → GuardConfig
    → IncomingMessage
    → ModerationAction
    → List RuleMatch
    → String
    → Outcome String (Option String × World × Option Punishments)
    → GuardState
    → Outcome GuardError GuardResult × GuardState
carry_out host env guard config message action matches reason (thrown e) st =
    (thrown (no_code e), st)
carry_out host env guard config message action matches reason (ok (id, w, p)) st =
    let ((done, detail), w', b') =
      execute host env.listed guard (plan_for action config) message config id w st.blacklist in
    let logged = guard_record env.logged message (action_text action) done reason in
    (
      ok (record { action = action; matches = matches; executed? = done; detail = detail }),
      record st {
        world = record w' { audit_log = append_to logged w'.audit_log };
        punishments = close_record env.marked id detail p;
        blacklist = b';
      },
    )

-- The rest of `handleMessage` for the matches of the rules.
unfoldable pub judge :
    Host
    → GuardReadings
    → MessageGuard
    → GuardConfig
    → IncomingMessage
    → ModerationAction
    → List RuleMatch
    → GuardState
    → Outcome GuardError GuardResult × GuardState
unfolding execute open_record
judge host env guard config message action [] st = (ok (allowed "no_match"), st)
judge host env guard config message action (m ∷ ms) st =
    carry_out host env guard config message action (m ∷ ms) m.reason
      (open_record host env.created (plan_for action config) message config m.reason st.world
        st.punishments)
      st

abbrev pub is_exempt : Option PermissionService → IncomingMessage → Bool
is_exempt none message = false
is_exempt (some p) message = meets_in_group p message.user_id (some message.group_id) moderator

abbrev pub with_engine :
    Host
    → GuardReadings
    → MessageGuard
    → GuardConfig
    → IncomingMessage
    → Outcome RuleError (RuleEngine × Dict String CachedEngine)
    → GuardState
    → Outcome GuardError GuardResult × GuardState
with_engine host env guard config message (thrown e) st = (thrown (bad_rule e), st)
with_engine host env guard config message (ok (engine, engines)) st =
    judge host env guard config message (highest_action guard.language engine message.content)
      (evaluate guard.language engine message.content) (record st { engines = engines })

-- `handleMessage`, with the settings of the group of the message
unfoldable pub handle_message :
    Host
    → GuardReadings
    → MessageGuard
    → GuardConfig
    → IncomingMessage
    → GuardState
    → Outcome GuardError GuardResult × GuardState
unfolding engine_for judge
handle_message host env guard config message st =
    if not config.enabled || not config.word_filter_enabled
    then (ok (allowed "disabled"), st)
    else if is_exempt guard.permissions message
    then (ok (allowed "exempt"), st)
    else if contains message.user_id config.user_whitelist
    then (ok (allowed "whitelisted"), st)
    else with_engine host env guard config message (engine_for guard config st.engines) st
