-- ===== src/Tests/Guarding.antt =====
-- The theorems on the guard of messages at a concrete group.
use qq_group_ops.Base.{
  [], ◌≡◌, refl, String, true, false, none, some, ◌∷◌, pos, string_eq, nat_eq, contains, ◌++◌, not,
  ◌||◌, ◌&&◌, if◌then◌else◌, add, filter, any, map,
}
use qq_group_ops.Base.Dict.{lookup, Dict, insert}
use qq_group_ops.Base.Text.{includes, starts_with, trim, char_text, trim_start, trim_end, is_space}
use qq_group_ops.Base.Outcome.{ok}
use qq_group_ops.Core.Platform.{World}
use qq_group_ops.Moderation.{
  Language, RuleEngine, RuleMatch, allow, warn, evaluate, highest_action, match_of, resolve,
  keyword_rule, from_keywords, from_regex, valid_rules, new_engine, compile_rules, evaluate_loop,
  matches, highest_of, highest_match,
}
use qq_group_ops.Punishments.{Punishments, PunishmentRecord, create, active, created_record, put}
use qq_group_ops.MessageGuard.{
  GuardState, GuardReadings, GuardResult, handle_message, punishment_input,
}
use qq_group_ops.MessageGuard.Engines.{
  MessageGuard, CachedEngine, engine_for, keywords_key_of, built_engine,
}
use qq_group_ops.MessageGuard.Actions.{execute}
use qq_group_ops.MessageGuard.Planning.{IncomingMessage, GuardConfig, Plan, plan_for, is_review}
use qq_group_ops.MessageGuard.Executing.{
  execute_lem, calls_before, calls_listing, calls_after, takes_one,
}
use qq_group_ops.MessageGuard.Sparing.{is_spared}
use qq_group_ops.MessageGuard.Handling.{handle_message-spares, handle_message-records}
use qq_group_ops.Codes.{
  generate_code, generate_loop, reserve_global_code, reserve_loop, random_code,
}
use qq_group_ops.Moderation.Laws.{applies}
use qq_group_ops.Tests.Outside.{host, world, readings}

abbrev plain : Language
plain = record { compile = λ pattern case_sensitive. none; to_lower_case = λ s. s }

abbrev guard : MessageGuard
guard = record {
  language = plain;
  rules = record { resolved_rules = []; compiled = [] };
  permissions = none;
  rich = true;
}

abbrev config : GuardConfig
config = record {
  group_id = "g1";
  enabled = true;
  word_filter_enabled = true;
  user_whitelist = "bob" ∷ [];
  keywords = "x" ∷ [];
  regex_rules = [];
  punish_actions = record {
    recall = true;
    mute = true;
    kick = false;
    blacklist = false;
    warn = false;
  };
  mute_duration_seconds = pos 600;
  raw_message_retention_days = pos 0;
  warning_message = "be kind";
}

abbrev message : IncomingMessage
message = record { group_id = "g1"; user_id = "ann"; message_id = "m1"; content = "x" }

abbrev punishments : Punishments
punishments = record { records = []; persistent = true; queue = [] }

abbrev state : GuardState
state = record { engines = []; world = world; punishments = some punishments; blacklist = none }

abbrev clock : GuardReadings
clock = record { created = readings; listed = readings; logged = readings; marked = readings }

abbrev plan : Plan
plan = plan_for warn config

abbrev keyword_match : RuleMatch
keyword_match = match_of (resolve (keyword_rule none none "x"))

abbrev engine : RuleEngine
engine = record { resolved_rules = resolve (keyword_rule none none "x") ∷ []; compiled = [] }

abbrev engines : Dict String CachedEngine
engines = ("g1", record { keywords_key = keywords_key_of config; engine = engine }) ∷ []

execute_lem_example :
    let (done, w', _) = execute host readings guard plan message config (some "A1") world none in
    let first = calls_before plan message in
    let listing = calls_listing plan message none in
    let last = calls_after guard plan message config (some "A1") in
    (w'.calls ≡ world.calls ++ (if is_review plan.action then [] else first ++ listing ++ last))
    × (done.0 ≡ (
        not (is_review plan.action)
        && (takes_one host world.calls first
            || (plan.blacklist && false)
            || takes_one host (world.calls ++ first ++ listing) last)))
execute_lem_example =
    execute_lem host readings guard plan message config (some "A1") world none refl

spared : is_spared guard config message ≡ false
unfolding contains string_eq
spared = refl

built : engine_for guard config [] ≡ ok (engine, engines)
unfolding engine_for built_engine from_keywords from_regex valid_rules new_engine compile_rules
    lookup insert string_eq filter
built = refl

found : evaluate plain engine "x" ≡ keyword_match ∷ []
unfolding evaluate evaluate_loop matches includes starts_with nat_eq string_eq
found = refl

abbrev punished : PunishmentRecord
punished = created_record "012345" 50 (punishment_input plan message config "命中关键词：x")

abbrev world_after : World
world_after = record world { pool = "012345" ∷ []; drawn = 6 }

abbrev punishments_after : Punishments
punishments_after = put punished punishments

made :
    create host readings (punishment_input plan message config "命中关键词：x") world punishments
    ≡ ok (punished, world_after, punishments_after)
unfolding create generate_code generate_loop reserve_global_code reserve_loop random_code char_text
    contains add lookup insert string_eq nat_eq trim trim_start trim_end is_space
made = refl

handle_message-records_example :
    let (result, st') = handle_message host clock guard config message state in
    let calls =
      calls_before plan message
      ++ calls_listing plan message none
      ++ calls_after guard plan message config (some "012345") in
    (st'.world.calls ≡ world.calls ++ calls)
    × ((x : GuardResult) × (result ≡ ok x)
        × (x.matches ≡ keyword_match ∷ [])
        × (false ≡ true → x.detail ≡ "queued_for_review")
        × ((q : Punishments) × (stored : PunishmentRecord) × (st'.punishments ≡ some q)
            × (lookup "012345" q.records ≡ some stored)
            × (stored.actions ≡ (record {
              recalled = true;
              muted = true;
              mute_duration_seconds = pos 600;
              kicked = false;
              blacklist = none;
            }))
            × (stored.group_id ≡ "g1")
            × (stored.user_id ≡ "ann")
            × (stored.message_id ≡ "m1")
            × (stored.rule_reason ≡ "命中关键词：x")
            × (stored.status ≡ active)
            × (stored.detail ≡ x.detail)))
unfolding highest_action highest_of highest_match evaluate evaluate_loop matches includes
    starts_with nat_eq string_eq
handle_message-records_example =
    handle_message-records host clock guard config message state engine engines keyword_match []
      punishments punishments_after punished world_after spared built found refl refl refl made

handle_message-spares_example :
    let bob = record message { user_id = "bob" } in
    let (result, st') = handle_message host clock guard config bob state in
    let hits = applies plain engine "x" in
    let alone = is_spared guard config bob || not (any hits engine.resolved_rules) in
    (alone ≡ true
      → ((r : GuardResult) × (result ≡ ok r)
          × (r.action ≡ allow)
          × (r.matches ≡ [])
          × (r.executed? ≡ false))
        × (st'.world ≡ state.world)
        × (st'.punishments ≡ state.punishments)
        × (st'.blacklist ≡ state.blacklist))
    × ((r : GuardResult)
        → alone ≡ false
        → result ≡ ok r
        → r.matches ≡ map match_of (filter hits engine.resolved_rules))
handle_message-spares_example =
    handle_message-spares host clock guard config (record message { user_id = "bob" }) state engine
      engines refl built
