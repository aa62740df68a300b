-- ===== src/Tests/Admitting.antt =====
-- The theorems on the rules and the approval of join requests at a concrete request.
use qq_group_ops.Base.{
  [], ◌≡◌, ◌≢◌, refl, String, true, false, not, Option, none, some, ◌∷◌, ◌++◌, ◌&&◌, ◌||◌, arith,
  string_eq, nat_eq, is_some,
}
use qq_group_ops.Base.Dict.{lookup, insert, NodupKeys}
use qq_group_ops.Base.Outcome.{ok, thrown}
use qq_group_ops.Core.Platform.{call, approve_join_request}
use qq_group_ops.Audit.{AuditLog}
use qq_group_ops.JoinAudit
use qq_group_ops.JoinAudit.{
  JoinAudit, JoinRequest, JoinRequestStatus, JoinError, Readings, Decision, approve, reject,
  decided_status, reviewed_request, is_pending, is_pending?, pending, get,
}
use qq_group_ops.JoinAudit.Expiry.{IsKeyed}
use qq_group_ops.Blacklist.{Blacklist, BlacklistEntry, global_scope, hit_for, key_of}
use qq_group_ops.JoinRules
use qq_group_ops.JoinRules.{
  JoinRuleEvaluator, JoinRuleSettings, JoinDecisionMode, auto_approve, approve_on_match, Roster,
  ClassMatch, ClassInfo, evaluate, has_requirements, class_in, name_in, is_given, check_pattern,
  missing_of, issue_of, blocking, check_lists,
}
use qq_group_ops.JoinRules.Laws.{
  evaluate_lem, evaluate-matched, is_blocked, is_approval, is_rejection, approves, rejects,
  is_applicable, is_complete,
}
use qq_group_ops.JoinApproval.{
  JoinConfig, JoinAnswer, apply_join_rules, apply_rules, act, is_already_handled_error,
  already_handled_message, blacklist_actor, hit_reason,
}
use qq_group_ops.JoinApproval.ByHand.{decide_by_hand}
use qq_group_ops.JoinApproval.PlatformFirst.{IsAgreed, apply_join_rules-IsAgreed}
use qq_group_ops.JoinApproval.Blacklisted.{
  apply_join_rules-blacklisted, decide_by_hand_lem, asked_by, status_by, IsRefused,
}
use qq_group_ops.Tests.Outside.{host, world}

abbrev request : JoinRequest
request = record {
  request_id = "r1";
  group_id = "g1";
  user_id = "ann";
  reason = "class 7";
  status = pending;
  created_at = 10;
  reviewed_at = none;
  reviewer_id = none;
}

abbrev log : AuditLog
log = record { records = []; persistent = false; queue = [] }

abbrev requests : JoinAudit
requests = record {
  requests = ("r1", request) ∷ [];
  audit_log = log;
  pending_ttl_ms = 0;
  persistent = false;
  queue = [];
}

abbrev readings : Readings
readings = record { reviewed_at = λ id. 20; logged_at = λ id. 21; record_id = λ id. id }

abbrev roster : Roster
roster = record {
  find_class_in = λ text. some (record {
    class_name = "class 7";
    info = some (record { major = none; college = some "law"; year = some "2022" });
  });
  extract_name = λ text class_name. none;
}

abbrev evaluator : JoinRuleEvaluator
evaluator = record {
  roster = some roster;
  expand = none;
  language = record { compile = λ pattern exact. none; to_lower_case = λ s. s };
  regex_error = λ pattern. "";
}

abbrev settings : JoinDecisionMode → JoinRuleSettings
settings mode = record {
  mode = mode;
  require_class = true;
  require_name = false;
  answer_pattern = none;
  allow_colleges = [];
  deny_colleges = [];
  allow_years = [];
  deny_years = [];
  opinion_enabled = false;
}

abbrev config : JoinConfig
config = record {
  enabled = true;
  join_audit_enabled = true;
  auto_approve_join = false;
  notify_auto_approved = false;
  rules = settings auto_approve;
}

abbrev listed : Blacklist
listed = record {
  entries =
      (
        key_of global_scope "" "ann",
        record {
          scope = global_scope;
          group_id = "";
          user_id = "ann";
          reason = "";
          actor_id = "root";
          source = "manual";
          created_at = 1;
        },
      )
      ∷ [];
  persistent = false;
  queue = [];
}

abbrev hit : BlacklistEntry
hit = record {
  scope = global_scope;
  group_id = "";
  user_id = "ann";
  reason = "";
  actor_id = "root";
  source = "manual";
  created_at = 1;
}

there : get "r1" requests ≡ ok request
unfolding get lookup string_eq
there = refl

is_hit : hit_for "g1" "ann" listed ≡ some hit
unfolding hit_for lookup
is_hit = ground arith

apply_join_rules-blacklisted_example :
    let (result, w', s') =
      apply_join_rules host readings config
        (some evaluator)
        (some listed)
        "g1"
        "r1"
        world
        requests in
    let asked = approve_join_request "g1" "ann" false "r1" (some (hit_reason hit)) in
    ((a : JoinAnswer) × (result ≡ ok a) × (is_approval a.action ≡ false))
    × (w'.calls ≡ asked ∷ [])
    × (◌≡◌ {A = Option String} none none
        → is_pending request.status ≡ true
        → ((a : JoinAnswer) × (result ≡ ok a) × (a.action ≡ JoinRules.reject))
          × (lookup "r1" s'.requests ≡ some (reviewed_request reject blacklist_actor 20 request)))
apply_join_rules-blacklisted_example =
    apply_join_rules-blacklisted host readings config (some evaluator) listed "g1" "r1" world
      requests request hit there is_hit

requests-NodupKeys : NodupKeys requests.requests
unfolding lookup
requests-NodupKeys = (refl, tt)

requests-IsKeyed : IsKeyed requests
unfolding lookup
requests-IsKeyed k r f = ground arith

decide_by_hand_lem_example :
    let (result, w', s') =
      decide_by_hand host readings approve "g1" "r1" "root" "" world requests in
    ((r : JoinRequest)
      → lookup "r1" requests.requests ≡ some r
      → ◌≡◌ {A = String} r.group_id "g1"
      → r.status ≡ pending
      → let asked = asked_by approve "g1" r.user_id "r1" "" in
        (w'.calls ≡ world.calls ++ asked ∷ [])
        × (host.answer world.calls asked ≡ none
            → let decided = record r {
              status = status_by approve;
              reviewer_id = some "root";
              reviewed_at = some 20;
            } in
              (result ≡ ok decided) × (lookup "r1" s'.requests ≡ some decided))
        × ((message : String)
            → host.answer world.calls asked ≡ some message
            → is_already_handled_error message ≡ true
            → (result ≡ thrown already_handled_message)
              × (is_pending? (lookup "r1" s'.requests) ≡ false)
              × ((k : String) → k ≢ "r1" → lookup k s'.requests ≡ lookup k requests.requests))
        × ((message : String)
            → host.answer world.calls asked ≡ some message
            → is_already_handled_error message ≡ false
            → (result ≡ thrown message) × (s' ≡ requests)))
    × (IsRefused "g1" "r1" requests
        → (message : String) × (decide_by_hand host readings approve "g1" "r1" "root" "" world
              requests
            ≡ (thrown message, world, requests)))
decide_by_hand_lem_example =
    decide_by_hand_lem host readings approve "g1" "r1" "root" "" world requests requests-NodupKeys
      requests-IsKeyed

evaluate_lem_example :
    let r = evaluate evaluator "class 7" (settings approve_on_match) in
    let s = settings approve_on_match in
    let blocked = is_blocked evaluator s "class 7" in
    let sound = has_requirements s && not (is_some r.config_issue) in
    (is_approval r.action ≡ (not blocked && approves s.mode sound r.matched))
    × (is_rejection r.action ≡ (
        (blocked && not (JoinRules.is_manual s.mode))
        || (not blocked && rejects s.mode sound r.matched)))
evaluate_lem_example = evaluate_lem evaluator "class 7" (settings approve_on_match)

evaluate-matched_example :
    let s = settings approve_on_match in
    (evaluate evaluator "class 7" s).matched ≡ (
      is_applicable evaluator s
      && (is_complete evaluator s "class 7" && not (is_blocked evaluator s "class 7")))
evaluate-matched_example = evaluate-matched evaluator "class 7" (settings approve_on_match)

abbrev approval : JoinRequest
approval = reviewed_request approve "bot:auto" 20 request

request-found : lookup "r1" requests.requests ≡ some request
unfolding lookup string_eq
request-found = refl

is_approved :
    lookup "r1"
      (apply_join_rules host readings config
        (some evaluator)
        none
        "g1"
        "r1"
        world
        requests).2.requests
    ≡ some approval
unfolding apply_join_rules apply_rules act evaluate missing_of issue_of check_pattern blocking get
    JoinRules.decide JoinAudit.review lookup insert string_eq call
is_approved = refl

apply_join_rules-IsAgreed_example :
    (◌≡◌ {A = String} "r1" "r1")
    × IsAgreed host "g1" "ann" "r1" world
        (apply_join_rules host readings config (some evaluator) none "g1" "r1" world requests).1
        approve
apply_join_rules-IsAgreed_example =
    apply_join_rules-IsAgreed readings requests requests-NodupKeys "r1" request approve
      request-found refl host config (some evaluator) none "g1" "r1" world request approval there
      is_approved refl
