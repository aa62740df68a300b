-- ===== src/JoinApproval.antt =====
-- src/services/joinApproval.ts: a request to join is decided on the platform first, and in the
-- program only when the platform took the decision. A method returns what the services share and the
-- requests also when it throws, as they are then.
pub mod ByHand
pub mod Deciding
pub mod Blacklisted
pub mod PlatformFirst
use qq_group_ops.Base.{
  [], ℕ, String, Bool, true, false, not, ◌&&◌, ◌||◌, Option, none, some, List, ◌∷◌, ◌++◌, any,
  string_eq, ◌==◌, if◌then◌else◌, is_some,
}
use qq_group_ops.Base.Text.{is_empty, concat, includes}
use qq_group_ops.Base.Outcome.{Outcome, ok, thrown}
use qq_group_ops.Core.Platform.{Host, World, approve_join_request, call}
use qq_group_ops.JoinAudit.{
  JoinAudit, JoinRequest, JoinError, duplicate_id, not_found, already_reviewed, Readings, Decision,
  approve, reject, review, get, mark_handled_externally, is_pending,
}
use qq_group_ops.Blacklist.{Blacklist, BlacklistEntry, hit_for, is_global}
use qq_group_ops.JoinRules
use qq_group_ops.JoinRules.{
  JoinDecisionMode, JoinRuleEvaluator, JoinRuleSettings, JoinAction, manual, auto_approve,
  to_manual, is_manual, is_auto, evaluate,
}
use qq_group_ops.JoinRules.Text.{build_reject_reason}

-- The settings of the group that the service reads, those of the rules with the mode `joinDecision`.
pub record JoinConfig : Type 0 where
  pub enabled : Bool
  pub join_audit_enabled : Bool
  pub auto_approve_join : Bool
  pub notify_auto_approved : Bool
  pub rules : JoinRuleSettings

abbrev pub blacklist_actor : String
blacklist_actor = "bot:blacklist"

abbrev pub already_handled_reason : String
already_handled_reason = "官方侧提示该申请已被处理（其它管理员 / 群管理后台），自动移出待审批"

abbrev pub already_handled_message : String
already_handled_message = "这条申请在 QQ 那边已经处理过了（可能是其它管理员或群管理后台），已从待审批里移除。"

abbrev handled_phrases : List String
handled_phrases = "已经被处理" ∷ "已被处理" ∷ "已经处理过" ∷ "已被审批" ∷ "申请不存在" ∷ "不存在该申请" ∷ "请求不存在" ∷ []

-- `isAlreadyHandledError`, of the message of an error
unfoldable pub is_already_handled_error : String → Bool
is_already_handled_error text =
    if is_empty text then false else any (λ phrase. includes phrase text) handled_phrases

abbrev pub error_text : JoinError → String
error_text (duplicate_id id) = concat "duplicate join request id: " id
error_text (not_found id) = concat "join request not found: " id
error_text (already_reviewed id) = concat "join request already reviewed: " id

-- The answer of `applyJoinRules`.
pub record JoinAnswer : Type 0 where
  pub action : JoinAction
  pub opinion : String
  pub notify : Bool

-- `dropAlreadyHandled`
unfoldable pub drop_already_handled : Readings → String → JoinAudit → JoinAudit
drop_already_handled env id s = (mark_handled_externally env id already_handled_reason s).1

-- What a `catch` of `applyJoinRules` does with a message.
abbrev pub on_failure : Readings → String → String → String → JoinAudit → JoinAnswer × JoinAudit
on_failure env id opinion message s =
    if is_already_handled_error message
    then (
      record { action = to_manual; opinion = already_handled_message; notify = false },
      drop_already_handled env id s,
    )
    else (record { action = to_manual; opinion = opinion; notify = true }, s)

-- The body of a `try` of `applyJoinRules` after the call of the platform: the local decision.
abbrev pub finish :
    Readings
    → String
    → (opinion : String) → JoinAnswer
    → Option String
    → Outcome JoinError (JoinRequest × JoinAudit)
    → JoinAudit
    → JoinAnswer × JoinAudit
finish env id opinion answer (some message) local s = on_failure env id opinion message s
finish env id opinion answer none (ok (_, s')) s = (answer, s')
finish env id opinion answer none (thrown e) s = on_failure env id opinion (error_text e) s

abbrev pub reason? : String → Option String
reason? reason = if is_empty reason then none else some reason

abbrev pub hit_reason : BlacklistEntry → String
hit_reason e = if is_global e.scope then "申请人在全局黑名单中。" else "申请人在本群黑名单中。"

-- The `mode` of `applyJoinRules`.
abbrev pub mode_of : JoinConfig → JoinDecisionMode
mode_of config =
    if is_manual config.rules.mode
    then (if config.auto_approve_join then auto_approve else manual)
    else config.rules.mode

-- The action and the opinion: without an evaluator the only mode left is automatic approval.
abbrev pub evaluated : Option JoinRuleEvaluator → JoinConfig → String → JoinAction × String
evaluated none config answer = (JoinRules.approve, "")
evaluated (some e) config answer =
    let r = evaluate e answer (record config.rules { mode = mode_of config }) in
    (r.action, r.opinion)

abbrev left_to_reviewers : String → JoinAnswer
left_to_reviewers opinion = record { action = to_manual; opinion = opinion; notify = true }

-- The end of `applyJoinRules`, by the action of the rules.
unfoldable pub act :
    Host
    → Readings
    → JoinConfig
    → (group id : String) → JoinRequest
    → JoinAction × String
    → World
    → JoinAudit
    → JoinAnswer × World × JoinAudit
act host env config group id r (to_manual, opinion) w s = (left_to_reviewers opinion, w, s)
act host env config group id r (JoinRules.approve, opinion) w s =
    let (error, w') = call host (approve_join_request group r.user_id true id none) w in
    let answer : JoinAnswer = record {
      action = JoinRules.approve;
      opinion = opinion;
      notify = config.notify_auto_approved;
    } in
    let (a, s') = finish env id opinion answer error (review env approve id "bot:auto" "" s) s in
    (a, w', s')
act host env config group id r (JoinRules.reject, opinion) w s =
    let reason = build_reject_reason opinion in
    let (error, w') =
      call host (approve_join_request group r.user_id false id (reason? reason)) w in
    let answer : JoinAnswer = record {
      action = JoinRules.reject;
      opinion = opinion;
      notify = config.notify_auto_approved;
    } in
    let (a, s') = finish env id opinion answer error (review env reject id "bot:auto" reason s) s in
    (a, w', s')

-- `applyJoinRules` for an applicant on the blacklist.
unfoldable pub reject_blacklisted :
    Host
    → Readings
    → JoinConfig
    → (group id : String) → JoinRequest
    → BlacklistEntry
    → World
    → JoinAudit
    → JoinAnswer × World × JoinAudit
reject_blacklisted host env config group id r hit w s =
    let reason = hit_reason hit in
    let (error, w') = call host (approve_join_request group r.user_id false id (some reason)) w in
    let answer : JoinAnswer = record {
      action = JoinRules.reject;
      opinion = reason;
      notify = config.notify_auto_approved;
    } in
    let (a, s') =
      finish env id reason answer error (review env reject id blacklist_actor reason s) s in
    (a, w', s')

-- `applyJoinRules` for any other applicant.
unfoldable pub apply_rules :
    Host
    → Readings
    → JoinConfig
    → Option JoinRuleEvaluator
    → (group id : String) → JoinRequest
    → World
    → JoinAudit
    → JoinAnswer × World × JoinAudit
unfolding act
apply_rules host env config rules group id r w s =
    if not config.enabled || not config.join_audit_enabled
    then (left_to_reviewers "", w, s)
    else if is_manual (mode_of config) || (not (is_auto (mode_of config)) && not (is_some rules))
    then (left_to_reviewers "", w, s)
    else act host env config group id r (evaluated rules config r.reason) w s

abbrev pub blacklist_hit : Option Blacklist → String → String → Option BlacklistEntry
blacklist_hit none group user = none
blacklist_hit (some b) group user = hit_for group user b

abbrev pub apply_to :
    Host
    → Readings
    → JoinConfig
    → Option JoinRuleEvaluator
    → (group id : String) → JoinRequest
    → Option BlacklistEntry
    → World
    → JoinAudit
    → JoinAnswer × World × JoinAudit
apply_to host env config rules group id r (some hit) w s =
    reject_blacklisted host env config group id r hit w s
apply_to host env config rules group id r none w s =
    apply_rules host env config rules group id r w s

abbrev apply_found :
    Host
    → Readings
    → JoinConfig
    → Option JoinRuleEvaluator
    → Option Blacklist
    → (group id : String) → Outcome JoinError JoinRequest
    → World
    → JoinAudit
    → Outcome JoinError JoinAnswer × World × JoinAudit
apply_found host env config rules blacklist group id (thrown e) w s = (thrown e, w, s)
apply_found host env config rules blacklist group id (ok r) w s =
    let (a, w', s') =
      apply_to host env config rules group id r (blacklist_hit blacklist group r.user_id) w s in
    (ok a, w', s')

-- `applyJoinRules`
unfoldable pub apply_join_rules :
    Host
    → Readings
    → JoinConfig
    → Option JoinRuleEvaluator
    → Option Blacklist
    → (group id : String) → World
    → JoinAudit
    → Outcome JoinError JoinAnswer × World × JoinAudit
unfolding apply_rules reject_blacklisted
apply_join_rules host env config rules blacklist group id w s =
    apply_found host env config rules blacklist group id (get id s) w s
