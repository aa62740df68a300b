-- ===== src/JoinApproval/ByHand.antt =====
-- src/services/joinApproval.ts: `approve` and `reject`, the decisions of a reviewer.
use qq_group_ops.Base.{
  String, Bool, true, false, Option, none, some, string_eq, ◌==◌, if◌then◌else◌,
}
use qq_group_ops.Base.Outcome.{Outcome, ok, thrown}
use qq_group_ops.Core.Platform.{Host, World, approve_join_request, call}
use qq_group_ops.JoinAudit.{
  JoinAudit, JoinRequest, JoinError, Readings, Decision, approve, reject, review, get, is_pending,
}
use qq_group_ops.JoinRules.Text.{build_reject_reason}
use qq_group_ops.JoinApproval.{
  already_handled_message, is_already_handled_error, error_text, drop_already_handled, reason?,
}

abbrev pub required : String → JoinRequest → Outcome String JoinRequest
required group r =
    if r.group_id == group
    then (if is_pending r.status then ok r else thrown "join request already reviewed")
    else thrown "join request does not belong to this group"

abbrev require_found : String → Outcome JoinError JoinRequest → Outcome String JoinRequest
require_found group (thrown e) = thrown (error_text e)
require_found group (ok r) = required group r

-- `requireRequest`
unfoldable pub require_request : String → String → JoinAudit → Outcome String JoinRequest
require_request group id s = require_found group (get id s)

abbrev reviewed_locally :
    Outcome JoinError (JoinRequest × JoinAudit) → JoinAudit → Outcome String JoinRequest × JoinAudit
reviewed_locally (thrown e) s = (thrown (error_text e), s)
reviewed_locally (ok (r, s')) s = (ok r, s')

-- The end of `approve` and of `reject`, with `throwOrDropAlreadyHandled`.
abbrev pub decided_by_hand :
    Readings
    → String
    → Option String
    → Outcome JoinError (JoinRequest × JoinAudit)
    → JoinAudit
    → Outcome String JoinRequest × JoinAudit
decided_by_hand env id none local s = reviewed_locally local s
decided_by_hand env id (some message) local s =
    if is_already_handled_error message
    then (thrown already_handled_message, drop_already_handled env id s)
    else (thrown message, s)

-- The two methods send the decision with the reason, if it is not empty, and keep it locally: an
-- approval without it.
abbrev pub sent_reason : Decision → String → String
sent_reason approve reason = reason
sent_reason reject reason = build_reject_reason reason

abbrev pub kept_reason : Decision → String → String
kept_reason approve reason = ""
kept_reason reject reason = build_reject_reason reason

abbrev pub is_approving : Decision → Bool
is_approving approve = true
is_approving reject = false

abbrev decide_found :
    Host
    → Readings
    → Decision
    → (group id reviewer reason : String) → Outcome String JoinRequest
    → World
    → JoinAudit
    → Outcome String JoinRequest × World × JoinAudit
decide_found host env d group id reviewer reason (thrown message) w s = (thrown message, w, s)
decide_found host env d group id reviewer reason (ok r) w s =
    let (error, w') =
      call host
        (approve_join_request group r.user_id (is_approving d) id (reason? (sent_reason d reason)))
        w in
    let (result, s') =
      decided_by_hand env id error (review env d id reviewer (kept_reason d reason) s) s in
    (result, w', s')

-- `approve` and `reject`
unfoldable pub decide_by_hand :
    Host
    → Readings
    → Decision
    → (group id reviewer reason : String) → World
    → JoinAudit
    → Outcome String JoinRequest × World × JoinAudit
unfolding require_request
decide_by_hand host env d group id reviewer reason w s =
    decide_found host env d group id reviewer reason (require_request group id s) w s
