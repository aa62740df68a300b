-- ===== src/JoinApproval/Blacklisted.antt =====
-- Theorems on the two ends of the service: an applicant on the blacklist, and a reviewer's decision.
use qq_group_ops.Base.Text.{is_empty}
use qq_group_ops.Core.Platform.{PlatformCall, Host, World, approve_join_request, call}
use qq_group_ops.JoinAudit.{
  JoinRequestStatus, pending, approved, rejected, expired, approve, JoinAudit, JoinRequest,
  JoinError, Readings, Decision, reject, review, get, is_pending, is_pending?, reviewed_request,
}
use qq_group_ops.JoinRules.Text.{build_reject_reason}
use qq_group_ops.Base.{
  ◌⊎◌, ℕ, if◌then◌else◌, [], ◌≡◌, ◌≢◌, refl, String, true, false, Option, none, some, ◌∷◌, ◌++◌,
  arith, string_eq, ◌==◌, Bool-cases, inl, inr,
}
use qq_group_ops.Base.Dict.{lookup, NodupKeys}
use qq_group_ops.Base.Outcome.{Outcome, ok, thrown}
use qq_group_ops.JoinAudit.Expiry.{IsKeyed}
use qq_group_ops.Blacklist.{Blacklist, BlacklistEntry, hit_for}
use qq_group_ops.JoinRules
use qq_group_ops.JoinRules.{JoinRuleEvaluator, to_manual}
use qq_group_ops.JoinRules.Laws.{is_approval}
use qq_group_ops.JoinApproval.{
  JoinConfig, JoinAnswer, finish, apply_join_rules, reject_blacklisted, is_already_handled_error,
  already_handled_message, blacklist_actor, reason?, hit_reason, error_text, on_failure,
}
use qq_group_ops.JoinApproval.ByHand.{decide_by_hand, require_request, is_approving, sent_reason}
use qq_group_ops.JoinApproval.Deciding.{review-ok, decide_by_hand-required}

on_failure-action :
    (env : Readings) (id opinion message : String) (s : JoinAudit)
    → is_approval (on_failure env id opinion message s).0.action ≡ false
on_failure-action env id opinion message s = elim (Bool-cases (is_already_handled_error message)) [
  | inl y ↦ rw y refl
  | inr n ↦ rw n refl
]

finish-action :
    (env : Readings) (id opinion : String) (answer : JoinAnswer) (error : Option String)
    (local : Outcome JoinError (JoinRequest × JoinAudit)) (s : JoinAudit)
    → is_approval answer.action ≡ false
    → is_approval (finish env id opinion answer error local s).0.action ≡ false
finish-action env id opinion answer (some message) local s h =
    on_failure-action env id opinion message s
finish-action env id opinion answer none (ok (x, s')) s h = h
finish-action env id opinion answer none (thrown e) s h =
    on_failure-action env id opinion (error_text e) s

-- An applicant whom the blacklist stops is never approved, whatever the settings and the rules of the
-- group are: as the only call, the platform is told to reject the request, and the answer is not an
-- approval. If the platform takes it and the request is pending, the answer is a rejection, and the
-- request is rejected, by the blacklist.
pub apply_join_rules-blacklisted :
    (host : Host) (env : Readings) (config : JoinConfig) (rules : Option JoinRuleEvaluator)
    (b : Blacklist) (group id : String) (w : World) (s : JoinAudit) (r : JoinRequest)
    (hit : BlacklistEntry)
    → get id s ≡ ok r
    → hit_for group r.user_id b ≡ some hit
    → let (result, w', s') = apply_join_rules host env config rules (some b) group id w s in
      let asked = approve_join_request group r.user_id false id (some (hit_reason hit)) in
      ((a : JoinAnswer) × (result ≡ ok a) × (is_approval a.action ≡ false))
      × (w'.calls ≡ w.calls ++ asked ∷ [])
      × (host.answer w.calls asked ≡ none
          → is_pending r.status ≡ true
          → ((a : JoinAnswer) × (result ≡ ok a) × (a.action ≡ JoinRules.reject))
            × (lookup id s'.requests
                ≡ some (reviewed_request reject blacklist_actor (env.reviewed_at id) r)))
unfolding apply_join_rules reject_blacklisted call
apply_join_rules-blacklisted host env config rules b group id w s r hit there listed =
    rw (there, listed)
      (
        (
          _,
          refl,
          finish-action env id (hit_reason hit)
              (record {
                action = JoinRules.reject;
                opinion = hit_reason hit;
                notify = config.notify_auto_approved;
              })
              (host.answer w.calls
                (approve_join_request group r.user_id false id (some (hit_reason hit))))
              (review env reject id blacklist_actor (hit_reason hit) s) s refl,
        ),
        refl,
        λ taken waits.
            let (s', reviewed, stored) =
              review-ok env reject id blacklist_actor (hit_reason hit) s r there waits in
            rw (taken, reviewed) ((_, refl, refl), stored),
      )

-- The call that tells the platform a decision: the reason of an approval as it is, that of a rejection in
-- one line and cut; none if it is empty.
abbrev pub asked_by : Decision → (group user id reason : String) → PlatformCall
asked_by approve group user id reason =
    approve_join_request group user true id (if is_empty reason then none else some reason)
asked_by reject group user id reason =
    let line = build_reject_reason reason in
    approve_join_request group user false id (if is_empty line then none else some line)

abbrev pub status_by : Decision → JoinRequestStatus
status_by approve = approved
status_by reject = rejected

asked_by-call :
    (d : Decision) (group user id reason : String)
    → asked_by d group user id reason
      ≡ approve_join_request group user (is_approving d) id (reason? (sent_reason d reason))
asked_by-call approve group user id reason = refl
asked_by-call reject group user id reason = refl

reviewed_by :
    (d : Decision) (reviewer : String) (at : ℕ) (r : JoinRequest)
    → reviewed_request d reviewer at r
      ≡ record r { status = status_by d; reviewer_id = some reviewer; reviewed_at = some at }
reviewed_by approve reviewer at r = refl
reviewed_by reject reviewer at r = refl

-- What keeps a decision from a request: it is not there, is of another group or is not pending.
abbrev pub IsRefused : (group id : String) → JoinAudit → Type 0
IsRefused group id s =
    (lookup id s.requests ≡ none)
    ⊎ ((r : JoinRequest) × (lookup id s.requests ≡ some r)
        × ((◌≢◌ {A = String} r.group_id group) ⊎ (r.status ≢ pending)))

require_request-ok :
    (group id : String) (s : JoinAudit) (r : JoinRequest)
    → lookup id s.requests ≡ some r
    → ◌≡◌ {A = String} r.group_id group
    → r.status ≡ pending
    → require_request group id s ≡ ok r
unfolding require_request get
require_request-ok group id s r found mine waits = ground (arith, found, mine, waits)

not_pending : (status : JoinRequestStatus) → status ≢ pending → is_pending status ≡ false
not_pending pending h = absurd (h refl)
not_pending approved h = refl
not_pending rejected h = refl
not_pending expired h = refl

require_request-thrown :
    (group id : String) (s : JoinAudit)
    → IsRefused group id s
    → (message : String) × (require_request group id s ≡ thrown message)
unfolding require_request get
require_request-thrown group id s (inl absent) = rw absent (_, refl)
require_request-thrown group id s (inr (r, found, inl other)) =
    let differs : (r.group_id == group) ≡ false = ground (arith, other) in
    rw (found, differs) (_, refl)
require_request-thrown group id s (inr (r, found, inr done)) =
    rw found (elim (Bool-cases (r.group_id == group)) [
      | inl mine ↦ rw (mine, not_pending r.status done) (_, refl)
      | inr other ↦ rw other (_, refl)
    ])

-- For requests that stand under their ids, each once: when a reviewer decides a pending request of
-- the group, the platform is told the decision with its reason, as the only call. If it takes it,
-- the request is decided so, by the reviewer. If it says that the request was handled already, the
-- method throws, and the request is not pending any more while all others stay as they are. On any
-- other error the method throws it and nothing changes. For a request that is not there, of
-- another group or decided, the method throws, calls nothing and changes nothing.
pub decide_by_hand_lem :
    (host : Host) (env : Readings) (d : Decision) (group id reviewer reason : String) (w : World)
    (s : JoinAudit)
    → NodupKeys s.requests
    → IsKeyed s
    → let (result, w', s') = decide_by_hand host env d group id reviewer reason w s in
      ((r : JoinRequest)
        → lookup id s.requests ≡ some r
        → ◌≡◌ {A = String} r.group_id group
        → r.status ≡ pending
        → let asked = asked_by d group r.user_id id reason in
          (w'.calls ≡ w.calls ++ asked ∷ [])
          × (host.answer w.calls asked ≡ none
              → let decided = record r {
                status = status_by d;
                reviewer_id = some reviewer;
                reviewed_at = some (env.reviewed_at id);
              } in
                (result ≡ ok decided) × (lookup id s'.requests ≡ some decided))
          × ((message : String)
              → host.answer w.calls asked ≡ some message
              → is_already_handled_error message ≡ true
              → (result ≡ thrown already_handled_message)
                × (is_pending? (lookup id s'.requests) ≡ false)
                × ((k : String) → k ≢ id → lookup k s'.requests ≡ lookup k s.requests))
          × ((message : String)
              → host.answer w.calls asked ≡ some message
              → is_already_handled_error message ≡ false
              → (result ≡ thrown message) × (s' ≡ s)))
      × (IsRefused group id s
          → (message : String) × (decide_by_hand host env d group id reviewer reason w s
              ≡ (thrown message, w, s)))
decide_by_hand_lem host env d group id reviewer reason w s u keyed =
    let (decides, refuses) =
      decide_by_hand-required host env d group id reviewer reason w s u keyed in
    (
      λ r found mine waits.
          rw
            (
              asked_by-call d group r.user_id id reason,
              ← reviewed_by d reviewer (env.reviewed_at id) r,
            )
            (decides r (require_request-ok group id s r found mine waits)),
      λ refused.
          let (message, thrown_) = require_request-thrown group id s refused in
          (message, refuses message thrown_),
    )
