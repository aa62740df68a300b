-- ===== src/JoinApproval/PlatformFirst.antt =====
-- Theorems on the order of a decision: no request is decided in the program unless the platform took
-- the same decision just before.
use qq_group_ops.Base.{
  [], ◌≡◌, ◌≢◌, refl, sym, ◌∙◌, ap, String, Bool, not, ◌&&◌, ◌||◌, Option, none, some, ◌∷◌, ◌++◌,
  arith, string_eq, ◌==◌, Bool-cases, inl, inr, is_some,
}
use mathlib.Core.Option.{some-injective}
use mathlib.Core.Path.{subst}
use qq_group_ops.Base.Dict.{lookup, NodupKeys}
use qq_group_ops.Base.Outcome.{Outcome, ok, thrown}
use qq_group_ops.Core.Platform.{Host, World, approve_join_request, call}
use qq_group_ops.JoinAudit.{
  JoinAudit, JoinRequest, JoinError, Readings, Decision, approve, reject, review, get, pending,
  decided_status,
}
use qq_group_ops.JoinAudit.Lookup.{lookup-expire_pending, swept}
use qq_group_ops.JoinAudit.Decisions.{after, review-lookup, mark_handled_externally-cases}
use qq_group_ops.Blacklist.{Blacklist, BlacklistEntry}
use qq_group_ops.JoinRules
use qq_group_ops.JoinRules.{JoinRuleEvaluator, JoinAction, to_manual, is_manual, is_auto}
use qq_group_ops.JoinRules.Text.{build_reject_reason}
use qq_group_ops.JoinApproval.{
  JoinConfig, JoinAnswer, finish, on_failure, act, reject_blacklisted, apply_rules,
  apply_join_rules, apply_to, evaluated, mode_of, is_already_handled_error, drop_already_handled,
  already_handled_reason, error_text, blacklist_hit, reason?, hit_reason,
}
use qq_group_ops.JoinApproval.ByHand.{decided_by_hand, is_approving}

-- The platform was told of a decision, and took it.
abbrev pub IsAgreed : Host → String → String → String → World → World → Decision → Type 0
IsAgreed host group user id w w' d =
    (sent : Option String) × (host.answer w.calls
        (approve_join_request group user (is_approving d) id sent)
      ≡ none)
    × (w'.calls ≡ w.calls ++ approve_join_request group user (is_approving d) id sent ∷ [])

-- How a method may leave the requests.
data Backed (host : Host) (env : Readings) (group user id : String) (w w' : World)
    (s s' : JoinAudit) : Type 0 where
  kept : s' ≡ s → Backed host env group user id w w' s s'
  dropped : s' ≡ drop_already_handled env id s → Backed host env group user id w w' s s'
  agreed :
      (d : Decision) (reviewer reason : String) (x : JoinRequest)
      → IsAgreed host group user id w w' d
      → review env d id reviewer reason s ≡ ok (x, s')
      → Backed host env group user id w w' s s'

module _ (host : Host) (env : Readings) (group user id : String) (w : World) (s : JoinAudit) where
  on_failure-Backed :
      (opinion message : String) (w' : World)
      → Backed host env group user id w w' s (on_failure env id opinion message s).1
  on_failure-Backed opinion message w' = elim (Bool-cases (is_already_handled_error message)) [
    | inl y ↦ rw y (dropped refl)
    | inr n ↦ rw n (kept refl)
  ]

  finish-Backed :
      (d : Decision) (opinion reviewer reason : String) (sent : Option String) (answer : JoinAnswer)
      (error : Option String)
      → host.answer w.calls (approve_join_request group user (is_approving d) id sent) ≡ error
      → (local : Outcome JoinError (JoinRequest × JoinAudit))
      → review env d id reviewer reason s ≡ local
      → (w' : World)
      → w'.calls ≡ w.calls ++ approve_join_request group user (is_approving d) id sent ∷ []
      → Backed host env group user id w w' s (finish env id opinion answer error local s).1
  finish-Backed d opinion reviewer reason sent answer (some message) asked local e w' c =
      on_failure-Backed opinion message w'
  finish-Backed d opinion reviewer reason sent answer none asked (thrown err) e w' c =
      on_failure-Backed opinion (error_text err) w'
  finish-Backed d opinion reviewer reason sent answer none asked (ok (x, s')) e w' c =
      agreed d reviewer reason x (sent, asked, c) e

  decided_by_hand-Backed :
      (d : Decision) (reviewer reason : String) (sent error : Option String)
      → host.answer w.calls (approve_join_request group user (is_approving d) id sent) ≡ error
      → (local : Outcome JoinError (JoinRequest × JoinAudit))
      → review env d id reviewer reason s ≡ local
      → (w' : World)
      → w'.calls ≡ w.calls ++ approve_join_request group user (is_approving d) id sent ∷ []
      → Backed host env group user id w w' s (decided_by_hand env id error local s).1
  decided_by_hand-Backed d reviewer reason sent (some message) asked local e w' c =
      elim (Bool-cases (is_already_handled_error message)) [
        | inl y ↦ rw y (dropped refl)
        | inr n ↦ rw n (kept refl)
      ]
  decided_by_hand-Backed d reviewer reason sent none asked (thrown err) e w' c = kept refl
  decided_by_hand-Backed d reviewer reason sent none asked (ok (x, s')) e w' c =
      agreed d reviewer reason x (sent, asked, c) e

module _ (host : Host) (env : Readings) (config : JoinConfig) (group id : String) (r : JoinRequest)
    (w : World) (s : JoinAudit) where
  act-Backed :
      (action : JoinAction) (opinion : String)
      → Backed host env group r.user_id id w
          (act host env config group id r (action, opinion) w s).1
          s
          (act host env config group id r (action, opinion) w s).2
  unfolding act call
  act-Backed to_manual opinion = kept refl
  act-Backed JoinRules.approve opinion =
      finish-Backed host env group r.user_id id w s approve opinion "bot:auto" "" none _ _ refl _
        refl _ refl
  act-Backed JoinRules.reject opinion =
      finish-Backed host env group r.user_id id w s reject opinion "bot:auto"
        (build_reject_reason opinion) (reason? (build_reject_reason opinion)) _ _ refl _ refl _ refl

  reject_blacklisted-Backed :
      (hit : BlacklistEntry)
      → Backed host env group r.user_id id w
          (reject_blacklisted host env config group id r hit w s).1
          s
          (reject_blacklisted host env config group id r hit w s).2
  unfolding reject_blacklisted call
  reject_blacklisted-Backed hit =
      finish-Backed host env group r.user_id id w s reject (hit_reason hit) "bot:blacklist"
        (hit_reason hit) (some (hit_reason hit)) _ _ refl _ refl _ refl

  apply_rules-Backed :
      (rules : Option JoinRuleEvaluator)
      → Backed host env group r.user_id id w
          (apply_rules host env config rules group id r w s).1
          s
          (apply_rules host env config rules group id r w s).2
  unfolding apply_rules
  apply_rules-Backed rules =
      elim (Bool-cases (not config.enabled || not config.join_audit_enabled)) [
        | inl off ↦ rw off (kept refl)
        | inr on ↦
            elim (Bool-cases (
              is_manual (mode_of config)
              || (not (is_auto (mode_of config)) && not (is_some rules)))) [
                | inl by_hand ↦ rw (on, by_hand) (kept refl)
                | inr by_rule ↦
                    rw (on, by_rule)
                      (act-Backed (evaluated rules config r.reason).0
                        (evaluated rules config r.reason).1)
              ]
      ]

  apply_to-Backed :
      (rules : Option JoinRuleEvaluator) (hit : Option BlacklistEntry)
      → Backed host env group r.user_id id w
          (apply_to host env config rules group id r hit w s).1
          s
          (apply_to host env config rules group id r hit w s).2
  apply_to-Backed rules none = apply_rules-Backed rules
  apply_to-Backed rules (some hit) = reject_blacklisted-Backed hit

decided_status-injective : (d d' : Decision) → decided_status d ≡ decided_status d' → d ≡ d'
decided_status-injective approve approve e = refl
decided_status-injective approve reject e = cc
decided_status-injective reject approve e = cc
decided_status-injective reject reject e = refl

pending-ne-decided : (d : Decision) → pending ≢ decided_status d
pending-ne-decided approve e = cc
pending-ne-decided reject e = cc

swept-ne-decided :
    (env : Readings) (due : JoinRequest → Bool) (r : JoinRequest) (d : Decision)
    → r.status ≡ pending
    → (swept env due r).status ≢ decided_status d
swept-ne-decided env due r approve p e = ground (arith, p, e)
swept-ne-decided env due r reject p e = ground (arith, p, e)

module _ (env : Readings) (s : JoinAudit) (u : NodupKeys s.requests) (k : String) (r : JoinRequest)
    (d : Decision) (found : lookup k s.requests ≡ some r) (waits : r.status ≡ pending) where
  drop-ne-decided :
      (id : String) (x : JoinRequest)
      → lookup k (drop_already_handled env id s).requests ≡ some x
      → x.status ≢ decided_status d
  unfolding drop_already_handled
  drop-ne-decided id =
      mark_handled_externally-cases
        (λ t. (x : JoinRequest) → lookup k t.requests ≡ some x → x.status ≢ decided_status d) env s
        (λ x f e.
          pending-ne-decided d
            (sym waits ∙ ap (λ q. q.status) (some-injective r x (sym found ∙ f)) ∙ e))
        (λ reason due x f e. swept-ne-decided env due r d waits (
          ap (λ q. q.status)
            (some-injective (swept env due r) x
              (sym (lookup-expire_pending env reason due k s u ∙ rw found refl) ∙ f))
          ∙ e))
        id already_handled_reason

  review-agrees :
      (d' : Decision) (id reviewer reason : String) (y x : JoinRequest) (s' : JoinAudit)
      → review env d' id reviewer reason s ≡ ok (y, s')
      → lookup k s'.requests ≡ some x
      → x.status ≡ decided_status d
      → (◌≡◌ {A = String} k id) × (d' ≡ d)
  review-agrees d' id reviewer reason y x s' e f status =
      let at = review-lookup k r s found env d' id reviewer reason in
      let same_state = ap (after s) e in
      let now = ap (λ t. lookup k t.requests) (sym same_state) ∙ at in
      let is_x = some-injective _ x (sym now ∙ f) in
      elim (Bool-cases (k == id)) [
        | inl mine ↦ (
          ground (arith, mine),
          decided_status-injective d' d (ground (arith, mine, waits, is_x, status)),
        )
        | inr other ↦ absurd (pending-ne-decided d (ground (arith, other, waits, is_x, status)))
      ]

  Backed-agrees :
      (host : Host) (group user id : String) (w w' : World) (s' : JoinAudit) (x : JoinRequest)
      → Backed host env group user id w w' s s'
      → lookup k s'.requests ≡ some x
      → x.status ≡ decided_status d
      → (◌≡◌ {A = String} k id) × IsAgreed host group user id w w' d
  Backed-agrees host group user id w w' s' x (kept e) f status = absurd (
      pending-ne-decided d (
        sym waits
        ∙ ap (λ q. q.status)
            (some-injective r x (sym found ∙ ap (λ t. lookup k t.requests) (sym e) ∙ f))
        ∙ status))
  Backed-agrees host group user id w w' s' x (dropped e) f status =
      absurd (drop-ne-decided id x (ap (λ t. lookup k t.requests) (sym e) ∙ f) status)
  Backed-agrees host group user id w w' s' x (agreed d' reviewer reason y a e) f status =
      let (mine, same_way) = review-agrees d' id reviewer reason y x s' e f status in
      (mine, subst (IsAgreed host group user id w w') same_way a)

  -- For requests that stand under distinct ids: if a pending request is approved, or rejected, after
  -- the rules were applied to a request, it is that request, and just before, as the only call, the
  -- platform was told to approve, or to reject, and took it. So an error of the platform approves
  -- and rejects nothing, and neither do rules that leave the request to a reviewer.
  pub apply_join_rules-IsAgreed :
      (host : Host) (config : JoinConfig) (rules : Option JoinRuleEvaluator)
      (blacklist : Option Blacklist) (group id : String) (w : World) (q x : JoinRequest)
      → get id s ≡ ok q
      → lookup k (apply_join_rules host env config rules blacklist group id w s).2.requests ≡ some x
      → x.status ≡ decided_status d
      → (◌≡◌ {A = String} k id)
        × IsAgreed host group q.user_id id w
            (apply_join_rules host env config rules blacklist group id w s).1
            d
  unfolding apply_join_rules
  apply_join_rules-IsAgreed host config rules blacklist group id w q x there f status =
      let hit = blacklist_hit blacklist group q.user_id in
      let (a, w', s') = apply_to host env config rules group id q hit w s in
      rw there (
        Backed-agrees host group q.user_id id w w' s' x
          (apply_to-Backed host env config group id q w s rules hit) (rw there at f) status)
