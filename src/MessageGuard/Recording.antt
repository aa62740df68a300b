-- ===== src/MessageGuard/Recording.antt =====
-- src/services/messageGuard.ts: what is done and recorded by the plan for a message.
use qq_group_ops.Punishments.{put, Punishments, PunishmentRecord, active, create, mark_executed}
use qq_group_ops.Moderation.{RuleEngine, RuleMatch, evaluate, highest_action}
use qq_group_ops.Blacklist.{group_scope, Blacklist}
use qq_group_ops.MessageGuard.Planning.{
  IncomingMessage, GuardConfig, Plan, plan_for, punishes, is_review,
}
use qq_group_ops.MessageGuard.{
  GuardState, GuardReadings, GuardResult, handle_message, judge, open_record, punishment_input,
}
use qq_group_ops.Base.Outcome.{ok}
use qq_group_ops.Base.{
  none, pos, [], ◌≡◌, refl, ◌∙◌, ap, String, true, false, Option, some, List, ◌∷◌, ◌++◌,
  if◌then◌else◌, arith, string_eq,
}
use qq_group_ops.Base.Dict.{Dict, lookup, lookup-insert}
use qq_group_ops.Base.Text.{is_empty}
use qq_group_ops.Core.Platform.{Host, World, Readings}
use qq_group_ops.Punishments.Change.{create-state}
use qq_group_ops.MessageGuard.Engines.{MessageGuard, CachedEngine, engine_for}
use qq_group_ops.MessageGuard.Actions.{execute}
use qq_group_ops.MessageGuard.Executing.{execute_lem, calls_before, calls_listing, calls_after}
use qq_group_ops.MessageGuard.Sparing.{is_spared, handle_message-checked}

lookup-put :
    (r : PunishmentRecord) (s : Punishments) → lookup r.record_id (put r s).records ≡ some r
lookup-put r s = ground (arith, lookup-insert r.record_id r.record_id r s.records)

lookup-mark_executed :
    (env : Readings) (detail : String) (r : PunishmentRecord) (s : Punishments)
    → lookup r.record_id s.records ≡ some r
    → lookup r.record_id (mark_executed env r.record_id detail s).1.records
      ≡ some (record r { detail = detail; updated_at = env.now })
unfolding mark_executed
lookup-mark_executed env detail r s found =
    rw found (lookup-put (record r { detail = detail; updated_at = env.now }) s)

execute-review :
    (host : Host) (env : Readings) (guard : MessageGuard) (plan : Plan) (message : IncomingMessage)
    (config : GuardConfig) (punishment : Option String) (w : World) (b : Option Blacklist)
    → is_review plan.action ≡ true
    → (execute host env guard plan message config punishment w b).0.1 ≡ "queued_for_review"
unfolding execute
execute-review host env guard plan message config punishment w b review = rw review refl

pub handle_message-planned :
    (host : Host) (env : GuardReadings) (guard : MessageGuard) (config : GuardConfig)
    (message : IncomingMessage) (st : GuardState) (engine : RuleEngine)
    (engines : Dict String CachedEngine) (m : RuleMatch) (ms : List RuleMatch) (p p' : Punishments)
    (r : PunishmentRecord) (w : World)
    → is_spared guard config message ≡ false
    → engine_for guard config st.engines ≡ ok (engine, engines)
    → evaluate guard.language engine message.content ≡ m ∷ ms
    → st.punishments ≡ some p
    → is_empty message.group_id ≡ false
    → let action = highest_action guard.language engine message.content in
      let plan = plan_for action config in
      punishes plan ≡ true
      → create host env.created (punishment_input plan message config m.reason) st.world p
        ≡ ok (r, w, p')
      → let (result, st') = handle_message host env guard config message st in
        let calls =
          calls_before plan message
          ++ calls_listing plan message st.blacklist
          ++ calls_after guard plan message config (some r.record_id) in
        (st'.world.calls ≡ st.world.calls ++ (if is_review action then [] else calls))
        × ((x : GuardResult) × (result ≡ ok x)
            × (x.matches ≡ m ∷ ms)
            × (is_review action ≡ true → x.detail ≡ "queued_for_review")
            × ((q : Punishments) × (stored : PunishmentRecord) × (st'.punishments ≡ some q)
                × (lookup r.record_id q.records ≡ some stored)
                × (stored.actions ≡ (record {
                  recalled = plan.recall;
                  muted = plan.mute;
                  mute_duration_seconds = if plan.mute then config.mute_duration_seconds else pos 0;
                  kicked = plan.kick;
                  blacklist = if plan.blacklist then some group_scope else none;
                }))
                × (stored.group_id ≡ message.group_id)
                × (stored.user_id ≡ message.user_id)
                × (stored.message_id ≡ message.message_id)
                × (stored.rule_reason ≡ m.reason)
                × (stored.status ≡ active)
                × (stored.detail ≡ x.detail)))
unfolding judge open_record
handle_message-planned host env guard config message st engine engines m ms p p' r w spared built
      found kept named punishing made =
    let action = highest_action guard.language engine message.content in
    let plan = plan_for action config in
    let ((code, is_new), state, same) =
      create-state host env.created (punishment_input plan message config m.reason) st.world w p p'
        r made in
    rw
      (
        handle_message-checked host env guard config message st named engine engines spared built,
        found,
        kept,
        punishing,
        made,
      )
      (
        (execute_lem host env.listed guard plan message config (some r.record_id) w st.blacklist
              named).0
            ∙ ap
                (λ l.
                  l
                  ++ (if is_review action
                      then []
                      else calls_before plan message
                        ++ calls_listing plan message st.blacklist
                        ++ calls_after guard plan message config (some r.record_id)))
                same,
        (
          _,
          refl,
          refl,
          execute-review host env.listed guard plan message config (some r.record_id) w
              st.blacklist,
          (
            _,
            _,
            refl,
            lookup-mark_executed env.marked _ r p'
                (ap (λ s. lookup r.record_id s.records) state ∙ lookup-put r p),
            ap (λ x. x.actions) is_new,
            ap (λ x. x.group_id) is_new,
            ap (λ x. x.user_id) is_new,
            ap (λ x. x.message_id) is_new,
            ap (λ x. x.rule_reason) is_new,
            ap (λ x. x.status) is_new,
            refl,
          ),
        ),
      )
