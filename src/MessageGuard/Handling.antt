-- ===== src/MessageGuard/Handling.antt =====
-- src/services/messageGuard.ts: who is left alone, and what is recorded about a message.
use qq_group_ops.Punishments.{Punishments, PunishmentRecord, active, create}
use qq_group_ops.Moderation.Laws.{applies, evaluate-eq}
use qq_group_ops.Moderation.{
  ModerationAction, match_of, RuleEngine, RuleMatch, allow, evaluate, highest_action,
}
use qq_group_ops.Moderation
use qq_group_ops.Blacklist.{group_scope}
use qq_group_ops.MessageGuard.Planning.{
  is_recall, is_mute, is_kick, IncomingMessage, GuardConfig, Plan, is_review,
}
use qq_group_ops.MessageGuard.{
  action_text, GuardState, GuardReadings, GuardResult, handle_message, judge, allowed,
  punishment_input,
}
use qq_group_ops.Base.Outcome.{ok}
use qq_group_ops.Base.{
  any, filter, map, none, Bool-cases, sym, pos, ◌==◌, inl, inr, [], ◌≡◌, refl, ◌∙◌, ap, String,
  Bool, true, false, ◌||◌, not, some, List, ◌∷◌, ◌++◌, if◌then◌else◌, arith, string_eq,
}
use qq_group_ops.Base.Dict.{Dict, lookup}
use qq_group_ops.Base.Text.{is_empty}
use qq_group_ops.Core.Platform.{Host, World}
use qq_group_ops.MessageGuard.Engines.{MessageGuard, CachedEngine, engine_for}
use qq_group_ops.MessageGuard.Executing.{calls_before, calls_listing, calls_after}
use qq_group_ops.MessageGuard.Sparing.{
  is_spared, handle_message-spared, handle_message-checked, filter-none, judge-matches,
}
use qq_group_ops.MessageGuard.Recording.{handle_message-planned}

-- In a group with an id, whose engine is built: a message is left alone if the group is not enabled or
-- does not filter words, its author is a moderator, an administrator or a super administrator of the
-- group, a global super administrator or on the whitelist, or no enabled rule of the engine matches it.
-- A message left alone is allowed, and no call is made, nothing is logged, recorded or listed. For any
-- other, an answer lists exactly the enabled rules that match.
pub handle_message-spares :
    (host : Host) (env : GuardReadings) (guard : MessageGuard) (config : GuardConfig)
    (message : IncomingMessage) (st : GuardState) (engine : RuleEngine)
    (engines : Dict String CachedEngine)
    → is_empty message.group_id ≡ false
    → engine_for guard config st.engines ≡ ok (engine, engines)
    → let (result, st') = handle_message host env guard config message st in
      let hits = applies guard.language engine message.content in
      let alone = is_spared guard config message || not (any hits engine.resolved_rules) in
      (alone ≡ true
        → ((r : GuardResult) × (result ≡ ok r)
            × (r.action ≡ allow)
            × (r.matches ≡ [])
            × (r.executed? ≡ false))
          × (st'.world ≡ st.world)
          × (st'.punishments ≡ st.punishments)
          × (st'.blacklist ≡ st.blacklist))
      × ((r : GuardResult)
          → alone ≡ false
          → result ≡ ok r
          → r.matches ≡ map match_of (filter hits engine.resolved_rules))
unfolding judge
handle_message-spares host env guard config message st engine engines named built =
    let hits = applies guard.language engine message.content in
    let judged = λ (ms : List RuleMatch).
      judge host env guard config message (highest_action guard.language engine message.content) ms
        (record st { engines = engines }) in
    let asked = λ (checks : is_spared guard config message ≡ false).
      handle_message-checked host env guard config message st named engine engines checks built
      ∙ ap judged (evaluate-eq guard.language engine message.content) in
    (
      λ alone. elim (Bool-cases (is_spared guard config message)) [
        | inl spared ↦
            let (d, e) = handle_message-spared host env guard config message st named spared in
            (
              (allowed d, ap (λ p. p.0) e, refl, refl, refl),
              ap (λ p. p.1.world) e,
              ap (λ p. p.1.punishments) e,
              ap (λ p. p.1.blacklist) e,
            )
        | inr checks ↦
            let clean : any hits engine.resolved_rules ≡ false = ground (arith, alone, checks) in
            let e =
              asked checks
              ∙ ap (λ rules. judged (map match_of rules))
                  (filter-none hits engine.resolved_rules clean) in
            (
              (allowed "no_match", ap (λ p. p.0) e, refl, refl, refl),
              ap (λ p. p.1.world) e,
              ap (λ p. p.1.punishments) e,
              ap (λ p. p.1.blacklist) e,
            )
      ],
      λ r other answered.
          judge-matches host env guard config message
            (highest_action guard.language engine message.content) _
            (record st { engines = engines }) r
            (ap (λ p. p.0) (sym (asked (ground (arith, other)))) ∙ answered),
    )

-- Whether the rules ask for an action, by its name.
abbrev pub asks : String → ModerationAction → Bool
asks name action = action_text action == name

-- What the rules and the settings of the group ask for: an action of the rules or of the settings, the
-- blacklist of the settings, and a warning with each of them.
abbrev pub asked_plan : ModerationAction → GuardConfig → Plan
asked_plan action config =
    let set = config.punish_actions in
    record {
      action = action;
      recall = set.recall || asks "recall" action;
      mute = set.mute || asks "mute" action;
      kick = set.kick || asks "kick" action;
      blacklist = set.blacklist;
      warn =
          set.warn
          || (set.recall || asks "recall" action)
          || (set.mute || asks "mute" action)
          || (set.kick || asks "kick" action)
          || set.blacklist;
      mute_duration_seconds = config.mute_duration_seconds;
    }

asks-recall : (action : ModerationAction) → asks "recall" action ≡ is_recall action
unfolding string_eq
asks-recall allow = refl
asks-recall Moderation.warn = refl
asks-recall Moderation.review = refl
asks-recall Moderation.recall = refl
asks-recall Moderation.mute = refl
asks-recall Moderation.kick = refl

asks-mute : (action : ModerationAction) → asks "mute" action ≡ is_mute action
unfolding string_eq
asks-mute allow = refl
asks-mute Moderation.warn = refl
asks-mute Moderation.review = refl
asks-mute Moderation.recall = refl
asks-mute Moderation.mute = refl
asks-mute Moderation.kick = refl

asks-kick : (action : ModerationAction) → asks "kick" action ≡ is_kick action
unfolding string_eq
asks-kick allow = refl
asks-kick Moderation.warn = refl
asks-kick Moderation.review = refl
asks-kick Moderation.recall = refl
asks-kick Moderation.mute = refl
asks-kick Moderation.kick = refl

asks-review : (action : ModerationAction) → asks "review" action ≡ is_review action
unfolding string_eq
asks-review allow = refl
asks-review Moderation.warn = refl
asks-review Moderation.review = refl
asks-review Moderation.recall = refl
asks-review Moderation.mute = refl
asks-review Moderation.kick = refl

-- Where the rules find something in a message that is not left alone, the group has an id and the plan
-- that the rules and the settings ask for is more than a warning, and a record is made: an answer lists
-- the matches; the calls are those of the plan, in order, or none if the action is a review; and the
-- record, which is in force, is of the message, its author, its group and the reason of the first match,
-- and holds as done what the plan has, whatever the platform answered and also if the action is a
-- review, with the detail of the answer, which is `queued_for_review` then.
pub handle_message-records :
    (host : Host) (env : GuardReadings) (guard : MessageGuard) (config : GuardConfig)
    (message : IncomingMessage) (st : GuardState) (engine : RuleEngine)
    (engines : Dict String CachedEngine) (m : RuleMatch) (ms : List RuleMatch) (p p' : Punishments)
    (r : PunishmentRecord) (w : World)
    → is_spared guard config message ≡ false
    → engine_for guard config st.engines ≡ ok (engine, engines)
    → evaluate guard.language engine message.content ≡ m ∷ ms
    → st.punishments ≡ some p
    → is_empty message.group_id ≡ false
    → let action = highest_action guard.language engine message.content in
      let plan = asked_plan action config in
      (plan.recall || plan.mute || plan.kick || plan.blacklist) ≡ true
      → create host env.created (punishment_input plan message config m.reason) st.world p
        ≡ ok (r, w, p')
      → let (result, st') = handle_message host env guard config message st in
        let calls =
          calls_before plan message
          ++ calls_listing plan message st.blacklist
          ++ calls_after guard plan message config (some r.record_id) in
        (st'.world.calls ≡ st.world.calls ++ (if asks "review" action then [] else calls))
        × ((x : GuardResult) × (result ≡ ok x)
            × (x.matches ≡ m ∷ ms)
            × (asks "review" action ≡ true → x.detail ≡ "queued_for_review")
            × ((q : Punishments) × (stored : PunishmentRecord) × (st'.punishments ≡ some q)
                × (lookup r.record_id q.records ≡ some stored)
                × (stored.actions ≡ (record {
                  recalled = plan.recall;
                  muted = plan.mute;
                  mute_duration_seconds = if plan.mute then config.mute_duration_seconds else pos 0;
                  kicked = plan.kick;
                  blacklist = if plan.blacklist then some group_scope else none;
                }))
                × (stored.group_id ≡ message.group_id)
                × (stored.user_id ≡ message.user_id)
                × (stored.message_id ≡ message.message_id)
                × (stored.rule_reason ≡ m.reason)
                × (stored.status ≡ active)
                × (stored.detail ≡ x.detail)))
handle_message-records host env guard config message st engine engines m ms p p' r w spared built
      found kept named punishing made =
    let a = highest_action guard.language engine message.content in
    rw (asks-recall a, asks-mute a, asks-kick a, asks-review a)
      (handle_message-planned host env guard config message st engine engines m ms p p' r w spared
        built found kept named (rw (asks-recall a, asks-mute a, asks-kick a) at punishing)
        (rw (asks-recall a, asks-mute a, asks-kick a) at made))
