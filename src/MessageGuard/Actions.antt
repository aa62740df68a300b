-- ===== src/MessageGuard/Actions.antt =====
-- src/services/messageGuard.ts: the actions of a plan, each tried whatever the others came to.
use qq_group_ops.Base.{
  [], nat_eq, String, Bool, false, not, Option, none, some, List, ◌∷◌, ◌++◌, any, if◌then◌else◌,
  string_eq,
}
use qq_group_ops.Base.Text.{concat, ends_with}
use qq_group_ops.Core.Platform.{
  Host, World, Readings, PlatformCall, recall_group_message, mute_group_member, remove_group_member,
  call,
}
use qq_group_ops.Blacklist
use qq_group_ops.Blacklist.{Blacklist, group_scope}
use qq_group_ops.JoinRules.Text.{join_with}
use qq_group_ops.MessageGuard.Planning.{IncomingMessage, GuardConfig, Plan, is_review, warning_call}
use qq_group_ops.MessageGuard.Engines.{MessageGuard}

abbrev pub attempted : String → Option String → String
attempted label none = label
attempted label (some error) = concat label "_failed"

-- `details.push(await this.attempt(label, ...))` for one call, if the plan has it
unfoldable pub attempt : Bool → Host → String → PlatformCall → World → List String × World
attempt planned host label c w =
    let (error, w') = call host c w in if planned then (attempted label error ∷ [], w') else ([], w)

abbrev listed_input : IncomingMessage → Blacklist.BlacklistAddInput
listed_input message = record {
  scope = group_scope;
  group_id = some message.group_id;
  user_id = message.user_id;
  actor_id = "bot:auto";
  reason = some "命中群规则";
  source = some "keyword";
  kick = some false;
}

abbrev listed :
    Option Blacklist
    → Host
    → Readings
    → IncomingMessage
    → World
    → List String × World × Option Blacklist
listed none host env message w = ("blacklist_failed" ∷ [], w, none)
listed (some b) host env message w =
    let (_, w', b') = Blacklist.add host env [] (listed_input message) w b in
    ("blacklist" ∷ [], w', some b')

-- The same for the blacklist.
unfoldable pub attempt_blacklist :
    Bool
    → Host
    → Readings
    → IncomingMessage
    → World
    → Option Blacklist
    → List String × World × Option Blacklist
attempt_blacklist planned host env message w b =
    let after = listed b host env message w in if planned then after else ([], w, b)

abbrev pub detail_of : List String → String
detail_of [] = "allow"
detail_of (d ∷ ds) = join_with "+" (d ∷ ds)

-- Whether one of the actions was done.
abbrev pub any_done : List String → Bool
any_done details = any (λ d. not (ends_with "_failed" d)) details

-- `execute`, for an action other than `Review`
unfoldable pub execute_plan :
    Host
    → Readings
    → MessageGuard
    → Plan
    → IncomingMessage
    → GuardConfig
    → Option String
    → World
    → Option Blacklist
    → (Bool × String) × World × Option Blacklist
unfolding attempt attempt_blacklist
execute_plan host env guard plan message config punishment w b =
    let group = message.group_id in
    let user = message.user_id in
    let (d1, w1) =
      attempt plan.recall host "recall" (recall_group_message group message.message_id) w in
    let (d2, w2) =
      attempt plan.mute host "mute" (mute_group_member group user plan.mute_duration_seconds) w1 in
    let (d3, w3) = attempt plan.kick host "remove" (remove_group_member group user) w2 in
    let (d4, w4, b') = attempt_blacklist plan.blacklist host env message w3 b in
    let (d5, w5) =
      attempt plan.warn host "warn" (warning_call guard.rich plan message config punishment) w4 in
    let details = d1 ++ d2 ++ d3 ++ d4 ++ d5 in ((any_done details, detail_of details), w5, b')

-- `execute`
unfoldable pub execute :
    Host
    → Readings
    → MessageGuard
    → Plan
    → IncomingMessage
    → GuardConfig
    → Option String
    → World
    → Option Blacklist
    → (Bool × String) × World × Option Blacklist
unfolding execute_plan
execute host env guard plan message config punishment w b =
    let done = execute_plan host env guard plan message config punishment w b in
    if is_review plan.action then ((false, "queued_for_review"), w, b) else done
