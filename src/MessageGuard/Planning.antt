-- ===== src/MessageGuard/Planning.antt =====
-- src/services/messageGuard.ts: what is to be done about a message, and how the group is told.
use qq_group_ops.Base.{
  [], ℤ, String, Bool, true, false, ◌||◌, Option, none, some, List, ◌∷◌, ◌++◌, if◌then◌else◌,
}
use qq_group_ops.Base.Text.{concat, is_space, trim, signed_decimal}
use qq_group_ops.Core.Platform.{Card, Button, PlatformCall, send_group_message, reply_to_group}
use qq_group_ops.Callbacks.{encode_callback}
use qq_group_ops.JoinRules.Text.{slice_units, join_with}
use qq_group_ops.Moderation
use qq_group_ops.Moderation.{ModerationAction}
use Prim.Native.Char.{code}

-- `IncomingMessage`, without the time.
pub record IncomingMessage : Type 0 where
  pub group_id : String
  pub user_id : String
  pub message_id : String
  pub content : String

-- The `punishActions` of a group.
pub record PunishActions : Type 0 where
  pub recall : Bool
  pub mute : Bool
  pub kick : Bool
  pub blacklist : Bool
  pub warn : Bool

-- The settings of a group that the guard reads.
pub record GuardConfig : Type 0 where
  pub group_id : String
  pub enabled : Bool
  pub word_filter_enabled : Bool
  pub user_whitelist : List String
  pub keywords : List String
  pub regex_rules : List String
  pub punish_actions : PunishActions
  pub mute_duration_seconds : ℤ
  pub raw_message_retention_days : ℤ
  pub warning_message : String

-- What `planFor` returns.
pub record Plan : Type 0 where
  pub action : ModerationAction
  pub recall : Bool
  pub mute : Bool
  pub kick : Bool
  pub blacklist : Bool
  pub warn : Bool
  pub mute_duration_seconds : ℤ

abbrev pub is_recall : ModerationAction → Bool
is_recall Moderation.recall = true
is_recall _ = false

abbrev pub is_mute : ModerationAction → Bool
is_mute Moderation.mute = true
is_mute _ = false

abbrev pub is_kick : ModerationAction → Bool
is_kick Moderation.kick = true
is_kick _ = false

abbrev pub is_review : ModerationAction → Bool
is_review Moderation.review = true
is_review _ = false

-- `planFor`
abbrev pub plan_for : ModerationAction → GuardConfig → Plan
plan_for action config =
    let configured = config.punish_actions in
    let recalls = configured.recall || is_recall action in
    let mutes = configured.mute || is_mute action in
    let kicks = configured.kick || is_kick action in
    record {
      action = action;
      recall = recalls;
      mute = mutes;
      kick = kicks;
      blacklist = configured.blacklist;
      warn = configured.warn || recalls || mutes || kicks || configured.blacklist;
      mute_duration_seconds = config.mute_duration_seconds;
    }

-- Whether there is something that a record is kept of.
abbrev pub punishes : Plan → Bool
punishes plan = plan.recall || plan.mute || plan.kick || plan.blacklist

-- `replace(/\s+/gu, " ")`: `gap` tells whether the character before was a space.
unfoldable pub single_spaces : (gap : Bool) → String → String
single_spaces gap String.[] = String.[]
single_spaces gap (String.◌∷◌ c s) =
    let after_space = single_spaces true s in
    let after_other = single_spaces false s in
    if is_space (code c)
    then (if gap then after_space else concat " " after_space)
    else String.◌∷◌ c after_other

-- `singleLine`
unfoldable pub single_line : String → String
unfolding single_spaces
single_line text = trim (single_spaces false text)

-- `rawMessageExcerpt`
unfoldable pub raw_message_excerpt : String → String
unfolding single_line
raw_message_excerpt content = slice_units 200 (single_line content)

abbrev part : Bool → String → List String
part b text = if b then text ∷ [] else []

abbrev label_or : List String → String
label_or [] = "仅警告"
label_or (p ∷ ps) = join_with " + " (p ∷ ps)

-- `punishLabel`
unfoldable pub punish_label : Plan → String
punish_label plan = label_or (
    part plan.recall "撤回消息"
    ++ part plan.mute (concat "禁言 " (concat (signed_decimal plan.mute_duration_seconds) " 秒"))
    ++ part plan.kick "移出群"
    ++ part plan.blacklist "拉黑（本群）")

abbrev appeal_buttons : Option String → String → List Button
appeal_buttons none user = []
appeal_buttons (some id) user =
    record {
      label = "我要申诉";
      callback_data = encode_callback "appeal" "new" (id ∷ []);
      user_id = user;
    }
    ∷ []

abbrev appeal_footer : Option String → List String
appeal_footer none = []
appeal_footer (some id) = concat "点击下方按钮或私聊机器人发送  /appeal #" (concat id " <理由>  即可申诉") ∷ []

-- The card of `sendWarning`
unfoldable pub warning_card : Plan → IncomingMessage → GuardConfig → Option String → Card
unfolding punish_label
warning_card plan message config punishment = record {
  title = "处罚通知";
  lines =
      concat "<@!" (concat message.user_id ">")
      ∷ concat "**处理**：" (punish_label plan)
      ∷ concat "**群规则**：" config.warning_message
      ∷ [];
  buttons = appeal_buttons punishment message.user_id;
  footer = appeal_footer punishment;
}

-- The call that `sendWarning` makes: a card where there is a sender of cards.
unfoldable pub warning_call :
    (rich : Bool) → Plan → IncomingMessage → GuardConfig → Option String → PlatformCall
unfolding warning_card
warning_call rich plan message config punishment =
    if rich
    then reply_to_group message.group_id (warning_card plan message config punishment)
        message.message_id
    else send_group_message message.group_id config.warning_message message.message_id
