-- ===== src/Punishments/Cards.antt =====
-- src/services/punishments.ts: the cards on which a reviewer changes a punishment.
use qq_group_ops.Base.{
  [], ℕ, ℤ, pos, negsuc, String, Bool, true, false, ◌||◌, Option, none, some, List, ◌∷◌, ◌++◌, ltb,
  string_eq, if◌then◌else◌, is_some,
}
use qq_group_ops.Base.Text.{concat, signed_decimal}
use qq_group_ops.Core.Platform.{
  Host, World, Readings, remove_group_member, mute_group_member, call, audit,
}
use qq_group_ops.Blacklist
use qq_group_ops.Blacklist.{
  Blacklist, BlacklistScope, group_scope, global_scope, text_or, trimmed_or_empty, is_global,
}
use qq_group_ops.Punishments.{
  PunishmentStatus, active, released, PunishmentRecord, Punishments, put, PunishmentActionResult,
  get, label,
}

abbrev pub is_released : PunishmentStatus → Bool
is_released active = false
is_released released = true

-- The steps of `release` on the platform and on the blacklist, with what they undid.
unfoldable pub unmute : Host → PunishmentRecord → World → List String × World
unmute host r w =
    let (error, w') = call host (mute_group_member r.group_id r.user_id (pos 0)) w in
    if r.actions.muted then ((if is_some error then [] else "解除禁言" ∷ []), w') else ([], w)

abbrev pub unlist_scope :
    Host
    → PunishmentRecord
    → Option BlacklistScope
    → World
    → Blacklist
    → List String × World × Blacklist
unlist_scope host r none w b = ([], w, b)
unlist_scope host r (some group_scope) w b =
    let (gone, w', b') = Blacklist.remove host group_scope (some r.group_id) r.user_id w b in
    ((if gone then "解除本群黑名单" ∷ [] else []), w', b')
unlist_scope host r (some global_scope) w b =
    let (gone, w', b') = Blacklist.remove host global_scope (some "") r.user_id w b in
    ((if gone then "解除全局黑名单" ∷ [] else []), w', b')

unfoldable pub unlist :
    Host → PunishmentRecord → World → Blacklist → List String × World × Blacklist
unlist host r w b = unlist_scope host r r.actions.blacklist w b

abbrev joined : List String → String
joined [] = ""
joined (s ∷ []) = s
joined (s ∷ t ∷ rest) = concat s (concat "、" (joined (t ∷ rest)))

abbrev undone_text : List String → String
undone_text [] = ""
undone_text (s ∷ rest) = concat "：" (joined (s ∷ rest))

abbrev pub released_record : ℕ → PunishmentRecord → PunishmentRecord
released_record now r = record r {
  actions = record r.actions { muted = false; blacklist = none };
  status = released;
  updated_at = now;
}

abbrev release_text : PunishmentRecord → List String → String
release_text r undone = concat "已解除处罚 " (
    concat (label r) (
      concat (undone_text undone)
        (if r.actions.recalled || r.actions.kicked then "（已撤回的消息与已移出的成员无法恢复）" else "。")))

abbrev release_found :
    Host
    → Readings
    → (actor : String) → (remark : Option String) → Option PunishmentRecord
    → World
    → Blacklist
    → Punishments
    → Option PunishmentActionResult × World × Blacklist × Punishments
release_found host env actor remark none w b s = (none, w, b, s)
release_found host env actor remark (some r) w b s =
    let already = concat "处罚 " (concat (label r) " 已经解除过了。") in
    let (undone1, w1) = unmute host r w in
    let (undone2, w2, b2) = unlist host r w1 b in
    let updated = released_record env.now r in
    let w3 =
      audit env r.group_id actor r.user_id "moderation:release" (trimmed_or_empty remark) w2 in
    if is_released r.status
    then (some (record { ok? = false; text = already; punishment = r }), w, b, s)
    else (
      some
          (record { ok? = true; text = release_text r (undone1 ++ undone2); punishment = updated }),
      w3,
      b2,
      put updated s,
    )

-- `release`
unfoldable pub release :
    Host
    → Readings
    → (code actor : String) → (remark : Option String) → World
    → Blacklist
    → Punishments
    → Option PunishmentActionResult × World × Blacklist × Punishments
unfolding get unmute unlist
release host env code actor remark w b s =
    release_found host env actor remark (get host code s) w b s

abbrev pub is_positive : ℤ → Bool
is_positive (pos n) = ltb 0 n
is_positive (negsuc n) = false

-- `Math.max(0, seconds)`
abbrev pub at_least_zero : ℤ → ℤ
at_least_zero (pos n) = pos n
at_least_zero (negsuc n) = pos 0

abbrev pub muted_record : ℕ → ℤ → PunishmentRecord → PunishmentRecord
muted_record now seconds r = record r {
  actions = record r.actions {
    muted = is_positive seconds;
    mute_duration_seconds = at_least_zero seconds;
  };
  updated_at = now;
}

abbrev mute_text : ℤ → PunishmentRecord → String
mute_text seconds r =
    if is_positive seconds
    then concat "已把处罚 "
        (concat (label r) (concat " 的禁言时长改为 " (concat (signed_decimal seconds) " 秒。")))
    else concat "已解除处罚 " (concat (label r) " 的禁言。")

-- The end of a card's action: with the error that the platform threw, or with the changed record.
abbrev pub settle :
    Option String
    → (failure : String) → (text action reason actor : String) → Readings
    → PunishmentRecord
    → PunishmentRecord
    → World
    → Punishments
    → Option PunishmentActionResult × World × Punishments
settle (some error) failure text action reason actor env r updated w s =
    (some (record { ok? = false; text = concat failure error; punishment = r }), w, s)
settle none failure text action reason actor env r updated w s = (
  some (record { ok? = true; text = text; punishment = updated }),
  audit env r.group_id actor r.user_id action reason w,
  put updated s,
)

abbrev set_mute_found :
    Host
    → Readings
    → ℤ
    → String
    → Option PunishmentRecord
    → World
    → Punishments
    → Option PunishmentActionResult × World × Punishments
set_mute_found host env seconds actor none w s = (none, w, s)
set_mute_found host env seconds actor (some r) w s =
    let (error, w') = call host (mute_group_member r.group_id r.user_id seconds) w in
    settle error "修改禁言时长失败：" (mute_text seconds r) "moderation:mute"
      (concat (signed_decimal seconds) " 秒") actor env r (muted_record env.now seconds r) w' s

-- `setMute`
unfoldable pub set_mute :
    Host
    → Readings
    → (code : String) → ℤ
    → (actor : String) → World
    → Punishments
    → Option PunishmentActionResult × World × Punishments
unfolding get
set_mute host env code seconds actor w s =
    set_mute_found host env seconds actor (get host code s) w s

abbrev pub kicked_record : ℕ → PunishmentRecord → PunishmentRecord
kicked_record now r = record r { actions = record r.actions { kicked = true }; updated_at = now }

abbrev kick_found :
    Host
    → Readings
    → String
    → Option PunishmentRecord
    → World
    → Punishments
    → Option PunishmentActionResult × World × Punishments
kick_found host env actor none w s = (none, w, s)
kick_found host env actor (some r) w s =
    let (error, w') = call host (remove_group_member r.group_id r.user_id) w in
    settle error "移出群失败：" (concat "已把处罚 " (concat (label r) " 的当事人移出群。")) "moderation:kick" "" actor
      env r (kicked_record env.now r) w' s

-- `kick`
unfoldable pub kick :
    Host
    → Readings
    → (code actor : String) → World
    → Punishments
    → Option PunishmentActionResult × World × Punishments
unfolding get
kick host env code actor w s = kick_found host env actor (get host code s) w s

abbrev pub listed_record : ℕ → BlacklistScope → PunishmentRecord → PunishmentRecord
listed_record now scope r = record r {
  actions = record r.actions { blacklist = some scope; kicked = true };
  updated_at = now;
}

-- `BlacklistAddInput` of a card
abbrev pub card_input :
    BlacklistScope → String → Option String → PunishmentRecord → Blacklist.BlacklistAddInput
card_input scope actor reason r = record {
  scope = scope;
  group_id = some r.group_id;
  user_id = r.user_id;
  actor_id = actor;
  reason = some (text_or (concat "处罚 " (label r)) reason);
  source = some "card";
  kick = none;
}

abbrev blacklist_found :
    Host
    → Readings
    → List String
    → BlacklistScope
    → String
    → Option String
    → Option PunishmentRecord
    → World
    → Blacklist
    → Punishments
    → Option PunishmentActionResult × World × Blacklist × Punishments
blacklist_found host env bound scope actor reason none w b s = (none, w, b, s)
blacklist_found host env bound scope actor reason (some r) w b s =
    let (added, w', b') = Blacklist.add host env bound (card_input scope actor reason r) w b in
    let updated = listed_record env.now scope r in
    let text = concat "已" (
      concat (if is_global scope then "全局拉黑" else "拉黑本群")
        (concat "处罚 " (concat (label r) (concat " 的当事人。" added.detail)))) in
    (some (record { ok? = true; text = text; punishment = updated }), w', b', put updated s)

-- `blacklistUser`
unfoldable pub blacklist_user :
    Host
    → Readings
    → List String
    → (code : String) → BlacklistScope
    → (actor : String) → (reason : Option String) → World
    → Blacklist
    → Punishments
    → Option PunishmentActionResult × World × Blacklist × Punishments
unfolding get
blacklist_user host env bound code scope actor reason w b s =
    blacklist_found host env bound scope actor reason (get host code s) w b s
