-- ===== src/Punishments.antt =====
-- src/services/punishments.ts: what was done to a member, and the cards that change it. The state is
-- the records and, for the calls that they make, what the services share and the blacklist. The push
-- of a notification, whose failure is only logged, and the log lines change nothing here.
pub mod Cards
pub mod Retention
pub mod Change
pub mod Pruning
pub mod Clearing
pub mod Releasing
pub mod Listing
pub mod Table
use qq_group_ops.Base.{
  [], add_all, ℕ, suc, ℤ, pos, negsuc, String, Bool, true, false, not, ◌&&◌, ◌||◌, Option, none,
  some, List, ◌∷◌, ◌++◌, filter, take, ltb, string_eq, ◌==◌, if◌then◌else◌, is_some,
}
use qq_group_ops.Base.Dict.{Dict, lookup, insert, erase, has, values}
use qq_group_ops.Base.Sort.{sort}
use qq_group_ops.Base.Text.{trim, is_empty, concat, text_le, decimal, signed_decimal}
use qq_group_ops.Base.Outcome.{Outcome, ok, thrown, ◌>>=◌}
use qq_group_ops.Core.Ordering.{newest_first}
use qq_group_ops.Core.RowTable.{set_all}
use qq_group_ops.Core.Platform.{
  Host, World, Readings, remove_group_member, mute_group_member, call, audit,
}
use qq_group_ops.Codes.{generate_code, normalize_code, seed_global_code}
use qq_group_ops.Blacklist
use qq_group_ops.Blacklist.{
  Blacklist, BlacklistScope, group_scope, global_scope, text_or, trimmed_or_empty, is_global,
}

-- `PunishmentActions`; no blacklist is `""` in the source.
pub record PunishmentActions : Type 0 where
  pub recalled : Bool
  pub muted : Bool
  pub mute_duration_seconds : ℤ
  pub kicked : Bool
  pub blacklist : Option BlacklistScope

-- `PunishmentStatus`
pub data PunishmentStatus : Type 0 where
  active released : PunishmentStatus

-- `PunishmentRecord`
pub record PunishmentRecord : Type 0 where
  pub record_id : String
  pub group_id : String
  pub user_id : String
  pub actor_id : String
  pub source : String
  pub rule_reason : String
  pub message_id : String
  pub message_excerpt : String
  pub actions : PunishmentActions
  pub detail : String
  pub status : PunishmentStatus
  pub created_at : ℕ
  pub updated_at : ℕ

-- The writes that the service queues.
pub data PunishmentWrite : Type 0 where
  save : PunishmentRecord → PunishmentWrite
  delete_older : ℕ → PunishmentWrite

pub record Punishments : Type 0 where
  pub records : Dict String PunishmentRecord
  pub persistent : Bool
  pub queue : List PunishmentWrite

abbrev pub enqueue : PunishmentWrite → Punishments → Punishments
enqueue w s = record s { queue = if s.persistent then s.queue ++ w ∷ [] else s.queue }

-- `this.records.set(record.recordId, record); this.persist(record);`
abbrev pub put : PunishmentRecord → Punishments → Punishments
put r s = enqueue (save r) (record s { records = insert r.record_id r s.records })

-- `PunishmentCreateInput`
pub record PunishmentCreateInput : Type 0 where
  pub group_id : String
  pub user_id : String
  pub actor_id : Option String
  pub source : Option String
  pub rule_reason : Option String
  pub message_id : Option String
  pub message_excerpt : Option String
  pub actions : PunishmentActions

-- `PunishmentActionResult`
pub record PunishmentActionResult : Type 0 where
  pub ok? : Bool
  pub text : String
  pub punishment : PunishmentRecord

unfoldable pub seed_codes : Host → List PunishmentRecord → World → World
seed_codes host [] w = w
seed_codes host (r ∷ rs) w = seed_codes host rs (seed_global_code host r.record_id w)

-- `load`, from the rows of the table
unfoldable pub load : Host → List PunishmentRecord → World → Punishments → World × Punishments
unfolding seed_codes
load host rows w s =
    (seed_codes host rows w, record s { records = set_all (λ r. r.record_id) rows [] })

abbrev lookup? : Option String → Punishments → Option PunishmentRecord
lookup? none s = none
lookup? (some code) s = lookup code s.records

-- `get`
unfoldable pub get : Host → String → Punishments → Option PunishmentRecord
get host code s = lookup? (normalize_code host (some code)) s

-- `listByGroup`
unfoldable pub list_by_group : String → ℕ → Punishments → List PunishmentRecord
list_by_group group limit s =
    take limit
      (newest_first (λ r. r.created_at) (filter (λ r. r.group_id == group) (values s.records)))

-- `listAll`
unfoldable pub list_all : ℕ → Punishments → List PunishmentRecord
list_all limit s = take limit (newest_first (λ r. r.created_at) (values s.records))

abbrev pub label : PunishmentRecord → String
label r = concat "#" r.record_id

abbrev pub created_record : String → ℕ → PunishmentCreateInput → PunishmentRecord
created_record code now input = record {
  record_id = code;
  group_id = input.group_id;
  user_id = input.user_id;
  actor_id = text_or "bot" input.actor_id;
  source = text_or "keyword" input.source;
  rule_reason = text_or "" input.rule_reason;
  message_id = text_or "" input.message_id;
  message_excerpt = text_or "" input.message_excerpt;
  actions = input.actions;
  detail = "";
  status = active;
  created_at = now;
  updated_at = now;
}

-- `create`
unfoldable pub create :
    Host
    → Readings
    → PunishmentCreateInput
    → World
    → Punishments
    → Outcome String (PunishmentRecord × World × Punishments)
create host env input w s = do
  (code, w') ← generate_code host "处罚短码生成失败：连续碰撞，请检查随机源" (λ c. has c s.records) w
  let r = created_record code env.now input
  ok (r, w', put r s)

abbrev mark :
    ℕ → String → Option PunishmentRecord → Punishments → Option PunishmentRecord × Punishments
mark now detail none s = (none, s)
mark now detail (some r) s =
    let updated = record r { detail = detail; updated_at = now } in (some updated, put updated s)

-- `markExecuted`
unfoldable pub mark_executed :
    Readings → String → String → Punishments → Option PunishmentRecord × Punishments
mark_executed env record_id detail s = mark env.now detail (lookup record_id s.records) s
