-- ===== src/Blacklist.antt =====
-- src/services/blacklist.ts and src/db/blacklistRepository.ts: who may not join a group, or any
-- group, and whom the platform is told of. An operation takes what the services share, and returns
-- it with the service; operations run one after another.
pub mod Hits
pub mod Table
use qq_group_ops.Base.{
  [], add_all, ℕ, String, Bool, true, false, Option, none, some, List, ◌∷◌, ◌++◌, filter, length,
  ltb, string_eq, ◌==◌, if◌then◌else◌, is_some, ◌&&◌, map,
}
use qq_group_ops.Base.Dict.{Dict, lookup, insert, erase, has, values}
use qq_group_ops.Base.Keys.{separator}
use qq_group_ops.Base.Sort.{sort}
use qq_group_ops.Base.Text.{trim, is_empty, concat, text_le, decimal}
use qq_group_ops.Core.Ordering.{newest_first}
use qq_group_ops.Core.RowTable.{set_all}
use qq_group_ops.Core.Platform.{
  Host, World, Readings, PlatformCall, remove_group_member, update_member_blacklist, call, audit,
}

-- `BlacklistScope`
pub data BlacklistScope : Type 0 where
  group_scope global_scope : BlacklistScope

abbrev pub scope_text : BlacklistScope → String
scope_text group_scope = "group"
scope_text global_scope = "global"

-- `BlacklistEntry`
pub record BlacklistEntry : Type 0 where
  pub scope : BlacklistScope
  pub group_id : String
  pub user_id : String
  pub reason : String
  pub actor_id : String
  pub source : String
  pub created_at : ℕ

-- The writes that the service queues.
pub data BlacklistWrite : Type 0 where
  save : BlacklistEntry → BlacklistWrite
  delete : BlacklistScope → (group user : String) → BlacklistWrite

pub record Blacklist : Type 0 where
  pub entries : Dict String BlacklistEntry
  pub persistent : Bool
  pub queue : List BlacklistWrite

abbrev enqueue : BlacklistWrite → Blacklist → Blacklist
enqueue w s = record s { queue = if s.persistent then s.queue ++ w ∷ [] else s.queue }

-- `keyOf`
unfoldable pub key_of : BlacklistScope → String → String → String
key_of scope group user =
    concat (scope_text scope) (concat separator (concat group (concat separator user)))

abbrev pub key_of_entry : BlacklistEntry → String
key_of_entry e = key_of e.scope e.group_id e.user_id

-- `load`, from the rows of the table
unfoldable pub load : List BlacklistEntry → Blacklist → Blacklist
load rows s = record s { entries = set_all key_of_entry rows [] }

-- `all`
unfoldable pub all : Blacklist → List BlacklistEntry
all s = newest_first (λ e. e.created_at) (values s.entries)

abbrev or_else : Option BlacklistEntry → Option BlacklistEntry → Option BlacklistEntry
or_else none b = b
or_else (some e) b = some e

-- `hitFor`: the entry for every group comes before that of the group.
unfoldable pub hit_for : String → String → Blacklist → Option BlacklistEntry
hit_for group user s =
    or_else (lookup (key_of global_scope "" user) s.entries)
      (lookup (key_of group_scope group user) s.entries)

-- `has`
unfoldable pub is_listed : String → String → Blacklist → Bool
unfolding hit_for
is_listed group user s = is_some (hit_for group user s)

-- `hasGlobal`
unfoldable pub has_global : String → Blacklist → Bool
has_global user s = has (key_of global_scope "" user) s.entries

-- `hasGroup`
unfoldable pub has_group : String → String → Blacklist → Bool
has_group group user s = has (key_of group_scope group user) s.entries

abbrev pub is_global : BlacklistScope → Bool
is_global group_scope = false
is_global global_scope = true

-- `entriesForGroup`
unfoldable pub entries_for_group : String → Blacklist → List BlacklistEntry
unfolding all
entries_for_group group s =
    filter (λ e. if is_global e.scope then false else e.group_id == group) (all s)

-- `globalEntries`
unfoldable pub global_entries : Blacklist → List BlacklistEntry
unfolding all
global_entries s = filter (λ e. is_global e.scope) (all s)

-- `BlacklistAddInput`
pub record BlacklistAddInput : Type 0 where
  pub scope : BlacklistScope
  pub group_id : Option String
  pub user_id : String
  pub actor_id : String
  pub reason : Option String
  pub source : Option String
  pub kick : Option Bool

-- `BlacklistAddResult`, of which `ok` is always true.
pub record BlacklistAddResult : Type 0 where
  pub scope : BlacklistScope
  pub group_id : String
  pub entry : BlacklistEntry
  pub kicked : List String
  pub official_ok : Bool
  pub detail : String

abbrev pub text_or : String → Option String → String
text_or default none = default
text_or default (some s) = s

abbrev pub trimmed_or_empty : Option String → String
trimmed_or_empty none = ""
trimmed_or_empty (some s) = trim s

abbrev pub kicks : Option Bool → Bool
kicks (some false) = false
kicks _ = true

-- `removeMember`
unfoldable pub remove_member : Host → String → String → World → Bool × World
remove_member host group user w =
    let (error, w') = call host (remove_group_member group user) w in
    ((if is_some error then false else true), w')

-- `updateOfficial`
unfoldable pub update_official : Host → String → String → Bool → World → Bool × World
update_official host group user add w =
    let (error, w') = call host (update_member_blacklist group user add) w in
    ((if is_some error then false else true), w')

-- The loop of `add` over the groups to remove the user from.
unfoldable pub kick_loop : Host → String → List String → List String → World → List String × World
unfolding remove_member
kick_loop host user [] kicked w = (kicked, w)
kick_loop host user (group ∷ rest) kicked w =
    let (done, w') = remove_member host group user w in
    kick_loop host user rest (if done then kicked ++ group ∷ [] else kicked) w'

-- The group under which an entry is stored: none for an entry of every group.
abbrev pub stored_group : BlacklistScope → Option String → String
stored_group global_scope group = ""
stored_group group_scope group = text_or "" group

abbrev pub entry_of : Readings → BlacklistAddInput → BlacklistEntry
entry_of env input = record {
  scope = input.scope;
  group_id = stored_group input.scope input.group_id;
  user_id = input.user_id;
  reason = trimmed_or_empty input.reason;
  actor_id = input.actor_id;
  source = text_or "manual" input.source;
  created_at = env.now;
}

-- The groups to remove the user from.
abbrev pub targets_of : BlacklistScope → String → List String → List String
targets_of group_scope group bound = if is_empty group then [] else group ∷ []
targets_of global_scope group bound = sort text_le (add_all bound [])

-- Whether the platform's own list is told.
abbrev pub is_official : BlacklistScope → String → Bool
is_official group_scope group = if is_empty group then false else true
is_official global_scope group = false

abbrev detail_of : BlacklistScope → String → List String → Bool → String
detail_of scope group kicked official_ok = concat "已加入黑名单（" (
    concat (if is_global scope then "全局" else concat "群 " group) (
      concat "）：" (
        concat
          (if ltb 0 (length kicked)
            then concat "已踢出 " (concat (decimal (length kicked)) " 个群")
            else "当前不在任何绑定群")
          (if is_global scope
            then ""
            else if official_ok
            then "；官方群拉黑成功"
            else "；官方群拉黑失败（本地拦截仍生效）"))))

-- `add`, where `bound` is what `listBoundGroups` gives
unfoldable pub add :
    Host
    → Readings
    → List String
    → BlacklistAddInput
    → World
    → Blacklist
    → BlacklistAddResult × World × Blacklist
unfolding kick_loop update_official decimal
add host env bound input w s =
    let entry = entry_of env input in
    let group = entry.group_id in
    let stored =
      enqueue (save entry) (record s { entries = insert (key_of_entry entry) entry s.entries }) in
    let (kicked, w1) =
      if kicks input.kick
      then kick_loop host entry.user_id (targets_of input.scope group bound) [] w
      else ([], w) in
    let (official_ok, w2) =
      if is_official input.scope group
      then update_official host group entry.user_id true w1
      else (false, w1) in
    let w3 =
      audit env group entry.actor_id entry.user_id
        (concat "blacklist:add:" (scope_text input.scope)) entry.reason w2 in
    (
      record {
        scope = input.scope;
        group_id = group;
        entry = entry;
        kicked = kicked;
        official_ok = official_ok;
        detail = detail_of input.scope group kicked official_ok;
      },
      w3,
      stored,
    )

-- `remove`
unfoldable pub remove :
    Host → BlacklistScope → Option String → String → World → Blacklist → Bool × World × Blacklist
unfolding update_official
remove host scope group user w s =
    let target = stored_group scope group in
    let key = key_of scope target user in
    let gone = enqueue (delete scope target user) (record s { entries = erase key s.entries }) in
    let (_, w') = update_official host target user false w in
    if has key s.entries
    then (true, (if is_official scope target then w' else w), gone)
    else (false, w, s)

-- The entries that `pruneOlderThan` removes.
abbrev pub stale_entries : ℕ → Blacklist → List BlacklistEntry
stale_entries cutoff s = filter (λ e. ltb e.created_at cutoff) (all s)

unfoldable pub erase_entries :
    List BlacklistEntry → Dict String BlacklistEntry → Dict String BlacklistEntry
erase_entries [] d = d
erase_entries (e ∷ es) d = erase_entries es (erase (key_of_entry e) d)

-- `pruneOlderThan`, which queues no write
unfoldable pub prune_older_than : ℕ → Blacklist → ℕ × Blacklist
unfolding all erase_entries
prune_older_than cutoff s =
    let stale = stale_entries cutoff s in
    (length stale, record s { entries = erase_entries stale s.entries })
