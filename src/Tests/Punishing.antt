-- ===== src/Tests/Punishing.antt =====
-- The theorems on the punishments at a concrete record.
use qq_group_ops.Core.Platform.{mute_group_member, call}
use qq_group_ops.Base.{
  ◌++◌, [], ◌≡◌, ◌≢◌, refl, pos, String, true, false, Option, none, some, List, ◌∷◌, arith,
  string_eq, nat_eq, count,
}
use qq_group_ops.Base.Dict.{lookup, values}
use qq_group_ops.Base.Text.{trim, trim_start, trim_end, is_space, starts_with}
use qq_group_ops.Core.RowTable
use qq_group_ops.Core.RowTable.{Lists}
use qq_group_ops.Codes.{normalize_code, without_prefix}
use qq_group_ops.Blacklist.{Blacklist, BlacklistScope, group_scope, key_of, hit_for, stored_group}
use qq_group_ops.Punishments.{
  Punishments, PunishmentRecord, PunishmentStatus, PunishmentActionResult, active, released, get,
  load, save,
}
use qq_group_ops.Punishments.Cards.{release, set_mute, blacklist_user, muted_record}
use qq_group_ops.Punishments.Retention.{clear_message_excerpts_before}
use qq_group_ops.Punishments.Change.{IsValid, id_of}
use qq_group_ops.Punishments.Clearing.{clear_message_excerpts_before_lem, is_due, emptied}
use qq_group_ops.Punishments.Releasing.{release_lem}
use qq_group_ops.Punishments.Listing.{release-blacklist_user}
use qq_group_ops.Punishments.Table.{
  IsStored, Op, muted, run_all, run, effect, run_all-load_punishments,
}
use qq_group_ops.Tests.Outside.{host, world, readings}

abbrev punishment : PunishmentStatus → PunishmentRecord
punishment status = record {
  record_id = "P1";
  group_id = "g1";
  user_id = "ann";
  actor_id = "bot";
  source = "keyword";
  rule_reason = "spam";
  message_id = "m1";
  message_excerpt = "buy now";
  actions = record {
    recalled = true;
    muted = true;
    mute_duration_seconds = pos 60;
    kicked = false;
    blacklist = none;
  };
  detail = "";
  status = status;
  created_at = 10;
  updated_at = 10;
}

abbrev service : PunishmentStatus → Punishments
service status = record { records = ("P1", punishment status) ∷ []; persistent = true; queue = [] }

abbrev blacklist : Blacklist
blacklist = record { entries = []; persistent = true; queue = [] }

service-IsValid : (status : PunishmentStatus) → IsValid (service status)
unfolding lookup
service-IsValid status = record { keyed = λ k r f. ground arith; nodup = (refl, tt) }

found : (status : PunishmentStatus) → get host "#P1" (service status) ≡ some (punishment status)
unfolding get normalize_code without_prefix trim trim_start trim_end is_space starts_with lookup
    string_eq nat_eq
found status = refl

release_lem_example :
    let s' = (release host readings "#P1" "root" none world blacklist (service active)).3 in
    ((x : PunishmentActionResult) × ((release host readings "#P1" "root" none world blacklist
          (service active)).0
        ≡ some x)
      × (x.ok? ≡ true))
    × ((release host readings "#P1" "root" none world blacklist (service active)).1.calls
        ≡ [] ++ (mute_group_member "g1" "ann" (pos 0) ∷ []) ++ [])
    × (get host "#P1" s'
        ≡ some (record (punishment active) {
          actions = record (punishment active).actions { muted = false; blacklist = none };
          status = released;
          updated_at = 50;
        }))
    × ((k : String) → k ≢ "P1" → lookup k s'.records ≡ lookup k (service active).records)
    × ((scope : BlacklistScope)
        → ◌≡◌ {A = Option BlacklistScope} none (some scope)
        → lookup
            (key_of scope (stored_group scope (some "g1")) "ann")
            (release host readings "#P1" "root" none world blacklist (service active)).2.entries
          ≡ none)
    × ((x : PunishmentActionResult) × (release host readings "#P1" "mod" none world blacklist s'
          ≡ (some x, world, blacklist, s'))
        × (x.ok? ≡ false))
release_lem_example =
    release_lem host readings readings "#P1" "root" "mod" none none world world blacklist blacklist
      (service active) (punishment active) (service-IsValid active) (found active) refl

release-blacklist_user_example :
    let (_, _, b1, s1) =
      blacklist_user host readings [] "#P1" group_scope "root" none world blacklist
        (service active) in
    hit_for "g1" "ann" (release host readings "#P1" "mod" none world b1 s1).2
    ≡ hit_for "g1" "ann" blacklist
unfolding lookup
release-blacklist_user_example =
    release-blacklist_user host readings readings [] "#P1" "root" "mod" none none world world
      blacklist (service active) (punishment active) group_scope (service-IsValid active)
      (found active) refl refl "g1" "ann"

clear_message_excerpts_before_lem_example :
    let (cleared, s') = clear_message_excerpts_before readings 40 (some "g1") (service active) in
    (cleared ≡ count (is_due 40 (some "g1")) (values (service active).records))
    × ((k : String)
        → lookup k s'.records ≡ emptied 50 40 (some "g1") (lookup k (service active).records))
    × ((k : String) (r : PunishmentRecord)
        → lookup k s'.records ≡ some r
        → is_due 40 (some "g1") r ≡ false)
clear_message_excerpts_before_lem_example =
    clear_message_excerpts_before_lem readings 40 (some "g1") (service active)
      (service-IsValid active)

abbrev stored_rows : String → Option PunishmentRecord
stored_rows k = lookup k (service active).records

service-IsStored : IsStored stored_rows (service active)
unfolding RowTable.run_writes
service-IsStored = record { persistent = refl; valid = service-IsValid active; mirrors = λ k. refl }

abbrev ops : List Op
ops = muted host readings "#P1" (pos 90) "root" world ∷ []

ops-queue :
    (run_all ops (service active)).queue ≡ save (muted_record 50 (pos 90) (punishment active)) ∷ []
unfolding run_all run set_mute get normalize_code without_prefix trim trim_start trim_end is_space
    starts_with lookup string_eq nat_eq call
ops-queue = refl

rows-Lists :
    Lists id_of
      (muted_record 50 (pos 90) (punishment active) ∷ [])
      (RowTable.run_writes effect (run_all ops (service active)).queue stored_rows)
unfolding lookup effect RowTable.run_writes
rows-Lists = rw ops-queue (record { distinct = (refl, tt); complete = λ k. ground arith })

run_all-load_punishments_example :
    lookup "P1"
      (load host
        (muted_record 50 (pos 90) (punishment active) ∷ [])
        world
        (service active)).1.records
    ≡ lookup "P1" (run_all ops (service active)).records
run_all-load_punishments_example =
    run_all-load_punishments ops (service active) (service active) stored_rows
      (muted_record 50 (pos 90) (punishment active) ∷ []) host world service-IsStored rows-Lists
      "P1"
