-- ===== src/Tests/Stopping.antt =====
-- The theorems on the blacklist at a concrete entry.
use qq_group_ops.Base.{
  [], ◌≡◌, refl, String, true, Option, none, some, List, ◌∷◌, ◌&&◌, ◌||◌, not, string_eq, nat_eq,
  if◌then◌else◌,
}
use qq_group_ops.Base.Dict.{lookup}
use qq_group_ops.Core.RowTable
use qq_group_ops.Core.RowTable.{Lists}
use qq_group_ops.Blacklist.{
  Blacklist, BlacklistEntry, BlacklistAddInput, group_scope, hit_for, has_global, entry_of,
  key_of_entry, is_global, add, load,
}
use qq_group_ops.Blacklist.Hits.{hit_for-add, applies}
use qq_group_ops.Base.Keys.{is_plain}
use qq_group_ops.Blacklist.Table.{IsStored, effect, Op, added, run, run_all, run_all-load_blacklist}
use qq_group_ops.Tests.Outside.{host, world, readings}

abbrev input : BlacklistAddInput
input = record {
  scope = group_scope;
  group_id = some "g1";
  user_id = "ann";
  actor_id = "root";
  reason = some "spam";
  source = none;
  kick = none;
}

abbrev empty : Blacklist
empty = record { entries = []; persistent = true; queue = [] }

hit_for-add_example : hit_for "g1" "ann" (add host readings [] input world empty).2 ≡ (
    if applies (entry_of readings input) "g1" "ann"
      && (is_global input.scope || not (has_global "ann" empty))
    then some (entry_of readings input)
    else hit_for "g1" "ann" empty)
unfolding is_plain nat_eq
hit_for-add_example = hit_for-add host readings [] input world empty "g1" "ann" refl refl

abbrev ops : List Op
ops = added host readings [] input world ∷ []

abbrev no_rows : String → Option BlacklistEntry
no_rows k = none

empty-IsStored : IsStored no_rows empty
unfolding RowTable.run_writes lookup
empty-IsStored = (refl, λ k. refl)

rows-Lists :
    Lists key_of_entry
      (entry_of readings input ∷ [])
      (RowTable.run_writes effect (run_all ops empty).queue no_rows)
unfolding run_all run add RowTable.run_writes effect lookup
rows-Lists = record { distinct = (refl, tt); complete = λ k. refl }

run_all-load_blacklist_example :
    hit_for "g1" "ann" (load (entry_of readings input ∷ []) empty)
    ≡ hit_for "g1" "ann" (run_all ops empty)
run_all-load_blacklist_example =
    run_all-load_blacklist ops empty empty no_rows (entry_of readings input ∷ []) empty-IsStored
      rows-Lists "g1" "ann"
