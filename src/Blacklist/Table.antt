-- ===== src/Blacklist/Table.antt =====
-- The table `blacklist_entries`, and theorems on histories of the service: what the table holds
-- after them, and what a restart reads back.
use qq_group_ops.Base.{
  [], ◌≡◌, refl, sym, ◌∙◌, String, true, Option, none, some, List, ◌∷◌, arith, string_eq, ◌==◌,
  if◌then◌else◌, Bool-cases, inl, inr,
}
use qq_group_ops.Base.Dict.{insert, erase, has, lookup-insert, lookup-erase}
use qq_group_ops.Core.RowTable
use qq_group_ops.Core.RowTable.{Mirrors, write-Mirrors, Lists, lookup-set_all_rows}
use qq_group_ops.Core.Platform.{Host, World, Readings}
use qq_group_ops.Blacklist.{
  Blacklist, BlacklistEntry, BlacklistScope, BlacklistAddInput, BlacklistWrite, save, delete,
  key_of, key_of_entry, add, remove, load, hit_for, entry_of, stored_group, group_scope,
  global_scope,
}

abbrev pub BlacklistTable : Type 0
BlacklistTable = String → Option BlacklistEntry

-- `save` and `remove` of the repository: the primary key is that of the map, and a row of the key
-- of a saved entry takes over all its other columns.
unfoldable pub effect : BlacklistWrite → String → Option BlacklistEntry → Option BlacklistEntry
effect (save e) k row = if k == key_of_entry e then some e else row
effect (delete scope group user) k row = if k == key_of scope group user then none else row

-- The operations of the service in use, with what the outside gives to each.
pub data Op : Type 0 where
  added : Host → Readings → List String → BlacklistAddInput → World → Op
  removed : Host → BlacklistScope → Option String → String → World → Op

unfoldable pub run : Op → Blacklist → Blacklist
run (added host env bound input w) s = (add host env bound input w s).2
run (removed host scope group user w) s = (remove host scope group user w s).2

unfoldable pub run_all : List Op → Blacklist → Blacklist
unfolding run
run_all [] s = s
run_all (op ∷ ops) s = run_all ops (run op s)

module _ (table : BlacklistTable) where
  -- The table, with the queued writes done, is the map in memory, and the service persists it.
  abbrev pub IsStored : Blacklist → Type 0
  IsStored s = (s.persistent ≡ true) × Mirrors effect table s.entries s.queue

  add-IsStored :
      (host : Host) (env : Readings) (bound : List String) (input : BlacklistAddInput) (w : World)
      (s : Blacklist)
      → IsStored s
      → IsStored (add host env bound input w s).2
  unfolding add effect
  add-IsStored host env bound input w s (p, m) =
      let e = entry_of env input in
      (
        p,
        rw p (
            write-Mirrors effect table (save e) s.entries (insert (key_of_entry e) e s.entries)
              s.queue (λ k. sym (lookup-insert k (key_of_entry e) e s.entries)) m),
      )

  remove-IsStored :
      (host : Host) (scope : BlacklistScope) (group : Option String) (user : String) (w : World)
      (s : Blacklist)
      → IsStored s
      → IsStored (remove host scope group user w s).2
  unfolding remove effect
  remove-IsStored host scope group user w s (p, m) =
      let target = stored_group scope group in
      let key = key_of scope target user in
      elim (Bool-cases (has key s.entries)) [
        | inl here ↦
            rw (here, p)
              (
                refl,
                write-Mirrors effect table (delete scope target user) s.entries
                    (erase key s.entries) s.queue (λ k. sym (lookup-erase k key s.entries)) m,
              )
        | inr gone ↦ rw gone (p, m)
      ]

  run_all-IsStored : (ops : List Op) (s : Blacklist) → IsStored s → IsStored (run_all ops s)
  unfolding run_all run
  run_all-IsStored [] s h = h
  run_all-IsStored (added host env bound input w ∷ ops) s h =
      run_all-IsStored ops (add host env bound input w s).2
        (add-IsStored host env bound input w s h)
  run_all-IsStored (removed host scope group user w ∷ ops) s h =
      run_all-IsStored ops (remove host scope group user w s).2
        (remove-IsStored host scope group user w s h)

-- For a persistent service whose entries are those of the table, with the queued writes done:
-- after any entries are added and removed, and a restart that reads the rows of the table back
-- when all writes are done, everyone is stopped, or not, by the same entry as before the restart.
pub run_all-load_blacklist :
    (ops : List Op) (s fresh : Blacklist) (table : BlacklistTable) (rows : List BlacklistEntry)
    → IsStored table s
    → Lists key_of_entry rows (RowTable.run_writes effect (run_all ops s).queue table)
    → (group user : String)
    → hit_for group user (load rows fresh) ≡ hit_for group user (run_all ops s)
unfolding hit_for load
run_all-load_blacklist ops s fresh table rows h l group user =
    let after = run_all ops s in
    let (p, m) = run_all-IsStored table ops s h in
    let at = λ (k : String).
      lookup-set_all_rows key_of_entry rows (RowTable.run_writes effect after.queue table) k l
      ∙ m k in
    ground (arith, at (key_of global_scope "" user), at (key_of group_scope group user))
