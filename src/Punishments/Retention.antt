-- ===== src/Punishments/Retention.antt =====
-- src/services/punishments.ts: the texts of messages and the records that are kept for some time.
use qq_group_ops.Base.{
  [], add_all, ℕ, suc, String, Bool, true, not, ◌&&◌, Option, none, some, List, ◌∷◌, ltb, string_eq,
  ◌==◌, if◌then◌else◌,
}
use qq_group_ops.Base.Dict.{Dict, erase, values}
use qq_group_ops.Base.Sort.{sort}
use qq_group_ops.Base.Text.{is_empty, text_le}
use qq_group_ops.Core.Platform.{Readings}
use qq_group_ops.Punishments.{PunishmentRecord, delete_older, Punishments, enqueue, put}

-- The groups of the records that hold the text of a message, in the order of the records.
unfoldable pub excerpt_groups : List PunishmentRecord → List String
excerpt_groups [] = []
excerpt_groups (r ∷ rs) =
    let rest = excerpt_groups rs in if is_empty r.message_excerpt then rest else r.group_id ∷ rest

-- `listGroupsWithExcerpts`
unfoldable pub list_groups_with_excerpts : Punishments → List String
unfolding excerpt_groups
list_groups_with_excerpts s = sort text_le (add_all (excerpt_groups (values s.records)) [])

abbrev pub in_group? : Option String → PunishmentRecord → Bool
in_group? none r = true
in_group? (some group) r = r.group_id == group

-- The tests of the loop of `clearMessageExcerptsBefore`.
abbrev pub clears : ℕ → Option String → PunishmentRecord → Bool
clears cutoff group r =
    not (is_empty r.message_excerpt) && (in_group? group r && ltb r.created_at cutoff)

abbrev pub cleared_record : ℕ → PunishmentRecord → PunishmentRecord
cleared_record now r = record r { message_excerpt = ""; updated_at = now }

-- The loop over a copy of the records.
unfoldable pub clear_loop :
    Readings → ℕ → Option String → List PunishmentRecord → ℕ → Punishments → ℕ × Punishments
clear_loop env cutoff group [] cleared s = (cleared, s)
clear_loop env cutoff group (r ∷ rs) cleared s =
    clear_loop env cutoff group rs (if clears cutoff group r then suc cleared else cleared)
      (if clears cutoff group r then put (cleared_record env.now r) s else s)

-- `clearMessageExcerptsBefore`
unfoldable pub clear_message_excerpts_before :
    Readings → ℕ → Option String → Punishments → ℕ × Punishments
unfolding clear_loop
clear_message_excerpts_before env cutoff group s =
    clear_loop env cutoff group (values s.records) 0 s

-- The loop of `pruneOlderThan`
unfoldable pub prune_loop :
    ℕ → List PunishmentRecord → ℕ → Dict String PunishmentRecord → ℕ × Dict String PunishmentRecord
prune_loop cutoff [] removed d = (removed, d)
prune_loop cutoff (r ∷ rs) removed d =
    prune_loop cutoff rs (if ltb r.created_at cutoff then suc removed else removed)
      (if ltb r.created_at cutoff then erase r.record_id d else d)

-- `pruneOlderThan`
unfoldable pub prune_older_than : ℕ → Punishments → ℕ × Punishments
unfolding prune_loop
prune_older_than cutoff s =
    let (removed, kept) = prune_loop cutoff (values s.records) 0 s.records in
    let s' = record s { records = kept } in
    (removed, if ltb 0 removed then enqueue (delete_older cutoff) s' else s')
