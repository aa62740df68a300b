-- ===== src/Punishments/Table.antt =====
-- The table `punishment_records`, and theorems on histories of the service: what the table holds
-- after them, and what a restart reads back.
use qq_group_ops.Base.{
  [], ◌≡◌, refl, sym, ◌∙◌, ap, String, true, Option, none, some, List, ◌∷◌, arith, string_eq,
  nat_eq, ◌==◌, if◌then◌else◌, inl, inr, ℕ, ℤ, suc, ltb,
}
use qq_group_ops.Base.Dict.{Dict, lookup, insert, values, NodupKeys, lookup-insert}
use qq_group_ops.Base.Outcome.{Outcome, ok, thrown, Outcome-cases}
use qq_group_ops.Core.RowTable
use qq_group_ops.Core.RowTable.{
  Mirrors, write-Mirrors, Lists, lookup-set_all_rows, IsKeyed, IsKeyed-tail, erase-IsKeyed,
  any-values, passes,
}
use qq_group_ops.Core.Platform.{Host, World, Readings}
use qq_group_ops.Blacklist.{Blacklist, BlacklistScope}
use qq_group_ops.Punishments.{
  Punishments, PunishmentRecord, PunishmentWrite, PunishmentCreateInput, save, delete_older, put,
  create, mark_executed, load,
}
use qq_group_ops.Punishments.Cards.{release, set_mute, kick, blacklist_user}
use qq_group_ops.Punishments.Retention.{
  clears, clear_loop, clear_message_excerpts_before, prune_older_than,
}
use qq_group_ops.Punishments.Clearing.{Current, step, step-Current, step-Change}
use qq_group_ops.Punishments.Pruning.{kept?, lookup-prune, prune-queue, prune-IsValid}
use mathlib.Core.Path.{subst}
use qq_group_ops.Punishments.Change.{
  Change, same, updated, new, IsValid, KeepsIdentity, Change-IsValid, create-Change,
  mark_executed-Change, release-Change, set_mute-Change, kick-Change, blacklist_user-Change, id_of,
}

abbrev pub PunishmentTable : Type 0
PunishmentTable = String → Option PunishmentRecord

-- `UPSERT_SQL`: the other columns of a row stay.
abbrev pub saved : PunishmentRecord → Option PunishmentRecord → Option PunishmentRecord
saved r none = some r
saved r (some row) = some (record row {
  message_excerpt = r.message_excerpt;
  actions = r.actions;
  detail = r.detail;
  status = r.status;
  updated_at = r.updated_at;
})

-- `DELETE_OLDER_THAN_SQL`
abbrev pub remaining : ℕ → Option PunishmentRecord → Option PunishmentRecord
remaining cutoff none = none
remaining cutoff (some row) = if ltb row.created_at cutoff then none else some row

unfoldable pub effect : PunishmentWrite → String → Option PunishmentRecord → Option PunishmentRecord
effect (save r) k row = if k == r.record_id then saved r row else row
effect (delete_older cutoff) k row = remaining cutoff row

module _ (table : PunishmentTable) where
  -- The table, with the queued writes done, is the map in memory, and the service persists it.
  pub record IsStored (s : Punishments) : Type 0 where
    pub persistent : s.persistent ≡ true
    pub valid : IsValid s
    pub mirrors : Mirrors effect table s.records s.queue

  saved-same : (r u : PunishmentRecord) → KeepsIdentity r u → saved u (some r) ≡ some u
  saved-same r u kept = ground arith

  put-Mirrors :
      (u : PunishmentRecord) (s : Punishments)
      → s.persistent ≡ true
      → saved u (lookup u.record_id s.records) ≡ some u
      → Mirrors effect table s.records s.queue
      → Mirrors effect table (put u s).records (put u s).queue
  unfolding effect
  put-Mirrors u s p done m = rw p (
      write-Mirrors effect table (save u) s.records (insert u.record_id u s.records) s.queue
        (λ k. ground (arith, lookup-insert k u.record_id u s.records, done)) m)

  pub Change-IsStored : (s s' : Punishments) → Change s s' → IsStored s → IsStored s'
  Change-IsStored s s' (same e) h = rw e h
  Change-IsStored s s' (updated r u found kept e) h = record {
    persistent = rw e h.persistent;
    valid = Change-IsValid s s' (updated r u found kept e) h.valid;
    mirrors = rw e (
        put-Mirrors u s h.persistent
          (ap (λ k. saved u (lookup k s.records)) kept.record_id
            ∙ ap (saved u) found
            ∙ saved-same r u kept)
          h.mirrors);
  }
  Change-IsStored s s' (new u fresh e) h = record {
    persistent = rw e h.persistent;
    valid = Change-IsValid s s' (new u fresh e) h.valid;
    mirrors = rw e (put-Mirrors u s h.persistent (ap (saved u) fresh) h.mirrors);
  }

  clear_loop-IsStored :
      (env : Readings) (cutoff : ℕ) (group : Option String) (d : Dict String PunishmentRecord)
      (cleared : ℕ) (s : Punishments)
      → NodupKeys d
      → IsKeyed id_of d
      → Current d s
      → IsStored s
      → IsStored (clear_loop env cutoff group (values d) cleared s).1
  unfolding clear_loop values
  clear_loop-IsStored env cutoff group [] cleared s u keyed cur h = h
  clear_loop-IsStored env cutoff group ((j, r) ∷ d) cleared s (fresh, u) keyed cur h =
      clear_loop-IsStored env cutoff group d
        (if clears cutoff group r then suc cleared else cleared) (step env cutoff group r s) u
        (IsKeyed-tail id_of j r d fresh keyed)
        (step-Current env cutoff group j r d s fresh keyed cur)
        (Change-IsStored s (step env cutoff group r s)
          (step-Change env cutoff group j r d s keyed cur) h)

  clear-IsStored :
      (env : Readings) (cutoff : ℕ) (group : Option String) (s : Punishments)
      → IsStored s
      → IsStored (clear_message_excerpts_before env cutoff group s).1
  unfolding clear_message_excerpts_before
  clear-IsStored env cutoff group s h =
      clear_loop-IsStored env cutoff group s.records 0 s h.valid.nodup h.valid.keyed (λ k r f. f) h

  remaining-kept : (cutoff : ℕ) (o : Option PunishmentRecord) → remaining cutoff o ≡ kept? cutoff o
  remaining-kept cutoff none = refl
  remaining-kept cutoff (some r) = refl

  prune-Mirrors :
      (cutoff : ℕ) (s : Punishments)
      → IsStored s
      → Mirrors effect table
          (prune_older_than cutoff s).1.records
          (prune_older_than cutoff s).1.queue
  unfolding effect
  prune-Mirrors cutoff s h =
      let after = λ (k : String). lookup-prune cutoff s k h.valid in
      elim (prune-queue cutoff s h.valid) [
        | inl e ↦
            subst (Mirrors effect table (prune_older_than cutoff s).1.records)
              (sym (ap (λ (t : Punishments). t.queue) e ∙ rw h.persistent refl))
              (write-Mirrors effect table (delete_older cutoff) s.records
                (prune_older_than cutoff s).1.records s.queue
                (λ k. remaining-kept cutoff (lookup k s.records) ∙ sym (after k)) h.mirrors)
        | inr (e, none_old) ↦
            subst (Mirrors effect table (prune_older_than cutoff s).1.records)
              (sym (ap (λ (t : Punishments). t.queue) e))
              (λ k. h.mirrors k ∙ sym (none_old k) ∙ sym (after k))
      ]

  prune-IsStored :
      (cutoff : ℕ) (s : Punishments) → IsStored s → IsStored (prune_older_than cutoff s).1
  prune-IsStored cutoff s h = record {
    persistent = elim (prune-queue cutoff s h.valid) [
      | inl e ↦ ap (λ (t : Punishments). t.persistent) e ∙ h.persistent
      | inr (e, _) ↦ ap (λ (t : Punishments). t.persistent) e ∙ h.persistent
    ];
    valid = prune-IsValid cutoff s h.valid;
    mirrors = prune-Mirrors cutoff s h;
  }

-- The operations of the service in use, with what the outside gives to each.
pub data Op : Type 0 where
  created : Host → Readings → PunishmentCreateInput → World → Op
  executed : Readings → (record_id detail : String) → Op
  released : Host → Readings → (code actor : String) → Option String → World → Blacklist → Op
  muted : Host → Readings → (code : String) → ℤ → (actor : String) → World → Op
  kicked : Host → Readings → (code actor : String) → World → Op
  listed :
      Host
      → Readings
      → List String
      → (code : String) → BlacklistScope
      → (actor : String) → Option String
      → World
      → Blacklist
      → Op
  cleared : Readings → ℕ → Option String → Op
  pruned : ℕ → Op

-- The service after a creation: as before, if no code is left and it throws.
abbrev pub after_create :
    Punishments → Outcome String (PunishmentRecord × World × Punishments) → Punishments
after_create s (ok (_, _, s')) = s'
after_create s (thrown _) = s

unfoldable pub run : Op → Punishments → Punishments
run (created host env input w) s = after_create s (create host env input w s)
run (executed env record_id detail) s = (mark_executed env record_id detail s).1
run (released host env code actor remark w b) s = (release host env code actor remark w b s).3
run (muted host env code seconds actor w) s = (set_mute host env code seconds actor w s).2
run (kicked host env code actor w) s = (kick host env code actor w s).2
run (listed host env bound code scope actor reason w b) s =
    (blacklist_user host env bound code scope actor reason w b s).3
run (cleared env cutoff group) s = (clear_message_excerpts_before env cutoff group s).1
run (pruned cutoff) s = (prune_older_than cutoff s).1

unfoldable pub run_all : List Op → Punishments → Punishments
unfolding run
run_all [] s = s
run_all (op ∷ ops) s = run_all ops (run op s)

module _ (table : PunishmentTable) where
  run-IsStored : (op : Op) (s : Punishments) → IsStored table s → IsStored table (run op s)
  unfolding run
  run-IsStored (created host env input w) s h = elim (Outcome-cases (create host env input w s)) [
    | inl ((r, w', s'), e) ↦
        rw e (Change-IsStored table s s' (create-Change host env input w w' s s' r e) h)
    | inr (message, e) ↦ rw e h
  ]
  run-IsStored (executed env record_id detail) s h =
      Change-IsStored table s (mark_executed env record_id detail s).1
        (mark_executed-Change env record_id detail s h.valid) h
  run-IsStored (released host env code actor remark w b) s h =
      Change-IsStored table s (release host env code actor remark w b s).3
        (release-Change host env code actor s h.valid remark w b) h
  run-IsStored (muted host env code seconds actor w) s h =
      Change-IsStored table s (set_mute host env code seconds actor w s).2
        (set_mute-Change host env code actor s h.valid seconds w) h
  run-IsStored (kicked host env code actor w) s h =
      Change-IsStored table s (kick host env code actor w s).2
        (kick-Change host env code actor s h.valid w) h
  run-IsStored (listed host env bound code scope actor reason w b) s h =
      Change-IsStored table s (blacklist_user host env bound code scope actor reason w b s).3
        (blacklist_user-Change host env code actor s h.valid bound scope reason w b) h
  run-IsStored (cleared env cutoff group) s h = clear-IsStored table env cutoff group s h
  run-IsStored (pruned cutoff) s h = prune-IsStored table cutoff s h

  run_all-IsStored :
      (ops : List Op) (s : Punishments) → IsStored table s → IsStored table (run_all ops s)
  unfolding run_all
  run_all-IsStored [] s h = h
  run_all-IsStored (op ∷ ops) s h = run_all-IsStored ops (run op s) (run-IsStored op s h)

-- For a persistent service whose records stand under their ids, each once, and are those of the
-- table with the queued writes done: after any history of punishments, cards, clearings and
-- prunings, and a restart that reads the rows of the table back when all writes are done, the
-- service holds for each id the same record as before, in all its columns, and none where there
-- was none.
pub run_all-load_punishments :
    (ops : List Op) (s fresh : Punishments) (table : PunishmentTable) (rows : List PunishmentRecord)
    (host : Host) (w : World)
    → IsStored table s
    → Lists id_of rows (RowTable.run_writes effect (run_all ops s).queue table)
    → (k : String) → lookup k (load host rows w fresh).1.records ≡ lookup k (run_all ops s).records
unfolding load
run_all-load_punishments ops s fresh table rows host w h l k =
    lookup-set_all_rows id_of rows (RowTable.run_writes effect (run_all ops s).queue table) k l
    ∙ (run_all-IsStored table ops s h).mirrors k
