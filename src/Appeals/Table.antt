-- ===== src/Appeals/Table.antt =====
-- The table `appeal_records`, and theorems on what it holds after a history of the service.
use qq_group_ops.Base.{
  [], ◌≡◌, refl, ◌∙◌, ap, String, Bool, true, false, Option, none, some, List, ◌∷◌, ◌++◌, arith,
  string_eq, ◌==◌, if◌then◌else◌, ℕ, ltb, length, filter, lt→ltb, length-filter, All, ◌<◌,
}
use qq_group_ops.Base.Dict.{lookup, insert, values, lookup-insert, count-values-pos}
use qq_group_ops.Core.Ordering.Laws.{newest_first_lem}
use qq_group_ops.Core.RowTable
use qq_group_ops.Core.RowTable.{
  Mirrors, write-Mirrors, Lists, lookup-set_all_rows, any-values, passes, run_writes-concat,
}
use qq_group_ops.Core.Platform.{Host, World}
use qq_group_ops.Appeals.{
  Appeals, AppealRecord, AppealWrite, save, delete_older, put, all, load, is_pending, is_stale,
  prune_older_than,
}
use qq_group_ops.Appeals.Change.{
  Change, same, updated, new, IsValid, KeepsIdentity, Change-IsValid, id_of, any-filtered,
}
use qq_group_ops.Appeals.OnePending.{
  Op, pruned, run, run_all, run-keeps, lookup-erase_appeals, prune-appeals,
}

abbrev pub AppealTable : Type 0
AppealTable = String → Option AppealRecord

-- `UPSERT_SQL`: the other columns of a row stay.
abbrev pub saved : AppealRecord → Option AppealRecord → Option AppealRecord
saved a none = some a
saved a (some row) = some (record row {
  reason = a.reason;
  status = a.status;
  reviewer_id = a.reviewer_id;
  remark = a.remark;
  reviewed_at = a.reviewed_at;
})

-- `DELETE_OLDER_THAN_SQL`
abbrev pub remaining : ℕ → Option AppealRecord → Option AppealRecord
remaining cutoff none = none
remaining cutoff (some row) = if ltb row.created_at cutoff then none else some row

unfoldable pub effect : AppealWrite → String → Option AppealRecord → Option AppealRecord
effect (save a) k row = if k == a.appeal_id then saved a row else row
effect (delete_older cutoff) k row = remaining cutoff row

module _ (table : AppealTable) where
  -- The table, with the queued writes done, is the map in memory, and the service persists it.
  pub record IsStored (s : Appeals) : Type 0 where
    pub persistent : s.persistent ≡ true
    pub valid : IsValid s
    pub mirrors : Mirrors effect table s.appeals s.queue

  saved-same : (a u : AppealRecord) → KeepsIdentity a u → saved u (some a) ≡ some u
  saved-same a u kept = ground arith

  put-Mirrors :
      (u : AppealRecord) (s : Appeals)
      → s.persistent ≡ true
      → saved u (lookup u.appeal_id s.appeals) ≡ some u
      → Mirrors effect table s.appeals s.queue
      → Mirrors effect table (put u s).appeals (put u s).queue
  unfolding effect
  put-Mirrors u s p done m = rw p (
      write-Mirrors effect table (save u) s.appeals (insert u.appeal_id u s.appeals) s.queue
        (λ k. ground (arith, lookup-insert k u.appeal_id u s.appeals, done)) m)

  Change-IsStored : (s s' : Appeals) → Change s s' → IsStored s → IsStored s'
  Change-IsStored s s' (same e) h = rw e h
  Change-IsStored s s' (updated a u found kept e) h = record {
    persistent = rw e h.persistent;
    valid = Change-IsValid s s' (updated a u found kept e) h.valid;
    mirrors = rw e (
        put-Mirrors u s h.persistent
          (ap (λ k. saved u (lookup k s.appeals)) kept.appeal_id
            ∙ ap (saved u) found
            ∙ saved-same a u kept)
          h.mirrors);
  }
  Change-IsStored s s' (new u fresh free e) h = record {
    persistent = rw e h.persistent;
    valid = Change-IsValid s s' (new u fresh free e) h.valid;
    mirrors = rw e (put-Mirrors u s h.persistent (ap (saved u) fresh) h.mirrors);
  }

abbrev pub is_prune : Op → Bool
is_prune (pruned _) = true
is_prune _ = false

run_all-IsStored :
    (table : AppealTable) (ops : List Op) (s : Appeals)
    → All (λ op. is_prune op ≡ false) ops
    → IsStored table s
    → IsStored table (run_all ops s)
unfolding run_all
run_all-IsStored table [] s none_prunes h = h
run_all-IsStored table (op ∷ ops) s (no_prune, rest) h =
    run_all-IsStored table ops (run op s) rest (
      run-keeps (IsStored table) (λ t k. k.valid) (Change-IsStored table) op s
        (λ cutoff e. absurd (prunes-not op cutoff no_prune e)) h)
  where
    prunes-not : (op : Op) (cutoff : ℕ) → is_prune op ≡ false → op ≡ pruned cutoff → ⊥
    prunes-not op cutoff n e = let t = ap is_prune e in cc

-- For a persistent service whose appeals stand under their ids, each once, and are those of the
-- table with the queued writes done: after any history of submissions and decisions, and a restart
-- that reads the rows of the table back when all writes are done, the service holds for each id the
-- same appeal as before, in all its columns, and none where there was none.
pub run_all-load_appeals :
    (ops : List Op) (s fresh : Appeals) (table : AppealTable) (rows : List AppealRecord)
    (host : Host) (w : World)
    → IsStored table s
    → All (λ op. is_prune op ≡ false) ops
    → Lists id_of rows (RowTable.run_writes effect (run_all ops s).queue table)
    → (k : String) → lookup k (load host rows w fresh).1.appeals ≡ lookup k (run_all ops s).appeals
unfolding load
run_all-load_appeals ops s fresh table rows host w h none_prunes l k =
    lookup-set_all_rows id_of rows (RowTable.run_writes effect (run_all ops s).queue table) k l
    ∙ (run_all-IsStored table ops s none_prunes h).mirrors k

-- The appeal that a pruning leaves in memory.
abbrev pub kept? : ℕ → Option AppealRecord → Option AppealRecord
kept? cutoff none = none
kept? cutoff (some a) = if is_stale cutoff a then none else some a

passes-kept :
    (cutoff : ℕ) (o : Option AppealRecord)
    → (if passes (is_stale cutoff) o then none else o) ≡ kept? cutoff o
passes-kept cutoff none = refl
passes-kept cutoff (some a) = refl

pub lookup-prune :
    (cutoff : ℕ) (s : Appeals) (k : String)
    → IsValid s
    → lookup k (prune_older_than cutoff s).1.appeals ≡ kept? cutoff (lookup k s.appeals)
lookup-prune cutoff s k v =
    ap (lookup k) (prune-appeals cutoff s)
    ∙ lookup-erase_appeals (filter (is_stale cutoff) (all s)) s.appeals k
    ∙ ap (λ (b : Bool). if b then none else lookup k s.appeals)
        (any-filtered (is_stale cutoff) s k v)
    ∙ passes-kept cutoff (lookup k s.appeals)

stale-count :
    (cutoff : ℕ) (s : Appeals) (j : String) (b : AppealRecord)
    → lookup j s.appeals ≡ some b
    → is_stale cutoff b ≡ true
    → 0 < length (filter (is_stale cutoff) (all s))
unfolding all
stale-count cutoff s j b f stale = omega (
  arith,
  length-filter (is_stale cutoff) (all s),
  (newest_first_lem (λ (a : AppealRecord). a.created_at) (values s.appeals)).1 (is_stale cutoff),
  count-values-pos (is_stale cutoff) s.appeals j b f stale,
)

prune-queue :
    (cutoff : ℕ) (s : Appeals)
    → s.persistent ≡ true
    → 0 < length (filter (is_stale cutoff) (all s))
    → (prune_older_than cutoff s).1.queue ≡ s.queue ++ delete_older cutoff ∷ []
unfolding prune_older_than
prune-queue cutoff s p some_go =
    rw (lt→ltb 0 (length (filter (is_stale cutoff) (all s))) some_go, p) refl

-- A persistent service whose appeals stand under their ids, each once, and are those of the table
-- with the queued writes done. When it prunes with a cutoff, it forgets exactly the appeals that
-- are decided and older. But if it forgets one, and an appeal that is still pending is older as
-- well, the service keeps that appeal while the table, with the queued writes done, loses it, so a
-- restart forgets it.
pub prune-loses_pending :
    (table : AppealTable) (cutoff : ℕ) (s : Appeals)
    → IsStored table s
    → ((k : String)
        → lookup k (prune_older_than cutoff s).1.appeals ≡ kept? cutoff (lookup k s.appeals))
      × ((k j : String) (a b : AppealRecord)
          → lookup j s.appeals ≡ some b
          → is_stale cutoff b ≡ true
          → lookup k s.appeals ≡ some a
          → is_pending a.status ≡ true
          → a.created_at < cutoff
          → (lookup k (prune_older_than cutoff s).1.appeals ≡ some a)
            × (RowTable.run_writes effect (prune_older_than cutoff s).1.queue table k ≡ none))
unfolding effect
prune-loses_pending table cutoff s h = (
  (λ k. lookup-prune cutoff s k h.valid),
  λ k j a b fj stale fk waits old. (
    lookup-prune cutoff s k h.valid ∙ ground (arith, fk, waits),
    ap (λ q. RowTable.run_writes effect q table k)
          (prune-queue cutoff s h.persistent (stale-count cutoff s j b fj stale))
        ∙ run_writes-concat effect s.queue (delete_older cutoff) table k
        ∙ ap (remaining cutoff) (h.mirrors k ∙ fk)
        ∙ rw (lt→ltb a.created_at cutoff old) refl,
  ),
)
