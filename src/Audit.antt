-- ===== src/Audit.antt =====
-- src/services/audit.ts and the audit records of src/core/models.ts.
-- `Date` is a number of milliseconds; record ids and times come from the caller.
pub mod Laws
use qq_group_ops.Base.{
  [], ℕ, ◌-◌, String, Bool, Option, List, ◌∷◌, ◌++◌, length, filter, leb, ◌==◌, string_eq, nat_eq,
  if◌then◌else◌,
}

-- `AuditStatus`
pub data AuditStatus : Type 0 where
  pending approved rejected auto_approved auto_rejected executed expired : AuditStatus

-- `AuditRecord`
pub record AuditRecord : Type 0 where
  pub record_id : String
  pub group_id : String
  pub actor_id : String
  pub action : String
  pub status : AuditStatus
  pub reason : String
  pub target_user_id : Option String
  pub created_at : ℕ

-- The writes that the log queues.
pub data AuditWrite : Type 0 where
  append_row : AuditRecord → AuditWrite
  delete_older : ℕ → AuditWrite

pub record AuditLog : Type 0 where
  pub records : List AuditRecord
  pub persistent : Bool
  pub queue : List AuditWrite

abbrev enqueue : AuditWrite → AuditLog → AuditLog
enqueue w log = record log { queue = if log.persistent then log.queue ++ w ∷ [] else log.queue }

-- `append`
unfoldable pub append : AuditRecord → AuditLog → AuditLog
append r log = enqueue (append_row r) (record log { records = log.records ++ r ∷ [] })

-- `findByGroup`
unfoldable pub find_by_group : String → AuditLog → List AuditRecord
find_by_group group log = filter (λ r. r.group_id == group) log.records

abbrev pub recent : ℕ → AuditRecord → Bool
recent cutoff r = leb cutoff r.created_at

-- `pruneOlderThan`: the number of records that go, and the log.
unfoldable pub prune_older_than : ℕ → AuditLog → ℕ × AuditLog
prune_older_than cutoff log =
    let kept = filter (recent cutoff) log.records in
    let removed = length log.records - length kept in
    if removed == 0
    then (0, log)
    else (removed, enqueue (delete_older cutoff) (record log { records = kept }))

-- The rows of the table after a write.
unfoldable pub run_write : AuditWrite → List AuditRecord → List AuditRecord
run_write (append_row r) rows = rows ++ r ∷ []
run_write (delete_older cutoff) rows = filter (recent cutoff) rows

unfoldable pub run_writes : List AuditWrite → List AuditRecord → List AuditRecord
unfolding run_write
run_writes [] rows = rows
run_writes (w ∷ ws) rows = run_writes ws (run_write w rows)
