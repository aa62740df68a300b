-- ===== src/JoinAudit/Table.antt =====
-- src/db/joinRequestRepository.ts: the rows of `join_requests`, by their primary key.
use qq_group_ops.Base.{[], ℕ, String, Option, none, some, List, ◌∷◌, ◌==◌, string_eq, if◌then◌else◌}
use qq_group_ops.Base.Text.{is_empty}
use qq_group_ops.JoinAudit.{
  JoinRequest, JoinRequestStatus, JoinWrite, upsert, update_status, delete_reviewed, is_prunable,
}

abbrev pub JoinTable : Type 0
JoinTable = String → Option JoinRequest

-- An insertion of a present row does nothing. A new row has no reviewer.
abbrev pub inserted : JoinRequest → Option JoinRequest → Option JoinRequest
inserted r none = some (record r { reviewed_at = none; reviewer_id = none })
inserted r (some row) = some row

-- The columns of `UPDATE_STATUS_SQL`: a reason that is given replaces the stored one.
abbrev pub updated_row :
    JoinRequestStatus → String → ℕ → String → Option JoinRequest → Option JoinRequest
updated_row status reviewer at reason none = none
updated_row status reviewer at reason (some row) = some (record row {
  status = status;
  reviewer_id = some reviewer;
  reviewed_at = some at;
  reason = if is_empty reason then row.reason else reason;
})

abbrev pub remaining : ℕ → Option JoinRequest → Option JoinRequest
remaining cutoff none = none
remaining cutoff (some row) = if is_prunable cutoff row then none else some row

unfoldable pub run_write : JoinWrite → JoinTable → JoinTable
run_write (upsert r) table = λ k. if k == r.request_id then inserted r (table k) else table k
run_write (update_status id status reviewer at reason) table =
    λ k. if k == id then updated_row status reviewer at reason (table k) else table k
run_write (delete_reviewed cutoff) table = λ k. remaining cutoff (table k)

unfoldable pub run_writes : List JoinWrite → JoinTable → JoinTable
unfolding run_write
run_writes [] table = table
run_writes (w ∷ ws) table = run_writes ws (run_write w table)
