-- ===== src/JoinAudit.antt =====
-- src/services/joinAudit.ts: the requests to join a group, from submission to decision.
-- A method that changes the service returns the new record; a thrown error is `thrown`. Times are
-- milliseconds and come from the caller with the random ids, since the clock and `randomUUID` are
-- not the program's.
pub mod Table
pub mod Following
pub mod Mirror
pub mod Lookup
pub mod Decisions
pub mod Expiry
pub mod History
use qq_group_ops.Base.{
  [], ℕ, suc, ◌+◌, String, Bool, true, false, not, ◌&&◌, Option, none, some, List, ◌∷◌, ◌++◌, leb,
  ltb, filter, count, contains, ◌==◌, string_eq, if◌then◌else◌,
}
use qq_group_ops.Base.Dict.{Dict, lookup, insert, erase, has, values}
use qq_group_ops.Base.Outcome.{◌>>=◌, Outcome, ok, thrown}
use qq_group_ops.Audit
use qq_group_ops.Audit.{AuditLog, AuditRecord, AuditStatus}

-- `JoinRequestStatus`
pub data JoinRequestStatus : Type 0 where
  pending approved rejected expired : JoinRequestStatus

-- `JoinRequest`
pub record JoinRequest : Type 0 where
  pub request_id : String
  pub group_id : String
  pub user_id : String
  pub reason : String
  pub status : JoinRequestStatus
  pub created_at : ℕ
  pub reviewed_at : Option ℕ
  pub reviewer_id : Option String

pub data JoinError : Type 0 where
  duplicate_id not_found already_reviewed : String → JoinError

-- The writes that the service queues.
pub data JoinWrite : Type 0 where
  upsert : JoinRequest → JoinWrite
  update_status : String → JoinRequestStatus → String → ℕ → String → JoinWrite
  delete_reviewed : ℕ → JoinWrite

pub record JoinAudit : Type 0 where
  pub requests : Dict String JoinRequest
  pub audit_log : AuditLog
  pub pending_ttl_ms : ℕ
  pub persistent : Bool
  pub queue : List JoinWrite

-- What the clock and `randomUUID` give while a request of an id is handled.
pub record Readings : Type 0 where
  pub reviewed_at : String → ℕ
  pub logged_at : String → ℕ
  pub record_id : String → String

abbrev pub expiry_actor_id : String
expiry_actor_id = "system:expired"

abbrev pub default_reconcile_min_age_ms : ℕ
default_reconcile_min_age_ms = 3600000

abbrev pub is_pending : JoinRequestStatus → Bool
is_pending pending = true
is_pending _ = false

abbrev pub enqueue : JoinWrite → JoinAudit → JoinAudit
enqueue w s = record s { queue = if s.persistent then s.queue ++ w ∷ [] else s.queue }

-- `setPendingTtlMs`, for a finite number
unfoldable pub set_pending_ttl_ms : ℕ → JoinAudit → JoinAudit
set_pending_ttl_ms ttl s = record s { pending_ttl_ms = if ltb 0 ttl then ttl else 0 }

-- `pendingCount`
unfoldable pub pending_count : JoinAudit → ℕ
pending_count s = count (λ r. is_pending r.status) (values s.requests)

-- `submit`, at the time `now`
unfoldable pub submit :
    String → String → String → String → ℕ → JoinAudit → Outcome JoinError (JoinRequest × JoinAudit)
submit group user reason id now s =
    let request : JoinRequest = record {
      request_id = id;
      group_id = group;
      user_id = user;
      reason = reason;
      status = pending;
      created_at = now;
      reviewed_at = none;
      reviewer_id = none;
    } in
    if has id s.requests
    then thrown (duplicate_id id)
    else ok
        (request, enqueue (upsert request) (record s { requests = insert id request s.requests }))

abbrev found_or : String → Option JoinRequest → Outcome JoinError JoinRequest
found_or id none = thrown (not_found id)
found_or id (some r) = ok r

-- `get`
unfoldable pub get : String → JoinAudit → Outcome JoinError JoinRequest
get id s = found_or id (lookup id s.requests)

abbrev pub expired_request : Readings → JoinRequest → JoinRequest
expired_request env r = record r {
  status = expired;
  reviewer_id = some expiry_actor_id;
  reviewed_at = some (env.reviewed_at r.request_id);
}

-- The audit record of an expiry, from `enqueueExpiry`.
abbrev pub expiry_record : Readings → String → JoinRequest → AuditRecord
expiry_record env reason r = record {
  record_id = env.record_id r.request_id;
  group_id = r.group_id;
  actor_id = expiry_actor_id;
  target_user_id = some r.user_id;
  action = "expire_join_request";
  status = AuditStatus.expired;
  reason = reason;
  created_at = env.logged_at r.request_id;
}

-- One round of `expirePending`: the request of the key expires, is queued and logged.
unfoldable pub expire_one : Readings → String → String → JoinRequest → JoinAudit → JoinAudit
expire_one env reason id r s =
    let updated = expired_request env r in
    let queued =
      enqueue
        (update_status r.request_id expired expiry_actor_id (env.reviewed_at r.request_id) reason)
        (record s { requests = insert id updated s.requests }) in
    record queued { audit_log = Audit.append (expiry_record env reason r) s.audit_log }

abbrev pub is_due : (JoinRequest → Bool) → JoinRequest → Bool
is_due due r = is_pending r.status && due r

-- The loop of `expirePending` over a copy of the entries.
unfoldable pub expire_loop :
    Readings
    → String
    → (JoinRequest → Bool)
    → List (String × JoinRequest)
    → ℕ
    → JoinAudit
    → ℕ × JoinAudit
unfolding expire_one
expire_loop env reason due [] changed s = (changed, s)
expire_loop env reason due ((id, r) ∷ rest) changed s =
    expire_loop env reason due rest (if is_due due r then suc changed else changed)
      (if is_due due r then expire_one env reason id r s else s)

-- `expirePending`
unfoldable pub expire_pending : Readings → String → (JoinRequest → Bool) → JoinAudit → ℕ × JoinAudit
unfolding expire_loop
expire_pending env reason due s = expire_loop env reason due s.requests 0 s

-- `now - request.createdAt >= age`
abbrev pub is_aged : ℕ → ℕ → JoinRequest → Bool
is_aged now age r = leb (r.created_at + age) now

abbrev pub stale_reason : String
stale_reason = "超过待审批有效期，自动标记过期"

-- `expireStalePending`
unfoldable pub expire_stale_pending : Readings → ℕ → JoinAudit → ℕ × JoinAudit
expire_stale_pending env now s =
    if leb s.pending_ttl_ms 0
    then (0, s)
    else expire_pending env stale_reason (is_aged now s.pending_ttl_ms) s

abbrev pub is_missing : String → List String → ℕ → ℕ → JoinRequest → Bool
is_missing group remote min_age now r =
    r.group_id == group && (not (contains r.request_id remote) && is_aged now min_age r)

-- `expireMissingFromRemote`
unfoldable pub expire_missing_from_remote :
    Readings → String → List String → ℕ → ℕ → JoinAudit → ℕ × JoinAudit
expire_missing_from_remote env group remote min_age now s =
    expire_pending env "官方待审批列表已不再包含该申请，自动标记过期" (is_missing group remote min_age now) s

abbrev pub is_pending? : Option JoinRequest → Bool
is_pending? none = false
is_pending? (some r) = is_pending r.status

-- `markHandledExternally`
unfoldable pub mark_handled_externally : Readings → String → String → JoinAudit → Bool × JoinAudit
mark_handled_externally env id reason s =
    if is_pending? (lookup id s.requests)
    then (let (changed, s') = expire_pending env reason (λ r. r.request_id == id) s in
        (ltb 0 changed, s'))
    else (false, s)

-- `pending(groupId)`: the query expires stale requests first.
unfoldable pub pending_in : Readings → ℕ → String → JoinAudit → List JoinRequest × JoinAudit
pending_in env now group s =
    let (_, s') = expire_stale_pending env now s in
    (filter (λ r. r.group_id == group && is_pending r.status) (values s'.requests), s')

-- `listPending`
unfoldable pub list_pending : Readings → ℕ → JoinAudit → List JoinRequest × JoinAudit
list_pending env now s =
    let (_, s') = expire_stale_pending env now s in
    (filter (λ r. is_pending r.status) (values s'.requests), s')

abbrev pub is_prunable : ℕ → JoinRequest → Bool
is_prunable cutoff r = not (is_pending r.status) && ltb r.created_at cutoff

-- The loop of `pruneReviewedOlderThan`
unfoldable pub prune_loop :
    ℕ → List (String × JoinRequest) → ℕ → Dict String JoinRequest → ℕ × Dict String JoinRequest
prune_loop cutoff [] removed d = (removed, d)
prune_loop cutoff ((id, r) ∷ rest) removed d =
    prune_loop cutoff rest (if is_prunable cutoff r then suc removed else removed)
      (if is_prunable cutoff r then erase id d else d)

-- `pruneReviewedOlderThan`
unfoldable pub prune_reviewed_older_than : ℕ → JoinAudit → ℕ × JoinAudit
unfolding prune_loop
prune_reviewed_older_than cutoff s =
    let (removed, kept) = prune_loop cutoff s.requests 0 s.requests in
    let s' = record s { requests = kept } in
    (removed, if ltb 0 removed then enqueue (delete_reviewed cutoff) s' else s')

-- The two decisions of `review`.
pub data Decision : Type 0 where
  approve reject : Decision

abbrev pub decided_status : Decision → JoinRequestStatus
decided_status approve = approved
decided_status reject = rejected

abbrev pub decided_audit_status : Decision → AuditStatus
decided_audit_status approve = AuditStatus.approved
decided_audit_status reject = AuditStatus.rejected

abbrev pub decided_action : Decision → String
decided_action approve = "approve_join_request"
decided_action reject = "reject_join_request"

abbrev pub reviewed_request : Decision → String → ℕ → JoinRequest → JoinRequest
reviewed_request d reviewer at r = record r {
  status = decided_status d;
  reviewer_id = some reviewer;
  reviewed_at = some at;
}

abbrev pub review_record : Decision → String → String → String → ℕ → JoinRequest → AuditRecord
review_record d reviewer reason record_id at r = record {
  record_id = record_id;
  group_id = r.group_id;
  actor_id = reviewer;
  target_user_id = some r.user_id;
  action = decided_action d;
  status = decided_audit_status d;
  reason = reason;
  created_at = at;
}

-- `review`: `approve` passes an empty reason, `reject` the reviewer's.
unfoldable pub review :
    Readings
    → Decision
    → String
    → String
    → String
    → JoinAudit
    → Outcome JoinError (JoinRequest × JoinAudit)
unfolding get
review env d id reviewer reason s = do
  r ← get id s
  let updated = reviewed_request d reviewer (env.reviewed_at id) r
  let queued =
      enqueue (update_status id (decided_status d) reviewer (env.reviewed_at id) reason)
        (record s { requests = insert id updated s.requests })
  let logged = review_record d reviewer reason (env.record_id id) (env.logged_at id) r
  if is_pending r.status
      then ok (updated, record queued { audit_log = Audit.append logged s.audit_log })
      else thrown (already_reviewed id)
