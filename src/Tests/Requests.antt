-- ===== src/Tests/Requests.antt =====
-- The requests to join of src/services/joinAudit.ts, and the audit log, at concrete inputs.
use qq_group_ops.Base.{
  [], ℕ, ◌+◌, ◌<◌, ◌≡◌, refl, String, true, none, some, List, ◌∷◌, arith, string_eq,
}
use qq_group_ops.Base.Dict.{lookup, NodupKeys}
use qq_group_ops.Audit.{AuditLog, AuditRecord, AuditStatus, run_writes}
use qq_group_ops.Audit.Laws.{Mirrors}
use qq_group_ops.JoinAudit.{
  JoinAudit, JoinRequest, JoinRequestStatus, pending, approved, Readings, approve, reject,
  expire_stale_pending, is_pending,
}
use qq_group_ops.JoinAudit.Decisions.{
  submitted, Op, reviewed, expired_stale, handled, pruned, run_all, run_all-decided,
}
use qq_group_ops.JoinAudit.Table
use qq_group_ops.JoinAudit.Mirror.{MirrorsRequests}
use qq_group_ops.JoinAudit.History.{started, run_all-started}
use qq_group_ops.JoinAudit.Expiry.{IsKeyed, expire_stale_pending_lem}

abbrev request : String → JoinRequestStatus → ℕ → JoinRequest
request id status at = record {
  request_id = id;
  group_id = "g1";
  user_id = "ann";
  reason = "let me in";
  status = status;
  created_at = at;
  reviewed_at = none;
  reviewer_id = none;
}

abbrev logged : ℕ → AuditRecord
logged at = record {
  record_id = "a1";
  group_id = "g1";
  actor_id = "root";
  action = "approve_join_request";
  status = AuditStatus.approved;
  reason = "";
  target_user_id = some "ann";
  created_at = at;
}

abbrev log : AuditLog
log = record { records = logged 5 ∷ logged 9 ∷ []; persistent = true; queue = [] }

-- `r1` waits since 10, `r2` since 70, `r3` is approved.
abbrev service : JoinAudit
service = record {
  requests =
      ("r1", request "r1" pending 10)
      ∷ ("r2", request "r2" pending 70)
      ∷ ("r3", request "r3" approved 20)
      ∷ [];
  audit_log = log;
  pending_ttl_ms = 60;
  persistent = true;
  queue = [];
}

abbrev readings : Readings
readings = record { reviewed_at = λ id. 100; logged_at = λ id. 101; record_id = λ id. id }

service-NodupKeys : NodupKeys service.requests
unfolding lookup string_eq
service-NodupKeys = (refl, (refl, (refl, tt)))

service-IsKeyed : IsKeyed service
unfolding lookup
service-IsKeyed k r f = ground arith

r3-found : lookup "r3" service.requests ≡ some (request "r3" approved 20)
unfolding lookup string_eq
r3-found = refl

abbrev ops : List Op
ops =
    reviewed readings reject "r3" "bob" "no"
    ∷ expired_stale readings 80
    ∷ handled readings "r2" "seen"
    ∷ []

run_all-decided_example :
    lookup "r3" (run_all ops service).requests ≡ some (request "r3" approved 20)
run_all-decided_example =
    run_all-decided ops "r3" (request "r3" approved 20) service service-NodupKeys
      (refl, (refl, (refl, tt))) r3-found (λ h. cc)

expire_stale_pending_lem_example :
    ((k : String) (r : JoinRequest)
      → lookup k (expire_stale_pending readings 80 service).1.requests ≡ some r
      → is_pending r.status ≡ true
      → 80 < r.created_at + 60)
    × ((expire_stale_pending readings 80 (expire_stale_pending readings 80 service).1).0 ≡ 0)
expire_stale_pending_lem_example =
    expire_stale_pending_lem readings readings 80 service (omega arith) service-NodupKeys

log-Mirrors : Mirrors log (logged 5 ∷ logged 9 ∷ [])
unfolding run_writes
log-Mirrors = refl

-- Two requests, of which one is approved and pruned and the other expires.
abbrev history : List Op
history =
    submitted "g1" "ann" "hi" "r1" 10
    ∷ submitted "g1" "bob" "me too" "r2" 70
    ∷ reviewed readings approve "r1" "root" ""
    ∷ expired_stale readings 200
    ∷ pruned 50
    ∷ []

run_all-started_example :
    MirrorsRequests
      (run_all history (started log 60))
      (Table.run_writes (run_all history (started log 60)).queue (λ id. none))
run_all-started_example = run_all-started history log 60
