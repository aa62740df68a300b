-- ===== src/JoinAudit/History.antt =====
-- Theorems on whole histories of the service of join requests and its table.
use qq_group_ops.Base.{
  [], ℕ, ◌≡◌, refl, ◌∙◌, String, Bool, true, false, none, List, ◌∷◌, arith, string_eq,
  if◌then◌else◌, Bool-cases, Option-cases, inl, inr,
}
use qq_group_ops.Audit.{AuditLog}
use qq_group_ops.Base.Dict.{lookup, NodupKeys, lookup-insert}
use qq_group_ops.JoinAudit.{
  JoinAudit, JoinRequest, pending, Readings, Decision, is_pending, is_due, expire_one, expire_loop,
  expire_pending, prune_reviewed_older_than, submit, review, reviewed_request,
  expire_missing_from_remote,
}
use qq_group_ops.JoinAudit.Lookup.{lookup-expire_pending, lookup-prune}
use qq_group_ops.JoinAudit.Decisions.{
  Op, submitted, reviewed, expired_stale, reconciled, handled, pruned, run, run_all, after,
  run-NodupKeys, expire_stale_pending-cases, mark_handled_externally-cases,
}
use qq_group_ops.JoinAudit.Expiry.{IsKeyed}
use qq_group_ops.JoinAudit.Table.{JoinTable, run_writes}
use qq_group_ops.JoinAudit.Mirror.{MirrorsRequests, rows_of}
use qq_group_ops.JoinAudit.Following.{run-Mirrors}

expire_loop-persistent :
    (env : Readings) (reason : String) (due : JoinRequest → Bool) (es : List (String × JoinRequest))
    (c : ℕ) (s : JoinAudit)
    → (expire_loop env reason due es c s).1.persistent ≡ s.persistent
unfolding expire_loop
expire_loop-persistent env reason due [] c s = refl
expire_loop-persistent env reason due ((j, r) ∷ es) c s =
    expire_loop-persistent env reason due es _ _ ∙ round (is_due due r)
  where
    round : (b : Bool) → (if b then expire_one env reason j r s else s).persistent ≡ s.persistent
    round false = refl
    round true = unfold expire_one in refl

expire_pending-persistent :
    (env : Readings) (reason : String) (due : JoinRequest → Bool) (s : JoinAudit)
    → (expire_pending env reason due s).1.persistent ≡ s.persistent
unfolding expire_pending
expire_pending-persistent env reason due s = expire_loop-persistent env reason due s.requests 0 s

run-persistent : (op : Op) (s : JoinAudit) → (run op s).persistent ≡ s.persistent
unfolding run submit review prune_reviewed_older_than
run-persistent (submitted group user reason id now) s = elim (Option-cases (lookup id s.requests)) [
  | inl fresh ↦ rw fresh refl
  | inr (r, taken) ↦ rw taken refl
]
run-persistent (reviewed env d id reviewer reason) s = elim (Option-cases (lookup id s.requests)) [
  | inl missing ↦ rw missing refl
  | inr (r, found) ↦ elim (Bool-cases (is_pending r.status)) [
    | inl live ↦ rw (found, live) refl
    | inr closed ↦ rw (found, closed) refl
  ]
]
run-persistent (expired_stale env now) s =
    expire_stale_pending-cases (λ t. t.persistent ≡ s.persistent) env s refl
      (λ reason due. expire_pending-persistent env reason due s) now
run-persistent (reconciled env group remote min_age now) s =
    unfold expire_missing_from_remote in expire_pending-persistent env _ _ s
run-persistent (handled env id reason) s =
    mark_handled_externally-cases (λ t. t.persistent ≡ s.persistent) env s refl
      (λ reason' due. expire_pending-persistent env reason' due s) id reason
run-persistent (pruned cutoff) s = ground arith

module _ (s : JoinAudit) (u : NodupKeys s.requests) (keyed : IsKeyed s) where
  expire_pending-IsKeyed :
      (env : Readings) (reason : String) (due : JoinRequest → Bool)
      → IsKeyed (expire_pending env reason due s).1
  expire_pending-IsKeyed env reason due k x f = elim (Option-cases (lookup k s.requests)) [
    | inl missing ↦ absurd (ground (arith, lookup-expire_pending env reason due k s u, missing, f))
    | inr (r, found) ↦
        ground (arith, lookup-expire_pending env reason due k s u, found, f, keyed k r found)
  ]

  submit-IsKeyed :
      (group user reason id : String) (now : ℕ)
      → IsKeyed (after s (submit group user reason id now s))
  unfolding submit
  submit-IsKeyed group user reason id now = elim (Option-cases (lookup id s.requests)) [
    | inr (r, taken) ↦ rw taken keyed
    | inl fresh ↦ rw fresh (λ k x f. ground (
      arith,
      lookup-insert k id
          (record {
            request_id = id;
            group_id = group;
            user_id = user;
            reason = reason;
            status = pending;
            created_at = now;
            reviewed_at = none;
            reviewer_id = none;
          })
          s.requests,
      keyed k x,
      f,
    ))
  ]

  review-IsKeyed :
      (env : Readings) (d : Decision) (id reviewer reason : String)
      → IsKeyed (after s (review env d id reviewer reason s))
  unfolding review
  review-IsKeyed env d id reviewer reason = elim (Option-cases (lookup id s.requests)) [
    | inl missing ↦ rw missing keyed
    | inr (r, found) ↦ elim (Bool-cases (is_pending r.status)) [
      | inr closed ↦ rw (found, closed) keyed
      | inl live ↦
          rw (found, live)
            (λ k x f. ground (
              arith,
              lookup-insert k id (reviewed_request d reviewer (env.reviewed_at id) r) s.requests,
              keyed k x,
              keyed id r found,
              f,
            ))
    ]
  ]

  prune-IsKeyed : (cutoff : ℕ) → IsKeyed (prune_reviewed_older_than cutoff s).1
  prune-IsKeyed cutoff k x f = elim (Option-cases (lookup k s.requests)) [
    | inl missing ↦ absurd (ground (arith, lookup-prune cutoff k s u, missing, f))
    | inr (r, found) ↦ ground (arith, lookup-prune cutoff k s u, found, f, keyed k r found)
  ]

run-IsKeyed : (op : Op) (s : JoinAudit) → NodupKeys s.requests → IsKeyed s → IsKeyed (run op s)
unfolding run
run-IsKeyed (submitted group user reason id now) s u keyed =
    submit-IsKeyed s u keyed group user reason id now
run-IsKeyed (reviewed env d id reviewer reason) s u keyed =
    review-IsKeyed s u keyed env d id reviewer reason
run-IsKeyed (expired_stale env now) s u keyed =
    expire_stale_pending-cases IsKeyed env s keyed
      (λ reason due. expire_pending-IsKeyed s u keyed env reason due) now
run-IsKeyed (reconciled env group remote min_age now) s u keyed =
    unfold expire_missing_from_remote in expire_pending-IsKeyed s u keyed env _ _
run-IsKeyed (handled env id reason) s u keyed =
    mark_handled_externally-cases IsKeyed env s keyed
      (λ reason' due. expire_pending-IsKeyed s u keyed env reason' due) id reason
run-IsKeyed (pruned cutoff) s u keyed = prune-IsKeyed s u keyed cutoff

run_all-Mirrors :
    (ops : List Op) (s : JoinAudit) (table : JoinTable)
    → s.persistent ≡ true
    → NodupKeys s.requests
    → IsKeyed s
    → MirrorsRequests s (rows_of table s)
    → MirrorsRequests (run_all ops s) (rows_of table (run_all ops s))
unfolding run_all
run_all-Mirrors [] s table p u keyed m = m
run_all-Mirrors (op ∷ ops) s table p u keyed m =
    run_all-Mirrors ops (run op s) table (run-persistent op s ∙ p) (run-NodupKeys op s u)
      (run-IsKeyed op s u keyed) (run-Mirrors op s table p u keyed m)

-- A service that has no request yet.
abbrev pub started : AuditLog → (pending_ttl_ms : ℕ) → JoinAudit
started log ttl = record {
  requests = [];
  audit_log = log;
  pending_ttl_ms = ttl;
  persistent = true;
  queue = [];
}

-- From a persistent service with no request and an empty table, whatever operations run: with the
-- queued writes done, the table holds exactly the requests in memory, but for their reasons.
pub run_all-started :
    (ops : List Op) (log : AuditLog) (ttl : ℕ)
    → MirrorsRequests
        (run_all ops (started log ttl))
        (run_writes (run_all ops (started log ttl)).queue (λ id. none))
unfolding lookup run_writes
run_all-started ops log ttl =
    run_all-Mirrors ops (started log ttl) (λ id. none) refl tt (λ k r f. ground arith) (λ k. refl)
