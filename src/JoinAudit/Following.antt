-- ===== src/JoinAudit/Following.antt =====
-- The table of join requests follows every operation, prunings included.
use qq_group_ops.Base.{
  [], ltb, ℕ, suc, ◌≤◌, ◌≡◌, refl, ◌∙◌, ap, sym, String, true, Option, none, some, List, ◌∷◌, ◌++◌,
  arith, string_eq, if◌then◌else◌, Bool-cases, inl, inr,
}
use qq_group_ops.Base.Dict.{Dict, lookup, erase, NodupKeys}
use qq_group_ops.JoinAudit.{
  JoinAudit, JoinRequest, delete_reviewed, is_prunable, prune_loop, prune_reviewed_older_than,
  expire_missing_from_remote,
}
use qq_group_ops.JoinAudit.Lookup.{lookup-prune}
use qq_group_ops.JoinAudit.Decisions.{
  Op, submitted, reviewed, expired_stale, reconciled, handled, pruned, run,
  expire_stale_pending-cases, mark_handled_externally-cases,
}
use qq_group_ops.JoinAudit.Expiry.{IsKeyed}
use qq_group_ops.JoinAudit.Table.{JoinTable, remaining, run_write, run_writes}
use qq_group_ops.JoinAudit.Mirror.{
  facts?, MirrorsRequests, run_writes-concat, rows_of, submit-Mirrors, expire_pending-Mirrors,
  review-Mirrors,
}

module _ (table : JoinTable) where
  -- What is pruned keeps no more than what was there.
  prune_loop-grows :
      (cutoff : ℕ) (es : List (String × JoinRequest)) (c : ℕ) (d : Dict String JoinRequest)
      → c ≤ (prune_loop cutoff es c d).0
  unfolding prune_loop
  prune_loop-grows cutoff [] c d = omega arith
  prune_loop-grows cutoff ((j, r) ∷ es) c d = ground (
    arith,
    prune_loop-grows cutoff es (if is_prunable cutoff r then suc c else c)
        (if is_prunable cutoff r then erase j d else d),
  )

  prune_loop-none :
      (cutoff : ℕ) (es : List (String × JoinRequest)) (c : ℕ) (d : Dict String JoinRequest)
      → (prune_loop cutoff es c d).0 ≤ c
      → (prune_loop cutoff es c d).1 ≡ d
  unfolding prune_loop
  prune_loop-none cutoff [] c d h = refl
  prune_loop-none cutoff ((j, r) ∷ es) c d h =
      ground (arith, prune_loop-none cutoff es c d, prune_loop-grows cutoff es (suc c) (erase j d))

  facts-remaining :
      (cutoff : ℕ) (o : Option JoinRequest)
      → facts? (remaining cutoff o) ≡ remaining cutoff (facts? o)
  facts-remaining cutoff none = refl
  facts-remaining cutoff (some r) = ground arith

  prune-queue :
      (cutoff : ℕ) (s : JoinAudit)
      → s.persistent ≡ true
      → (prune_reviewed_older_than cutoff s).1.queue ≡ (
          if ltb 0 (prune_loop cutoff s.requests 0 s.requests).0
          then s.queue ++ delete_reviewed cutoff ∷ []
          else s.queue)
  unfolding prune_reviewed_older_than
  prune-queue cutoff s p = ground (arith, p)

  prune-requests :
      (cutoff : ℕ) (s : JoinAudit)
      → (prune_reviewed_older_than cutoff s).1.requests
        ≡ (prune_loop cutoff s.requests 0 s.requests).1
  unfolding prune_reviewed_older_than
  prune-requests cutoff s = ground arith

  prune-Mirrors :
      (cutoff : ℕ) (s : JoinAudit)
      → NodupKeys s.requests
      → s.persistent ≡ true
      → MirrorsRequests s (rows_of table s)
      → MirrorsRequests
          (prune_reviewed_older_than cutoff s).1
          (rows_of table (prune_reviewed_older_than cutoff s).1)
  unfolding run_write
  prune-Mirrors cutoff s u p m k =
      elim (Bool-cases (ltb 0 (prune_loop cutoff s.requests 0 s.requests).0)) [
        | inl some_go ↦
            let q : (prune_reviewed_older_than cutoff s).1.queue
                ≡ s.queue ++ delete_reviewed cutoff ∷ [] =
              prune-queue cutoff s p
              ∙ ap (λ b. if b then s.queue ++ delete_reviewed cutoff ∷ [] else s.queue) some_go in
            ap (λ ws. facts? (run_writes ws table k)) q
            ∙ ap (λ t. facts? (t k)) (run_writes-concat s.queue (delete_reviewed cutoff) table)
            ∙ facts-remaining cutoff (rows_of table s k)
            ∙ ap (remaining cutoff) (m k)
            ∙ sym (facts-remaining cutoff (lookup k s.requests))
            ∙ ap facts? (sym (lookup-prune cutoff k s u))
        | inr none_go ↦
            let q : (prune_reviewed_older_than cutoff s).1.queue ≡ s.queue =
              prune-queue cutoff s p
              ∙ ap (λ b. if b then s.queue ++ delete_reviewed cutoff ∷ [] else s.queue) none_go in
            let same : (prune_reviewed_older_than cutoff s).1.requests ≡ s.requests =
              prune-requests cutoff s
              ∙ prune_loop-none cutoff s.requests 0 s.requests (ground arith) in
            ap (λ ws. facts? (run_writes ws table k)) q
            ∙ m k
            ∙ ap (λ d. facts? (lookup k d)) (sym same)
      ]

-- The table of a persistent service, with the queued writes done, follows every operation: if it
-- holds the requests in memory, but for their reasons, and the keys are distinct and the ids, so it
-- does afterwards.
pub run-Mirrors :
    (op : Op) (s : JoinAudit) (table : JoinTable)
    → s.persistent ≡ true
    → NodupKeys s.requests
    → IsKeyed s
    → MirrorsRequests s (rows_of table s)
    → MirrorsRequests (run op s) (rows_of table (run op s))
unfolding run
run-Mirrors (submitted group user reason id now) s table p u keyed m =
    submit-Mirrors table group user reason id now s p m
run-Mirrors (reviewed env d id reviewer reason) s table p u keyed m =
    review-Mirrors table env d id reviewer reason s p m
run-Mirrors (expired_stale env now) s table p u keyed m =
    expire_stale_pending-cases (λ t. MirrorsRequests t (rows_of table t)) env s m
      (λ reason due. expire_pending-Mirrors table env reason due s u keyed p m) now
run-Mirrors (reconciled env group remote min_age now) s table p u keyed m =
    unfold expire_missing_from_remote in expire_pending-Mirrors table env _ _ s u keyed p m
run-Mirrors (handled env id reason) s table p u keyed m =
    mark_handled_externally-cases (λ t. MirrorsRequests t (rows_of table t)) env s m
      (λ reason' due. expire_pending-Mirrors table env reason' due s u keyed p m) id reason
run-Mirrors (pruned cutoff) s table p u keyed m = prune-Mirrors table cutoff s u p m
