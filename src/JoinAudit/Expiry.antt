-- ===== src/JoinAudit/Expiry.antt =====
-- Theorems on the sweeps of `expirePending` and its callers.
use qq_group_ops.Base.{
  [], ℕ, suc, ◌+◌, ◌<◌, ◌≡◌, refl, sym, ◌∙◌, ap, String, Bool, true, false, Option, none, some,
  List, ◌≢◌, ◌∷◌, arith, ◌==◌, string_eq, if◌then◌else◌, length, Bool-cases, inl, inr, Option-cases,
  ltb, count, length-append,
}
use qq_group_ops.Base.Dict.{lookup, values, NodupKeys, count-values-eq-zero, count-values-pos}
use qq_group_ops.Audit
use qq_group_ops.JoinAudit.{
  JoinAudit, JoinRequest, Readings, stale_reason, is_pending, is_pending?, is_due, is_aged,
  expire_one, expire_loop, expire_pending, expire_stale_pending, mark_handled_externally,
  expired_request, expiry_record,
}
use qq_group_ops.JoinAudit.Lookup.{swept?, lookup-expire_pending, expire_pending-NodupKeys}

module _ (env : Readings) (reason : String) (due : JoinRequest → Bool) where
  expire_loop-count :
      (es : List (String × JoinRequest)) (c : ℕ) (s : JoinAudit)
      → (expire_loop env reason due es c s).0 ≡ c + count (is_due due) (values es)
  unfolding expire_loop count values
  expire_loop-count [] c s = omega arith
  expire_loop-count ((j, r) ∷ es) c s = ground (
    arith,
    expire_loop-count es (if is_due due r then suc c else c)
        (if is_due due r then expire_one env reason j r s else s),
  )

  expire_loop-audit :
      (es : List (String × JoinRequest)) (c : ℕ) (s : JoinAudit)
      → length (expire_loop env reason due es c s).1.audit_log.records
        ≡ length s.audit_log.records + count (is_due due) (values es)
  unfolding expire_loop count values Audit.append
  expire_loop-audit [] c s = omega arith
  expire_loop-audit ((j, r) ∷ es) c s = ground (
    arith,
    expire_loop-audit es (if is_due due r then suc c else c)
        (if is_due due r then expire_one env reason j r s else s),
    length-append s.audit_log.records (expiry_record env reason r ∷ []),
  )

  -- A sweep counts the due requests and logs one record for each.
  pub expire_pending_lem :
      (s : JoinAudit)
      → ((expire_pending env reason due s).0 ≡ count (is_due due) (values s.requests))
        × (length (expire_pending env reason due s).1.audit_log.records
            ≡ length s.audit_log.records + (expire_pending env reason due s).0)
  unfolding expire_pending
  expire_pending_lem s = (
    omega (arith, expire_loop-count s.requests 0 s),
    omega (arith, expire_loop-count s.requests 0 s, expire_loop-audit s.requests 0 s),
  )

  expire_loop-ttl :
      (es : List (String × JoinRequest)) (c : ℕ) (s : JoinAudit)
      → (expire_loop env reason due es c s).1.pending_ttl_ms ≡ s.pending_ttl_ms
  unfolding expire_loop
  expire_loop-ttl [] c s = refl
  expire_loop-ttl ((j, r) ∷ es) c s = ground (
    arith,
    expire_loop-ttl es (if is_due due r then suc c else c)
        (if is_due due r then expire_one env reason j r s else s),
  )

swept-not-due :
    (env : Readings) (due : JoinRequest → Bool) (o : Option JoinRequest) (r : JoinRequest)
    → swept? env due o ≡ some r
    → is_due due r ≡ false
swept-not-due env due none r e = cc
swept-not-due env due (some r') r e = elim (Bool-cases (is_due due r')) [
  | inl old ↦
      let gone : some (expired_request env r') ≡ some r = rw old at e in
      let same : expired_request env r' ≡ r = cc in rw (← same) refl
  | inr kept ↦
      let stays : some r' ≡ some r = rw kept at e in let same : r' ≡ r = cc in rw (← same) kept
]

expire_stale_pending-eq :
    (env : Readings) (now : ℕ) (s : JoinAudit)
    → 0 < s.pending_ttl_ms
    → expire_stale_pending env now s
      ≡ expire_pending env stale_reason (is_aged now s.pending_ttl_ms) s
unfolding expire_stale_pending
expire_stale_pending-eq env now s live = ground arith

-- What is still pending after a sweep of stale requests is young, and nothing is due again.
module _ (env : Readings) (now : ℕ) (s : JoinAudit) (u : NodupKeys s.requests) where
  abbrev sweep : JoinAudit
  sweep = (expire_pending env stale_reason (is_aged now s.pending_ttl_ms) s).1

  not-due-sweep :
      (k : String) (r : JoinRequest)
      → lookup k sweep.requests ≡ some r
      → is_due (is_aged now s.pending_ttl_ms) r ≡ false
  not-due-sweep k r f =
      swept-not-due env (is_aged now s.pending_ttl_ms) (lookup k s.requests) r
        (rw (lookup-expire_pending env stale_reason (is_aged now s.pending_ttl_ms) k s u) at f)

  sweep-ttl : sweep.pending_ttl_ms ≡ s.pending_ttl_ms
  unfolding expire_pending
  sweep-ttl = expire_loop-ttl env stale_reason (is_aged now s.pending_ttl_ms) s.requests 0 s

  second_sweep :
      (env' : Readings)
      → (expire_pending env' stale_reason (is_aged now sweep.pending_ttl_ms) sweep).0 ≡ 0
  second_sweep env' =
      (expire_pending_lem env' stale_reason (is_aged now sweep.pending_ttl_ms) sweep).0
      ∙ (ap (λ t. count (is_due (is_aged now t)) (values sweep.requests)) sweep-ttl
          ∙ count-values-eq-zero (is_due (is_aged now s.pending_ttl_ms)) sweep.requests
              (expire_pending-NodupKeys env stale_reason (is_aged now s.pending_ttl_ms) s u)
              not-due-sweep)

-- With a positive time to live and distinct keys: after a sweep of stale requests, one that is still pending is younger than the time to live, and
-- a second sweep at the same time expires nothing.
pub expire_stale_pending_lem :
    (env env' : Readings) (now : ℕ) (s : JoinAudit)
    → 0 < s.pending_ttl_ms
    → NodupKeys s.requests
    → ((k : String) (r : JoinRequest)
        → lookup k (expire_stale_pending env now s).1.requests ≡ some r
        → is_pending r.status ≡ true
        → now < r.created_at + s.pending_ttl_ms)
      × ((expire_stale_pending env' now (expire_stale_pending env now s).1).0 ≡ 0)
expire_stale_pending_lem env env' now s live u = rw (expire_stale_pending-eq env now s live) (
  λ k r f p. ground (arith, not-due-sweep env now s u k r f),
  ap (λ t. t.0)
        (expire_stale_pending-eq env' now (sweep env now s u) (rw (sweep-ttl env now s u) live))
      ∙ second_sweep env now s u env',
)

abbrev of_id : String → JoinRequest → Bool
of_id id r = r.request_id == id

-- The keys of the map are the ids of its requests.
abbrev pub IsKeyed : JoinAudit → Type 0
IsKeyed s = (k : String) (r : JoinRequest) → lookup k s.requests ≡ some r → r.request_id ≡ k

module _ (env : Readings) (id reason : String) (s : JoinAudit) where
  mark-off :
      is_pending? (lookup id s.requests) ≡ false
      → mark_handled_externally env id reason s ≡ (false, s)
  unfolding mark_handled_externally
  mark-off e = rw e

  mark-on :
      is_pending? (lookup id s.requests) ≡ true
      → mark_handled_externally env id reason s ≡ (
        ltb 0 (expire_pending env reason (of_id id) s).0,
        (expire_pending env reason (of_id id) s).1,
      )
  unfolding mark_handled_externally
  mark-on e = rw e

  module _ (u : NodupKeys s.requests) (keyed : IsKeyed s) where
    handled-id : is_pending? (lookup id (expire_pending env reason (of_id id) s).1.requests) ≡ false
    handled-id = elim (Option-cases (lookup id s.requests)) [
      | inl e ↦ rw (lookup-expire_pending env reason (of_id id) id s u, e)
      | inr (r, e) ↦
          rw (lookup-expire_pending env reason (of_id id) id s u, e) (ground (arith, keyed id r e))
    ]

    handled-other :
        (k : String)
        → k ≢ id
        → lookup k (expire_pending env reason (of_id id) s).1.requests ≡ lookup k s.requests
    handled-other k n = elim (Option-cases (lookup k s.requests)) [
      | inl e ↦ rw (lookup-expire_pending env reason (of_id id) k s u, e)
      | inr (r, e) ↦
          rw (lookup-expire_pending env reason (of_id id) k s u, e) (ground (arith, keyed k r e))
    ]

    handled-count :
        is_pending? (lookup id s.requests) ≡ true
        → ltb 0 (expire_pending env reason (of_id id) s).0 ≡ true
    handled-count p = elim (Option-cases (lookup id s.requests)) [
      | inl e ↦ let none_pending : false ≡ true = rw e at p in cc
      | inr (r, e) ↦
          let live : is_pending r.status ≡ true = rw e at p in
          ground (
            arith,
            (expire_pending_lem env reason (of_id id) s).0,
            count-values-pos (is_due (of_id id)) s.requests id r e (ground (arith, keyed id r e)),
          )
    ]

-- With distinct keys that are the ids: marking a request as handled elsewhere answers whether it was pending, and then no request of
-- that id is pending. Every other request stays as it is.
pub mark_handled_externally_lem :
    (env : Readings) (id reason : String) (s : JoinAudit)
    → NodupKeys s.requests
    → IsKeyed s
    → ((mark_handled_externally env id reason s).0 ≡ is_pending? (lookup id s.requests))
      × (is_pending? (lookup id (mark_handled_externally env id reason s).1.requests) ≡ false)
      × ((k : String)
          → k ≢ id
          → lookup k (mark_handled_externally env id reason s).1.requests ≡ lookup k s.requests)
mark_handled_externally_lem env id reason s u keyed =
    elim (Bool-cases (is_pending? (lookup id s.requests))) [
      | inl p ↦ rw (mark-on env id reason s p) (
        handled-count env id reason s u keyed p ∙ sym p,
        handled-id env id reason s u keyed,
        handled-other env id reason s u keyed,
      )
      | inr p ↦ rw (mark-off env id reason s p) (sym p, p, λ k n. refl)
    ]
