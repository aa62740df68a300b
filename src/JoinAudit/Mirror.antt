-- ===== src/JoinAudit/Mirror.antt =====
-- Lemmas on the service of join requests and its table: the operations on one request.
use qq_group_ops.Base.{
  [], ℕ, suc, ◌≡◌, refl, ◌∙◌, ap, sym, String, Bool, true, false, Option, none, some, List, ◌∷◌,
  ◌++◌, arith, ◌==◌, string_eq, if◌then◌else◌, Bool-cases, Option-cases, inl, inr,
}
use qq_group_ops.Base.Dict.{lookup, insert, NodupKeys, lookup-insert}
use qq_group_ops.JoinAudit.{
  JoinAudit, JoinRequest, JoinRequestStatus, JoinWrite, expired, Readings, Decision, upsert,
  update_status, is_pending, is_due, expiry_actor_id, expire_one, expire_loop, expire_pending,
  submit, review, decided_status, reviewed_request, expired_request,
}
use qq_group_ops.JoinAudit.Decisions.{after}
use qq_group_ops.JoinAudit.Expiry.{IsKeyed}
use qq_group_ops.JoinAudit.Table.{JoinTable, inserted, updated_row, run_write, run_writes}

-- A request without its reason.
abbrev pub facts? : Option JoinRequest → Option JoinRequest
facts? none = none
facts? (some r) = some (record r { reason = "" })

-- The rows are the requests in memory, but for the reasons.
abbrev pub MirrorsRequests : JoinAudit → JoinTable → Type 0
MirrorsRequests s table = (k : String) → facts? (table k) ≡ facts? (lookup k s.requests)

pub run_writes-concat :
    (ws : List JoinWrite) (w : JoinWrite) (table : JoinTable)
    → run_writes (ws ++ w ∷ []) table ≡ run_write w (run_writes ws table)
unfolding run_writes
run_writes-concat [] w table = refl
run_writes-concat (v ∷ ws) w table = run_writes-concat ws w (run_write v table)

abbrev decide_row : JoinRequestStatus → String → ℕ → Option JoinRequest → Option JoinRequest
decide_row status reviewer at none = none
decide_row status reviewer at (some r) =
    some (record r { status = status; reviewer_id = some reviewer; reviewed_at = some at })

facts-updated_row :
    (status : JoinRequestStatus) (reviewer : String) (at : ℕ) (reason : String)
    (o : Option JoinRequest)
    → facts? (updated_row status reviewer at reason o) ≡ decide_row status reviewer at (facts? o)
facts-updated_row status reviewer at reason none = refl
facts-updated_row status reviewer at reason (some r) = refl

facts-decide_row :
    (status : JoinRequestStatus) (reviewer : String) (at : ℕ) (o : Option JoinRequest)
    → facts? (decide_row status reviewer at o) ≡ decide_row status reviewer at (facts? o)
facts-decide_row status reviewer at none = refl
facts-decide_row status reviewer at (some r) = refl

module _ (table : JoinTable) where
  -- With all queued writes done.
  abbrev pub rows_of : JoinAudit → JoinTable
  rows_of s = run_writes s.queue table

  decide-Mirrors :
      (s s' : JoinAudit) (id : String) (status : JoinRequestStatus) (reviewer : String) (at : ℕ)
      (reason : String)
      → s'.queue ≡ s.queue ++ update_status id status reviewer at reason ∷ []
      → ((k : String)
          → lookup k s'.requests ≡ (
              if k == id
              then decide_row status reviewer at (lookup k s.requests)
              else lookup k s.requests))
      → MirrorsRequests s (rows_of s)
      → MirrorsRequests s' (rows_of s')
  unfolding run_write
  decide-Mirrors s s' id status reviewer at reason q memory m k =
      let done : rows_of s' ≡ run_write (update_status id status reviewer at reason) (rows_of s) =
        ap (λ ws. run_writes ws table) q
        ∙ run_writes-concat s.queue (update_status id status reviewer at reason) table in
      elim (Bool-cases (k == id)) [
        | inl here ↦
            ap (λ t. facts? (t k)) done
            ∙ rw here (facts-updated_row status reviewer at reason (rows_of s k))
            ∙ ap (decide_row status reviewer at) (m k)
            ∙ sym (facts-decide_row status reviewer at (lookup k s.requests))
            ∙ ap facts? (sym (rw here at (memory k)))
        | inr other ↦
            ap (λ t. facts? (t k)) done ∙ rw other (m k) ∙ ap facts? (sym (rw other at (memory k)))
      ]

  module _ (env : Readings) (reason : String) where
    expire_one-Mirrors :
        (id : String) (r : JoinRequest) (s : JoinAudit)
        → s.persistent ≡ true
        → lookup id s.requests ≡ some r
        → r.request_id ≡ id
        → MirrorsRequests s (rows_of s)
        → MirrorsRequests (expire_one env reason id r s) (rows_of (expire_one env reason id r s))
    unfolding expire_one
    expire_one-Mirrors id r s p found keyed m =
        decide-Mirrors s (expire_one env reason id r s) id expired expiry_actor_id
          (env.reviewed_at r.request_id) reason (ground (arith, p, keyed))
          (λ k. ground (arith, lookup-insert k id (expired_request env r) s.requests, found)) m

    expire_one-persistent :
        (id : String) (r : JoinRequest) (s : JoinAudit)
        → s.persistent ≡ true
        → (expire_one env reason id r s).persistent ≡ true
    unfolding expire_one
    expire_one-persistent id r s p = p

    expire_one-lookup :
        (id : String) (r : JoinRequest) (s : JoinAudit) (k : String)
        → lookup k (expire_one env reason id r s).requests
          ≡ (if k == id then some (expired_request env r) else lookup k s.requests)
    unfolding expire_one
    expire_one-lookup id r s k = lookup-insert k id (expired_request env r) s.requests

    -- The entries of the copy that the loop has still to visit are those of the service.
    abbrev Current : List (String × JoinRequest) → JoinAudit → Type 0
    Current es s =
        (k : String) (r : JoinRequest)
        → lookup k es ≡ some r
        → (lookup k s.requests ≡ some r) × (r.request_id ≡ k)

    -- One round of the loop, for an entry that is due or not.
    round-Mirrors :
        (b : Bool) (j : String) (r : JoinRequest) (es : List (String × JoinRequest)) (s : JoinAudit)
        → lookup j es ≡ none
        → Current ((j, r) ∷ es) s
        → s.persistent ≡ true
        → MirrorsRequests s (rows_of s)
        → let next = if b then expire_one env reason j r s else s in
          Current es next × (next.persistent ≡ true) × MirrorsRequests next (rows_of next)
    unfolding lookup
    round-Mirrors false j r es s fresh cur p m =
        ((λ k x f. cur k x (ground (arith, fresh, f))), p, m)
    round-Mirrors true j r es s fresh cur p m =
        let (found, keyed) = cur j r (ground arith) in
        (
          (λ k x f. ground (arith, expire_one-lookup j r s k, fresh, cur k x, f)),
          expire_one-persistent j r s p,
          expire_one-Mirrors j r s p found keyed m,
        )

    expire_loop-Mirrors :
        (due : JoinRequest → Bool) (es : List (String × JoinRequest)) (c : ℕ) (s : JoinAudit)
        → NodupKeys es
        → Current es s
        → s.persistent ≡ true
        → MirrorsRequests s (rows_of s)
        → MirrorsRequests
            (expire_loop env reason due es c s).1
            (rows_of (expire_loop env reason due es c s).1)
    unfolding expire_loop
    expire_loop-Mirrors due [] c s u cur p m = m
    expire_loop-Mirrors due ((j, r) ∷ es) c s (fresh, u) cur p m =
        let (cur', p', m') = round-Mirrors (is_due due r) j r es s fresh cur p m in
        expire_loop-Mirrors due es (if is_due due r then suc c else c)
          (if is_due due r then expire_one env reason j r s else s) u cur' p' m'

    pub expire_pending-Mirrors :
        (due : JoinRequest → Bool) (s : JoinAudit)
        → NodupKeys s.requests
        → IsKeyed s
        → s.persistent ≡ true
        → MirrorsRequests s (rows_of s)
        → MirrorsRequests
            (expire_pending env reason due s).1
            (rows_of (expire_pending env reason due s).1)
    unfolding expire_pending
    expire_pending-Mirrors due s u keyed p m =
        expire_loop-Mirrors due s.requests 0 s u (λ k r f. (f, keyed k r f)) p m

  inserted-none :
      (r : JoinRequest) (o : Option JoinRequest)
      → r.reviewed_at ≡ none
      → r.reviewer_id ≡ none
      → facts? o ≡ none
      → facts? (inserted r o) ≡ facts? (some r)
  inserted-none r none a b h = ground (arith, a, b)
  inserted-none r (some row) a b h = cc

  insert-Mirrors :
      (r : JoinRequest) (s : JoinAudit)
      → r.reviewed_at ≡ none
      → r.reviewer_id ≡ none
      → lookup r.request_id s.requests ≡ none
      → MirrorsRequests s (rows_of s)
      → (k : String)
      → facts? (run_writes (s.queue ++ upsert r ∷ []) table k)
        ≡ facts? (lookup k (insert r.request_id r s.requests))
  unfolding run_write
  insert-Mirrors r s a b fresh m k =
      let at = lookup-insert k r.request_id r s.requests in
      ap (λ t. facts? (t k)) (run_writes-concat s.queue (upsert r) table)
      ∙ elim (Bool-cases (k == r.request_id)) [
        | inl here ↦
            let unknown : lookup k s.requests ≡ none = ground (arith, here, fresh) in
            let absent : facts? (rows_of s k) ≡ none = m k ∙ ap facts? unknown in
            rw here (inserted-none r (rows_of s k) a b absent) ∙ ap facts? (sym (rw here at at))
        | inr other ↦ rw other (m k) ∙ ap facts? (sym (rw other at at))
      ]

  pub submit-Mirrors :
      (group user reason id : String) (now : ℕ) (s : JoinAudit)
      → s.persistent ≡ true
      → MirrorsRequests s (rows_of s)
      → MirrorsRequests
          (after s (submit group user reason id now s))
          (rows_of (after s (submit group user reason id now s)))
  unfolding submit run_write
  submit-Mirrors group user reason id now s p m = elim (Option-cases (lookup id s.requests)) [
    | inr (old, taken) ↦ rw taken m
    | inl fresh ↦ rw (fresh, p) (insert-Mirrors _ s refl refl fresh m)
  ]

  pub review-Mirrors :
      (env : Readings) (d : Decision) (id reviewer reason : String) (s : JoinAudit)
      → s.persistent ≡ true
      → MirrorsRequests s (rows_of s)
      → MirrorsRequests
          (after s (review env d id reviewer reason s))
          (rows_of (after s (review env d id reviewer reason s)))
  unfolding review
  review-Mirrors env d id reviewer reason s p m = elim (Option-cases (lookup id s.requests)) [
    | inl missing ↦ rw missing m
    | inr (r, found) ↦ elim (Bool-cases (is_pending r.status)) [
      | inr closed ↦ rw (found, closed) m
      | inl live ↦
          let next : JoinAudit = record s {
            requests = insert id (reviewed_request d reviewer (env.reviewed_at id) r) s.requests;
            queue =
                s.queue
                ++ update_status id (decided_status d) reviewer (env.reviewed_at id) reason ∷ [];
          } in
          rw (found, live, p)
            (decide-Mirrors s next id (decided_status d) reviewer (env.reviewed_at id) reason refl
              (λ k. ground (
                arith,
                lookup-insert k id (reviewed_request d reviewer (env.reviewed_at id) r) s.requests,
                found,
              ))
              m)
    ]
  ]
