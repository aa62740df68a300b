-- ===== src/JoinAudit/Decisions.antt =====
-- The operations of the service of join requests as one type, and theorems on their runs.
use qq_group_ops.Base.{
  [], ℕ, ◌≡◌, refl, String, Bool, true, false, ◌&&◌, Option, none, some, List, ◌≢◌, ◌∷◌, arith,
  ◌==◌, string_eq, if◌then◌else◌, Bool-cases, inl, inr, Option-cases, leb,
}
use qq_group_ops.Base.Dict.{lookup, NodupKeys, lookup-insert, insert-NodupKeys}
use qq_group_ops.Base.Outcome.{Outcome, ok, thrown}
use qq_group_ops.JoinAudit.{
  stale_reason, is_aged, approve, reject, decided_status, is_pending?, is_due, expired_request,
  JoinAudit, JoinRequest, JoinError, Readings, pending, is_pending, submit, review, Decision,
  reviewed_request, expire_pending, prune_reviewed_older_than, expire_stale_pending,
  expire_missing_from_remote, mark_handled_externally, is_prunable,
}
use qq_group_ops.JoinAudit.Lookup.{
  swept, lookup-expire_pending, lookup-prune, expire_pending-NodupKeys, prune-NodupKeys,
}

-- The operations that may change the service, with what the outside gives to each.
pub data Op : Type 0 where
  submitted : (group user reason id : String) → (now : ℕ) → Op
  reviewed : Readings → Decision → (id reviewer reason : String) → Op
  expired_stale : Readings → ℕ → Op
  reconciled : Readings → String → List String → (min_age now : ℕ) → Op
  handled : Readings → (id reason : String) → Op
  pruned : ℕ → Op

-- The state after an operation that may throw: as before, if it threw.
abbrev pub after {ℓ} : {A : Type ℓ} → JoinAudit → Outcome JoinError (A × JoinAudit) → JoinAudit
after s (ok (_, s')) = s'
after s (thrown _) = s

unfoldable pub run : Op → JoinAudit → JoinAudit
run (submitted group user reason id now) s = after s (submit group user reason id now s)
run (reviewed env d id reviewer reason) s = after s (review env d id reviewer reason s)
run (expired_stale env now) s = (expire_stale_pending env now s).1
run (reconciled env group remote min_age now) s =
    (expire_missing_from_remote env group remote min_age now s).1
run (handled env id reason) s = (mark_handled_externally env id reason s).1
run (pruned cutoff) s = (prune_reviewed_older_than cutoff s).1

unfoldable pub run_all : List Op → JoinAudit → JoinAudit
unfolding run
run_all [] s = s
run_all (op ∷ ops) s = run_all ops (run op s)

abbrev pub is_prune : Op → Bool
is_prune (pruned _) = true
is_prune _ = false

-- How a stored request may stand after an operation, of which `prunes` says whether it prunes.
pub data Evolves (prunes : Bool) (r : JoinRequest) : Option JoinRequest → Type 0 where
  same : Evolves prunes r (some r)
  decided :
      (r' : JoinRequest)
      → r.status ≡ pending
      → r'.status ≢ pending
      → r'.request_id ≡ r.request_id
      → r'.group_id ≡ r.group_id
      → r'.user_id ≡ r.user_id
      → r'.reason ≡ r.reason
      → r'.created_at ≡ r.created_at
      → Evolves prunes r (some r')
  gone : prunes ≡ true → r.status ≢ pending → Evolves prunes r none

module _ {ℓ} (P : JoinAudit → Type ℓ) (env : Readings) (s : JoinAudit) (before : P s)
    (swept : (reason : String) (due : JoinRequest → Bool)
      → P (expire_pending env reason due s).1) where
  pub expire_stale_pending-cases : (now : ℕ) → P (expire_stale_pending env now s).1
  unfolding expire_stale_pending
  expire_stale_pending-cases now = go (leb s.pending_ttl_ms 0)
    where
      go :
          (b : Bool)
          → P
              (if b
                then (0, s)
                else expire_pending env stale_reason (is_aged now s.pending_ttl_ms) s).1
      go true = before
      go false = swept stale_reason (is_aged now s.pending_ttl_ms)

  pub mark_handled_externally-cases :
      (id reason : String) → P (mark_handled_externally env id reason s).1
  unfolding mark_handled_externally
  mark_handled_externally-cases id reason = elim (Bool-cases (is_pending? (lookup id s.requests))) [
    | inl e ↦ rw e (swept _ _)
    | inr e ↦ rw e before
  ]

decided_status-ne-pending : (d : Decision) → decided_status d ≢ pending
decided_status-ne-pending approve = λ h. cc
decided_status-ne-pending reject = λ h. cc

module _ (k : String) (r : JoinRequest) (s : JoinAudit) (found : lookup k s.requests ≡ some r) where
  submit-keeps :
      (group user reason id : String) (now : ℕ)
      → lookup k (after s (submit group user reason id now s)).requests ≡ some r
  unfolding submit
  submit-keeps group user reason id now = elim (Option-cases (lookup id s.requests)) [
    | inl fresh ↦ ground (
      arith,
      found,
      fresh,
      lookup-insert k id
          (record {
            request_id = id;
            group_id = group;
            user_id = user;
            reason = reason;
            status = pending;
            created_at = now;
            reviewed_at = none;
            reviewer_id = none;
          })
          s.requests,
    )
    | inr (r', taken) ↦ ground (arith, found, taken)
  ]

  pub review-lookup :
      (env : Readings) (d : Decision) (id reviewer reason : String)
      → lookup k (after s (review env d id reviewer reason s)).requests
        ≡ some (
            if k == id && is_pending r.status
            then reviewed_request d reviewer (env.reviewed_at id) r
            else r)
  unfolding review
  review-lookup env d id reviewer reason = elim (Option-cases (lookup id s.requests)) [
    | inl none_found ↦ ground (arith, found, none_found)
    | inr (r', other) ↦ ground (
      arith,
      found,
      other,
      lookup-insert k id (reviewed_request d reviewer (env.reviewed_at id) r') s.requests,
    )
  ]

  reviewed_request-Evolves :
      (d : Decision) (reviewer : String) (at : ℕ) (mine : Bool)
      → Evolves false r
          (some (if mine && is_pending r.status then reviewed_request d reviewer at r else r))
  reviewed_request-Evolves d reviewer at mine = elim (Bool-cases (mine && is_pending r.status)) [
    | inl e ↦ rw e (
        decided (reviewed_request d reviewer at r) (ground arith) (decided_status-ne-pending d) refl
          refl refl refl refl)
    | inr e ↦ rw e same
  ]

  swept-Evolves :
      (env : Readings) (due : JoinRequest → Bool) → Evolves false r (some (swept env due r))
  swept-Evolves env due = elim (Bool-cases (is_due due r)) [
    | inl e ↦
        rw e (decided (expired_request env r) (ground arith) (λ h. cc) refl refl refl refl refl)
    | inr e ↦ rw e same
  ]

  module _ (u : NodupKeys s.requests) where
    sweep-Evolves :
        (env : Readings) (reason : String) (due : JoinRequest → Bool)
        → Evolves false r (lookup k (expire_pending env reason due s).1.requests)
    sweep-Evolves env reason due =
        rw (lookup-expire_pending env reason due k s u, found) (swept-Evolves env due)

    unchanged-Evolves : Evolves false r (lookup k s.requests)
    unchanged-Evolves = rw found same

    prune-Evolves :
        (cutoff : ℕ) → Evolves true r (lookup k (prune_reviewed_older_than cutoff s).1.requests)
    prune-Evolves cutoff = elim (Bool-cases (is_prunable cutoff r)) [
      | inl e ↦ rw (lookup-prune cutoff k s u, found) (rw e (gone refl (ground arith)))
      | inr e ↦ rw (lookup-prune cutoff k s u, found) (rw e same)
    ]

module _ (s : JoinAudit) (u : NodupKeys s.requests) where
  submit-NodupKeys :
      (group user reason id : String) (now : ℕ)
      → NodupKeys (after s (submit group user reason id now s)).requests
  unfolding submit
  submit-NodupKeys group user reason id now = elim (Option-cases (lookup id s.requests)) [
    | inl e ↦ rw e (insert-NodupKeys id _ s.requests u)
    | inr (r, e) ↦ rw e u
  ]

  review-NodupKeys :
      (env : Readings) (d : Decision) (id reviewer reason : String)
      → NodupKeys (after s (review env d id reviewer reason s)).requests
  unfolding review
  review-NodupKeys env d id reviewer reason = elim (Option-cases (lookup id s.requests)) [
    | inl e ↦ rw e u
    | inr (r, e) ↦ elim (Bool-cases (is_pending r.status)) [
      | inl p ↦ rw (e, p) (insert-NodupKeys id _ s.requests u)
      | inr p ↦ rw (e, p) u
    ]
  ]

-- With distinct keys: whatever operation runs, a stored request stays as it is, or was pending and is decided once with
-- its own data kept, or was decided and is pruned.
pub run-Evolves :
    (op : Op) (id : String) (r : JoinRequest) (s : JoinAudit)
    → NodupKeys s.requests
    → lookup id s.requests ≡ some r
    → Evolves (is_prune op) r (lookup id (run op s).requests)
unfolding run
run-Evolves (submitted group user reason i now) id r s u found =
    rw (submit-keeps id r s found group user reason i now) same
run-Evolves (reviewed env d i reviewer reason) id r s u found =
    rw (review-lookup id r s found env d i reviewer reason)
      (reviewed_request-Evolves id r s found d reviewer (env.reviewed_at i) (id == i))
run-Evolves (expired_stale env now) id r s u found =
    expire_stale_pending-cases (λ t. Evolves false r (lookup id t.requests)) env s
      (unchanged-Evolves id r s found u) (sweep-Evolves id r s found u env) now
run-Evolves (reconciled env group remote min_age now) id r s u found =
    unfold expire_missing_from_remote in sweep-Evolves id r s found u env _ _
run-Evolves (handled env i reason) id r s u found =
    mark_handled_externally-cases (λ t. Evolves false r (lookup id t.requests)) env s
      (unchanged-Evolves id r s found u) (sweep-Evolves id r s found u env) i reason
run-Evolves (pruned cutoff) id r s u found = prune-Evolves id r s found u cutoff

-- No operation lets a request be stored twice: distinct keys stay distinct.
pub run-NodupKeys : (op : Op) (s : JoinAudit) → NodupKeys s.requests → NodupKeys (run op s).requests
unfolding run
run-NodupKeys (submitted group user reason i now) s u = submit-NodupKeys s u group user reason i now
run-NodupKeys (reviewed env d i reviewer reason) s u = review-NodupKeys s u env d i reviewer reason
run-NodupKeys (expired_stale env now) s u =
    expire_stale_pending-cases (λ t. NodupKeys t.requests) env s u
      (λ reason due. expire_pending-NodupKeys env reason due s u) now
run-NodupKeys (reconciled env group remote min_age now) s u =
    unfold expire_missing_from_remote in expire_pending-NodupKeys env _ _ s u
run-NodupKeys (handled env i reason) s u =
    mark_handled_externally-cases (λ t. NodupKeys t.requests) env s u
      (λ reason' due. expire_pending-NodupKeys env reason' due s u) i reason
run-NodupKeys (pruned cutoff) s u = prune-NodupKeys cutoff s u

-- No operation of the list prunes.
abbrev pub NoPrune : List Op → Type 0
NoPrune [] = Unit
NoPrune (op ∷ ops) = (is_prune op ≡ false) × NoPrune ops

Evolves-decided :
    (prunes : Bool) (r : JoinRequest) (o : Option JoinRequest)
    → Evolves prunes r o
    → prunes ≡ false
    → r.status ≢ pending
    → o ≡ some r
Evolves-decided prunes r _ same no_prune n = refl
Evolves-decided prunes r _ (decided r' e _ _ _ _ _ _) no_prune n = absurd (n e)
Evolves-decided prunes r _ (gone e _) no_prune n = cc

-- With distinct keys, a decision is final: no list of operations that does not prune changes a decided request.
pub run_all-decided :
    (ops : List Op) (id : String) (r : JoinRequest) (s : JoinAudit)
    → NodupKeys s.requests
    → NoPrune ops
    → lookup id s.requests ≡ some r
    → r.status ≢ pending
    → lookup id (run_all ops s).requests ≡ some r
unfolding run_all
run_all-decided [] id r s u h found n = found
run_all-decided (op ∷ ops) id r s u (k, h) found n =
    run_all-decided ops id r (run op s) (run-NodupKeys op s u) h
      (Evolves-decided (is_prune op) r _ (run-Evolves op id r s u found) k n) n
