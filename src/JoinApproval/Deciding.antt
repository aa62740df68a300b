-- ===== src/JoinApproval/Deciding.antt =====
-- What a decision does to the requests: of a pending one, and of one that a reviewer may not decide.
use qq_group_ops.Core.Platform.{Host, World, approve_join_request, call}
use qq_group_ops.JoinAudit.{
  JoinAudit, JoinRequest, Readings, Decision, review, get, is_pending, is_pending?,
  reviewed_request,
}
use qq_group_ops.Base.{
  [], ◌≡◌, ◌≢◌, refl, sym, ◌∙◌, ap, String, true, false, none, some, ◌∷◌, ◌++◌, arith, string_eq,
  ◌==◌, Bool-cases, inl, inr,
}
use qq_group_ops.Base.Dict.{lookup, lookup-insert, NodupKeys}
use qq_group_ops.Base.Outcome.{Outcome, ok, thrown, Outcome-cases, ok-injective}
use qq_group_ops.JoinAudit.Expiry.{IsKeyed, mark_handled_externally_lem}
use qq_group_ops.JoinApproval.{
  is_already_handled_error, drop_already_handled, already_handled_message, already_handled_reason,
  reason?,
}
use qq_group_ops.JoinApproval.ByHand.{
  decide_by_hand, require_request, required, is_approving, sent_reason, kept_reason,
}

module _ (env : Readings) (d : Decision) (id reviewer reason : String) (s : JoinAudit)
    (r : JoinRequest) where
  -- A pending request is decided.
  pub review-ok :
      get id s ≡ ok r
      → is_pending r.status ≡ true
      → (s' : JoinAudit) × (review env d id reviewer reason s
          ≡ ok (reviewed_request d reviewer (env.reviewed_at id) r, s'))
        × (lookup id s'.requests ≡ some (reviewed_request d reviewer (env.reviewed_at id) r))
  unfolding review
  review-ok there waits =
      rw (there, waits)
        (
          _,
          refl,
          ground (
            arith,
            lookup-insert id id (reviewed_request d reviewer (env.reviewed_at id) r) s.requests,
          ),
        )

pending-of_required :
    (group : String) (q r : JoinRequest)
    → required group q ≡ ok r
    → (q ≡ r) × (is_pending r.status ≡ true)
pending-of_required group q r e = elim (Bool-cases (q.group_id == group)) [
  | inl mine ↦ elim (Bool-cases (is_pending q.status)) [
    | inl waits ↦ same-pending q r (rw (mine, waits) at e) waits
    | inr done ↦ let e' = rw (mine, done) at e in cc
  ]
  | inr other ↦ let e' = rw other at e in cc
]
  where
    same-pending :
        (q r : JoinRequest)
        → ◌≡◌ {A = Outcome String JoinRequest} (ok q) (ok r)
        → is_pending q.status ≡ true
        → (q ≡ r) × (is_pending r.status ≡ true)
    same-pending q r e waits =
        let p = ok-injective q r (ok q) refl e in (p, ap (λ t. is_pending t.status) (sym p) ∙ waits)

required-pending :
    (group id : String) (s : JoinAudit) (r : JoinRequest)
    → require_request group id s ≡ ok r
    → (get id s ≡ ok r) × (is_pending r.status ≡ true)
unfolding require_request
required-pending group id s r e = elim (Outcome-cases (get id s)) [
  | inl (q, there) ↦
      let (p, waits) = pending-of_required group q r (rw there at e) in (there ∙ ap ok p, waits)
  | inr (x, missing) ↦ let e' = rw missing at e in cc
]

pub decide_by_hand-required :
    (host : Host) (env : Readings) (d : Decision) (group id reviewer reason : String) (w : World)
    (s : JoinAudit)
    → NodupKeys s.requests
    → IsKeyed s
    → let (result, w', s') = decide_by_hand host env d group id reviewer reason w s in
      ((r : JoinRequest)
        → require_request group id s ≡ ok r
        → let asked =
            approve_join_request group r.user_id
              (is_approving d)
              id
              (reason? (sent_reason d reason)) in
          (w'.calls ≡ w.calls ++ asked ∷ [])
          × (host.answer w.calls asked ≡ none
              → let decided = reviewed_request d reviewer (env.reviewed_at id) r in
                (result ≡ ok decided) × (lookup id s'.requests ≡ some decided))
          × ((message : String)
              → host.answer w.calls asked ≡ some message
              → is_already_handled_error message ≡ true
              → (result ≡ thrown already_handled_message)
                × (is_pending? (lookup id s'.requests) ≡ false)
                × ((k : String) → k ≢ id → lookup k s'.requests ≡ lookup k s.requests))
          × ((message : String)
              → host.answer w.calls asked ≡ some message
              → is_already_handled_error message ≡ false
              → (result ≡ thrown message) × (s' ≡ s)))
      × ((message : String)
          → require_request group id s ≡ thrown message
          → decide_by_hand host env d group id reviewer reason w s ≡ (thrown message, w, s))
unfolding decide_by_hand call drop_already_handled
decide_by_hand-required host env d group id reviewer reason w s u keyed = (
  λ r there.
      let (exists, waits) = required-pending group id s r there in
      (
        rw there refl,
        (λ taken.
            let (s', reviewed, stored) =
              review-ok env d id reviewer (kept_reason d reason) s r exists waits in
            rw (there, taken, reviewed) (refl, stored)),
        (λ message refused handled.
            let (_, off, others) =
              mark_handled_externally_lem env id already_handled_reason s u keyed in
            rw (there, refused, handled) (refl, off, others)),
        λ message refused other. rw (there, refused, other) (refl, refl),
      ),
  λ message missing. rw missing refl,
)
