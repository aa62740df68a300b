-- ===== src/JoinAudit/Lookup.antt =====
-- Lemmas on one request, seen through its key, under a sweep and a pruning.
use qq_group_ops.Base.{
  [], ltb, ℕ, suc, ◌≡◌, refl, ◌∙◌, String, Bool, true, false, Option, none, some, List, ◌∷◌, arith,
  string_eq, if◌then◌else◌, Bool-cases, inl, inr,
}
use qq_group_ops.Base.Dict.{
  Dict, lookup, erase, NodupKeys, lookup-insert, lookup-erase, insert-NodupKeys, erase-NodupKeys,
}
use qq_group_ops.JoinAudit.{
  JoinAudit, JoinRequest, Readings, is_due, expire_one, expire_loop, expire_pending,
  expired_request, is_prunable, prune_loop, prune_reviewed_older_than,
}

-- A request after a sweep that expires the due ones.
abbrev pub swept : Readings → (JoinRequest → Bool) → JoinRequest → JoinRequest
swept env due r = if is_due due r then expired_request env r else r

abbrev pub swept? : Readings → (JoinRequest → Bool) → Option JoinRequest → Option JoinRequest
swept? env due none = none
swept? env due (some r) = some (swept env due r)

-- The entry of the copy decides, the state's own entry stands where the copy has none.
abbrev overlay :
    Readings → (JoinRequest → Bool) → Option JoinRequest → Option JoinRequest → Option JoinRequest
overlay env due none base = base
overlay env due (some r) base = if is_due due r then some (expired_request env r) else base

either-NodupKeys :
    (b : Bool) (s t : JoinAudit)
    → NodupKeys s.requests
    → NodupKeys t.requests
    → NodupKeys (if b then s else t).requests
either-NodupKeys true s t u v = u
either-NodupKeys false s t u v = v

either_NodupKeys :
    (b : Bool) (d e : Dict String JoinRequest)
    → NodupKeys d
    → NodupKeys e
    → NodupKeys (if b then d else e)
either_NodupKeys true d e u v = u
either_NodupKeys false d e u v = v

module _ (env : Readings) (reason : String) (due : JoinRequest → Bool) where
  lookup-expire_loop :
      (k : String) (es : List (String × JoinRequest)) (c : ℕ) (s : JoinAudit)
      → NodupKeys es
      → lookup k (expire_loop env reason due es c s).1.requests
        ≡ overlay env due (lookup k es) (lookup k s.requests)
  unfolding expire_loop lookup
  lookup-expire_loop k [] c s u = refl
  lookup-expire_loop k ((j, r) ∷ es) c s (fresh, u) = ground (
    arith,
    lookup-expire_loop k es (if is_due due r then suc c else c)
        (if is_due due r then expire_one env reason j r s else s) u,
    lookup-insert k j (expired_request env r) s.requests,
  )

  expire_loop-NodupKeys :
      (es : List (String × JoinRequest)) (c : ℕ) (s : JoinAudit)
      → NodupKeys s.requests
      → NodupKeys (expire_loop env reason due es c s).1.requests
  unfolding expire_loop
  expire_loop-NodupKeys [] c s u = u
  expire_loop-NodupKeys ((j, r) ∷ es) c s u =
      expire_loop-NodupKeys es (if is_due due r then suc c else c)
        (if is_due due r then expire_one env reason j r s else s)
        (either-NodupKeys (is_due due r) (expire_one env reason j r s) s
          (insert-NodupKeys j (expired_request env r) s.requests u) u)

  overlay-swept : (o : Option JoinRequest) → overlay env due o o ≡ swept? env due o
  overlay-swept none = refl
  overlay-swept (some r) = ground arith

  -- A sweep expires the due requests and leaves the others.
  pub lookup-expire_pending :
      (k : String) (s : JoinAudit)
      → NodupKeys s.requests
      → lookup k (expire_pending env reason due s).1.requests ≡ swept? env due (lookup k s.requests)
  unfolding expire_pending
  lookup-expire_pending k s u =
      lookup-expire_loop k s.requests 0 s u ∙ overlay-swept (lookup k s.requests)

  pub expire_pending-NodupKeys :
      (s : JoinAudit)
      → NodupKeys s.requests
      → NodupKeys (expire_pending env reason due s).1.requests
  unfolding expire_pending
  expire_pending-NodupKeys s u = expire_loop-NodupKeys s.requests 0 s u

abbrev kept? : ℕ → Option JoinRequest → Option JoinRequest
kept? cutoff none = none
kept? cutoff (some r) = if is_prunable cutoff r then none else some r

abbrev kept_over : ℕ → Option JoinRequest → Option JoinRequest → Option JoinRequest
kept_over cutoff none base = base
kept_over cutoff (some r) base = if is_prunable cutoff r then none else base

module _ (cutoff : ℕ) where
  lookup-prune_loop :
      (k : String) (es : List (String × JoinRequest)) (c : ℕ) (d : Dict String JoinRequest)
      → NodupKeys es
      → lookup k (prune_loop cutoff es c d).1 ≡ kept_over cutoff (lookup k es) (lookup k d)
  unfolding prune_loop lookup
  lookup-prune_loop k [] c d u = refl
  lookup-prune_loop k ((j, r) ∷ es) c d (fresh, u) = ground (
    arith,
    lookup-prune_loop k es (if is_prunable cutoff r then suc c else c)
        (if is_prunable cutoff r then erase j d else d) u,
    lookup-erase k j d,
  )

  prune_loop-NodupKeys :
      (es : List (String × JoinRequest)) (c : ℕ) (d : Dict String JoinRequest)
      → NodupKeys d
      → NodupKeys (prune_loop cutoff es c d).1
  unfolding prune_loop
  prune_loop-NodupKeys [] c d u = u
  prune_loop-NodupKeys ((j, r) ∷ es) c d u =
      prune_loop-NodupKeys es (if is_prunable cutoff r then suc c else c)
        (if is_prunable cutoff r then erase j d else d)
        (either_NodupKeys (is_prunable cutoff r) (erase j d) d (erase-NodupKeys j d u) u)

  kept-over_self : (o : Option JoinRequest) → kept_over cutoff o o ≡ kept? cutoff o
  kept-over_self none = refl
  kept-over_self (some r) = ground arith

  -- Pruning drops the decided requests before the cutoff and leaves the others.
  pub lookup-prune :
      (k : String) (s : JoinAudit)
      → NodupKeys s.requests
      → lookup k (prune_reviewed_older_than cutoff s).1.requests
        ≡ kept? cutoff (lookup k s.requests)
  unfolding prune_reviewed_older_than
  lookup-prune k s u =
      ground
        (arith, lookup-prune_loop k s.requests 0 s.requests u, kept-over_self (lookup k s.requests))

  pub prune-NodupKeys :
      (s : JoinAudit)
      → NodupKeys s.requests
      → NodupKeys (prune_reviewed_older_than cutoff s).1.requests
  unfolding prune_reviewed_older_than
  prune-NodupKeys s u = elim (Bool-cases (ltb 0 (prune_loop cutoff s.requests 0 s.requests).0)) [
    | inl e ↦ rw e (prune_loop-NodupKeys s.requests 0 s.requests u)
    | inr e ↦ rw e (prune_loop-NodupKeys s.requests 0 s.requests u)
  ]
