-- ===== src/Codes/Service/Resolving.antt =====
-- Theorems on the service of codes: the code that is shown for an id finds it again.
use qq_group_ops.Base.{
  ◌≡◌, refl, sym, ◌∙◌, ap, ℕ, ◌<◌, String, true, none, some, arith, string_eq, nat_eq, Option-cases,
  inl, inr, contains, contains-add,
}
use mathlib.Core.Path.{subst}
use qq_group_ops.Base.Dict.{lookup, insert, lookup-insert}
use qq_group_ops.Base.Text.{trim}
use qq_group_ops.Base.Outcome.{ok, >>=-eq-ok, ok-injective}
use qq_group_ops.Core.Platform.{Host, World}
use qq_group_ops.Codes.{reserve_global_code, seed_global_code}
use qq_group_ops.Codes.Service.{
  ShortCodeKind, ShortCodeEntry, ShortCodes, target_key_of, register, new_code, code_for,
  existing_code, label_of, resolve,
}
use qq_group_ops.Codes.Service.Consistent.{
  IsConsistent, resolve-existing, new-leads, new-words, new-pooled,
}

seed-grows :
    (host : Host) (c : String) (w : World) (k : String)
    → contains k w.pool ≡ true
    → contains k (seed_global_code host c w).pool ≡ true
unfolding seed_global_code
seed-grows host c w k h = ground (arith, h, contains-add k (host.to_lower_case (trim c)) w.pool)

module _ (host : Host) (below : (i : ℕ) → host.draw i < 36) (kind : ShortCodeKind) (target : String)
    (now : ℕ) (w w' : World) (s s' : ShortCodes) (c : String) (long : 0 < s.length)
    (v : IsConsistent host w s) (done : code_for host kind target now w s ≡ ok (c, w', s')) where
  new_code-state :
      lookup (target_key_of kind target) s.code_by_target ≡ none
      → (w1 : World) × (reserve_global_code host s.length w ≡ ok (c, w1))
        × (w' ≡ seed_global_code host c w1)
        × (s'.by_code
            ≡ insert
                (host.to_lower_case c)
                (record { code = c; kind = kind; target_id = target; created_at = now })
                s.by_code)
        × (s'.code_by_target ≡ insert (target_key_of kind target) c s.code_by_target)
  unfolding code_for new_code register
  new_code-state absent =
      let ((c1, w1), given, e) =
        >>=-eq-ok (reserve_global_code host s.length w) _ (rw absent at done) in
      let q = ok-injective _ (c, w', s') _ refl e in
      let same_c = ap (λ (t : String × World × ShortCodes). t.0) q in
      (
        w1,
        given ∙ ap (λ t. ok (t, w1)) same_c,
        sym (ap (λ (t : String × World × ShortCodes). t.1) q)
            ∙ ap (λ t. seed_global_code host t w1) same_c,
        sym (ap (λ (t : String × World × ShortCodes). t.2.by_code) q)
            ∙ ap
                (λ t.
                  insert (host.to_lower_case t)
                    (record { code = t; kind = kind; target_id = target; created_at = now })
                    s.by_code)
                same_c,
        sym (ap (λ (t : String × World × ShortCodes). t.2.code_by_target) q)
            ∙ ap (λ t. insert (target_key_of kind target) t s.code_by_target) same_c,
      )

  code_for-old :
      (c' : String)
      → lookup (target_key_of kind target) s.code_by_target ≡ some c'
      → ◌≡◌ {A = String × World × ShortCodes} (c', w, s) (c, w', s')
  unfolding code_for
  code_for-old c' there =
      ok-injective (c', w, s) (c, w', s') (ok (c', w, s)) refl (rw there at done)

  code_for-existing : (existing_code kind target s' ≡ some c) × IsConsistent host w' s'
  unfolding existing_code
  code_for-existing = elim (Option-cases (existing_code kind target s)) [
    | inl absent ↦
        let (w1, given, pool, codes, targets) = new_code-state absent in
        let e : ShortCodeEntry = record {
          code = c;
          kind = kind;
          target_id = target;
          created_at = now;
        } in
        let code_at = λ (k : String).
          ap (lookup k) codes ∙ lookup-insert k (host.to_lower_case c) e s.by_code in
        let target_at = λ (k : String).
          ap (lookup k) targets ∙ lookup-insert k (target_key_of kind target) c s.code_by_target in
        (
          target_at (target_key_of kind target) ∙ ground arith,
          record {
            leads =
                new-leads host below w w1 s s' kind target c e v given refl refl refl code_at
                  target_at;
            words =
                new-words host below w w1 s s' kind target c e v given refl refl refl code_at
                  target_at long;
            pooled =
                new-pooled host below w w1 s s' kind target c e v given refl refl refl code_at
                  target_at w'
                  (λ k h. ap (λ (t : World). contains k t.pool) pool ∙ seed-grows host c w1 k h);
          },
        )
    | inr (c', there) ↦
        subst
          (λ (t : String × World × ShortCodes).
            (lookup (target_key_of kind target) t.2.code_by_target ≡ some t.0)
            × IsConsistent host t.1 t.2)
          (code_for-old c' there) (there, v)
  ]

code_for-again :
    (host : Host) (kind : ShortCodeKind) (target : String) (later : ℕ) (w : World) (s : ShortCodes)
    (c : String)
    → existing_code kind target s ≡ some c
    → code_for host kind target later w s ≡ ok (c, w, s)
unfolding code_for existing_code
code_for-again host kind target later w s c there = rw there refl

-- For random numbers below 36, codes of some length, and a service whose codes lead back to their
-- ids: when it gives a code for an id, new or not, the label that is shown for the code is resolved
-- to the code, the kind and the id; it gives the same code when it is asked again, and changes
-- nothing then; and all its codes still lead back to their ids.
pub resolve-code_for :
    (host : Host) (below : (i : ℕ) → host.draw i < 36) (kind : ShortCodeKind) (target : String)
    (now later : ℕ) (w w' : World) (s s' : ShortCodes) (c : String)
    → 0 < s.length
    → IsConsistent host w s
    → code_for host kind target now w s ≡ ok (c, w', s')
    → (resolve host (label_of c) s' ≡ some (c, kind, target))
      × (code_for host kind target later w' s' ≡ ok (c, w', s'))
      × IsConsistent host w' s'
resolve-code_for host below kind target now later w w' s s' c long v done =
    let (there, v') = code_for-existing host below kind target now w w' s s' c long v done in
    (
      resolve-existing host w' s' kind target c v' there,
      code_for-again host kind target later w' s' c there,
      v',
    )
