-- ===== src/Codes/Laws.antt =====
-- Theorems on the pool of codes.
use qq_group_ops.Base.{
  ℕ, zero, suc, ◌+◌, ◌*◌, ◌<◌, ◌∙◌, ◌≡◌, refl, String, Bool, true, false, arith, contains,
  contains-add, string_eq, Bool-cases, inl, inr,
}
use mathlib.Core.Path.{subst}
use qq_group_ops.Base.Outcome.{ok, >>=-eq-ok, ok-injective}
use qq_group_ops.Core.Platform.{Host, World}
use qq_group_ops.Codes.{
  random_code, reserve_loop, reserve_global_code, generate_loop, generate_code, short_code_length,
  max_attempts,
}

module _ (host : Host) where
  -- A code was free, and is taken from then on, with those that were taken before.
  pub record IsReserved (code : String) (w w' : World) : Type 0 where
    pub was_free : contains (host.to_lower_case code) w.pool ≡ false
    pub is_taken : contains (host.to_lower_case code) w'.pool ≡ true
    pub keeps : (c : String) → contains c w.pool ≡ true → contains c w'.pool ≡ true
    pub same_calls : w'.calls ≡ w.calls
    pub same_log : w'.audit_log ≡ w.audit_log

  reserve_loop-IsReserved :
      (attempts length : ℕ) (w w' : World) (code : String)
      → reserve_loop attempts host length w ≡ ok (code, w')
      → IsReserved code w w'
  unfolding reserve_loop
  reserve_loop-IsReserved zero length w w' code e = cc
  reserve_loop-IsReserved (suc attempts) length w w' code e =
      let drawn : World = record w { drawn = w.drawn + length } in
      let key = host.to_lower_case (random_code length host.draw w.drawn) in
      elim (Bool-cases (contains key w.pool)) [
        | inl used ↦
            let r = reserve_loop-IsReserved attempts length drawn w' code (rw used at e) in
            record {
              was_free = r.was_free;
              is_taken = r.is_taken;
              keeps = r.keeps;
              same_calls = r.same_calls;
              same_log = r.same_log;
            }
        | inr free ↦
            let e' = rw free at e in
            record {
              was_free = ground (arith, free, e');
              is_taken = ground (arith, e', contains-add (host.to_lower_case code) key w.pool);
              keeps = λ c h. ground (arith, e', contains-add c key w.pool, h);
              same_calls = ground (arith, e');
              same_log = ground (arith, e');
            }
      ]

  reserve_loop-returns :
      (attempts length i : ℕ) (w : World)
      → i < attempts
      → contains (host.to_lower_case (random_code length host.draw (w.drawn + i * length))) w.pool
        ≡ false
      → (r : String × World) × (reserve_loop attempts host length w ≡ ok r)
  unfolding reserve_loop
  reserve_loop-returns zero length i w h free = elim h [ ]
  reserve_loop-returns (suc attempts) length zero w h free =
      let at : w.drawn + 0 * length ≡ w.drawn = omega arith in rw (rw at at free) (_, refl)
  reserve_loop-returns (suc attempts) length (suc i) w h free =
      let drawn : World = record w { drawn = w.drawn + length } in
      let at : w.drawn + suc i * length ≡ w.drawn + length + i * length = grind arith in
      elim (Bool-cases
        (contains (host.to_lower_case (random_code length host.draw w.drawn)) w.pool)) [
          | inl used ↦
              rw used (reserve_loop-returns attempts length i drawn (omega arith) (rw at at free))
          | inr ready ↦ rw ready (_, refl)
        ]

  -- If one of the first twenty texts that are drawn is not yet a code, a code is given, and not an
  -- error: it is one that was free, is taken afterwards, and leaves those taken before taken; and
  -- no call of the platform is made.
  pub reserve_global_code_lem :
      (length i : ℕ) (w : World)
      → i < max_attempts
      → contains (host.to_lower_case (random_code length host.draw (w.drawn + i * length))) w.pool
        ≡ false
      → (code : String) × (w' : World) × (reserve_global_code host length w ≡ ok (code, w'))
        × IsReserved code w w'
  unfolding reserve_global_code
  reserve_global_code_lem length i w h free =
      let ((code, w'), e) = reserve_loop-returns max_attempts length i w h free in
      (code, w', e, reserve_loop-IsReserved max_attempts length w w' code e)

  pub reserve_global_code-IsReserved :
      (length : ℕ) (w w' : World) (code : String)
      → reserve_global_code host length w ≡ ok (code, w')
      → IsReserved code w w'
  unfolding reserve_global_code
  reserve_global_code-IsReserved length w w' code e =
      reserve_loop-IsReserved max_attempts length w w' code e

  -- A code that is given is one of the random texts.
  pub reserve_loop-random :
      (attempts length : ℕ) (w w' : World) (code : String)
      → reserve_loop attempts host length w ≡ ok (code, w')
      → (at : ℕ) × (◌≡◌ {A = String} (random_code length host.draw at) code)
  unfolding reserve_loop
  reserve_loop-random zero length w w' code e = cc
  reserve_loop-random (suc attempts) length w w' code e =
      let drawn : World = record w { drawn = w.drawn + length } in
      elim (Bool-cases
        (contains (host.to_lower_case (random_code length host.draw w.drawn)) w.pool)) [
          | inl used ↦ reserve_loop-random attempts length drawn w' code (rw used at e)
          | inr free ↦ (w.drawn, let e' = rw free at e in ground (arith, e'))
        ]

  IsReserved-after :
      (candidate code : String) (w v w' : World)
      → IsReserved candidate w v
      → IsReserved code v w'
      → IsReserved code w w'
  IsReserved-after candidate code w v w' r q = record {
    was_free = elim (Bool-cases (contains (host.to_lower_case code) w.pool)) [
      | inl used ↦ ground (arith, r.keeps (host.to_lower_case code) used, q.was_free)
      | inr free ↦ free
    ];
    is_taken = q.is_taken;
    keeps = λ c h. q.keeps c (r.keeps c h);
    same_calls = q.same_calls ∙ r.same_calls;
    same_log = q.same_log ∙ r.same_log;
  }

  generate_loop_lem :
      (attempts : ℕ) (message : String) (taken : String → Bool) (w w' : World) (code : String)
      → generate_loop attempts host message taken w ≡ ok (code, w')
      → (taken code ≡ false) × IsReserved code w w'
  unfolding generate_loop reserve_global_code
  generate_loop_lem zero message taken w w' code e = cc
  generate_loop_lem (suc attempts) message taken w w' code e =
      let ((candidate, v), reserved, e') =
        >>=-eq-ok (reserve_global_code host short_code_length w) _ e in
      let r = reserve_loop-IsReserved max_attempts short_code_length w v candidate reserved in
      elim (Bool-cases (taken candidate)) [
        | inl used ↦
            let (t, q) = generate_loop_lem attempts message taken v w' code (rw used at e') in
            (t, IsReserved-after candidate code w v w' r q)
        | inr free ↦
            subst (λ (p : String × World). (taken p.0 ≡ false) × IsReserved p.0 w p.1)
              (ok-injective (candidate, v) (code, w') (ok (candidate, v)) refl (rw free at e'))
              (free, r)
      ]

  -- When `generateCode` gives a code, no record that it was asked about has it, no other code of
  -- the process is the same up to case, and it is taken from then on.
  pub generate_code_lem :
      (message : String) (taken : String → Bool) (w w' : World) (code : String)
      → generate_code host message taken w ≡ ok (code, w')
      → (taken code ≡ false) × IsReserved code w w'
  unfolding generate_code
  generate_code_lem message taken w w' code e =
      generate_loop_lem max_attempts message taken w w' code e
