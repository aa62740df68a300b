-- ===== src/Core/WriteQueue/Laws.antt =====
-- Theorems on `flush` of src/db/writeQueue.ts.
use qq_group_ops.Base.{
  ◌∙◌, [], ◌+◌, ◌≡◌, refl, String, Option, none, some, List, ◌∷◌, length, arith, ap, inl, inr,
  Option-cases,
}
use mathlib.Core.Option.{some-injective}
use qq_group_ops.Core.WriteQueue.{Task, WriteQueue, pending, settle, drain, flush}

-- An error before others, with its label.
abbrev errors_before : Option String → String → List (String × String) → List (String × String)
errors_before none label errors = errors
errors_before (some message) label errors = (label, message) ∷ errors

-- The last error of a list, or the one kept before.
abbrev pub last_or : Option (String × String) → List (String × String) → Option (String × String)
last_or e [] = e
last_or e (x ∷ xs) = last_or (some x) xs

module _ {D : Type 0} where
  -- The tasks with the database that each finds when its turn comes: what the tasks before it left,
  -- whether they threw or not.
  abbrev pub turns : List (Task D) → D → List (Task D × D)
  turns [] d = []
  turns (task ∷ rest) d = (task, d) ∷ turns rest (task.run d).0

  -- What the last of the turns leaves.
  abbrev pub left_by : List (Task D × D) → D → D
  left_by [] d = d
  left_by ((task, found) ∷ rest) d = left_by rest (task.run found).0

  -- The errors that the turns throw, each with its task's label.
  abbrev pub errors_of : List (Task D × D) → List (String × String)
  errors_of [] = []
  errors_of ((task, found) ∷ rest) = errors_before (task.run found).1 task.label (errors_of rest)

  settle-none :
      (task : Task D) (r : D × Option String) (q : WriteQueue D)
      → r.1 ≡ none
      → settle task r q ≡ (q, r.0)
  unfolding settle
  settle-none task (left, none) q e = refl
  settle-none task (left, some m) q e = cc

  settle-some :
      (task : Task D) (r : D × Option String) (q : WriteQueue D) (m : String)
      → r.1 ≡ some m
      → settle task r q ≡ (
        record q { failure_count = q.failure_count + 1; last_failure = some (task.label, m) },
        r.0,
      )
  unfolding settle
  settle-some task (left, none) q m e = cc
  settle-some task (left, some n) q m e =
      ap
        (λ t. (
          record q { failure_count = q.failure_count + 1; last_failure = some (task.label, t) },
          left,
        ))
        (some-injective n m e)

  drain-cons :
      (task : Task D) (rest : List (Task D)) (q : WriteQueue D) (d : D)
      → drain (task ∷ rest) (q, d)
        ≡ drain rest (settle task (task.run d) (record q { tasks = rest }))
  unfolding drain
  drain-cons task rest q d = refl

  drain-nil : (q : WriteQueue D) (d : D) → drain [] (q, d) ≡ (q, d)
  unfolding drain
  drain-nil q d = refl

  drain_lem :
      (tasks : List (Task D)) (q : WriteQueue D) (d : D)
      → q.tasks ≡ tasks
      → let after = drain tasks (q, d) in
        (after.0.tasks ≡ [])
        × (after.1 ≡ left_by (turns tasks d) d)
        × (after.0.failure_count ≡ q.failure_count + length (errors_of (turns tasks d)))
        × (after.0.last_failure ≡ last_or q.last_failure (errors_of (turns tasks d)))
  drain_lem [] q d h = rw (drain-nil q d) (h, refl, omega arith, refl)
  drain_lem (task ∷ rest) q d h = elim (Option-cases (task.run d).1) [
    | inl e ↦
        let q' : WriteQueue D = record q { tasks = rest } in
        rw (drain-cons task rest q d, settle-none task (task.run d) q' e, e)
          (drain_lem rest q' (task.run d).0 refl)
    | inr (m, e) ↦
        let q' : WriteQueue D = record q {
          tasks = rest;
          failure_count = q.failure_count + 1;
          last_failure = some (task.label, m);
        } in
        let (a, b, c, l) = drain_lem rest q' (task.run d).0 refl in
        rw
          (
            drain-cons task rest q d,
            settle-some task (task.run d) (record q { tasks = rest }) m e,
            e,
          )
          (a, b, c ∙ omega arith, l)
  ]

  -- Each queued write runs once, in the order of the queuing, on the database that those before it
  -- left, also where they threw; so after `flush` no write is pending, the database is what the last
  -- one left, the failures of all are counted on, and the error kept is that of the last that threw.
  pub flush_lem :
      (q : WriteQueue D) (d : D)
      → let ran = turns q.tasks d in
        (pending (flush (q, d)).0 ≡ 0)
        × ((flush (q, d)).1 ≡ left_by ran d)
        × ((flush (q, d)).0.failure_count ≡ q.failure_count + length (errors_of ran))
        × ((flush (q, d)).0.last_failure ≡ last_or q.last_failure (errors_of ran))
  unfolding flush pending
  flush_lem q d = let (a, b, c, l) = drain_lem q.tasks q d refl in (ap length a, b, c, l)
