-- ===== src/Core/WriteQueue.antt =====
-- src/db/writeQueue.ts: writes in the order of their queuing; one that fails stops no other.
-- A task runs on the database, a type of the client's: it leaves a database, also when it throws, since
-- a task may make several changes and throw after some of them; and it may throw a message.
pub mod Laws
use qq_group_ops.Base.{[], ℕ, ◌+◌, String, Option, none, some, List, ◌∷◌, ◌++◌, length}

module _ (D : Type 0) where
  pub record Task : Type 0 where
    pub label : String
    pub run : D → D × Option String

  pub record WriteQueue : Type 0 where
    pub tasks : List Task
    pub failure_count : ℕ
    pub last_failure : Option (String × String)

module _ {D : Type 0} where
  unfoldable pub enqueue : Task D → WriteQueue D → WriteQueue D
  enqueue task q = record q { tasks = q.tasks ++ task ∷ [] }

  -- `get pending()`
  unfoldable pub pending : WriteQueue D → ℕ
  pending q = length q.tasks

  -- What a task that has run does to the counters; the database is the one it left.
  settle : Task D → D × Option String → WriteQueue D → WriteQueue D × D
  settle task (left, none) q = (q, left)
  settle task (left, some message) q = (
    record q { failure_count = q.failure_count + 1; last_failure = some (task.label, message) },
    left,
  )

  -- The chain of `tail`: each task runs when those before it are done.
  drain : List (Task D) → WriteQueue D × D → WriteQueue D × D
  drain [] s = s
  drain (task ∷ rest) (q, before) =
      drain rest (settle task (task.run before) (record q { tasks = rest }))

  -- `await flush()`, when no task queues another.
  unfoldable pub flush : WriteQueue D × D → WriteQueue D × D
  unfolding drain settle
  flush (q, before) = drain q.tasks (q, before)
