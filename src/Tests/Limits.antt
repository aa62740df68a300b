-- ===== src/Tests/Limits.antt =====
-- Ordering, the write queue, quotas, rate limits and retries at concrete inputs.
use qq_group_ops.Base.{
  some, [], ℕ, ◌+◌, ◌≤◌, ◌≡◌, refl, String, true, none, ◌∷◌, arith, string_eq, nat_eq, length,
  count, ltb, max, if◌then◌else◌,
}
use qq_group_ops.Base.Dict.{lookup}
use qq_group_ops.Base.Outcome.{Outcome, ok, thrown}
use qq_group_ops.Core.WriteQueue.{WriteQueue, pending, flush}
use qq_group_ops.Core.WriteQueue.Laws.{turns, left_by, errors_of, last_or, flush_lem}
use qq_group_ops.Limits.PassiveReply.{Quota, check}
use qq_group_ops.Limits.PassiveReply.Laws.{record_all, check-record_all}
use qq_group_ops.Limits.RateLimit.{Limiter, hits_of, in_window}
use qq_group_ops.Limits.RateLimit.Laws.{run, run-le-limit}
use qq_group_ops.Limits.Retry.{RetryOptions, retry}
use qq_group_ops.Limits.Retry.Laws.{Ends, retry-Ends}

-- Adds two, empties the database and fails then, adds five.
abbrev queue : WriteQueue ℕ
queue = record {
  tasks =
      record { label = "a"; run = λ n. (n + 2, none) }
      ∷ record { label = "b"; run = λ n. (0, some "locked") }
      ∷ record { label = "c"; run = λ n. (n + 5, none) }
      ∷ [];
  failure_count = 0;
  last_failure = none;
}

flush_lem_example :
    let ran = turns queue.tasks 1 in
    (pending (flush (queue, 1)).0 ≡ 0)
    × ((flush (queue, 1)).1 ≡ left_by ran 1)
    × ((flush (queue, 1)).0.failure_count ≡ 0 + length (errors_of ran))
    × ((flush (queue, 1)).0.last_failure ≡ last_or none (errors_of ran))
flush_lem_example = flush_lem queue 1

abbrev quota : Quota
quota = record {
  entries = ("m1", record { replies = 4; first_at = 10 }) ∷ [];
  max_replies = 4;
  window_ms = 300;
  cache_size = 2;
}

check-record_all_example :
    (check (record_all (30 ∷ 40 ∷ 50 ∷ []) "m2" quota) 60 60 "m2").allowed ≡ ltb 3 4
unfolding lookup string_eq
check-record_all_example =
    check-record_all "m2" 30 (40 ∷ 50 ∷ []) 60 60 quota refl (omega arith)
      (omega arith, (omega arith, tt)) (omega arith)

abbrev limiter : Limiter
limiter = record { hits = ("1.2.3.4", 10 ∷ 20 ∷ []) ∷ []; window_ms = 60 }

run-le-limit_example :
    count (in_window 60 40) (run 2 "5.6.7.8" ((10, 10) ∷ (20, 21) ∷ (30, 30) ∷ []) [] limiter).0 ≤ 2
unfolding hits_of lookup string_eq
run-le-limit_example =
    run-le-limit 2 "5.6.7.8" ((10, 10) ∷ (20, 21) ∷ (30, 30) ∷ []) limiter 40 (omega arith)
      (omega arith, omega arith, (omega arith, omega arith, (omega arith, omega arith, tt))) refl
      (omega arith)

abbrev options : RetryOptions String
options = record {
  max_attempts = 3;
  initial_delay_ms = 100;
  max_delay_ms = 1000;
  factor = 2;
  jitter = 1;
  jitter_den = 5;
  draw = λ attempt. 1;
  draw_den = 2;
  delay_for = λ error attempt. none;
  should_retry = λ error attempt. true;
}

-- It succeeds at the second attempt.
abbrev task : ℕ → Outcome String ℕ
task attempt = if ltb attempt 2 then thrown "busy" else ok attempt

retry-Ends_example :
    (e : Ends options task 1 [] (retry options task)) × (e.last ≤ max 1 3)
    × (length e.delays + 1 ≡ e.last)
retry-Ends_example = retry-Ends options task
