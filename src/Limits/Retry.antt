-- ===== src/Limits/Retry.antt =====
-- src/core/retry.ts, and the spacing of src/adapters/sendThrottle.ts.
-- The task is a parameter: its outcome at each attempt. So is what `random` gives at each attempt,
-- the fraction `draw / draw_den`. The jitter ratio is the fraction `jitter / jitter_den`, and the
-- delay is computed exactly, where the source rounds a floating-point number.
pub mod Laws
use qq_group_ops.Base.{
  [], ℕ, zero, suc, ◌+◌, ◌-◌, ◌*◌, ◌/◌, ◌^◌, min, Bool, not, Option, none, some, List, ◌∷◌, ◌++◌,
  leb, if◌then◌else◌,
}
use qq_group_ops.Base.Outcome.{Outcome, ok, thrown}

pub record RetryOptions (E : Type 0) : Type 0 where
  pub max_attempts : ℕ
  pub initial_delay_ms : ℕ
  pub max_delay_ms : ℕ
  pub factor : ℕ
  pub jitter : ℕ
  pub jitter_den : ℕ
  pub draw : ℕ → ℕ
  pub draw_den : ℕ
  pub delay_for : E → ℕ → Option ℕ
  pub should_retry : E → ℕ → Bool

module _ {E : Type 0} (o : RetryOptions E) where
  -- `Math.min(maxDelayMs, initialDelayMs * factor ** (attempt - 1))`
  unfoldable pub raw_delay : ℕ → ℕ
  raw_delay attempt = min o.max_delay_ms (o.initial_delay_ms * o.factor ^ (attempt - 1))

  -- `Math.max(0, Math.round(raw + raw * jitterRatio * (random() * 2 - 1)))`, over the denominator
  -- `jitter_den * draw_den`; a negative sum is 0.
  unfoldable pub jittered : ℕ → ℕ → ℕ
  jittered raw draw =
      let den = o.jitter_den * o.draw_den in
      let num = raw * (den + 2 * o.jitter * draw) - raw * o.jitter * o.draw_den in
      (2 * num + den) / (2 * den)

  override_or : ℕ → Option ℕ → ℕ
  override_or attempt none = jittered (raw_delay attempt) (o.draw attempt)
  override_or attempt (some delay) = delay

  -- `resolveDelay`
  unfoldable pub resolve_delay : ℕ → E → ℕ
  unfolding override_or raw_delay jittered
  resolve_delay attempt error = override_or attempt (o.delay_for error attempt)

  module _ {T : Type 0} (task : ℕ → Outcome E T) where
    -- The loop of `retryWithBackoff` from an attempt on, with the delays slept so far. It is `none`
    -- when the fuel runs out, which `retry` never lets happen.
    unfoldable pub retry_loop : ℕ → ℕ → List ℕ → Option (Outcome E T × List ℕ)
    retry_loop zero attempt slept = none
    retry_loop (suc fuel) attempt slept = elim (task attempt) [
      | ok value ↦ some (ok value, slept)
      | thrown error ↦
          let again = retry_loop fuel (suc attempt) (slept ++ resolve_delay attempt error ∷ []) in
          if leb o.max_attempts attempt
          then some (thrown error, slept)
          else if not (o.should_retry error attempt)
          then some (thrown error, slept)
          else again
    ]

    -- `retryWithBackoff`
    unfoldable pub retry : Option (Outcome E T × List ℕ)
    unfolding retry_loop
    retry = retry_loop (suc o.max_attempts) 1 []

-- `SendThrottle.execute`: how long to wait before a send, at the time `now`; there may have been
-- no send before.
unfoldable pub send_gap : ℕ → Option ℕ → ℕ → ℕ
send_gap min_interval none now = 0
send_gap min_interval (some last) now = last + min_interval - now
