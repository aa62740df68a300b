-- ===== src/Limits/Retry/Laws.antt =====
-- Theorems on `retryWithBackoff` of src/core/retry.ts and the send throttle.
use qq_group_ops.Base.{
  [], ℕ, zero, suc, ◌+◌, ◌-◌, ◌≤◌, ◌<◌, ◌≡◌, refl, max, true, false, Option, none, some, List, ◌∷◌,
  ◌++◌, leb, length, length-append, ◌⊎◌, inl, inr, arith, Bool-cases,
}
use native.Mathlib.Decide.{dec_lt}
use mathlib.Core.Path.{subst}
use qq_group_ops.Base.Outcome.{Outcome, ok, thrown, Outcome-cases}
use qq_group_ops.Limits.Retry.{RetryOptions, resolve_delay, retry_loop, retry, send_gap}

module _ {E T : Type 0} (o : RetryOptions E) (task : ℕ → Outcome E T) where
  -- The attempt failed, and another one is allowed.
  abbrev pub GoesOn : ℕ → Type 0
  GoesOn k = (e : E) × (task k ≡ thrown e) × (k < o.max_attempts) × (o.should_retry e k ≡ true)

  -- The attempt succeeded, or no other one is allowed.
  abbrev pub IsLast : ℕ → Type 0
  IsLast k =
      ((v : T) × (task k ≡ ok v))
      ⊎ ((e : E) × (task k ≡ thrown e) × ((o.max_attempts ≤ k) ⊎ (o.should_retry e k ≡ false)))

  -- From the attempt `start`, with `slept` delays before: `last` ends the loop.
  pub record Ends (start : ℕ) (slept : List ℕ) (found : Option (Outcome E T × List ℕ))
      : Type 0 where
    pub last : ℕ
    pub delays : List ℕ
    pub result : found ≡ some (task last, delays)
    pub from : start ≤ last
    pub ended : IsLast last
    pub before : (j : ℕ) → start ≤ j → j < last → GoesOn j
    pub counted : length delays + start ≡ length slept + last

  module _ (start : ℕ) (slept : List ℕ) (found : Option (Outcome E T × List ℕ)) where
    Ends-here : found ≡ some (task start, slept) → IsLast start → Ends start slept found
    Ends-here e last = record {
      last = start;
      delays = slept;
      result = e;
      from = omega arith;
      ended = last;
      before = λ j a b. absurd (omega arith);
      counted = refl;
    }

    Ends-later :
        (delay : ℕ)
        → GoesOn start
        → Ends (suc start) (slept ++ delay ∷ []) found
        → Ends start slept found
    Ends-later delay on h = record {
      last = h.last;
      delays = h.delays;
      result = h.result;
      from = omega (arith, h.from);
      ended = h.ended;
      before = λ j a b. elim (dec_lt start j) [
        | yes p ↦ h.before j p b
        | no p ↦ let same : start ≡ j = omega arith in subst GoesOn same on
      ];
      counted = omega (arith, h.counted, length-append slept (delay ∷ []));
    }

  retry_loop-Ends :
      (fuel start : ℕ) (slept : List ℕ)
      → o.max_attempts < fuel + start
      → 0 < fuel
      → Ends start slept (retry_loop o task fuel start slept)
  unfolding retry_loop
  retry_loop-Ends zero start slept h pos = absurd (omega arith)
  retry_loop-Ends (suc fuel) start slept h pos = elim (Outcome-cases (task start)) [
    | inl (v, e) ↦ Ends-here start slept _ (rw (e, retry_loop)) (inl (v, e))
    | inr (x, e) ↦ elim (Bool-cases (leb o.max_attempts start)) [
      | inl over ↦
          Ends-here start slept _ (rw (e, retry_loop) (ground (arith, over)))
            (inr (x, e, inl (ground arith)))
      | inr under ↦ elim (Bool-cases (o.should_retry x start)) [
        | inl again ↦
            let delay = resolve_delay o start x in
            let rest =
              retry_loop-Ends fuel (suc start) (slept ++ delay ∷ []) (omega arith) (ground arith) in
            let same : retry_loop o task (suc fuel) start slept
                ≡ retry_loop o task fuel (suc start) (slept ++ delay ∷ []) =
              rw (e, retry_loop) (ground (arith, under, again)) in
            Ends-later start slept _ delay (x, e, ground arith, again) (rw same rest)
        | inr stop ↦
            Ends-here start slept _ (rw (e, retry_loop) (ground (arith, under, stop)))
              (inr (x, e, inr stop))
      ]
    ]
  ]

  -- A retried task always ends. It ends with the outcome of one attempt, the first that succeeds,
  -- that is the last allowed or that may not be retried; the attempts before it failed and allowed
  -- another; their number is the number of delays, and at most `max_attempts` are made, or one.
  pub retry-Ends :
      (e : Ends 1 [] (retry o task)) × (e.last ≤ max 1 o.max_attempts)
      × (length e.delays + 1 ≡ e.last)
  unfolding retry
  retry-Ends =
      let e : Ends 1 [] (retry_loop o task (suc o.max_attempts) 1 []) =
        retry_loop-Ends (suc o.max_attempts) 1 [] (omega arith) (omega arith) in
      (e, at-most e, omega (arith, e.counted))
    where
      at-most :
          (e : Ends 1 [] (retry_loop o task (suc o.max_attempts) 1 []))
          → e.last ≤ max 1 o.max_attempts
      at-most e = elim (dec_lt 1 e.last) [
        | yes p ↦ omega (arith, (e.before (e.last - 1) (omega arith) (omega arith)).2)
        | no p ↦ omega arith
      ]

-- The times at which sends start, each given by the time it was asked for and by how much the
-- sleep overran.
unfoldable pub send_starts : ℕ → Option ℕ → List (ℕ × ℕ) → List ℕ
send_starts min_interval last [] = []
send_starts min_interval last ((now, late) ∷ sends) =
    let start = now + send_gap min_interval last now + late in
    start ∷ send_starts min_interval (some start) sends

-- Each send starts at least the interval after the one before it.
abbrev pub AreSpaced : ℕ → List ℕ → Type 0
AreSpaced min_interval [] = Unit
AreSpaced min_interval (a ∷ []) = Unit
AreSpaced min_interval (a ∷ b ∷ rest) = (a + min_interval ≤ b) × AreSpaced min_interval (b ∷ rest)

send_starts-after :
    (min_interval last : ℕ) (sends : List (ℕ × ℕ))
    → AreSpaced min_interval (last ∷ send_starts min_interval (some last) sends)
unfolding send_starts send_gap
send_starts-after min_interval last [] = tt
send_starts-after min_interval last ((now, late) ∷ sends) =
    (omega arith, send_starts-after min_interval (now + (last + min_interval - now) + late) sends)

-- However the sends are asked for, each starts at least the interval after the one before it.
pub send_starts-AreSpaced :
    (min_interval : ℕ) (sends : List (ℕ × ℕ))
    → AreSpaced min_interval (send_starts min_interval none sends)
unfolding send_starts
send_starts-AreSpaced min_interval [] = tt
send_starts-AreSpaced min_interval ((now, late) ∷ sends) = send_starts-after min_interval _ sends
