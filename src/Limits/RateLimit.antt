-- ===== src/Limits/RateLimit.antt =====
-- src/adminApi/rateLimit.ts: a sliding window of request times for each key.
-- The limit is read at each call, as the source may be a function; so is the clock, twice.
pub mod Laws
use qq_group_ops.Base.{
  [], ℕ, ◌+◌, String, Bool, true, false, Option, none, some, List, ◌∷◌, ◌++◌, leb, ltb, length,
  filter, string_eq, if◌then◌else◌,
}
use qq_group_ops.Base.Dict.{Dict, lookup, insert}

pub record Limiter : Type 0 where
  pub hits : Dict String (List ℕ)
  pub window_ms : ℕ

abbrev times_or_empty : Option (List ℕ) → List ℕ
times_or_empty none = []
times_or_empty (some times) = times

-- `this.hits.get(key) ?? []`
unfoldable pub hits_of : String → Limiter → List ℕ
hits_of key l = times_or_empty (lookup key l.hits)

-- `at > now - windowMs`
abbrev pub in_window : ℕ → ℕ → ℕ → Bool
in_window window now at = ltb now (at + window)

-- `used`
unfoldable pub used : Limiter → ℕ → String → ℕ
unfolding hits_of
used l now key = length (filter (in_window l.window_ms now) (hits_of key l))

-- `allow`
unfoldable pub allow : ℕ → ℕ → ℕ → String → Limiter → Bool × Limiter
unfolding hits_of
allow limit now later key l =
    let recent = filter (in_window l.window_ms now) (hits_of key l) in
    if leb limit 0
    then (true, l)
    else if leb limit (length recent)
    then (false, record l { hits = insert key recent l.hits })
    else (true, record l { hits = insert key (recent ++ later ∷ []) l.hits })
