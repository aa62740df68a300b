-- ===== src/Limits/RateLimit/Laws.antt =====
-- Theorems on `allow` of src/adminApi/rateLimit.ts and its runs.
use qq_group_ops.Base.{
  [], ℕ, ◌+◌, ◌≤◌, ◌<◌, ◌≡◌, refl, ◌∙◌, String, Bool, true, false, List, ◌∷◌, ◌++◌, leb, length,
  ◌==◌, string_eq, if◌then◌else◌, arith, ◌↔◌, Bool-cases, inl, inr, filter, count, count-append,
  count-le-length,
}
use Prim.Native.Nat.{zero-le}
use qq_group_ops.Base.Dict.{insert, lookup-insert}
use qq_group_ops.Limits.RateLimit.{Limiter, hits_of, in_window, used, allow}

-- A filter that a test implies does not change how many pass the test.
count-filter {ℓ} :
    {A : Type ℓ} (p q : A → Bool) (xs : List A)
    → ((a : A) → q a ≡ true → p a ≡ true)
    → count q (filter p xs) ≡ count q xs
unfolding count filter
count-filter p q [] h = refl
count-filter p q (x ∷ xs) h = ground (arith, h x, count-filter p q xs h)

-- `allow` refuses exactly when a limit is set and the window holds that many requests; other keys
-- keep their requests.
pub allow_lem :
    (limit now later : ℕ) (key : String) (l : Limiter)
    → ((allow limit now later key l).0 ≡ false ↔ ((0 < limit) × (limit ≤ used l now key)))
      × ((k : String)
          → (k == key) ≡ false
          → hits_of k (allow limit now later key l).1 ≡ hits_of k l)
unfolding allow used hits_of
allow_lem limit now later key l = (
  ground arith,
  λ k n. ground (
    arith,
    lookup-insert k key (filter (in_window l.window_ms now) (hits_of key l)) l.hits,
    lookup-insert k key (filter (in_window l.window_ms now) (hits_of key l) ++ later ∷ []) l.hits,
  ),
)

-- The calls for one key under one limit, by the two readings of the clock in each, and the times
-- of the requests that were accepted.
unfoldable pub run : ℕ → String → List (ℕ × ℕ) → List ℕ → Limiter → List ℕ × Limiter
run limit key [] accepted l = (accepted, l)
run limit key ((now, later) ∷ calls) accepted l =
    let (done, l') = allow limit now later key l in
    run limit key calls (if done then accepted ++ later ∷ [] else accepted) l'

-- The clock never goes back.
abbrev pub Ascending : ℕ → List (ℕ × ℕ) → Type 0
Ascending start [] = Unit
Ascending start ((now, later) ∷ calls) = (start ≤ now) × (now ≤ later) × Ascending later calls

abbrev pub last_time : ℕ → List (ℕ × ℕ) → ℕ
last_time start [] = start
last_time start ((now, later) ∷ calls) = last_time later calls

-- How many of the times lie in the window that ends at `t`.
abbrev in_window_count : ℕ → ℕ → List ℕ → ℕ
in_window_count window t = count (in_window window t)

-- From `start` on, the stored times and the accepted ones fill each window alike, within the limit.
record Tracks (limit : ℕ) (key : String) (start : ℕ) (accepted : List ℕ) (l : Limiter)
    : Type 0 where
  same :
      (t : ℕ)
      → start ≤ t
      → in_window_count l.window_ms t accepted ≡ in_window_count l.window_ms t (hits_of key l)
  bounded : (t : ℕ) → start ≤ t → in_window_count l.window_ms t accepted ≤ limit

module _ (limit : ℕ) (key : String) (l : Limiter) (live : 0 < limit) (now later : ℕ) where
  abbrev recent : List ℕ
  recent = filter (in_window l.window_ms now) (hits_of key l)

  count-recent :
      (t : ℕ)
      → now ≤ t
      → in_window_count l.window_ms t recent ≡ in_window_count l.window_ms t (hits_of key l)
  count-recent t h =
      count-filter (in_window l.window_ms now) (in_window l.window_ms t) (hits_of key l)
        (λ a p. ground arith)

  allow-full :
      leb limit (length recent) ≡ true
      → allow limit now later key l ≡ (false, record l { hits = insert key recent l.hits })
  unfolding allow
  allow-full e = ground (arith, e)

  allow-free :
      leb limit (length recent) ≡ false
      → allow limit now later key l
        ≡ (true, record l { hits = insert key (recent ++ later ∷ []) l.hits })
  unfolding allow
  allow-free e = ground (arith, e)

  hits_of-insert :
      (times : List ℕ) → hits_of key (record l { hits = insert key times l.hits }) ≡ times
  unfolding hits_of
  hits_of-insert times = ground (arith, lookup-insert key key times l.hits)

  count-concat :
      (t : ℕ) (xs : List ℕ)
      → in_window_count l.window_ms t (xs ++ later ∷ [])
        ≡ in_window_count l.window_ms t xs + in_window_count l.window_ms t (later ∷ [])
  count-concat t xs = count-append (in_window l.window_ms t) xs (later ∷ [])

  one-at-most : (t : ℕ) → in_window_count l.window_ms t (later ∷ []) ≤ 1
  one-at-most t = count-le-length (in_window l.window_ms t) (later ∷ [])

  allow-Tracks :
      (start : ℕ) (accepted : List ℕ)
      → start ≤ now
      → now ≤ later
      → Tracks limit key start accepted l
      → Tracks limit key later
          (if (allow limit now later key l).0 then accepted ++ later ∷ [] else accepted)
          (allow limit now later key l).1
  allow-Tracks start accepted a b h = elim (Bool-cases (leb limit (length recent))) [
    | inl full ↦ rw (allow-full full) record {
      same = λ t k.
          rw (hits_of-insert recent)
            (omega (arith, h.same t (omega arith), count-recent t (omega arith)));
      bounded = λ t k. h.bounded t (omega arith);
    }
    | inr free ↦ rw (allow-free free) record {
      same = λ t k.
          rw (hits_of-insert (recent ++ later ∷ []), count-concat t accepted, count-concat t recent)
            (omega (arith, h.same t (omega arith), count-recent t (omega arith)));
      bounded = λ t k. rw (count-concat t accepted) (
          ground (
            arith,
            h.same t (omega arith),
            count-recent t (omega arith),
            one-at-most t,
            count-le-length (in_window l.window_ms t) recent,
            free,
          ));
    }
  ]

window-allow :
    (limit now later : ℕ) (key : String) (l : Limiter)
    → (allow limit now later key l).1.window_ms ≡ l.window_ms
unfolding allow
window-allow limit now later key l = ground arith

run-Tracks :
    (limit : ℕ) (key : String) (calls : List (ℕ × ℕ)) (start : ℕ) (accepted : List ℕ) (l : Limiter)
    → 0 < limit
    → Ascending start calls
    → Tracks limit key start accepted l
    → Tracks limit key
        (last_time start calls)
        (run limit key calls accepted l).0
        (run limit key calls accepted l).1
unfolding run
run-Tracks limit key [] start accepted l live asc h = h
run-Tracks limit key ((now, later) ∷ calls) start accepted l live (a, b, asc) h =
    run-Tracks limit key calls later _ _ live asc
      (allow-Tracks limit key l live now later start accepted a b h)

window-run :
    (limit : ℕ) (key : String) (calls : List (ℕ × ℕ)) (accepted : List ℕ) (l : Limiter)
    → (run limit key calls accepted l).1.window_ms ≡ l.window_ms
unfolding run
window-run limit key [] accepted l = refl
window-run limit key ((now, later) ∷ calls) accepted l =
    window-run limit key calls _ _ ∙ window-allow limit now later key l

-- From a limiter with no request of the key, under a positive limit and a clock that never goes
-- back, the requests accepted so far fill no window that ends from the last call on beyond the limit.
pub run-le-limit :
    (limit : ℕ) (key : String) (calls : List (ℕ × ℕ)) (l : Limiter) (t : ℕ)
    → 0 < limit
    → Ascending 0 calls
    → hits_of key l ≡ []
    → last_time 0 calls ≤ t
    → count (in_window l.window_ms t) (run limit key calls [] l).0 ≤ limit
unfolding count
run-le-limit limit key calls l t live asc e h =
    let start : Tracks limit key 0 [] l = record { same = λ t k. rw e; bounded = λ t k. zero-le } in
    let tracks = run-Tracks limit key calls 0 [] l live asc start in
    rw (window-run limit key calls [] l) at (tracks.bounded t h)
