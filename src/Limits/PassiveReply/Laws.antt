-- ===== src/Limits/PassiveReply/Laws.antt =====
-- Theorems on `check` and `record` of src/adapters/passiveReplyQuota.ts.
use qq_group_ops.Base.{
  [], ℕ, suc, ◌+◌, ◌≤◌, ◌<◌, ◌≡◌, refl, ◌∙◌, String, true, false, none, some, List, ◌∷◌, ltb,
  length, string_eq, arith, Option-cases, inl, inr,
}
use mathlib.Core.Path.{ap₂}
use native.Mathlib.Nat.{add-zero, add-suc, suc-add}
use qq_group_ops.Base.Dict.{Dict, lookup, insert, lookup-insert}
use qq_group_ops.Limits.PassiveReply.{Entry, Quota, decide, check, evict, next_entry, record_reply}

evict-length : (size : ℕ) (d : Dict String Entry) → length (evict size d) ≤ size
unfolding evict
evict-length size [] = omega arith
evict-length size (entry ∷ rest) = ground (arith, evict-length size rest)

evict-of_small : (size : ℕ) (d : Dict String Entry) → length d ≤ size → evict size d ≡ d
unfolding evict
evict-of_small size [] h = refl
evict-of_small size (entry ∷ rest) h = ground arith

-- Recording a reply never leaves more messages than the cache holds.
pub record_reply-length :
    (now later : ℕ) (message : String) (q : Quota)
    → length (record_reply now later message q).entries ≤ q.cache_size
unfolding record_reply
record_reply-length now later message q = evict-length q.cache_size _

-- For an allowed reply, the replies used and those that remain make up the limit. A refused one has
-- used the limit up and nothing remains.
pub check_lem :
    (q : Quota) (now later : ℕ) (message : String)
    → let d = check q now later message in
      (d.allowed ≡ true → (d.used + d.remaining ≡ q.max_replies))
      × (d.allowed ≡ false → (q.max_replies ≤ d.used) × (d.remaining ≡ 0))
unfolding check
check_lem q now later message = elim (Option-cases (lookup message q.entries)) [
  | inl e ↦ rw e (ground arith)
  | inr (entry, e) ↦ rw e (ground arith)
]

-- The records of one message, at the given times of the clock.
unfoldable pub record_all : List ℕ → String → Quota → Quota
record_all [] message q = q
record_all (t ∷ ts) message q = record_all ts message (record_reply t t message q)

-- Every time lies within the window that `first` opens.
abbrev pub AllWithin : ℕ → ℕ → List ℕ → Type 0
AllWithin first window [] = Unit
AllWithin first window (t ∷ ts) = (t < first + window) × AllWithin first window ts

length-insert :
    (k : String) (v : Entry) (d : Dict String Entry) → length (insert k v d) ≤ length d + 1
unfolding insert
length-insert k v [] = omega arith
length-insert k v ((j, w) ∷ d) = ground (arith, length-insert k v d)

length-insert_known :
    (k : String) (v w : Entry) (d : Dict String Entry)
    → lookup k d ≡ some w
    → length (insert k v d) ≡ length d
unfolding insert lookup
length-insert_known k v w [] h = cc
length-insert_known k v w ((j, x) ∷ d) h = ground (arith, length-insert_known k v w d)

-- What the cache knows of a message after its first reply at `first`.
record Counted (message : String) (first n : ℕ) (q : Quota) : Type 0 where
  entry : lookup message q.entries ≡ some (record { replies = n; first_at = first })
  small : length q.entries ≤ q.cache_size

module _ (message : String) (first : ℕ) where
  next_entry-eq :
      (t n : ℕ) (q : Quota)
      → t < first + q.window_ms
      → next_entry q t t (some (record { replies = n; first_at = first }))
        ≡ record { replies = suc n; first_at = first }
  unfolding next_entry
  next_entry-eq t n q h = ground arith

  record_reply-Counted :
      (t n : ℕ) (q : Quota)
      → t < first + q.window_ms
      → Counted message first n q
      → Counted message first (suc n) (record_reply t t message q)
  unfolding record_reply
  record_reply-Counted t n q h c =
      let e : Entry = record { replies = suc n; first_at = first } in
      let same = length-insert_known message e _ q.entries c.entry in
      let small : length (insert message e q.entries) ≤ q.cache_size =
        omega (arith, same, c.small) in
      rw c.entry (
        rw (next_entry-eq t n q h) (
          rw (evict-of_small q.cache_size (insert message e q.entries) small) record {
            entry = ground (arith, lookup-insert message message e q.entries);
            small = small;
          }))

  record_all-Counted :
      (ts : List ℕ) (n : ℕ) (q : Quota)
      → AllWithin first q.window_ms ts
      → Counted message first n q
      → Counted message first (n + length ts) (record_all ts message q)
  unfolding record_all record_reply
  record_all-Counted [] n q h c = rw add-zero c
  record_all-Counted (t ∷ ts) n q (k, h) c =
      rw (add-suc, ← suc-add)
        (record_all-Counted ts (suc n) (record_reply t t message q) h
          (record_reply-Counted t n q k c))

record_all-max :
    (ts : List ℕ) (message : String) (q : Quota)
    → ((record_all ts message q).max_replies ≡ q.max_replies)
      × ((record_all ts message q).window_ms ≡ q.window_ms)
unfolding record_all record_reply
record_all-max [] message q = (refl, refl)
record_all-max (t ∷ ts) message q = record_all-max ts message (record_reply t t message q)

first_reply-Counted :
    (message : String) (first : ℕ) (q : Quota)
    → lookup message q.entries ≡ none
    → length q.entries < q.cache_size
    → Counted message first 1 (record_reply first first message q)
unfolding record_reply
first_reply-Counted message first q fresh room =
    let e : Entry = record { replies = 1; first_at = first } in
    let small : length (insert message e q.entries) ≤ q.cache_size =
      omega (arith, length-insert message e q.entries) in
    rw (fresh, next_entry)
      (rw (evict-of_small q.cache_size (insert message e q.entries) small)
        record { entry = ground (arith, lookup-insert message message e q.entries); small = small })

decide-within :
    (q : Quota) (now later n first : ℕ)
    → now < first + q.window_ms
    → (decide q now later (some (record { replies = n; first_at = first }))).allowed
      ≡ ltb n q.max_replies
unfolding decide
decide-within q now later n first h = ground arith

-- A message that the cache did not know and has room for, and that is answered at `first` and at
-- further times within its window, may be answered once more within the window exactly when it has
-- been answered fewer times than the limit.
pub check-record_all :
    (message : String) (first : ℕ) (ts : List ℕ) (now later : ℕ) (q : Quota)
    → lookup message q.entries ≡ none
    → length q.entries < q.cache_size
    → AllWithin first q.window_ms ts
    → now < first + q.window_ms
    → (check (record_all (first ∷ ts) message q) now later message).allowed
      ≡ ltb (length (first ∷ ts)) q.max_replies
unfolding check record_all
check-record_all message first ts now later q fresh room h k =
    let q1 = record_reply first first message q in
    let c =
      record_all-Counted message first ts 1 q1 (unfold record_reply in h)
        (first_reply-Counted message first q fresh room) in
    let q2 = record_all ts message q1 in
    let (same_max, same_window) = record_all-max ts message q1 in
    let in_time : now < first + q2.window_ms = rw same_window (unfold record_reply in k) in
    let top : q2.max_replies ≡ q.max_replies = unfold record_reply in same_max in
    rw c.entry
      (decide-within q2 now later (1 + length ts) first in_time ∙ ap₂ ltb (omega arith) top)
