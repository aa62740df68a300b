-- ===== src/Punishments/Clearing.antt =====
-- Theorems on the loop that clears the texts of messages, src/services/punishments.ts.
use qq_group_ops.Base.{
  not, [], ◌≡◌, refl, sym, ◌∙◌, ap, String, Bool, true, false, ◌&&◌, Option, none, some, List, ◌∷◌,
  arith, string_eq, nat_eq, ◌==◌, if◌then◌else◌, Bool-cases, inl, inr, ℕ, suc, ltb, count, ◌+◌,
}
use qq_group_ops.Base.Text.{is_empty-eq}
use qq_group_ops.Punishments.{Punishments, PunishmentRecord, put}
use mathlib.Core.Option.{some-injective}
use qq_group_ops.Base.Dict.{Dict, lookup, values, NodupKeys, lookup-insert}
use qq_group_ops.Core.RowTable.{IsKeyed, IsKeyed-tail}
use qq_group_ops.Core.Platform.{Readings}
use qq_group_ops.Punishments.Retention.{
  clears, cleared_record, clear_loop, clear_message_excerpts_before,
}
use qq_group_ops.Punishments.Change.{IsValid, id_of, Change, same, updated}

-- The records of a copy that a loop has still to visit are those of the service.
abbrev pub Current : Dict String PunishmentRecord → Punishments → Type 0
Current d s =
    (k : String) (r : PunishmentRecord) → lookup k d ≡ some r → lookup k s.records ≡ some r

module _ (env : Readings) (cutoff : ℕ) (group : Option String) where
  -- The record after the loop has visited it.
  abbrev pub visited : PunishmentRecord → PunishmentRecord
  visited r = if clears cutoff group r then cleared_record env.now r else r

  abbrev pub visited? : Option PunishmentRecord → Option PunishmentRecord → Option PunishmentRecord
  visited? none rest = rest
  visited? (some r) rest = some (visited r)

  abbrev pub step : PunishmentRecord → Punishments → Punishments
  step r s = if clears cutoff group r then put (cleared_record env.now r) s else s

  pub step-Change :
      (j : String) (r : PunishmentRecord) (d : Dict String PunishmentRecord) (s : Punishments)
      → IsKeyed id_of ((j, r) ∷ d)
      → Current ((j, r) ∷ d) s
      → Change s (step r s)
  unfolding lookup
  step-Change j r d s keyed cur =
      let found = cur j r (ground arith) in
      let key = keyed j r (ground arith) in
      elim (Bool-cases (clears cutoff group r)) [
        | inl y ↦ rw y (
            updated r (cleared_record env.now r) (ap (λ k. lookup k s.records) key ∙ found)
              (ground arith) refl)
        | inr n ↦ rw n (same refl)
      ]

  lookup-step :
      (j k : String) (r : PunishmentRecord) (s : Punishments)
      → r.record_id ≡ j
      → lookup k (step r s).records ≡ (
          if clears cutoff group r && k == j
          then some (cleared_record env.now r)
          else lookup k s.records)
  lookup-step j k r s key =
      ground (arith, lookup-insert k r.record_id (cleared_record env.now r) s.records, key)

  pub step-Current :
      (j : String) (r : PunishmentRecord) (d : Dict String PunishmentRecord) (s : Punishments)
      → lookup j d ≡ none
      → IsKeyed id_of ((j, r) ∷ d)
      → Current ((j, r) ∷ d) s
      → Current d (step r s)
  unfolding lookup
  step-Current j r d s fresh keyed cur k x f =
      ground (arith, lookup-step j k r s (keyed j r (ground arith)), cur k x, fresh, f)

  lookup-clear_loop :
      (d : Dict String PunishmentRecord) (cleared : ℕ) (s : Punishments) (k : String)
      → NodupKeys d
      → IsKeyed id_of d
      → Current d s
      → (lookup k (clear_loop env cutoff group (values d) cleared s).1.records
          ≡ visited? (lookup k d) (lookup k s.records))
        × ((clear_loop env cutoff group (values d) cleared s).0
            ≡ cleared + count (clears cutoff group) (values d))
  unfolding clear_loop values lookup count
  lookup-clear_loop [] cleared s k u keyed cur = (refl, omega arith)
  lookup-clear_loop ((j, r) ∷ d) cleared s k (fresh, u) keyed cur =
      let next = step r s in
      let (ih, n) =
        lookup-clear_loop d (if clears cutoff group r then suc cleared else cleared) next k u
          (IsKeyed-tail id_of j r d fresh keyed) (step-Current j r d s fresh keyed cur) in
      (
        ih
            ∙ ground (
              arith,
              fresh,
              lookup-step j k r s (keyed j r (ground arith)),
              cur j r (ground arith),
            ),
        n ∙ ground arith,
      )

  visited-default : (o : Option PunishmentRecord) → visited? o o ≡ visited? o none
  visited-default none = refl
  visited-default (some r) = refl

  clear-visits :
      (s : Punishments)
      → IsValid s
      → ((clear_message_excerpts_before env cutoff group s).0
          ≡ count (clears cutoff group) (values s.records))
        × ((k : String)
            → lookup k (clear_message_excerpts_before env cutoff group s).1.records
              ≡ visited? (lookup k s.records) none)
  unfolding clear_message_excerpts_before
  clear-visits s v =
      let at = λ (k : String). lookup-clear_loop s.records 0 s k v.nodup v.keyed (λ j r f. f) in
      ((at "").1 ∙ omega arith, λ k. (at k).0 ∙ visited-default (lookup k s.records))

-- The record holds the text of a message, is older than a cutoff, and of the group, if one is given.
abbrev pub is_due : ℕ → Option String → PunishmentRecord → Bool
is_due cutoff none r = not (r.message_excerpt == "") && ltb r.created_at cutoff
is_due cutoff (some group) r =
    r.group_id == group && (not (r.message_excerpt == "") && ltb r.created_at cutoff)

is_due-clears :
    (cutoff : ℕ) (group : Option String) (r : PunishmentRecord)
    → clears cutoff group r ≡ is_due cutoff group r
is_due-clears cutoff none r = rw (is_empty-eq r.message_excerpt) refl
is_due-clears cutoff (some group) r = rw (is_empty-eq r.message_excerpt) (ground arith)

-- What a clearing leaves of a record.
abbrev pub emptied : ℕ → ℕ → Option String → Option PunishmentRecord → Option PunishmentRecord
emptied now cutoff group none = none
emptied now cutoff group (some r) =
    if is_due cutoff group r
    then some (record r { message_excerpt = ""; updated_at = now })
    else some r

count-same :
    {A : Type 0} (p q : A → Bool) (xs : List A) → ((x : A) → p x ≡ q x) → count p xs ≡ count q xs
unfolding count
count-same p q [] e = refl
count-same p q (x ∷ xs) e = rw (e x, count-same p q xs e) refl

visited-emptied :
    (env : Readings) (cutoff : ℕ) (group : Option String) (o : Option PunishmentRecord)
    → visited? env cutoff group o none ≡ emptied env.now cutoff group o
visited-emptied env cutoff group none = refl
visited-emptied env cutoff group (some r) =
    ap (λ b. some (if b then cleared_record env.now r else r)) (is_due-clears cutoff group r)
    ∙ if-some (is_due cutoff group r)
  where
    if-some :
        (b : Bool)
        → some (if b then cleared_record env.now r else r)
          ≡ (if b then some (record r { message_excerpt = ""; updated_at = env.now }) else some r)
    if-some true = refl
    if-some false = refl

-- A record without its text is not due.
emptied-not_due :
    (now cutoff : ℕ) (group : Option String) (o : Option PunishmentRecord) (r : PunishmentRecord)
    → emptied now cutoff group o ≡ some r
    → is_due cutoff group r ≡ false
emptied-not_due now cutoff group none r e = cc
emptied-not_due now cutoff group (some q) r e = elim (Bool-cases (is_due cutoff group q)) [
  | inl due ↦ ap (is_due cutoff group) (sym (some-injective _ r (rw due at e))) ∙ no_text group
  | inr kept ↦ ap (is_due cutoff group) (sym (some-injective q r (rw kept at e))) ∙ kept
]
  where
    no_text :
        (g : Option String)
        → is_due cutoff g (record q { message_excerpt = ""; updated_at = now }) ≡ false
    no_text none = ground arith
    no_text (some g) = ground arith

-- For records that stand under their ids, each once: clearing the texts of messages changes exactly
-- the records that hold one, are older than the cutoff and are of the group, if one is given; those
-- lose the text, and nothing else but the time of the change; the number returned is how many they
-- are; and no record is left that a clearing with the same cutoff and group would change.
pub clear_message_excerpts_before_lem :
    (env : Readings) (cutoff : ℕ) (group : Option String) (s : Punishments)
    → IsValid s
    → let (cleared, s') = clear_message_excerpts_before env cutoff group s in
      (cleared ≡ count (is_due cutoff group) (values s.records))
      × ((k : String) → lookup k s'.records ≡ emptied env.now cutoff group (lookup k s.records))
      × ((k : String) (r : PunishmentRecord)
          → lookup k s'.records ≡ some r
          → is_due cutoff group r ≡ false)
clear_message_excerpts_before_lem env cutoff group s v =
    let (n, at) = clear-visits env cutoff group s v in
    let now = λ (k : String). at k ∙ visited-emptied env cutoff group (lookup k s.records) in
    (
      n ∙ count-same (clears cutoff group) (is_due cutoff group) _ (is_due-clears cutoff group),
      now,
      λ k r f. emptied-not_due env.now cutoff group (lookup k s.records) r (sym (now k) ∙ f),
    )
