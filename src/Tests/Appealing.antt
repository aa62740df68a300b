-- ===== src/Tests/Appealing.antt =====
-- The theorems on the appeals at a concrete service.
use qq_group_ops.Base.{
  [], ◌≡◌, refl, String, true, false, Option, none, some, List, ◌∷◌, arith, string_eq, nat_eq, ◌<◌,
  ◌&&◌, ◌==◌, ◌⊎◌, inl, inr, Bool-cases, sym,
}
use mathlib.Core.Path.{subst}
use qq_group_ops.Base.Dict.{lookup, NodupKeys}
use qq_group_ops.Base.Text.{trim, trim_start, trim_end, is_space, starts_with}
use qq_group_ops.Core.RowTable
use qq_group_ops.Core.RowTable.{Lists, keyed}
use qq_group_ops.Codes.{normalize_code, without_prefix}
use qq_group_ops.Appeals.{
  Appeals, AppealRecord, AppealStatus, pending, rejected, save, get, load, is_pending, is_stale,
  accept_by_punishment, prune_older_than, decide, reject, decided_appeal,
}
use qq_group_ops.Appeals.Change.{IsValid, id_of}
use qq_group_ops.Appeals.OnePending.{
  Invariant, OnePending, Op, decided, pruned, run, run_all, run_all-OnePending,
}
use qq_group_ops.Appeals.Deciding.{accept_by_punishment_lem, after_settling, IsCode}
use qq_group_ops.Appeals.Table.{IsStored, effect, kept?, prune-loses_pending, run_all-load_appeals}
use qq_group_ops.Tests.Outside.{host, world}

abbrev appeal : String → AppealStatus → AppealRecord
appeal id status = record {
  appeal_id = id;
  punishment_id = "P1";
  group_id = "g1";
  user_id = "ann";
  reason = "sorry";
  status = status;
  reviewer_id = "";
  remark = "";
  created_at = 10;
  reviewed_at = none;
}

-- `A1` was rejected, `A2` is pending.
abbrev service : Appeals
service = record {
  appeals = ("A1", appeal "A1" rejected) ∷ ("A2", appeal "A2" pending) ∷ [];
  persistent = true;
  queue = [];
}

service-keyed :
    (k : String) (a : AppealRecord) → lookup k service.appeals ≡ some a → a.appeal_id ≡ k
unfolding lookup
service-keyed k a f = ground arith

service-IsValid : IsValid service
unfolding lookup string_eq
service-IsValid = record { keyed = service-keyed; nodup = (refl, (refl, tt)) }

service-OnePending : OnePending service
unfolding lookup
service-OnePending k j a b punishment user fk fj pa pb = ground arith

abbrev history : List Op
history = decided host 20 "A2" "root" reject none ∷ pruned 50 ∷ []

run_all-OnePending_example : Invariant (run_all history service)
run_all-OnePending_example =
    run_all-OnePending history service (service-IsValid, service-OnePending)

IsCode-A1 : IsCode host 20 "root" "done" "A1"
unfolding normalize_code without_prefix trim trim_start trim_end is_space starts_with nat_eq
IsCode-A1 = refl

IsCode-A2 : IsCode host 20 "root" "done" "A2"
unfolding normalize_code without_prefix trim trim_start trim_end is_space starts_with nat_eq
IsCode-A2 = refl

ids :
    (k : String) (a : AppealRecord)
    → lookup k service.appeals ≡ some a
    → (◌≡◌ {A = String} k "A1") ⊎ (◌≡◌ {A = String} k "A2")
unfolding lookup
ids k a f = elim (Bool-cases (k == "A1")) [
  | inl y ↦ inl (ground (arith, y))
  | inr n ↦ inr (ground (arith, n, f))
]

service-codes :
    (id : String) (a : AppealRecord)
    → lookup id service.appeals ≡ some a
    → IsCode host 20 "root" "done" id
service-codes id a f = elim (ids id a f) [
  | inl e ↦ subst (IsCode host 20 "root" "done") (sym e) IsCode-A1
  | inr e ↦ subst (IsCode host 20 "root" "done") (sym e) IsCode-A2
]

accept_by_punishment_lem_example :
    let s' = (accept_by_punishment host 20 "P1" "root" "done" service).1 in
    ((k : String)
      → lookup k s'.appeals ≡ after_settling host 20 "root" "done" "P1" (lookup k service.appeals))
    × ((k : String) (a : AppealRecord)
        → lookup k s'.appeals ≡ some a
        → (a.punishment_id == "P1" && is_pending a.status) ≡ false)
accept_by_punishment_lem_example =
    accept_by_punishment_lem host 20 "root" "done" "P1" service service-IsValid service-codes

abbrev stored_rows : String → Option AppealRecord
stored_rows k = lookup k service.appeals

service-IsStored : IsStored stored_rows service
unfolding RowTable.run_writes
service-IsStored = record { persistent = refl; valid = service-IsValid; mirrors = λ k. refl }

prune-loses_pending_example :
    ((k : String)
      → lookup k (prune_older_than 50 service).1.appeals ≡ kept? 50 (lookup k service.appeals))
    × ((k j : String) (a b : AppealRecord)
        → lookup j service.appeals ≡ some b
        → is_stale 50 b ≡ true
        → lookup k service.appeals ≡ some a
        → is_pending a.status ≡ true
        → a.created_at < 50
        → (lookup k (prune_older_than 50 service).1.appeals ≡ some a)
          × (RowTable.run_writes effect (prune_older_than 50 service).1.queue stored_rows k ≡ none))
prune-loses_pending_example = prune-loses_pending stored_rows 50 service service-IsStored

abbrev ops : List Op
ops = decided host 20 "A2" "root" reject none ∷ []

abbrev rejection : AppealRecord
rejection = decided_appeal 20 "root" reject none (appeal "A2" pending)

ops-queue : (run_all ops service).queue ≡ save rejection ∷ []
unfolding run_all run decide get normalize_code without_prefix trim trim_start trim_end is_space
    starts_with lookup string_eq nat_eq
ops-queue = refl

rows-distinct : NodupKeys (keyed id_of (appeal "A1" rejected ∷ rejection ∷ []))
unfolding lookup string_eq
rows-distinct = (refl, (refl, tt))

same_text : (k j : String) → (k == j) ≡ true → ◌≡◌ {A = String} k j
same_text k j y = ground (arith, y)

unfoldable SavedAt : String → Type 0
SavedAt k =
    lookup k (keyed id_of (appeal "A1" rejected ∷ rejection ∷ []))
    ≡ RowTable.run_writes effect (save rejection ∷ []) stored_rows k

saved_A1 : SavedAt "A1"
unfolding SavedAt lookup effect RowTable.run_writes string_eq
saved_A1 = refl

saved_A2 : SavedAt "A2"
unfolding SavedAt lookup effect RowTable.run_writes string_eq
saved_A2 = refl

saved_else : (k : String) → (k == "A1") ≡ false → (k == "A2") ≡ false → SavedAt k
unfolding SavedAt lookup effect RowTable.run_writes
saved_else k n m = rw n (rw m refl)

saved_rows : (k : String) → SavedAt k
saved_rows k = elim (Bool-cases (k == "A1")) [
  | inl y ↦ subst SavedAt (sym (same_text k "A1" y)) saved_A1
  | inr n ↦ elim (Bool-cases (k == "A2")) [
    | inl y ↦ subst SavedAt (sym (same_text k "A2" y)) saved_A2
    | inr m ↦ saved_else k n m
  ]
]

rows-Lists :
    Lists id_of
      (appeal "A1" rejected ∷ rejection ∷ [])
      (RowTable.run_writes effect (run_all ops service).queue stored_rows)
unfolding SavedAt
rows-Lists = rw ops-queue (record { distinct = rows-distinct; complete = saved_rows })

run_all-load_appeals_example :
    lookup "A2" (load host (appeal "A1" rejected ∷ rejection ∷ []) world service).1.appeals
    ≡ lookup "A2" (run_all ops service).appeals
run_all-load_appeals_example =
    run_all-load_appeals ops service service stored_rows (appeal "A1" rejected ∷ rejection ∷ [])
      host world service-IsStored (refl, tt) rows-Lists "A2"
