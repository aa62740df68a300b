-- ===== src/Appeals/Deciding.antt =====
-- Theorems on `acceptByPunishment`: the appeals that a changed punishment settles.
use qq_group_ops.Base.{
  [], ◌≡◌, refl, sym, ◌∙◌, ap, String, Bool, true, false, ◌&&◌, ◌||◌, Option, none, some, List, ◌∷◌,
  arith, string_eq, ◌==◌, if◌then◌else◌, Bool-cases, Option-cases, inl, inr, ℕ, any, filter, All,
  filter-All,
}
use qq_group_ops.Base.Dict.{lookup, lookup-insert}
use qq_group_ops.Core.RowTable.{passes}
use qq_group_ops.Core.Platform.{Host}
use qq_group_ops.Codes.{normalize_code}
use qq_group_ops.Appeals.{
  Appeals, AppealRecord, all, get, is_pending, decide, decided_appeal, accept, accept_loop,
  accept_by_punishment, pending_by_punishment,
}
use qq_group_ops.Appeals.Change.{IsValid, Change-IsValid, decide-Change, any-filtered, all-All}

module _ (host : Host) (now : ℕ) (reviewer remark : String) where
  abbrev pub settled : AppealRecord → AppealRecord
  settled a = decided_appeal now reviewer accept (some remark) a

  abbrev settled? : Option AppealRecord → Option AppealRecord
  settled? none = none
  settled? (some a) = some (settled a)

  settled_twice : (o : Option AppealRecord) → settled? (settled? o) ≡ settled? o
  settled_twice none = refl
  settled_twice (some a) = refl

  -- The ids are codes as `get` reads them: in upper case, with nothing around them.
  abbrev pub IsCode : String → Type 0
  IsCode id = normalize_code host (some id) ≡ some id

  lookup-decide :
      (s : Appeals) (id k : String)
      → IsValid s
      → IsCode id
      → lookup k (decide host now id reviewer accept (some remark) s).1.appeals
        ≡ (if k == id then settled? (lookup k s.appeals) else lookup k s.appeals)
  unfolding decide get
  lookup-decide s id k v code = elim (Option-cases (lookup id s.appeals)) [
    | inl absent ↦ ground (arith, code, absent)
    | inr (a, found) ↦
        ground (
          arith,
          code,
          found,
          v.keyed id a found,
          lookup-insert k a.appeal_id (settled a) s.appeals,
        )
  ]

  lookup-accept_loop :
      (rest decided : List AppealRecord) (s : Appeals) (k : String)
      → IsValid s
      → All (λ a. IsCode a.appeal_id) rest
      → lookup k (accept_loop host now reviewer remark rest decided s).1.appeals ≡ (
          if any (λ a. k == a.appeal_id) rest
          then settled? (lookup k s.appeals)
          else lookup k s.appeals)
  unfolding accept_loop any
  lookup-accept_loop [] decided s k v codes = refl
  lookup-accept_loop (a ∷ rest) decided s k v (code, codes) =
      let s' = (decide host now a.appeal_id reviewer accept (some remark) s).1 in
      let v' =
        Change-IsValid s s' (decide-Change host now s v a.appeal_id reviewer accept (some remark))
          v in
      lookup-accept_loop rest _ s' k v' codes
      ∙ ap (λ o. if any (λ x. k == x.appeal_id) rest then settled? o else o)
          (lookup-decide s a.appeal_id k v code)
      ∙ merge (any (λ x. k == x.appeal_id) rest) (k == a.appeal_id) (lookup k s.appeals)
    where
      merge :
          (later now_ : Bool) (o : Option AppealRecord)
          → (if later
              then settled? (if now_ then settled? o else o)
              else if now_
              then settled? o
              else o)
            ≡ (if now_ || later then settled? o else o)
      merge true true o = settled_twice o
      merge true false o = refl
      merge false true o = refl
      merge false false o = refl

  -- The appeal after a punishment was settled.
  abbrev pub after_settling : String → Option AppealRecord → Option AppealRecord
  after_settling punishment none = none
  after_settling punishment (some a) =
      some (if a.punishment_id == punishment && is_pending a.status then settled a else a)

  passes-settled :
      (punishment : String) (o : Option AppealRecord)
      → (if passes (λ a. a.punishment_id == punishment && is_pending a.status) o
          then settled? o
          else o)
        ≡ after_settling punishment o
  passes-settled punishment none = refl
  passes-settled punishment (some a) =
      if-some (a.punishment_id == punishment && is_pending a.status) a
    where
      if-some :
          (b : Bool) (a : AppealRecord)
          → (if b then some (settled a) else some a) ≡ some (if b then settled a else a)
      if-some true a = refl
      if-some false a = refl

  codes-All :
      (s : Appeals) (test : AppealRecord → Bool)
      → IsValid s
      → ((id : String) (a : AppealRecord) → lookup id s.appeals ≡ some a → IsCode id)
      → All (λ a. IsCode a.appeal_id) (filter test (all s))
  codes-All s test v codes =
      All-map (filter test (all s))
        (filter-All (λ a. lookup a.appeal_id s.appeals ≡ some a) test (all s) (all-All s v))
    where
      All-map :
          (xs : List AppealRecord)
          → All (λ a. (test a ≡ true) × (lookup a.appeal_id s.appeals ≡ some a)) xs
          → All (λ a. IsCode a.appeal_id) xs
      All-map [] h = tt
      All-map (a ∷ xs) ((_, f), h) = (codes a.appeal_id a f, All-map xs h)

  -- For appeals that stand under their ids, each once, where the ids are codes as `get` reads them:
  -- when a punishment is settled, exactly the appeals against it that are pending are accepted, with
  -- the reviewer and the remark; every other appeal stays as it is, and none is added or lost. So no
  -- appeal against the punishment is pending afterwards.
  pub accept_by_punishment_lem :
      (punishment : String) (s : Appeals)
      → IsValid s
      → ((id : String) (a : AppealRecord) → lookup id s.appeals ≡ some a → IsCode id)
      → let s' = (accept_by_punishment host now punishment reviewer remark s).1 in
        ((k : String) → lookup k s'.appeals ≡ after_settling punishment (lookup k s.appeals))
        × ((k : String) (a : AppealRecord)
            → lookup k s'.appeals ≡ some a
            → (a.punishment_id == punishment && is_pending a.status) ≡ false)
  unfolding accept_by_punishment pending_by_punishment
  accept_by_punishment_lem punishment s v codes =
      let test = λ (a : AppealRecord). a.punishment_id == punishment && is_pending a.status in
      let at = λ (k : String).
        lookup-accept_loop (filter test (all s)) [] s k v (codes-All s test v codes)
        ∙ ap (λ (b : Bool). if b then settled? (lookup k s.appeals) else lookup k s.appeals)
            (any-filtered test s k v)
        ∙ passes-settled punishment (lookup k s.appeals) in
      (at, λ k a f. not_pending punishment (lookup k s.appeals) a (sym (at k) ∙ f))
    where
      not_pending :
          (p : String) (o : Option AppealRecord) (a : AppealRecord)
          → after_settling p o ≡ some a
          → (a.punishment_id == p && is_pending a.status) ≡ false
      not_pending p none a e = cc
      not_pending p (some x) a e = elim (Bool-cases (x.punishment_id == p && is_pending x.status)) [
        | inl y ↦ ground (arith, rw y at e)
        | inr n ↦ ground (arith, n, rw n at e)
      ]
