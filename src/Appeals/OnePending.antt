-- ===== src/Appeals/OnePending.antt =====
-- The operations of the appeals as one type, and that no history of them leaves one user with two
-- pending appeals against one punishment.
use qq_group_ops.Base.{
  [], ◌≡◌, refl, sym, ◌∙◌, ap, String, true, false, Option, none, some, List, ◌∷◌, arith, string_eq,
  ◌==◌, if◌then◌else◌, Bool-cases, inl, inr, ℕ, any, ltb, length, filter,
}
use mathlib.Core.Option.{some-injective}
use qq_group_ops.Base.Dict.{
  Dict, lookup, erase, NodupKeys, lookup-insert, lookup-erase, erase-NodupKeys,
}
use qq_group_ops.Base.Outcome.{Outcome-cases}
use qq_group_ops.Core.RowTable.{IsKeyed, erase-IsKeyed}
use qq_group_ops.Core.Platform.{Host, World}
use qq_group_ops.Punishments.{PunishmentRecord}
use qq_group_ops.Appeals.{
  Appeals, AppealRecord, put, pends, is_pending, all, pending_for, submit, decide, Verdict, accept,
  accept_loop, accept_by_punishment, pending_by_punishment, erase_appeals, prune_older_than,
  is_stale,
}
use qq_group_ops.Appeals.Change.{
  Change, same, updated, new, IsValid, KeepsIdentity, Change-IsValid, submit-Change, decide-Change,
  after_submit, pending_for-none, id_of,
}

-- Two appeals that are pending for one user and one punishment are one.
abbrev pub OnePending : Appeals → Type 0
OnePending s =
    (k j : String) (a b : AppealRecord) (punishment user : String)
    → lookup k s.appeals ≡ some a
    → lookup j s.appeals ≡ some b
    → pends punishment user a ≡ true
    → pends punishment user b ≡ true
    → k ≡ j

abbrev pub Invariant : Appeals → Type 0
Invariant s = IsValid s × OnePending s

pends-keeps :
    (a u : AppealRecord) (punishment user : String)
    → KeepsIdentity a u
    → pends punishment user u ≡ true
    → pends punishment user a ≡ true
pends-keeps a u punishment user kept h = elim (Bool-cases (is_pending a.status)) [
  | inl waits ↦ ground (arith, waits, h, kept)
  | inr done ↦ ground (arith, kept.decided done, h)
]

module _ (s : Appeals) (u : AppealRecord) where
  put-entry :
      (k : String) (x : AppealRecord)
      → lookup k (put u s).appeals ≡ some x
      → (if k == u.appeal_id then some u else lookup k s.appeals) ≡ some x
  put-entry k x f = sym (lookup-insert k u.appeal_id u s.appeals) ∙ f

  before :
      (a : AppealRecord)
      → lookup a.appeal_id s.appeals ≡ some a
      → KeepsIdentity a u
      → (k : String) (x : AppealRecord) (punishment user : String)
      → lookup k (put u s).appeals ≡ some x
      → pends punishment user x ≡ true
      → (y : AppealRecord) × (lookup k s.appeals ≡ some y) × (pends punishment user y ≡ true)
  before a found kept k x punishment user f p = elim (Bool-cases (k == u.appeal_id)) [
    | inl here ↦
        let e = rw here at (put-entry k x f) in
        (
          a,
          ground (arith, here, kept.appeal_id, found),
          pends-keeps a u punishment user kept
              (ap (pends punishment user) (some-injective u x e) ∙ p),
        )
    | inr other ↦ (x, rw other at (put-entry k x f), p)
  ]

  updated-OnePending :
      (a : AppealRecord)
      → lookup a.appeal_id s.appeals ≡ some a
      → KeepsIdentity a u
      → OnePending s
      → OnePending (put u s)
  updated-OnePending a found kept one k j x y punishment user fk fj px py =
      let (x', fx, qx) = before a found kept k x punishment user fk px in
      let (y', fy, qy) = before a found kept j y punishment user fj py in
      one k j x' y' punishment user fx fy qx qy

  none_waits :
      pending_for u.punishment_id u.user_id s ≡ none
      → (k j : String) (x y : AppealRecord) (punishment user : String) → (k == u.appeal_id) ≡ true
      → (j == u.appeal_id) ≡ false
      → lookup k (put u s).appeals ≡ some x
      → lookup j (put u s).appeals ≡ some y
      → pends punishment user x ≡ true
      → pends punishment user y ≡ true
      → ⊥
  none_waits free k j x y punishment user here other fk fj px py =
      let e = some-injective u x (rw here at (put-entry k x fk)) in
      let g = rw other at (put-entry j y fj) in
      let q = ap (pends punishment user) e ∙ px in
      let no_ = pending_for-none u.punishment_id u.user_id s free j y g in
      ground (arith, no_, py, q)

  new-OnePending :
      pending_for u.punishment_id u.user_id s ≡ none → OnePending s → OnePending (put u s)
  new-OnePending free one k j x y punishment user fk fj px py =
      elim (Bool-cases (k == u.appeal_id)) [
        | inl k_new ↦ elim (Bool-cases (j == u.appeal_id)) [
          | inl j_new ↦ ground (arith, k_new, j_new)
          | inr j_old ↦ absurd (none_waits free k j x y punishment user k_new j_old fk fj px py)
        ]
        | inr k_old ↦ elim (Bool-cases (j == u.appeal_id)) [
          | inl j_new ↦ absurd (none_waits free j k y x punishment user j_new k_old fj fk py px)
          | inr j_old ↦
              one k j x y punishment user (rw k_old at (put-entry k x fk))
                (rw j_old at (put-entry j y fj)) px py
        ]
      ]

pub Change-Invariant : (s s' : Appeals) → Change s s' → Invariant s → Invariant s'
Change-Invariant s s' (same e) h = rw e h
Change-Invariant s s' (updated a u found kept e) (v, one) = (
  Change-IsValid s s' (updated a u found kept e) v,
  rw e (updated-OnePending s u a found kept one),
)
Change-Invariant s s' (new u fresh free e) (v, one) =
    (Change-IsValid s s' (new u fresh free e) v, rw e (new-OnePending s u free one))

-- A loop of decisions keeps what every change keeps.
module _ {ℓ} (P : Appeals → Type ℓ) (keeps : (s s' : Appeals) → Change s s' → P s → P s') where
  pub accept_loop-keeps :
      (host : Host) (now : ℕ) (reviewer remark : String) (rest decided : List AppealRecord)
      (s : Appeals)
      → IsValid s
      → P s
      → P (accept_loop host now reviewer remark rest decided s).1
  unfolding accept_loop
  accept_loop-keeps host now reviewer remark [] decided s v h = h
  accept_loop-keeps host now reviewer remark (a ∷ rest) decided s v h =
      let s' = (decide host now a.appeal_id reviewer accept (some remark) s).1 in
      let c = decide-Change host now s v a.appeal_id reviewer accept (some remark) in
      accept_loop-keeps host now reviewer remark rest _ s' (Change-IsValid s s' c v)
        (keeps s s' c h)

erase_appeals-keeps :
    (rest : List AppealRecord) (d : Dict String AppealRecord)
    → IsKeyed id_of d × NodupKeys d
    → IsKeyed id_of (erase_appeals rest d) × NodupKeys (erase_appeals rest d)
unfolding erase_appeals
erase_appeals-keeps [] d h = h
erase_appeals-keeps (a ∷ rest) d (keyed, u) =
    erase_appeals-keeps rest (erase a.appeal_id d)
      (erase-IsKeyed id_of a.appeal_id d keyed, erase-NodupKeys a.appeal_id d u)

pub lookup-erase_appeals :
    (rest : List AppealRecord) (d : Dict String AppealRecord) (k : String)
    → lookup k (erase_appeals rest d)
      ≡ (if any (λ a. k == a.appeal_id) rest then none else lookup k d)
unfolding erase_appeals any
lookup-erase_appeals [] d k = refl
lookup-erase_appeals (a ∷ rest) d k =
    ground (arith, lookup-erase_appeals rest (erase a.appeal_id d) k, lookup-erase k a.appeal_id d)

-- The appeals that a pruning leaves.
pub prune-appeals :
    (cutoff : ℕ) (s : Appeals)
    → (prune_older_than cutoff s).1.appeals
      ≡ erase_appeals (filter (is_stale cutoff) (all s)) s.appeals
unfolding prune_older_than
prune-appeals cutoff s = elim (Bool-cases (ltb 0 (length (filter (is_stale cutoff) (all s))))) [
  | inl y ↦ rw y refl
  | inr n ↦ rw n refl
]

pub prune-IsValid : (cutoff : ℕ) (s : Appeals) → IsValid s → IsValid (prune_older_than cutoff s).1
prune-IsValid cutoff s v =
    let (keyed, u) =
      erase_appeals-keeps (filter (is_stale cutoff) (all s)) s.appeals (v.keyed, v.nodup) in
    record { keyed = rw (prune-appeals cutoff s) keyed; nodup = rw (prune-appeals cutoff s) u }

-- An appeal that a pruning leaves was there.
erased-was :
    (rest : List AppealRecord) (d : Dict String AppealRecord) (k : String) (a : AppealRecord)
    → lookup k (erase_appeals rest d) ≡ some a
    → lookup k d ≡ some a
erased-was rest d k a f = ground (arith, lookup-erase_appeals rest d k, f)

prune-OnePending :
    (cutoff : ℕ) (s : Appeals) → OnePending s → OnePending (prune_older_than cutoff s).1
prune-OnePending cutoff s one k j a b punishment user fk fj pa pb =
    let rest = filter (is_stale cutoff) (all s) in
    let was =
      λ (i : String) (x : AppealRecord)
          (f : lookup i (prune_older_than cutoff s).1.appeals ≡ some x).
        erased-was rest s.appeals i x (ap (lookup i) (sym (prune-appeals cutoff s)) ∙ f) in
    one k j a b punishment user (was k a fk) (was j b fj) pa pb

-- The operations that change the service, with what the outside gives to each.
pub data Op : Type 0 where
  submitted : Host → ℕ → PunishmentRecord → (user : String) → Option String → World → Op
  decided : Host → ℕ → (code reviewer : String) → Verdict → Option String → Op
  accepted_all : Host → ℕ → (punishment reviewer remark : String) → Op
  pruned : ℕ → Op

unfoldable pub run : Op → Appeals → Appeals
run (submitted host now punishment user reason w) s =
    after_submit s (submit host now punishment user reason w s)
run (decided host now code reviewer verdict remark) s =
    (decide host now code reviewer verdict remark s).1
run (accepted_all host now punishment reviewer remark) s =
    (accept_by_punishment host now punishment reviewer remark s).1
run (pruned cutoff) s = (prune_older_than cutoff s).1

unfoldable pub run_all : List Op → Appeals → Appeals
unfolding run
run_all [] s = s
run_all (op ∷ ops) s = run_all ops (run op s)

-- What every change keeps, and a pruning, every operation keeps.
module _ {ℓ} (P : Appeals → Type ℓ) (valid : (s : Appeals) → P s → IsValid s)
    (keeps : (s s' : Appeals) → Change s s' → P s → P s') where
  pub run-keeps :
      (op : Op) (s : Appeals)
      → ((cutoff : ℕ) → op ≡ pruned cutoff → P (prune_older_than cutoff s).1)
      → P s
      → P (run op s)
  unfolding run accept_by_punishment
  run-keeps (submitted host now punishment user reason w) s prune h =
      elim (Outcome-cases (submit host now punishment user reason w s)) [
        | inl ((x, w', s'), e) ↦
            rw e (
              keeps s s' (submit-Change host now s (valid s h) punishment user reason w w' s' x e)
                h)
        | inr (message, e) ↦ rw e h
      ]
  run-keeps (decided host now code reviewer verdict remark) s prune h =
      keeps s (decide host now code reviewer verdict remark s).1
        (decide-Change host now s (valid s h) code reviewer verdict remark) h
  run-keeps (accepted_all host now punishment reviewer remark) s prune h =
      accept_loop-keeps P keeps host now reviewer remark (pending_by_punishment punishment s) [] s
        (valid s h) h
  run-keeps (pruned cutoff) s prune h = prune cutoff refl

-- If the appeals stand under their ids, each once, and no user has two pending appeals against one
-- punishment, this holds after any history of submissions, decisions and prunings.
pub run_all-OnePending : (ops : List Op) (s : Appeals) → Invariant s → Invariant (run_all ops s)
unfolding run_all
run_all-OnePending [] s h = h
run_all-OnePending (op ∷ ops) s h = run_all-OnePending ops (run op s) (
    run-keeps Invariant (λ t k. k.0) Change-Invariant op s
      (λ cutoff _. (prune-IsValid cutoff s h.0, prune-OnePending cutoff s h.1)) h)
