-- ===== src/Appeals/Change.antt =====
-- What each operation does to the appeals: nothing, a new appeal when none of its user against its
-- punishment is pending, or new values of the columns that may change.
use qq_group_ops.Core.RowTable.{any-values, passes, IsKeyed, insert-IsKeyed}
use qq_group_ops.Base.{
  sym, count-filter, any-count, ◌&&◌, ◌==◌, any, ◌≡◌, refl, ◌∙◌, ap, String, Bool, true, false,
  Option, none, some, arith, string_eq, Bool-cases, Option-cases, inl, inr, ℕ, All, find-All,
  find-none,
}
use qq_group_ops.Appeals.{
  ltb, filter, Appeals, AppealRecord, put, get, all, pends, pending_for, is_pending, submit,
  submit_new, submitted_appeal, with_reason, decide, decided_appeal, Verdict, accept, reject,
}
use qq_group_ops.Base.Dict.{
  lookup, has, values, NodupKeys, insert-NodupKeys, values-All, count-values-pos,
}
use qq_group_ops.Base.Outcome.{Outcome, ok, thrown, >>=-eq-ok}
use qq_group_ops.Core.Ordering.Laws.{newest_first-All, newest_first_lem}
use qq_group_ops.Core.Platform.{Host, World}
use qq_group_ops.Codes.{generate_code, normalize_code}
use qq_group_ops.Codes.Laws.{generate_code_lem}
use qq_group_ops.Blacklist.{trimmed_or_empty}
use qq_group_ops.Punishments.{PunishmentRecord}

abbrev pub id_of : AppealRecord → String
id_of a = a.appeal_id

-- The appeals stand under their ids, each once.
pub record IsValid (s : Appeals) : Type 0 where
  pub keyed : IsKeyed id_of s.appeals
  pub nodup : NodupKeys s.appeals

-- The columns that stay as they are; a decided appeal does not become pending.
pub record KeepsIdentity (a u : AppealRecord) : Type 0 where
  pub appeal_id : u.appeal_id ≡ a.appeal_id
  pub punishment_id : u.punishment_id ≡ a.punishment_id
  pub group_id : u.group_id ≡ a.group_id
  pub user_id : u.user_id ≡ a.user_id
  pub created_at : u.created_at ≡ a.created_at
  pub decided : is_pending a.status ≡ false → is_pending u.status ≡ false

pub data Change (s s' : Appeals) : Type 0 where
  same : s' ≡ s → Change s s'
  updated :
      (a u : AppealRecord)
      → lookup a.appeal_id s.appeals ≡ some a
      → KeepsIdentity a u
      → s' ≡ put u s
      → Change s s'
  new :
      (u : AppealRecord)
      → lookup u.appeal_id s.appeals ≡ none
      → pending_for u.punishment_id u.user_id s ≡ none
      → s' ≡ put u s
      → Change s s'

pub Change-IsValid : (s s' : Appeals) → Change s s' → IsValid s → IsValid s'
Change-IsValid s s' (same e) v = rw e v
Change-IsValid s s' (updated a u found kept e) v = rw e (record {
  keyed = insert-IsKeyed id_of u s.appeals v.keyed;
  nodup = insert-NodupKeys u.appeal_id u s.appeals v.nodup;
})
Change-IsValid s s' (new u fresh free e) v = rw e (record {
  keyed = insert-IsKeyed id_of u s.appeals v.keyed;
  nodup = insert-NodupKeys u.appeal_id u s.appeals v.nodup;
})

pub get-found :
    (host : Host) (code : String) (s : Appeals) (a : AppealRecord)
    → IsValid s
    → get host code s ≡ some a
    → lookup a.appeal_id s.appeals ≡ some a
unfolding get
get-found host code s a v e = elim (Option-cases (normalize_code host (some code))) [
  | inl no_code ↦ ground (arith, no_code, e)
  | inr (k, is_code) ↦ ground (arith, is_code, e, v.keyed k a)
]

-- The appeals in the order of `all` stand in the map.
pub all-All : (s : Appeals) → IsValid s → All (λ a. lookup a.appeal_id s.appeals ≡ some a) (all s)
unfolding all
all-All s v =
    newest_first-All (λ a. a.created_at) (λ a. lookup a.appeal_id s.appeals ≡ some a)
      (values s.appeals)
      (values-All (λ a. lookup a.appeal_id s.appeals ≡ some a) s.appeals v.nodup
        (λ k a f. ap (λ j. lookup j s.appeals) (v.keyed k a f) ∙ f))

pub pending_for-some :
    (punishment user : String) (s : Appeals) (a : AppealRecord)
    → IsValid s
    → pending_for punishment user s ≡ some a
    → (pends punishment user a ≡ true) × (lookup a.appeal_id s.appeals ≡ some a)
unfolding pending_for
pending_for-some punishment user s a v e =
    find-All (λ x. lookup x.appeal_id s.appeals ≡ some x) (pends punishment user) (all s) a
      (all-All s v) e

pub pending_for-none :
    (punishment user : String) (s : Appeals)
    → pending_for punishment user s ≡ none
    → (k : String) (a : AppealRecord) → lookup k s.appeals ≡ some a
    → pends punishment user a ≡ false
unfolding pending_for all
pending_for-none punishment user s e k a f = elim (Bool-cases (pends punishment user a)) [
  | inl y ↦
      let n = find-none (pends punishment user) (all s) e in
      let same_count =
        (newest_first_lem (λ (x : AppealRecord). x.created_at) (values s.appeals)).1
          (pends punishment user) in
      let there = count-values-pos (pends punishment user) s.appeals k a f y in
      absurd (omega (arith, n, same_count, there))
  | inr n ↦ n
]

-- Among the appeals that pass a test, one has an id exactly when the appeal of the id passes.
pub any-filtered :
    (test : AppealRecord → Bool) (s : Appeals) (k : String)
    → IsValid s
    → any (λ a. k == a.appeal_id) (filter test (all s)) ≡ passes test (lookup k s.appeals)
unfolding all
any-filtered test s k v =
    let named = λ (a : AppealRecord). k == a.appeal_id in
    let both = λ (a : AppealRecord). test a && k == a.appeal_id in
    any-count named (filter test (all s))
    ∙ ap (ltb 0) (
        count-filter test named (all s)
        ∙ (newest_first_lem (λ (a : AppealRecord). a.created_at) (values s.appeals)).1 both)
    ∙ sym (any-count both (values s.appeals))
    ∙ any-values id_of test k s.appeals v.nodup v.keyed

-- The state after a submission: as before, if no code is left and it throws.
abbrev pub after_submit :
    Appeals → Outcome String ((AppealRecord × Bool) × World × Appeals) → Appeals
after_submit s (ok (_, _, s')) = s'
after_submit s (thrown _) = s

pub decided-keeps :
    (now : ℕ) (reviewer : String) (verdict : Verdict) (remark : Option String) (a : AppealRecord)
    → KeepsIdentity a (decided_appeal now reviewer verdict remark a)
decided-keeps now reviewer accept remark a = ground arith
decided-keeps now reviewer reject remark a = ground arith

module _ (host : Host) (now : ℕ) (s : Appeals) (v : IsValid s) where
  pub submit-Change :
      (punishment : PunishmentRecord) (user : String) (reason : Option String) (w w' : World)
      (s' : Appeals) (x : AppealRecord × Bool)
      → submit host now punishment user reason w s ≡ ok (x, w', s')
      → Change s s'
  unfolding submit submit_new
  submit-Change punishment user reason w w' s' x e =
      elim (Option-cases (pending_for punishment.record_id user s)) [
        | inl free ↦
            let ((code, w1), given, e') =
              >>=-eq-ok (generate_code host "申诉短码生成失败：连续碰撞，请检查随机源" (λ c. has c s.appeals) w) _
                (rw free at e) in
            let (unused, _) =
              generate_code_lem host "申诉短码生成失败：连续碰撞，请检查随机源" (λ c. has c s.appeals) w w1 code
                given in
            new (submitted_appeal code now punishment user (trimmed_or_empty reason))
              (ground (arith, unused)) free (ground (arith, e'))
        | inr (a, waiting) ↦
            let e' = rw waiting at e in
            updated a (with_reason (trimmed_or_empty reason) a)
              (pending_for-some punishment.record_id user s a v waiting).1 (ground arith)
              (ground (arith, e'))
      ]

  pub decide-Change :
      (code reviewer : String) (verdict : Verdict) (remark : Option String)
      → Change s (decide host now code reviewer verdict remark s).1
  unfolding decide
  decide-Change code reviewer verdict remark = elim (Option-cases (get host code s)) [
    | inl absent ↦ rw absent (same refl)
    | inr (a, found) ↦ rw found (
        updated a (decided_appeal now reviewer verdict remark a) (get-found host code s a v found)
          (decided-keeps now reviewer verdict remark a) refl)
  ]
