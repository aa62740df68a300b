-- ===== src/Punishments/Change.antt =====
-- What each operation does to the records: nothing, a new record, or new values of the columns that
-- may change of a record that is there.
use qq_group_ops.Base.{
  sym, ◌≡◌, refl, ◌∙◌, ap, String, Option, none, some, List, arith, string_eq, Bool-cases,
  Option-cases, inl, inr, ℤ,
}
use qq_group_ops.Base.Dict.{lookup, has, NodupKeys, insert-NodupKeys}
use qq_group_ops.Base.Outcome.{ok, ok-injective, >>=-eq-ok}
use qq_group_ops.Core.RowTable.{IsKeyed, insert-IsKeyed}
use qq_group_ops.Core.Platform.{Host, World, Readings}
use qq_group_ops.Codes.{generate_code, normalize_code}
use qq_group_ops.Codes.Laws.{generate_code_lem}
use qq_group_ops.Blacklist.{Blacklist, BlacklistScope}
use qq_group_ops.Punishments.{
  Punishments, PunishmentRecord, PunishmentCreateInput, put, get, create, created_record,
  mark_executed,
}
use qq_group_ops.Punishments.Cards.{release, set_mute, kick, blacklist_user, is_released, settle}

abbrev pub id_of : PunishmentRecord → String
id_of r = r.record_id

-- The records stand under their ids, each once.
pub record IsValid (s : Punishments) : Type 0 where
  pub keyed : IsKeyed id_of s.records
  pub nodup : NodupKeys s.records

-- The columns that stay as they are.
pub record KeepsIdentity (r u : PunishmentRecord) : Type 0 where
  pub record_id : u.record_id ≡ r.record_id
  pub group_id : u.group_id ≡ r.group_id
  pub user_id : u.user_id ≡ r.user_id
  pub actor_id : u.actor_id ≡ r.actor_id
  pub source : u.source ≡ r.source
  pub rule_reason : u.rule_reason ≡ r.rule_reason
  pub message_id : u.message_id ≡ r.message_id
  pub created_at : u.created_at ≡ r.created_at

pub data Change (s s' : Punishments) : Type 0 where
  same : s' ≡ s → Change s s'
  updated :
      (r u : PunishmentRecord)
      → lookup r.record_id s.records ≡ some r
      → KeepsIdentity r u
      → s' ≡ put u s
      → Change s s'
  new : (u : PunishmentRecord) → lookup u.record_id s.records ≡ none → s' ≡ put u s → Change s s'

pub Change-IsValid : (s s' : Punishments) → Change s s' → IsValid s → IsValid s'
Change-IsValid s s' (same e) v = rw e v
Change-IsValid s s' (updated r u found kept e) v = rw e (record {
  keyed = insert-IsKeyed id_of u s.records v.keyed;
  nodup = insert-NodupKeys u.record_id u s.records v.nodup;
})
Change-IsValid s s' (new u fresh e) v = rw e (record {
  keyed = insert-IsKeyed id_of u s.records v.keyed;
  nodup = insert-NodupKeys u.record_id u s.records v.nodup;
})

-- A record that a code finds stands under its id.
pub get-found :
    (host : Host) (code : String) (s : Punishments) (r : PunishmentRecord)
    → IsValid s
    → get host code s ≡ some r
    → lookup r.record_id s.records ≡ some r
unfolding get
get-found host code s r v e = elim (Option-cases (normalize_code host (some code))) [
  | inl no_code ↦ ground (arith, no_code, e)
  | inr (k, is_code) ↦ ground (arith, is_code, e, v.keyed k r)
]

pub create-Change :
    (host : Host) (env : Readings) (input : PunishmentCreateInput) (w w' : World)
    (s s' : Punishments) (r : PunishmentRecord)
    → create host env input w s ≡ ok (r, w', s')
    → Change s s'
unfolding create
create-Change host env input w w' s s' r e =
    let ((code, v), given, e') =
      >>=-eq-ok (generate_code host "处罚短码生成失败：连续碰撞，请检查随机源" (λ c. has c s.records) w) _ e in
    let (free, _) =
      generate_code_lem host "处罚短码生成失败：连续碰撞，请检查随机源" (λ c. has c s.records) w v code given in
    new r (ground (arith, free, e', given)) (ground (arith, e'))

-- What a new record holds, and where.
pub create-state :
    (host : Host) (env : Readings) (input : PunishmentCreateInput) (w w' : World)
    (s s' : Punishments) (r : PunishmentRecord)
    → create host env input w s ≡ ok (r, w', s')
    → ((code : String) × (r ≡ created_record code env.now input))
      × (s' ≡ put r s)
      × (w'.calls ≡ w.calls)
unfolding create
create-state host env input w w' s s' r e =
    let message : String = "处罚短码生成失败：连续碰撞，请检查随机源" in
    let ((code, v), given, e') =
      >>=-eq-ok (generate_code host message (λ c. has c s.records) w) _ e in
    let (_, reserved) = generate_code_lem host message (λ c. has c s.records) w v code given in
    let made = created_record code env.now input in
    let same = ok-injective (made, v, put made s) (r, w', s') (ok (made, v, put made s)) refl e' in
    (
      (code, sym (ap (λ t. t.0) same)),
      sym (ap (λ t. t.2) same) ∙ ap (λ q. put q s) (ap (λ t. t.0) same),
      ap (λ t. t.calls) (sym (ap (λ t. t.1) same)) ∙ reserved.same_calls,
    )

pub mark_executed-Change :
    (env : Readings) (record_id detail : String) (s : Punishments)
    → IsValid s
    → Change s (mark_executed env record_id detail s).1
unfolding mark_executed
mark_executed-Change env record_id detail s v = elim (Option-cases (lookup record_id s.records)) [
  | inl absent ↦ rw absent (same refl)
  | inr (r, found) ↦ rw found (
      updated r (record r { detail = detail; updated_at = env.now })
        (ap (λ k. lookup k s.records) (v.keyed record_id r found) ∙ found) (ground arith) refl)
]

module _ (host : Host) (env : Readings) (code actor : String) (s : Punishments)
    (v : IsValid s) where
  pub release-Change :
      (remark : Option String) (w : World) (b : Blacklist)
      → Change s (release host env code actor remark w b s).3
  unfolding release
  release-Change remark w b = elim (Option-cases (get host code s)) [
    | inl absent ↦ rw absent (same refl)
    | inr (r, found) ↦ elim (Bool-cases (is_released r.status)) [
      | inl done ↦ rw (found, done) (same refl)
      | inr live ↦
          rw (found, live) (updated r _ (get-found host code s r v found) (ground arith) refl)
    ]
  ]

  settle-Change :
      (error : Option String) (failure text action reason : String) (r u : PunishmentRecord)
      (w : World)
      → lookup r.record_id s.records ≡ some r
      → KeepsIdentity r u
      → Change s (settle error failure text action reason actor env r u w s).2
  settle-Change (some message) failure text action reason r u w found kept = same refl
  settle-Change none failure text action reason r u w found kept = updated r u found kept refl

  pub set_mute-Change :
      (seconds : ℤ) (w : World) → Change s (set_mute host env code seconds actor w s).2
  unfolding set_mute
  set_mute-Change seconds w = elim (Option-cases (get host code s)) [
    | inl absent ↦ rw absent (same refl)
    | inr (r, found) ↦
        rw found (settle-Change _ _ _ _ _ r _ _ (get-found host code s r v found) (ground arith))
  ]

  pub kick-Change : (w : World) → Change s (kick host env code actor w s).2
  unfolding kick
  kick-Change w = elim (Option-cases (get host code s)) [
    | inl absent ↦ rw absent (same refl)
    | inr (r, found) ↦
        rw found (settle-Change _ _ _ _ _ r _ _ (get-found host code s r v found) (ground arith))
  ]

  pub blacklist_user-Change :
      (bound : List String) (scope : BlacklistScope) (reason : Option String) (w : World)
      (b : Blacklist)
      → Change s (blacklist_user host env bound code scope actor reason w b s).3
  unfolding blacklist_user
  blacklist_user-Change bound scope reason w b = elim (Option-cases (get host code s)) [
    | inl absent ↦ rw absent (same refl)
    | inr (r, found) ↦ rw found (updated r _ (get-found host code s r v found) (ground arith) refl)
  ]
