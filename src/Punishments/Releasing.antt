-- ===== src/Punishments/Releasing.antt =====
-- Theorems on the cards: what releasing and muting do, on every branch, and how they meet.
use mathlib.Core.List.{append-nil}
use qq_group_ops.Base.Text.{is_empty}
use qq_group_ops.Base.Dict.{has, lookup, lookup-insert, lookup-erase}
use qq_group_ops.Core.Platform.{
  PlatformCall, update_member_blacklist, audit, Host, World, Readings, mute_group_member, call,
}
use qq_group_ops.Blacklist.{
  update_official, Blacklist, BlacklistScope, group_scope, global_scope, key_of, hit_for,
  stored_group,
}
use qq_group_ops.Punishments.{
  active, released, Punishments, PunishmentRecord, PunishmentActionResult, get, put,
}
use qq_group_ops.Punishments.Cards.{
  unmute, unlist_scope, release, unlist, released_record, is_released,
}
use qq_group_ops.Base.{
  List, ◌∷◌, [], ◌++◌, Bool-cases, sym, if◌then◌else◌, pos, ◌&&◌, not, ◌≡◌, refl, ◌∙◌, ap, String,
  true, false, Option, none, some, arith, string_eq, ◌≢◌, Option-cases, inl, inr,
}
use qq_group_ops.Codes.{normalize_code}
use qq_group_ops.Blacklist
use qq_group_ops.Punishments.Change.{IsValid, Change-IsValid, release-Change}

-- A code finds by the id that it is normalised to.
pub get-put :
    (host : Host) (code : String) (s : Punishments) (r u : PunishmentRecord)
    → IsValid s
    → get host code s ≡ some r
    → u.record_id ≡ r.record_id
    → get host code (put u s) ≡ some u
unfolding get
get-put host code s r u v e same = elim (Option-cases (normalize_code host (some code))) [
  | inl no_code ↦ ground (arith, no_code, e)
  | inr (k, is_code) ↦
      ground (arith, is_code, e, v.keyed k r, same, lookup-insert k u.record_id u s.records)
]

module _ (host : Host) (env : Readings) (code actor : String) (remark : Option String) (w : World)
    (b : Blacklist) (s : Punishments) (r : PunishmentRecord) (v : IsValid s)
    (found : get host code s ≡ some r) where
  release-state :
      is_released r.status ≡ false
      → (release host env code actor remark w b s).3 ≡ put (released_record env.now r) s
  unfolding release
  release-state live = rw (found, live) refl

  release-ok :
      is_released r.status ≡ false
      → (x : PunishmentActionResult) × ((release host env code actor remark w b s).0 ≡ some x)
        × (x.ok? ≡ true)
  unfolding release
  release-ok live = rw (found, live) (_, refl, refl)

  release-released :
      is_released r.status ≡ true
      → (x : PunishmentActionResult) × (release host env code actor remark w b s
          ≡ (some x, w, b, s))
        × (x.ok? ≡ false)
        × (x.punishment ≡ r)
  unfolding release
  release-released done = rw (found, done) (_, refl, refl, refl)

  removed_key :
      (scope : BlacklistScope) (group : Option String) (user : String) (w' : World)
      → lookup
          (key_of scope (stored_group scope group) user)
          (Blacklist.remove host scope group user w' b).2.entries
        ≡ none
  unfolding Blacklist.remove
  removed_key scope group user w' =
      let key = key_of scope (stored_group scope group) user in
      ground (arith, lookup-erase key key b.entries)

  release-unlists :
      (scope : BlacklistScope)
      → is_released r.status ≡ false
      → r.actions.blacklist ≡ some scope
      → lookup
          (key_of scope (stored_group scope (some r.group_id)) r.user_id)
          (release host env code actor remark w b s).2.entries
        ≡ none
  unfolding release unlist
  release-unlists group_scope live listed = rw (found, live, listed) (removed_key group_scope _ _ _)
  release-unlists global_scope live listed =
      rw (found, live, listed) (removed_key global_scope (some "") _ _)

-- The calls that lift what the record holds: a mute of no seconds, and for the list of its group, on which
-- the user still is, that of the platform's own list.
abbrev pub lifting_mute : PunishmentRecord → List PlatformCall
lifting_mute r = if r.actions.muted then mute_group_member r.group_id r.user_id (pos 0) ∷ [] else []

abbrev pub lifting_entry :
    Option BlacklistScope → (group user : String) → Blacklist → List PlatformCall
lifting_entry none group user b = []
lifting_entry (some global_scope) group user b = []
lifting_entry (some group_scope) group user b =
    if has (key_of group_scope group user) b.entries && not (is_empty group)
    then update_member_blacklist group user false ∷ []
    else []

unmute-calls :
    (host : Host) (r : PunishmentRecord) (w : World)
    → (unmute host r w).1.calls ≡ w.calls ++ lifting_mute r
unfolding unmute call
unmute-calls host r w = elim (Bool-cases r.actions.muted) [
  | inl y ↦ rw y refl
  | inr n ↦ rw n (sym (append-nil w.calls))
]

unlist_scope-calls :
    (host : Host) (r : PunishmentRecord) (scope : Option BlacklistScope) (w : World) (b : Blacklist)
    → (unlist_scope host r scope w b).1.calls
      ≡ w.calls ++ lifting_entry scope r.group_id r.user_id b
unfolding Blacklist.remove update_official call
unlist_scope-calls host r none w b = sym (append-nil w.calls)
unlist_scope-calls host r (some global_scope) w b =
    elim (Bool-cases (has (key_of global_scope "" r.user_id) b.entries)) [
      | inl y ↦ rw y (sym (append-nil w.calls))
      | inr n ↦ rw n (sym (append-nil w.calls))
    ]
unlist_scope-calls host r (some group_scope) w b =
    elim (Bool-cases (has (key_of group_scope r.group_id r.user_id) b.entries)) [
      | inl y ↦ elim (Bool-cases (is_empty r.group_id)) [
        | inl empty ↦ rw (y, empty) (sym (append-nil w.calls))
        | inr named ↦ rw (y, named) refl
      ]
      | inr n ↦ rw n (sym (append-nil w.calls))
    ]

release-calls :
    (host : Host) (env : Readings) (code actor : String) (remark : Option String) (w : World)
    (b : Blacklist) (s : Punishments) (r : PunishmentRecord)
    → get host code s ≡ some r
    → is_released r.status ≡ false
    → (release host env code actor remark w b s).1.calls
      ≡ w.calls ++ lifting_mute r ++ lifting_entry r.actions.blacklist r.group_id r.user_id b
unfolding release unlist audit
release-calls host env code actor remark w b s r found live =
    rw (found, live)
      (unlist_scope-calls host r r.actions.blacklist (unmute host r w).1 b
        ∙ ap (λ l. l ++ lifting_entry r.actions.blacklist r.group_id r.user_id b)
            (unmute-calls host r w))

-- When a code finds a record of a valid service that is in force, then releasing it, whatever the
-- platform answers: tells of success; calls the platform to lift the mute exactly if the record says
-- that one is in force, then to take the user off its list of the group exactly if the record put them
-- there and they still are, and for nothing else; leaves under the code the same record, released,
-- neither muted nor on a blacklist, with what cannot be undone still recorded; changes no other record;
-- takes the user off the blacklist on which the record put them; and to release it again changes
-- nothing, calls the platform for nothing and tells of failure.
pub release_lem :
    (host : Host) (env env' : Readings) (code actor actor' : String)
    (remark remark' : Option String) (w w' : World) (b b' : Blacklist) (s : Punishments)
    (r : PunishmentRecord)
    → IsValid s
    → get host code s ≡ some r
    → r.status ≡ active
    → let s' = (release host env code actor remark w b s).3 in
      ((x : PunishmentActionResult) × ((release host env code actor remark w b s).0 ≡ some x)
        × (x.ok? ≡ true))
      × ((release host env code actor remark w b s).1.calls
          ≡ w.calls ++ lifting_mute r ++ lifting_entry r.actions.blacklist r.group_id r.user_id b)
      × (get host code s'
          ≡ some (record r {
            actions = record r.actions { muted = false; blacklist = none };
            status = released;
            updated_at = env.now;
          }))
      × ((k : String) → k ≢ r.record_id → lookup k s'.records ≡ lookup k s.records)
      × ((scope : BlacklistScope)
          → r.actions.blacklist ≡ some scope
          → lookup
              (key_of scope (stored_group scope (some r.group_id)) r.user_id)
              (release host env code actor remark w b s).2.entries
            ≡ none)
      × ((x : PunishmentActionResult) × (release host env' code actor' remark' w' b' s'
            ≡ (some x, w', b', s'))
          × (x.ok? ≡ false))
release_lem host env env' code actor actor' remark remark' w w' b b' s r v found in_force =
    let live = ap is_released in_force in
    let s' = (release host env code actor remark w b s).3 in
    let u = released_record env.now r in
    let state = release-state host env code actor remark w b s r v found live in
    let found' = ap (get host code) state ∙ get-put host code s r u v found refl in
    let v' = Change-IsValid s s' (release-Change host env code actor s v remark w b) v in
    let (again, same_state, refused, _) =
      release-released host env' code actor' remark' w' b' s' u v' found' refl in
    (
      release-ok host env code actor remark w b s r v found live,
      release-calls host env code actor remark w b s r found live,
      found',
      (λ k other.
          ap (λ (t : Punishments). lookup k t.records) state
          ∙ ground (arith, other, lookup-insert k r.record_id u s.records)),
      (λ scope listed.
          release-unlists host env code actor remark w b s r v found scope live listed),
      (again, same_state, refused),
    )
