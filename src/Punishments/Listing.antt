-- ===== src/Punishments/Listing.antt =====
-- How the card that blacklists a user, the blacklist and the release meet.
use qq_group_ops.Base.{◌≡◌, refl, ◌∙◌, ap, String, false, Option, some, List, string_eq}
use qq_group_ops.Base.Dict.{has}
use qq_group_ops.Core.Platform.{Host, World, Readings}
use qq_group_ops.Blacklist
use qq_group_ops.Blacklist.{
  Blacklist, BlacklistScope, group_scope, global_scope, hit_for, entry_of, key_of_entry,
}
use qq_group_ops.Blacklist.Hits.{remove-add}
use qq_group_ops.Punishments.{Punishments, PunishmentRecord, get, put}
use qq_group_ops.Punishments.Cards.{
  release, blacklist_user, unmute, unlist, listed_record, card_input, is_released,
}
use qq_group_ops.Punishments.Change.{IsValid}
use qq_group_ops.Punishments.Releasing.{get-put}

module _ (host : Host) (env env' : Readings) (bound : List String) (code actor actor' : String)
    (reason remark : Option String) (w w' : World) (b : Blacklist) (s : Punishments)
    (r : PunishmentRecord) (found : get host code s ≡ some r) where
  abbrev input_of : BlacklistScope → Blacklist.BlacklistAddInput
  input_of scope = card_input scope actor reason r

  blacklist_user-state :
      (scope : BlacklistScope)
      → (blacklist_user host env bound code scope actor reason w b s).3
        ≡ put (listed_record env.now scope r) s
  unfolding blacklist_user
  blacklist_user-state scope = rw found refl

  blacklist_user-listed :
      (scope : BlacklistScope)
      → (blacklist_user host env bound code scope actor reason w b s).2
        ≡ (Blacklist.add host env bound (input_of scope) w b).2
  unfolding blacklist_user
  blacklist_user-listed scope = rw found refl

module _ (host : Host) (env env' : Readings) (bound : List String) (code actor actor' : String)
    (reason remark : Option String) (w w' : World) (b : Blacklist) (s : Punishments)
    (r : PunishmentRecord) where
  unlisted :
      (scope : BlacklistScope) (b1 : Blacklist) (s1 : Punishments)
      → get host code s1 ≡ some (listed_record env.now scope r)
      → is_released r.status ≡ false
      → (release host env' code actor' remark w' b1 s1).2
        ≡ (Blacklist.remove host scope
            (some r.group_id)
            r.user_id
            (unmute host (listed_record env.now scope r) w').1
            b1).2
  unfolding release unlist Blacklist.remove
  unlisted group_scope b1 s1 found live = rw (found, live) refl
  unlisted global_scope b1 s1 found live = rw (found, live) refl

  -- When a code finds a record of a valid service that is not released, and the user is not yet on
  -- the blacklist of the scope: blacklisting the user on its card and releasing it afterwards, with
  -- whatever answers of the platform, leaves everyone stopped, or not, by what stopped them before
  -- the card, also by an entry of the other scope that the record put there earlier.
  pub release-blacklist_user :
      (scope : BlacklistScope)
      → IsValid s
      → get host code s ≡ some r
      → is_released r.status ≡ false
      → has (key_of_entry (entry_of env (card_input scope actor reason r))) b.entries ≡ false
      → (group user : String)
      → let (_, _, b1, s1) = blacklist_user host env bound code scope actor reason w b s in
        hit_for group user (release host env' code actor' remark w' b1 s1).2 ≡ hit_for group user b
  release-blacklist_user scope v found live absent group user =
      let (_, _, b1, s1) = blacklist_user host env bound code scope actor reason w b s in
      let u = listed_record env.now scope r in
      let w1 = (unmute host u w').1 in
      let found1 =
        ap (get host code) (
          blacklist_user-state host env env' bound code actor actor' reason remark w w' b s r found
            scope)
        ∙ get-put host code s r u v found refl in
      let listed =
        blacklist_user-listed host env env' bound code actor actor' reason remark w w' b s r found
          scope in
      ap (hit_for group user) (unlisted scope b1 s1 found1 live)
      ∙ ap
          (λ (c : Blacklist).
            hit_for group user (Blacklist.remove host scope (some r.group_id) r.user_id w1 c).2)
          listed
      ∙ (remove-add host host env bound (card_input scope actor reason r) w w1 b absent).1 group
          user
