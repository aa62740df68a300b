-- ===== src/Permissions.antt =====
-- src/services/permissions.ts: who holds which role, and the levels that follow.
-- A method that changes the service returns the new record. `promise` writes of the queue are
-- data here (`Write`), oldest first; `Permissions.Table` says what they do to the table.
pub mod Levels
pub mod Loading
pub mod Roles
pub mod Table
pub mod Axes
pub mod Grants
pub mod Holding
pub mod Reload
pub mod History
use qq_group_ops.Base.{
  [], ℕ, String, Bool, true, false, ◌&&◌, Option, none, some, List, ◌∷◌, ◌++◌, leb, length, add,
  remove, contains, string_eq, if◌then◌else◌,
}
use qq_group_ops.Base.Dict.{Dict, lookup, insert}
use qq_group_ops.Base.Text.{text_le}
use qq_group_ops.Base.Sort.{sort}
use qq_group_ops.Base.Outcome.{Outcome, ok, thrown}

-- `PermissionGrantScope`
pub data Scope : Type 0 where
  super_scope admin_scope moderator_scope : Scope

-- `PermissionGrant`, a row of the table `permission_grants`
pub record Grant : Type 0 where
  pub scope : Scope
  pub group_id : String
  pub user_id : String

pub data Write : Type 0 where
  save delete : Grant → Write

pub data PermissionError : Type 0 where
  last_super_admin needs_group not_a_platform_level : PermissionError

-- A `Map<string, Set<string>>`: the members of each group.
abbrev pub Members : Type 0
Members = Dict String (List String)

pub record PermissionService : Type 0 where
  pub super_admin_ids : List String
  pub group_super_admin_ids : Members
  pub group_admin_ids : Members
  pub moderator_ids : Members
  pub seed_super_admin_ids : List String
  pub persistent : Bool
  pub queue : List Write

abbrev pub contains? : String → Option (List String) → Bool
contains? user none = false
contains? user (some users) = contains user users

-- `map.get(groupId)?.has(userId)`
unfoldable pub is_member : String → String → Members → Bool
is_member group user m = contains? user (lookup group m)

abbrev pub members_or_empty : Option (List String) → List String
members_or_empty none = []
members_or_empty (some users) = users

-- `ensureGroupSet(groupId, target).add(userId)`
unfoldable pub add_member : String → String → Members → Members
add_member group user m = insert group (add user (members_or_empty (lookup group m))) m

-- `target.get(groupId)?.delete(userId)`
unfoldable pub remove_member : String → String → Members → Members
remove_member group user m = elim (lookup group m) [
  | none ↦ m
  | some users ↦ insert group (remove user users) m
]

abbrev pub enqueue_save : Grant → PermissionService → PermissionService
enqueue_save g s = record s { queue = if s.persistent then s.queue ++ save g ∷ [] else s.queue }

abbrev pub enqueue_remove : Grant → PermissionService → PermissionService
enqueue_remove g s = record s { queue = if s.persistent then s.queue ++ delete g ∷ [] else s.queue }

abbrev pub grant_of : Scope → String → String → Grant
grant_of scope group user = record { scope = scope; group_id = group; user_id = user }

unfoldable pub grant_super_admin : String → PermissionService → PermissionService
grant_super_admin user s =
    enqueue_save (grant_of super_scope "" user)
      (record s { super_admin_ids = add user s.super_admin_ids })

unfoldable pub revoke_super_admin :
    String → PermissionService → Outcome PermissionError (Bool × PermissionService)
revoke_super_admin user s =
    if leb (length s.super_admin_ids) 1 && contains user s.super_admin_ids
    then thrown last_super_admin
    else if contains user s.super_admin_ids
    then ok (
      true,
      enqueue_remove (grant_of super_scope "" user)
          (record s { super_admin_ids = remove user s.super_admin_ids }),
    )
    else ok (false, s)

unfoldable pub grant_group_super_admin : String → String → PermissionService → PermissionService
unfolding add_member
grant_group_super_admin group user s =
    enqueue_save (grant_of super_scope group user)
      (record s { group_super_admin_ids = add_member group user s.group_super_admin_ids })

unfoldable pub revoke_group_super_admin :
    String → String → PermissionService → Bool × PermissionService
unfolding remove_member is_member
revoke_group_super_admin group user s =
    if is_member group user s.group_super_admin_ids
    then (
      true,
      enqueue_remove (grant_of super_scope group user)
          (record s { group_super_admin_ids = remove_member group user s.group_super_admin_ids }),
    )
    else (false, s)

unfoldable pub grant_group_admin : String → String → PermissionService → PermissionService
unfolding add_member
grant_group_admin group user s =
    enqueue_save (grant_of admin_scope group user)
      (record s { group_admin_ids = add_member group user s.group_admin_ids })

unfoldable pub revoke_group_admin : String → String → PermissionService → Bool × PermissionService
unfolding remove_member is_member
revoke_group_admin group user s =
    if is_member group user s.group_admin_ids
    then (
      true,
      enqueue_remove (grant_of admin_scope group user)
          (record s { group_admin_ids = remove_member group user s.group_admin_ids }),
    )
    else (false, s)

unfoldable pub grant_moderator : String → String → PermissionService → PermissionService
unfolding add_member
grant_moderator group user s =
    enqueue_save (grant_of moderator_scope group user)
      (record s { moderator_ids = add_member group user s.moderator_ids })

unfoldable pub revoke_moderator : String → String → PermissionService → Bool × PermissionService
unfolding remove_member is_member
revoke_moderator group user s =
    if is_member group user s.moderator_ids
    then (
      true,
      enqueue_remove (grant_of moderator_scope group user)
          (record s { moderator_ids = remove_member group user s.moderator_ids }),
    )
    else (false, s)

unfoldable pub list_super_admins : PermissionService → List String
list_super_admins s = sort text_le s.super_admin_ids

-- The sorted members of a group in one of the maps.
unfoldable pub list_members : String → Members → List String
list_members group m = sort text_le (members_or_empty (lookup group m))
