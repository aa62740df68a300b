-- ===== src/Permissions/Loading.antt =====
-- `load` of src/services/permissions.ts.
use qq_group_ops.Base.{
  [], String, Bool, true, false, not, ◌&&◌, List, ◌∷◌, any, add, string_eq, if◌then◌else◌,
}
use qq_group_ops.Base.Text.{is_empty}
use qq_group_ops.Permissions.{
  Grant, PermissionService, Scope, add_member, grant_super_admin, super_scope, admin_scope,
  moderator_scope,
}

-- `applyGrant`
unfoldable pub apply_grant : PermissionService → Grant → PermissionService
unfolding add_member
apply_grant s g = elim g.scope [
  | super_scope ↦
      if is_empty g.group_id
      then record s { super_admin_ids = add g.user_id s.super_admin_ids }
      else record s {
        group_super_admin_ids = add_member g.group_id g.user_id s.group_super_admin_ids;
      }
  | admin_scope ↦ record s { group_admin_ids = add_member g.group_id g.user_id s.group_admin_ids }
  | moderator_scope ↦ record s { moderator_ids = add_member g.group_id g.user_id s.moderator_ids }
]

unfoldable pub apply_grants : PermissionService → List Grant → PermissionService
unfolding apply_grant
apply_grants s [] = s
apply_grants s (g ∷ gs) = apply_grants (apply_grant s g) gs

abbrev is_super : Scope → Bool
is_super super_scope = true
is_super _ = false

-- A row of a global super administrator.
abbrev pub is_global_super : Grant → Bool
is_global_super g = is_super g.scope && is_empty g.group_id

-- The loop that seeds the super administrators of the configuration.
unfoldable pub seed_all : List String → PermissionService → PermissionService
unfolding grant_super_admin
seed_all [] s = s
seed_all (user ∷ users) s = seed_all users (grant_super_admin user s)

abbrev pub cleared : PermissionService → PermissionService
cleared s = record s {
  super_admin_ids = [];
  group_super_admin_ids = [];
  group_admin_ids = [];
  moderator_ids = [];
}

-- `load()`, given the rows that `findAll` returns.
unfoldable pub load : List Grant → PermissionService → PermissionService
unfolding apply_grants seed_all
load rows s =
    let loaded = apply_grants (cleared s) rows in
    if s.persistent
    then if not (any is_global_super rows) then seed_all s.seed_super_admin_ids loaded else loaded
    else s
