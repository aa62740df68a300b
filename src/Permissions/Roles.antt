-- ===== src/Permissions/Roles.antt =====
-- src/services/permissionRoles.ts: one entry for the four roles.
use qq_group_ops.Base.{String, Bool, Option, none, some, List, if◌then◌else◌}
use qq_group_ops.Base.Text.{trim, is_empty}
use qq_group_ops.Base.Outcome.{◌>>=◌, Outcome, ok, thrown}
use qq_group_ops.Permissions.{
  PermissionService, PermissionError, needs_group, grant_super_admin, revoke_super_admin,
  grant_group_super_admin, revoke_group_super_admin, grant_group_admin, revoke_group_admin,
  grant_moderator, revoke_moderator, list_super_admins, list_members,
}

-- `PermissionRole`
pub data Role : Type 0 where
  super group_super group_admin_role moderator_role : Role

-- `requireGroup`
unfoldable pub require_group : Option String → Outcome PermissionError String
require_group none = thrown needs_group
require_group (some group) = if is_empty (trim group) then thrown needs_group else ok (trim group)

-- `grantPermissionRole`
unfoldable pub grant_role :
    Role → Option String → String → PermissionService → Outcome PermissionError PermissionService
unfolding require_group
grant_role super group user s = ok (grant_super_admin user s)
grant_role group_super group user s = do
  g ← require_group group
  ok (grant_group_super_admin g user s)
grant_role group_admin_role group user s = do
  g ← require_group group
  ok (grant_group_admin g user s)
grant_role moderator_role group user s = do g ← require_group group; ok (grant_moderator g user s)

-- `revokePermissionRole`
unfoldable pub revoke_role :
    Role
    → Option String
    → String
    → PermissionService
    → Outcome PermissionError (Bool × PermissionService)
unfolding require_group
revoke_role super group user s = revoke_super_admin user s
revoke_role group_super group user s = do
  g ← require_group group
  ok (revoke_group_super_admin g user s)
revoke_role group_admin_role group user s = do
  g ← require_group group
  ok (revoke_group_admin g user s)
revoke_role moderator_role group user s = do g ← require_group group; ok (revoke_moderator g user s)

-- `listPermissionRole`
unfoldable pub list_role :
    Role → Option String → PermissionService → Outcome PermissionError (List String)
unfolding require_group
list_role super group s = ok (list_super_admins s)
list_role group_super group s = do
  g ← require_group group
  ok (list_members g s.group_super_admin_ids)
list_role group_admin_role group s = do
  g ← require_group group
  ok (list_members g s.group_admin_ids)
list_role moderator_role group s = do g ← require_group group; ok (list_members g s.moderator_ids)
