-- ===== src/Permissions/Axes.antt =====
-- Theorems on the levels of src/services/permissions.ts and the roles that change them.
use qq_group_ops.Base.{
  ℕ, ◌≤◌, ◌≡◌, refl, ◌≢◌, String, Bool, true, false, not, ◌&&◌, ◌||◌, Option, none, some, max,
  arith, ◌==◌, string_eq, if◌then◌else◌, contains, contains-add, contains-remove, add, remove,
  Option-cases, inl, inr,
}
use qq_group_ops.Base.Dict.{lookup, lookup-insert}
use qq_group_ops.Base.Outcome.{ok}
use qq_group_ops.Permissions.{
  PermissionService, Members, is_member, members_or_empty, add_member, remove_member,
  grant_group_admin, revoke_group_admin, grant_group_super_admin, revoke_group_super_admin,
  grant_moderator, revoke_moderator,
}
use qq_group_ops.Permissions.Levels.{level_in, group_level_of, level_for, meets_global}
use qq_group_ops.Permissions.Roles.{
  Role, super, group_super, group_admin_role, moderator_role, grant_role, revoke_role,
}

-- Who is a member after an addition.
pub is_member-add_member :
    (h v g u : String) (m : Members)
    → is_member h v (add_member g u m) ≡ ((h == g && v == u) || is_member h v m)
unfolding is_member add_member contains
is_member-add_member h v g u m = ground (
  arith,
  lookup-insert h g (add u (members_or_empty (lookup g m))) m,
  contains-add v u (members_or_empty (lookup g m)),
)

-- Who is a member after a removal.
pub is_member-remove_member :
    (h v g u : String) (m : Members)
    → is_member h v (remove_member g u m) ≡ (not (h == g && v == u) && is_member h v m)
unfolding is_member remove_member contains
is_member-remove_member h v g u m = elim (Option-cases (lookup g m)) [
  | inl e ↦ rw (e, remove_member) (ground (arith, e))
  | inr (us, e) ↦
      rw (e, remove_member)
        (ground (arith, e, lookup-insert h g (remove u us) m, contains-remove v u us))
]

-- A global super administrator has level 140 in every group and with no group. For all others the
-- level is the group level. No level on the axis of groups passes 140.
pub level_for_lem :
    (s : PermissionService) (user : String) (group : Option String)
    → (contains user s.super_admin_ids ≡ true → level_for s user group ≡ 140)
      × (contains user s.super_admin_ids ≡ false
          → level_for s user group ≡ group_level_of s user group)
      × (level_for s user group ≤ 140)
unfolding level_for level_in
level_for_lem s user none = ground arith
level_for_lem s user (some group) = ground arith

-- Giving a role other than that of a global super administrator changes no decision on the
-- platform axis, for any user and level.
pub grant_role-meets_global :
    (role : Role) (group : Option String) (user v : String) (required : ℕ)
    (s s' : PermissionService)
    → role ≢ super
    → grant_role role group user s ≡ ok s'
    → meets_global s' v required ≡ meets_global s v required
unfolding grant_role grant_group_super_admin grant_group_admin grant_moderator meets_global
grant_role-meets_global super group user v required s s' h e = absurd (h refl)
grant_role-meets_global group_super group user v required s s' h e = ground arith
grant_role-meets_global group_admin_role group user v required s s' h e = ground arith
grant_role-meets_global moderator_role group user v required s s' h e = ground arith

-- Taking a role other than that of a global super administrator away changes no decision on the
-- platform axis, for any user and level.
pub revoke_role-meets_global :
    (role : Role) (group : Option String) (user v : String) (required : ℕ) (done : Bool)
    (s s' : PermissionService)
    → role ≢ super
    → revoke_role role group user s ≡ ok (done, s')
    → meets_global s' v required ≡ meets_global s v required
unfolding revoke_role revoke_group_super_admin revoke_group_admin revoke_moderator meets_global
revoke_role-meets_global super group user v required done s s' h e = absurd (h refl)
revoke_role-meets_global group_super group user v required done s s' h e = ground arith
revoke_role-meets_global group_admin_role group user v required done s s' h e = ground arith
revoke_role-meets_global moderator_role group user v required done s s' h e = ground arith

-- Making `user` an administrator of `group` raises that user in that group to at least 130, and
-- changes no other level.
pub level_in-grant_group_admin :
    (s : PermissionService) (group user g v : String)
    → level_in (grant_group_admin group user s) v g
      ≡ (if g == group && v == user then max 130 (level_in s v g) else level_in s v g)
unfolding level_in grant_group_admin
level_in-grant_group_admin s group user g v =
    ground (arith, is_member-add_member g v group user s.group_admin_ids)
