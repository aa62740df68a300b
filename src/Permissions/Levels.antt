-- ===== src/Permissions/Levels.antt =====
-- The levels of src/services/permissions.ts, within a group and on the platform, and the lists of
-- groups where one is reached.
use qq_group_ops.Base.{
  [], ℕ, ◌-◌, String, Bool, false, Option, none, some, List, ◌∷◌, max, leb, ltb, filter, any, add,
  contains, string_eq, if◌then◌else◌, at_least,
}
use qq_group_ops.Base.Dict.{keys}
use qq_group_ops.Base.Text.{is_empty, text_le}
use qq_group_ops.Base.Sort.{sort}
use qq_group_ops.Base.Outcome.{Outcome, ok, thrown}
use qq_group_ops.Core.Levels.{
  GroupLevel, moderator, group_admin, level_value, global_super_admin, platform_offset,
  platform_level_min,
}
use qq_group_ops.Permissions.{PermissionError, PermissionService, is_member, not_a_platform_level}

-- `globalLevelOf`
unfoldable pub global_level_of : PermissionService → String → ℕ
global_level_of s user = if contains user s.super_admin_ids then global_super_admin else 0

-- `isSuperAdmin`
unfoldable pub is_super_admin : PermissionService → String → Bool
is_super_admin s user = contains user s.super_admin_ids

-- `isGroupSuperAdmin`
unfoldable pub is_group_super_admin : PermissionService → String → String → Bool
unfolding is_member
is_group_super_admin s user group =
    if is_empty group then false else is_member group user s.group_super_admin_ids

-- The numbers of `groupLevelOf` within a group: `PermissionLevel.SuperAdmin`, `GroupAdmin`,
-- `Moderator` and `Member`.
unfoldable pub level_in : PermissionService → String → String → ℕ
unfolding is_member
level_in s user group =
    if is_member group user s.group_super_admin_ids
    then 140
    else if is_member group user s.group_admin_ids
    then 130
    else if is_member group user s.moderator_ids
    then 120
    else 110

-- `groupLevelOf`: an absent or empty group gives the level of a guest.
unfoldable pub group_level_of : PermissionService → String → Option String → ℕ
unfolding level_in
group_level_of s user none = 0
group_level_of s user (some group) = if is_empty group then 0 else level_in s user group

-- The platform level brought down to the axis of groups.
unfoldable pub folded : ℕ → ℕ
folded platform = if leb platform_level_min platform then platform - platform_offset else 0

-- `levelFor`
unfoldable pub level_for : PermissionService → String → Option String → ℕ
unfolding group_level_of folded global_level_of
level_for s user group = max (group_level_of s user group) (folded (global_level_of s user))

-- `meetsInGroup`
unfoldable pub meets_in_group : PermissionService → String → Option String → GroupLevel → Bool
unfolding level_for
meets_in_group s user group required = at_least (level_for s user group) (level_value required)

-- `meetsGlobal`
unfoldable pub meets_global : PermissionService → String → ℕ → Outcome PermissionError Bool
unfolding global_level_of
meets_global s user required =
    if ltb required platform_level_min
    then thrown not_a_platform_level
    else ok (leb required (global_level_of s user))

unfoldable pub union : List String → List String → List String
union xs [] = xs
union xs (y ∷ ys) = union (add y xs) ys

-- The keys of the three maps, each once.
unfoldable pub known_groups : PermissionService → List String
unfolding union
known_groups s =
    union (union (union [] (keys s.group_super_admin_ids)) (keys s.group_admin_ids))
      (keys s.moderator_ids)

-- `meetsAnywhere`
unfoldable pub meets_anywhere : PermissionService → String → GroupLevel → Bool
unfolding meets_in_group known_groups
meets_anywhere s user required =
    any (λ group. meets_in_group s user (some group) required) (known_groups s)

-- The groups where a user reaches a level, sorted.
unfoldable pub groups_at : GroupLevel → PermissionService → String → List String
unfolding meets_in_group known_groups
groups_at required s user =
    sort text_le (filter (λ group. meets_in_group s user (some group) required) (known_groups s))

-- `listReviewableGroups`
unfoldable pub list_reviewable_groups : PermissionService → String → List String
unfolding groups_at
list_reviewable_groups = groups_at group_admin

-- `listModeratedGroups`
unfoldable pub list_moderated_groups : PermissionService → String → List String
unfolding groups_at
list_moderated_groups = groups_at moderator
