-- ===== src/Permissions/Grants.antt =====
-- Theorems on the last super administrator and the lists of groups.
use qq_group_ops.Base.{
  [], suc, ◌≤◌, ◌<◌, ◌≡◌, refl, ◌∙◌, String, Bool, true, false, ◌&&◌, Option, some, List, ◌∷◌,
  arith, string_eq, Eq, contains, add, remove, length, filter, length-append, any,
}
use qq_group_ops.Base.Sort.{Sorted, sort-Sorted, sort-contains}
use qq_group_ops.Base.Text.{text_le, text_le_total}
use qq_group_ops.Base.Outcome.{ok}
use qq_group_ops.Core.Levels.{group_admin}
use qq_group_ops.Permissions.{
  PermissionService, grant_super_admin, revoke_super_admin, grant_group_admin, revoke_group_admin,
  grant_group_super_admin, revoke_group_super_admin, grant_moderator, revoke_moderator,
}
use qq_group_ops.Permissions.Levels.{meets_in_group, known_groups, list_reviewable_groups}
use qq_group_ops.Permissions.Roles.{
  Role, super, group_super, group_admin_role, moderator_role, grant_role, revoke_role,
}

module _ {ℓ} {A : Type ℓ} ⦃e : Eq A⦄ where
  -- A set holds an element once.
  abbrev pub NodupSet : List A → Type 0
  NodupSet [] = Unit
  NodupSet (x ∷ xs) = (contains x xs ≡ false) × NodupSet xs

  remove-of_absent : (a : A) (xs : List A) → contains a xs ≡ false → remove a xs ≡ xs
  unfolding contains remove
  remove-of_absent a [] h = refl
  remove-of_absent a (x ∷ xs) h = ground (arith, remove-of_absent a xs)

  length-remove : (a : A) (xs : List A) → NodupSet xs → length xs ≤ suc (length (remove a xs))
  unfolding contains remove
  length-remove a [] h = omega arith
  length-remove a (x ∷ xs) (fresh, h) = ground (arith, length-remove a xs h, remove-of_absent a xs)

  length-le-add : (a : A) (xs : List A) → length xs ≤ length (add a xs)
  unfolding add
  length-le-add a xs = ground (arith, length-append xs (a ∷ []))

  contains-filter :
      (p : A → Bool) (a : A) (xs : List A) → contains a (filter p xs) ≡ (p a && contains a xs)
  unfolding contains filter
  contains-filter p a [] = ground arith
  contains-filter p a (x ∷ xs) = ground (arith, contains-filter p a xs)

  any-of_contains :
      (p : A → Bool) (a : A) (xs : List A) → contains a xs ≡ true → p a ≡ true → any p xs ≡ true
  unfolding contains any
  any-of_contains p a [] h k = cc
  any-of_contains p a (x ∷ xs) h k = ground (arith, any-of_contains p a xs)

-- Somebody is a global super administrator.
abbrev pub HasSuperAdmin : PermissionService → Type 0
HasSuperAdmin s = 0 < length s.super_admin_ids

-- If there is a global super administrator, there is one after any role is given.
pub grant_role-HasSuperAdmin :
    (role : Role) (group : Option String) (user : String) (s s' : PermissionService)
    → grant_role role group user s ≡ ok s'
    → HasSuperAdmin s
    → HasSuperAdmin s'
unfolding grant_role grant_super_admin grant_group_super_admin grant_group_admin grant_moderator
grant_role-HasSuperAdmin super group user s s' e h =
    ground (arith, length-le-add user s.super_admin_ids)
grant_role-HasSuperAdmin group_super group user s s' e h = ground arith
grant_role-HasSuperAdmin group_admin_role group user s s' e h = ground arith
grant_role-HasSuperAdmin moderator_role group user s s' e h = ground arith

-- If there is a global super administrator, and the set of them holds each once, there is one after
-- any role is taken away without an error.
pub revoke_role-HasSuperAdmin :
    (role : Role) (group : Option String) (user : String) (done : Bool) (s s' : PermissionService)
    → NodupSet s.super_admin_ids
    → revoke_role role group user s ≡ ok (done, s')
    → HasSuperAdmin s
    → HasSuperAdmin s'
unfolding revoke_role revoke_super_admin revoke_group_super_admin revoke_group_admin
    revoke_moderator
revoke_role-HasSuperAdmin super group user done s s' n e h =
    ground (arith, length-remove user s.super_admin_ids n)
revoke_role-HasSuperAdmin group_super group user done s s' n e h = ground arith
revoke_role-HasSuperAdmin group_admin_role group user done s s' n e h = ground arith
revoke_role-HasSuperAdmin moderator_role group user done s s' n e h = ground arith

-- The groups that a user may review are sorted, and are those known groups where the level of a
-- group administrator is met.
pub list_reviewable_groups_lem :
    (s : PermissionService) (user : String)
    → Sorted text_le (list_reviewable_groups s user)
      × ((g : String)
          → contains g (list_reviewable_groups s user)
            ≡ (meets_in_group s user (some g) group_admin && contains g (known_groups s)))
unfolding list_reviewable_groups
list_reviewable_groups_lem s user = (
  sort-Sorted text_le text_le_total _,
  λ g. sort-contains text_le g _ ∙ contains-filter _ g (known_groups s),
)
