-- ===== src/Permissions/History.antt =====
-- Theorems on whole histories of the permission service, from one restart to the next.
use qq_group_ops.Permissions.{
  PermissionError, PermissionService, Scope, Grant, grant_of, grant_super_admin, revoke_super_admin,
  grant_group_admin, revoke_group_admin, grant_group_super_admin, revoke_group_super_admin,
  grant_moderator, revoke_moderator,
}
use qq_group_ops.Permissions.Loading.{apply_grant, cleared, apply_grants, load, is_global_super}
use qq_group_ops.Base.{
  [], ◌≡◌, refl, ◌∙◌, ap, sym, String, Bool, true, ◌||◌, Option, List, ◌∷◌, arith, string_eq,
  contains, any, inl, inr,
}
use qq_group_ops.Base.Outcome.{Outcome, ok, thrown, Outcome-cases}
use qq_group_ops.Permissions.Roles.{
  Role, super, group_super, group_admin_role, moderator_role, grant_role, revoke_role,
}
use qq_group_ops.Permissions.Table.{grant_eq, run_writes}
use qq_group_ops.Permissions.Holding.{holds, Mirrors, stored}
use qq_group_ops.Permissions.Reload.{
  grant_role-Mirrors, revoke_role-Mirrors, load-holds, apply_grants-holds, cleared-holds,
}

-- The changes of roles.
pub data RoleOp : Type 0 where
  given taken : Role → (group : Option String) → (user : String) → RoleOp

-- The service after a change: as before, if it throws.
abbrev pub after_grant :
    PermissionService → Outcome PermissionError PermissionService → PermissionService
after_grant s (ok s') = s'
after_grant s (thrown _) = s

abbrev pub after_revoke :
    PermissionService → Outcome PermissionError (Bool × PermissionService) → PermissionService
after_revoke s (ok (_, s')) = s'
after_revoke s (thrown _) = s

unfoldable pub run : RoleOp → PermissionService → PermissionService
run (given role group user) s = after_grant s (grant_role role group user s)
run (taken role group user) s = after_revoke s (revoke_role role group user s)

unfoldable pub run_all : List RoleOp → PermissionService → PermissionService
unfolding run
run_all [] s = s
run_all (op ∷ ops) s = run_all ops (run op s)

grant_role-persistent :
    (role : Role) (group : Option String) (user : String) (s s' : PermissionService)
    → grant_role role group user s ≡ ok s'
    → s'.persistent ≡ s.persistent
unfolding grant_role grant_super_admin grant_group_super_admin grant_group_admin grant_moderator
grant_role-persistent super group user s s' e = ground arith
grant_role-persistent group_super group user s s' e = ground arith
grant_role-persistent group_admin_role group user s s' e = ground arith
grant_role-persistent moderator_role group user s s' e = ground arith

revoke_role-persistent :
    (role : Role) (group : Option String) (user : String) (done : Bool) (s s' : PermissionService)
    → revoke_role role group user s ≡ ok (done, s')
    → s'.persistent ≡ s.persistent
unfolding revoke_role revoke_super_admin revoke_group_super_admin revoke_group_admin
    revoke_moderator
revoke_role-persistent super group user done s s' e = ground arith
revoke_role-persistent group_super group user done s s' e = ground arith
revoke_role-persistent group_admin_role group user done s s' e = ground arith
revoke_role-persistent moderator_role group user done s s' e = ground arith

module _ (rows : List Grant) where
  -- The table, with the queued writes done, is the roles in memory, and the service persists them.
  abbrev IsStored : PermissionService → Type 0
  IsStored s = (s.persistent ≡ true) × Mirrors s (stored s rows)

  run-IsStored : (op : RoleOp) (s : PermissionService) → IsStored s → IsStored (run op s)
  unfolding run
  run-IsStored (given role group user) s (p, m) =
      elim (Outcome-cases (grant_role role group user s)) [
        | inl (s', e) ↦ rw e (
          grant_role-persistent role group user s s' e ∙ p,
          grant_role-Mirrors rows role group user s s' p m e,
        )
        | inr (x, e) ↦ rw e (p, m)
      ]
  run-IsStored (taken role group user) s (p, m) =
      elim (Outcome-cases (revoke_role role group user s)) [
        | inl ((done, s'), e) ↦ rw e (
          revoke_role-persistent role group user done s s' e ∙ p,
          revoke_role-Mirrors rows role group user done s s' p m e,
        )
        | inr (x, e) ↦ rw e (p, m)
      ]

  run_all-IsStored :
      (ops : List RoleOp) (s : PermissionService) → IsStored s → IsStored (run_all ops s)
  unfolding run_all
  run_all-IsStored [] s h = h
  run_all-IsStored (op ∷ ops) s h = run_all-IsStored ops (run op s) (run-IsStored op s h)

apply_grants-queue :
    (rows : List Grant) (s : PermissionService) → (apply_grants s rows).queue ≡ s.queue
unfolding apply_grants apply_grant
apply_grants-queue [] s = refl
apply_grants-queue (r ∷ rs) s = apply_grants-queue rs (apply_grant s r) ∙ ground arith

apply_grants-persistent :
    (rows : List Grant) (s : PermissionService) → (apply_grants s rows).persistent ≡ s.persistent
unfolding apply_grants apply_grant
apply_grants-persistent [] s = refl
apply_grants-persistent (r ∷ rs) s = apply_grants-persistent rs (apply_grant s r) ∙ ground arith

load-IsStored :
    (rows : List Grant) (fresh : PermissionService)
    → fresh.persistent ≡ true
    → fresh.queue ≡ []
    → any is_global_super rows ≡ true
    → IsStored rows (load rows fresh)
load-IsStored rows fresh p q has =
    let plain : load rows fresh ≡ apply_grants (cleared fresh) rows = unfold load in rw (p, has) in
    rw plain (
      apply_grants-persistent rows (cleared fresh) ∙ p,
      λ a g u.
          ap (λ ws. contains (grant_of a g u) (run_writes ws rows))
            (apply_grants-queue rows (cleared fresh) ∙ q)
          ∙ (unfold run_writes in
              sym (
                apply_grants-holds rows (cleared fresh) a g u
                ∙ ap (λ b. b || contains (grant_of a g u) rows) (cleared-holds fresh a g u))),
    )

-- From one restart to the next: a persistent service reads the table, of which a row is of a global
-- super administrator; roles are given and taken in any order, and the queued writes are done. If a
-- row of a global super administrator is left, a service that reads the table again holds exactly
-- the roles that were held.
pub run_all-load :
    (ops : List RoleOp) (rows : List Grant) (fresh : PermissionService)
    → fresh.persistent ≡ true
    → fresh.queue ≡ []
    → any is_global_super rows ≡ true
    → any is_global_super (stored (run_all ops (load rows fresh)) rows) ≡ true
    → (a : Scope) (g u : String)
    → holds (load (stored (run_all ops (load rows fresh)) rows) fresh) a g u
      ≡ holds (run_all ops (load rows fresh)) a g u
run_all-load ops rows fresh p q has left a g u =
    let s = run_all ops (load rows fresh) in
    let (_, m) = run_all-IsStored rows ops (load rows fresh) (load-IsStored rows fresh p q has) in
    load-holds (stored s rows) (stored s rows) s fresh p m (λ r. refl) left a g u
