-- ===== src/Permissions/Reload.antt =====
-- Theorems on the roles in memory, their table and a restart.
use qq_group_ops.Base.{
  ◌≢◌, [], ◌≡◌, refl, sym, ap, ◌∙◌, String, Bool, true, false, ◌||◌, Option, none, some, List, ◌∷◌,
  ◌++◌, arith, ◌==◌, string_eq, contains, any,
}
use qq_group_ops.Base.Text.{ne-nil_of_not_empty}
use qq_group_ops.Base.Outcome.{ok, ◌>>=◌, >>=-eq-ok}
use qq_group_ops.Permissions.{
  PermissionService, Scope, super_scope, admin_scope, moderator_scope, Grant, grant_of, save,
  delete, is_member, grant_super_admin, revoke_super_admin, grant_group_admin, revoke_group_admin,
  grant_group_super_admin, revoke_group_super_admin, grant_moderator, revoke_moderator,
}
use qq_group_ops.Permissions.Loading.{cleared, apply_grant, apply_grants, load, is_global_super}
use qq_group_ops.Permissions.Roles.{
  Role, super, group_super, group_admin_role, moderator_role, grant_role, revoke_role,
  require_group,
}
use qq_group_ops.Base.Dict.{lookup}
use qq_group_ops.Permissions.Table.{scope_eq, grant_eq}
use qq_group_ops.Permissions.Holding.{
  run_writes-append, grant-eq, holds, Mirrors, stored, Gains, Loses, grant_super_admin-Gains,
  grant_group_super_admin-Gains, grant_group_admin-Gains, grant_moderator-Gains, apply_grant-Gains,
  revoke_super_admin-Loses, revoke_group_super_admin-Loses, revoke_group_admin-Loses,
  revoke_moderator-Loses, Gains-Mirrors, Loses-Mirrors,
}

-- `require_group` gives no empty group.
require_group-ne-nil :
    (group : Option String) (g : String) → require_group group ≡ ok g → ◌≢◌ {A = String} g ""
unfolding require_group
require_group-ne-nil none g e = absurd (cc)
require_group-ne-nil (some group) g e = ne-nil_of_not_empty g (ground arith)

module _ (rows : List Grant) (s : PermissionService) (p : s.persistent ≡ true)
    (m : Mirrors s (stored s rows)) where
  queued-save :
      (b : Scope) (h v : String) (s' : PermissionService)
      → Gains b h v s s'
      → s'.queue ≡ s.queue ++ save (grant_of b h v) ∷ []
      → Mirrors s' (stored s' rows)
  unfolding holds
  queued-save b h v s' gains q =
      rw (q, run_writes-append) (Gains-Mirrors b h v s s' (stored s rows) gains m)

  queued-delete :
      (b : Scope) (h v : String) (s' : PermissionService)
      → Loses b h v s s'
      → s'.queue ≡ s.queue ++ delete (grant_of b h v) ∷ []
      → Mirrors s' (stored s' rows)
  unfolding holds
  queued-delete b h v s' loses q =
      rw (q, run_writes-append) (Loses-Mirrors b h v s s' (stored s rows) loses m)

  grant_in-Mirrors :
      (group : Option String) (b : Scope) (v : String) (op : String → PermissionService)
      → ((g : String)
          → ◌≢◌ {A = String} g ""
          → Gains b g v s (op g) × ((op g).queue ≡ s.queue ++ save (grant_of b g v) ∷ []))
      → (s' : PermissionService) → (require_group group >>= λ g. ok (op g)) ≡ ok s'
      → Mirrors s' (stored s' rows)
  grant_in-Mirrors group b v op fact s' e =
      let (g, found, same) = >>=-eq-ok (require_group group) (λ g. ok (op g)) e in
      let (gains, q) = fact g (require_group-ne-nil group g found) in
      let same' : op g ≡ s' = cc in rw (← same') (queued-save b g v (op g) gains q)

  grant_role-Mirrors_lem :
      (role : Role) (group : Option String) (user : String) (s' : PermissionService)
      → grant_role role group user s ≡ ok s'
      → Mirrors s' (stored s' rows)
  unfolding grant_role
  grant_role-Mirrors_lem super group user s' e =
      let same : grant_super_admin user s ≡ s' = cc in
      rw (← same) (
        queued-save super_scope "" user _ (grant_super_admin-Gains s user)
          (unfold grant_super_admin in rw p))
  grant_role-Mirrors_lem group_super group user s' e =
      grant_in-Mirrors group super_scope user (λ g. grant_group_super_admin g user s)
        (λ g n. (grant_group_super_admin-Gains s g user n, unfold grant_group_super_admin in rw p))
        s' e
  grant_role-Mirrors_lem group_admin_role group user s' e =
      grant_in-Mirrors group admin_scope user (λ g. grant_group_admin g user s)
        (λ g n. (grant_group_admin-Gains s g user, unfold grant_group_admin in rw p)) s' e
  grant_role-Mirrors_lem moderator_role group user s' e =
      grant_in-Mirrors group moderator_scope user (λ g. grant_moderator g user s)
        (λ g n. (grant_moderator-Gains s g user, unfold grant_moderator in rw p)) s' e

  revoke_in-Mirrors :
      (group : Option String) (b : Scope) (v : String) (op : String → Bool × PermissionService)
      → ((g : String)
          → ◌≢◌ {A = String} g ""
          → (s' : PermissionService) → op g ≡ (true, s')
          → Loses b g v s s' × (s'.queue ≡ s.queue ++ delete (grant_of b g v) ∷ []))
      → ((g : String) (s' : PermissionService) → op g ≡ (false, s') → s ≡ s')
      → (done : Bool) (s' : PermissionService)
      → (require_group group >>= λ g. ok (op g)) ≡ ok (done, s')
      → Mirrors s' (stored s' rows)
  revoke_in-Mirrors group b v op fact rest true s' e =
      let (g, found, same) = >>=-eq-ok (require_group group) (λ g. ok (op g)) e in
      let (loses, q) = fact g (require_group-ne-nil group g found) s' (cc) in
      queued-delete b g v s' loses q
  revoke_in-Mirrors group b v op fact rest false s' e =
      let (g, found, same) = >>=-eq-ok (require_group group) (λ g. ok (op g)) e in
      rw (← rest g s' (cc)) m

  revoke_role-Mirrors_lem :
      (role : Role) (group : Option String) (user : String) (done : Bool) (s' : PermissionService)
      → revoke_role role group user s ≡ ok (done, s')
      → Mirrors s' (stored s' rows)
  unfolding revoke_role
  revoke_role-Mirrors_lem super group user true s' e =
      queued-delete super_scope "" user s' (revoke_super_admin-Loses s user s' e)
        (unfold revoke_super_admin in ground arith)
  revoke_role-Mirrors_lem super group user false s' e =
      let same : s ≡ s' = unfold revoke_super_admin in ground arith in rw (← same) m
  revoke_role-Mirrors_lem group_super group user done s' e =
      revoke_in-Mirrors group super_scope user (λ g. revoke_group_super_admin g user s)
        (λ g n t k. (
          revoke_group_super_admin-Loses s g user t n k,
          unfold revoke_group_super_admin in ground arith,
        ))
        (λ g t k. unfold revoke_group_super_admin in ground arith) done s' e
  revoke_role-Mirrors_lem group_admin_role group user done s' e =
      revoke_in-Mirrors group admin_scope user (λ g. revoke_group_admin g user s)
        (λ g n t k.
          (revoke_group_admin-Loses s g user t k, unfold revoke_group_admin in ground arith))
        (λ g t k. unfold revoke_group_admin in ground arith) done s' e
  revoke_role-Mirrors_lem moderator_role group user done s' e =
      revoke_in-Mirrors group moderator_scope user (λ g. revoke_moderator g user s)
        (λ g n t k. (revoke_moderator-Loses s g user t k, unfold revoke_moderator in ground arith))
        (λ g t k. unfold revoke_moderator in ground arith) done s' e

-- For a persistent service: if the table with all queued writes done holds exactly the roles in
-- memory, it does so after any role is given and the new queue is done.
pub grant_role-Mirrors :
    (rows : List Grant) (role : Role) (group : Option String) (user : String)
    (s s' : PermissionService)
    → s.persistent ≡ true
    → Mirrors s (stored s rows)
    → grant_role role group user s ≡ ok s'
    → Mirrors s' (stored s' rows)
grant_role-Mirrors rows role group user s s' p m e =
    grant_role-Mirrors_lem rows s p m role group user s' e

-- For a persistent service: if the table with all queued writes done holds exactly the roles in
-- memory, it does so after any role is taken away and the new queue is done.
pub revoke_role-Mirrors :
    (rows : List Grant) (role : Role) (group : Option String) (user : String) (done : Bool)
    (s s' : PermissionService)
    → s.persistent ≡ true
    → Mirrors s (stored s rows)
    → revoke_role role group user s ≡ ok (done, s')
    → Mirrors s' (stored s' rows)
revoke_role-Mirrors rows role group user done s s' p m e =
    revoke_role-Mirrors_lem rows s p m role group user done s' e

or_rotate : (x y z : Bool) → ((x || y) || z) ≡ (y || (x || z))
or_rotate x y z = ground arith

pub apply_grants-holds :
    (rows : List Grant) (s : PermissionService) (a : Scope) (g u : String)
    → holds (apply_grants s rows) a g u ≡ (holds s a g u || contains (grant_of a g u) rows)
unfolding apply_grants contains
apply_grants-holds [] s a g u = ground arith
apply_grants-holds (r ∷ rs) s a g u =
    let one =
      apply_grant-Gains s r a g u
      ∙ ap (λ x. x || holds s a g u) (sym (grant-eq a r.scope g r.group_id u r.user_id)) in
    apply_grants-holds rs (apply_grant s r) a g u
    ∙ (ap (λ x. x || contains (grant_of a g u) rs) one
        ∙ or_rotate (grant_of a g u == r) (holds s a g u) (contains (grant_of a g u) rs))

pub cleared-holds :
    (s : PermissionService) (a : Scope) (g u : String) → holds (cleared s) a g u ≡ false
unfolding holds is_member contains lookup
cleared-holds s super_scope g u = ground arith
cleared-holds s admin_scope g u = refl
cleared-holds s moderator_scope g u = refl

-- A restart restores every role: if the table holds exactly the roles in memory and a row of a
-- global super administrator, then `load` of its rows, in any order, gives a persistent service
-- that holds exactly these roles.
pub load-holds :
    (rows found : List Grant) (s fresh : PermissionService)
    → fresh.persistent ≡ true
    → Mirrors s rows
    → ((r : Grant) → contains r found ≡ contains r rows)
    → any is_global_super found ≡ true
    → (a : Scope) (g u : String) → holds (load found fresh) a g u ≡ holds s a g u
load-holds rows found s fresh p m same has a g u =
    let plain : load found fresh ≡ apply_grants (cleared fresh) found =
      unfold load in rw (p, has) in
    rw plain (
      apply_grants-holds found (cleared fresh) a g u
      ∙ rw (cleared-holds fresh a g u) (same (grant_of a g u) ∙ m a g u))
