-- ===== src/Permissions/Holding.antt =====
-- The roles in memory as rows, and what each operation on one role changes of them.
use qq_group_ops.Base.{
  ◌≢◌, [], ◌≡◌, refl, sym, ◌∙◌, String, Bool, true, not, ◌&&◌, ◌||◌, List, ◌∷◌, ◌++◌, arith, ◌==◌,
  string_eq, if◌then◌else◌, contains, contains-add, contains-remove,
}
use qq_group_ops.Base.Text.{is_empty-eq}
use qq_group_ops.Base.Outcome.{ok}
use qq_group_ops.Permissions.{
  PermissionService, Scope, super_scope, admin_scope, moderator_scope, Grant, grant_of, Write, save,
  delete, is_member, grant_super_admin, revoke_super_admin, grant_group_admin, revoke_group_admin,
  grant_group_super_admin, revoke_group_super_admin, grant_moderator, revoke_moderator,
}
use qq_group_ops.Permissions.Loading.{apply_grant}
use qq_group_ops.Permissions.Axes.{is_member-add_member, is_member-remove_member}
use qq_group_ops.Permissions.Table.{Scope-discrete, scope_eq, grant_eq, run_write, run_writes}

pub run_writes-append :
    (ws : List Write) (w : Write) (rows : List Grant)
    → run_writes (ws ++ w ∷ []) rows ≡ run_write w (run_writes ws rows)
unfolding run_writes
run_writes-append [] w rows = refl
run_writes-append (v ∷ ws) w rows = run_writes-append ws w (run_write v rows)

-- Two rows are one when their columns are.
pub grant-eq :
    (a b : Scope) (g h u v : String)
    → (grant_of a g u == grant_of b h v) ≡ (a == b && (g == h && u == v))
grant-eq a b g h u v = ground arith

contains-save :
    (a b : Scope) (g h u v : String) (rows : List Grant)
    → contains (grant_of a g u) (run_write (save (grant_of b h v)) rows)
      ≡ ((a == b && (g == h && u == v)) || contains (grant_of a g u) rows)
unfolding run_write
contains-save a b g h u v rows =
    contains-add (grant_of a g u) (grant_of b h v) rows ∙ rw (grant-eq a b g h u v)

contains-delete :
    (a b : Scope) (g h u v : String) (rows : List Grant)
    → contains (grant_of a g u) (run_write (delete (grant_of b h v)) rows)
      ≡ (not (a == b && (g == h && u == v)) && contains (grant_of a g u) rows)
unfolding run_write
contains-delete a b g h u v rows =
    contains-remove (grant_of a g u) (grant_of b h v) rows ∙ rw (grant-eq a b g h u v)

-- The roles that the service holds in memory, read as rows.
unfoldable pub holds : PermissionService → Scope → String → String → Bool
holds s super_scope g u =
    if g == "" then contains u s.super_admin_ids else is_member g u s.group_super_admin_ids
holds s admin_scope g u = is_member g u s.group_admin_ids
holds s moderator_scope g u = is_member g u s.moderator_ids

-- The rows are exactly the roles that the service holds in memory.
abbrev pub Mirrors : PermissionService → List Grant → Type 0
Mirrors s rows = (a : Scope) (g u : String) → contains (grant_of a g u) rows ≡ holds s a g u

-- The table when all queued writes are done.
abbrev pub stored : PermissionService → List Grant → List Grant
stored s rows = run_writes s.queue rows

-- `s'` holds what `s` holds and one role more.
abbrev pub Gains : Scope → String → String → PermissionService → PermissionService → Type 0
Gains b h v s s' =
    (a : Scope) (g u : String) → holds s' a g u ≡ ((a == b && (g == h && u == v)) || holds s a g u)

-- `s'` holds what `s` holds but one role.
abbrev pub Loses : Scope → String → String → PermissionService → PermissionService → Type 0
Loses b h v s s' =
    (a : Scope) (g u : String)
    → holds s' a g u ≡ (not (a == b && (g == h && u == v)) && holds s a g u)

module _ (s : PermissionService) where
  pub grant_super_admin-Gains : (v : String) → Gains super_scope "" v s (grant_super_admin v s)
  unfolding holds grant_super_admin Scope-discrete
  grant_super_admin-Gains v super_scope g u = ground (arith, contains-add u v s.super_admin_ids)
  grant_super_admin-Gains v admin_scope g u = refl
  grant_super_admin-Gains v moderator_scope g u = refl

  pub grant_group_super_admin-Gains :
      (h v : String)
      → ◌≢◌ {A = String} h ""
      → Gains super_scope h v s (grant_group_super_admin h v s)
  unfolding holds grant_group_super_admin Scope-discrete
  grant_group_super_admin-Gains h v n super_scope g u =
      ground (arith, is_member-add_member g u h v s.group_super_admin_ids)
  grant_group_super_admin-Gains h v n admin_scope g u = refl
  grant_group_super_admin-Gains h v n moderator_scope g u = refl

  pub grant_group_admin-Gains : (h v : String) → Gains admin_scope h v s (grant_group_admin h v s)
  unfolding holds grant_group_admin Scope-discrete
  grant_group_admin-Gains h v super_scope g u = refl
  grant_group_admin-Gains h v admin_scope g u =
      ground (arith, is_member-add_member g u h v s.group_admin_ids)
  grant_group_admin-Gains h v moderator_scope g u = refl

  pub grant_moderator-Gains : (h v : String) → Gains moderator_scope h v s (grant_moderator h v s)
  unfolding holds grant_moderator Scope-discrete
  grant_moderator-Gains h v super_scope g u = refl
  grant_moderator-Gains h v admin_scope g u = refl
  grant_moderator-Gains h v moderator_scope g u =
      ground (arith, is_member-add_member g u h v s.moderator_ids)

  pub apply_grant-Gains : (r : Grant) → Gains r.scope r.group_id r.user_id s (apply_grant s r)
  unfolding holds apply_grant Scope-discrete
  apply_grant-Gains r a g u = ground (
    arith,
    is_empty-eq r.group_id,
    contains-add u r.user_id s.super_admin_ids,
    is_member-add_member g u r.group_id r.user_id s.group_super_admin_ids,
    is_member-add_member g u r.group_id r.user_id s.group_admin_ids,
    is_member-add_member g u r.group_id r.user_id s.moderator_ids,
  )

  pub revoke_super_admin-Loses :
      (v : String) (s' : PermissionService)
      → revoke_super_admin v s ≡ ok (true, s')
      → Loses super_scope "" v s s'
  unfolding holds revoke_super_admin Scope-discrete
  revoke_super_admin-Loses v s' e super_scope g u =
      ground (arith, contains-remove u v s.super_admin_ids)
  revoke_super_admin-Loses v s' e admin_scope g u = ground arith
  revoke_super_admin-Loses v s' e moderator_scope g u = ground arith

  pub revoke_group_super_admin-Loses :
      (h v : String) (s' : PermissionService)
      → ◌≢◌ {A = String} h ""
      → revoke_group_super_admin h v s ≡ (true, s')
      → Loses super_scope h v s s'
  unfolding holds revoke_group_super_admin Scope-discrete
  revoke_group_super_admin-Loses h v s' n e super_scope g u =
      ground (arith, is_member-remove_member g u h v s.group_super_admin_ids)
  revoke_group_super_admin-Loses h v s' n e admin_scope g u = ground arith
  revoke_group_super_admin-Loses h v s' n e moderator_scope g u = ground arith

  pub revoke_group_admin-Loses :
      (h v : String) (s' : PermissionService)
      → revoke_group_admin h v s ≡ (true, s')
      → Loses admin_scope h v s s'
  unfolding holds revoke_group_admin Scope-discrete
  revoke_group_admin-Loses h v s' e super_scope g u = ground arith
  revoke_group_admin-Loses h v s' e admin_scope g u =
      ground (arith, is_member-remove_member g u h v s.group_admin_ids)
  revoke_group_admin-Loses h v s' e moderator_scope g u = ground arith

  pub revoke_moderator-Loses :
      (h v : String) (s' : PermissionService)
      → revoke_moderator h v s ≡ (true, s')
      → Loses moderator_scope h v s s'
  unfolding holds revoke_moderator Scope-discrete
  revoke_moderator-Loses h v s' e super_scope g u = ground arith
  revoke_moderator-Loses h v s' e admin_scope g u = ground arith
  revoke_moderator-Loses h v s' e moderator_scope g u =
      ground (arith, is_member-remove_member g u h v s.moderator_ids)

-- A role more in memory and its row saved.
pub Gains-Mirrors :
    (b : Scope) (h v : String) (s s' : PermissionService) (rows : List Grant)
    → Gains b h v s s'
    → Mirrors s rows
    → Mirrors s' (run_write (save (grant_of b h v)) rows)
Gains-Mirrors b h v s s' rows gains m a g u =
    contains-save a b g h u v rows ∙ rw (m a g u) (sym (gains a g u))

pub Loses-Mirrors :
    (b : Scope) (h v : String) (s s' : PermissionService) (rows : List Grant)
    → Loses b h v s s'
    → Mirrors s rows
    → Mirrors s' (run_write (delete (grant_of b h v)) rows)
Loses-Mirrors b h v s s' rows loses m a g u =
    contains-delete a b g h u v rows ∙ rw (m a g u) (sym (loses a g u))
