-- ===== src/Tests/Roles.antt =====
-- The roles of src/services/permissions.ts at concrete inputs.
use qq_group_ops.Permissions.{
  revoke_group_admin, revoke_super_admin, enqueue_remove, grant_moderator, PermissionService,
  super_scope, admin_scope, moderator_scope, Grant, grant_of, is_member, add_member, remove_member,
}
use qq_group_ops.Permissions.Levels.{group_level_of, level_for}
use qq_group_ops.Permissions.Loading.{is_global_super, load, apply_grants, apply_grant}
use qq_group_ops.Permissions.Table.{Grant-discrete, run_write, grant_eq, Scope-discrete, run_writes}
use qq_group_ops.Base.Text.{is_space, trim_end, trim_start, trim}
use qq_group_ops.Base.{
  [], nat_eq, ◌≡◌, refl, true, false, none, some, List, ◌∷◌, arith, ◌≤◌, contains, string_eq, any,
  add, remove,
}
use qq_group_ops.Permissions.Roles.{
  super, moderator_role, group_admin_role, require_group, grant_role, revoke_role,
}
use qq_group_ops.Permissions.Axes.{level_for_lem}
use qq_group_ops.Permissions.Grants.{HasSuperAdmin, NodupSet, revoke_role-HasSuperAdmin}
use qq_group_ops.Permissions.History.{RoleOp, given, taken, run, run_all, run_all-load}
use qq_group_ops.Base.Dict.{insert, lookup}
use qq_group_ops.Permissions.Holding.{holds, Mirrors, stored, grant-eq}
use qq_group_ops.Base.Outcome.{ok}

abbrev service : PermissionService
service = record {
  super_admin_ids = "root" ∷ [];
  group_super_admin_ids = [];
  group_admin_ids = ("g1", "ann" ∷ []) ∷ [];
  moderator_ids = [];
  seed_super_admin_ids = "root" ∷ [];
  persistent = true;
  queue = [];
}

abbrev rows : List Grant
rows = grant_of super_scope "" "root" ∷ grant_of admin_scope "g1" "ann" ∷ []

service-Mirrors : Mirrors service (stored service rows)
unfolding contains holds is_member lookup Scope-discrete run_writes
service-Mirrors super_scope g u = ground (
  arith,
  grant-eq super_scope super_scope g "" u "root",
  grant-eq super_scope admin_scope g "g1" u "ann",
)
service-Mirrors admin_scope g u = ground (
  arith,
  grant-eq admin_scope super_scope g "" u "root",
  grant-eq admin_scope admin_scope g "g1" u "ann",
)
service-Mirrors moderator_scope g u = ground (
  arith,
  grant-eq moderator_scope super_scope g "" u "root",
  grant-eq moderator_scope admin_scope g "g1" u "ann",
)

-- Ann becomes a moderator of a second group, and one who manages the first leaves.
abbrev promoted : PermissionService
promoted = grant_moderator "g2" "ann" service

promoted-ok : grant_role moderator_role (some " g2 ") "ann" service ≡ ok promoted
unfolding grant_role require_group trim trim_start trim_end is_space nat_eq
promoted-ok = refl

abbrev two_roots : PermissionService
two_roots = record service { super_admin_ids = "root" ∷ "eve" ∷ [] }

abbrev one_root : PermissionService
one_root =
    enqueue_remove (grant_of super_scope "" "root")
      (record service { super_admin_ids = "eve" ∷ [] })

one_root-ok : revoke_role super none "root" two_roots ≡ ok (true, one_root)
unfolding revoke_role revoke_super_admin contains string_eq remove
one_root-ok = refl

abbrev restarted : PermissionService
restarted = record service { super_admin_ids = []; group_admin_ids = [] }

two_roots-NodupSet : NodupSet two_roots.super_admin_ids
unfolding contains string_eq
two_roots-NodupSet = (refl, (refl, tt))

revoke_role-HasSuperAdmin_example : HasSuperAdmin one_root
revoke_role-HasSuperAdmin_example =
    revoke_role-HasSuperAdmin super none "root" true two_roots one_root two_roots-NodupSet
      one_root-ok (omega arith)

level_for_lem_example :
    (contains "root" service.super_admin_ids ≡ true → level_for service "root" (some "g1") ≡ 140)
    × (contains "root" service.super_admin_ids ≡ false
        → level_for service "root" (some "g1") ≡ group_level_of service "root" (some "g1"))
    × (level_for service "root" (some "g1") ≤ 140)
level_for_lem_example = level_for_lem service "root" (some "g1")

abbrev changes : List RoleOp
changes = given moderator_role (some "g2") "ann" ∷ taken group_admin_role (some "g1") "ann" ∷ []

root-left : any is_global_super (stored (run_all changes (load rows restarted)) rows) ≡ true
unfolding run_all run load apply_grants apply_grant grant_role revoke_role require_group trim
    trim_start trim_end is_space nat_eq grant_moderator revoke_group_admin is_member lookup contains
    string_eq add_member remove_member run_writes run_write add remove insert Grant-discrete
    Scope-discrete any
root-left = refl

run_all-load_example :
    holds
      (load (stored (run_all changes (load rows restarted)) rows) restarted)
      moderator_scope
      "g2"
      "ann"
    ≡ holds (run_all changes (load rows restarted)) moderator_scope "g2" "ann"
unfolding any
run_all-load_example =
    run_all-load changes rows restarted refl refl refl root-left moderator_scope "g2" "ann"
