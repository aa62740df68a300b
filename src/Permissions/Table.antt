-- ===== src/Permissions/Table.antt =====
-- src/db/permissionRepository.ts: the rows of `permission_grants`, one for each grant.
-- The primary key is the whole row: an insertion of a present row does nothing.
use qq_group_ops.Base.{[], String, List, ◌∷◌, Eq, add, remove, string_eq}
use qq_group_ops.Permissions.{Scope, Grant, Write, save, delete}

unfoldable pub Scope-discrete : Discrete Scope
Scope-discrete = hlevel

instance abbrev pub scope_eq : Eq Scope
scope_eq = record { dec = Scope-discrete }

String-discrete : Discrete String
unfolding string_eq
String-discrete = string_eq.dec

unfoldable pub Grant-discrete : Discrete Grant
unfolding String-discrete Scope-discrete
Grant-discrete = hlevel String-discrete

instance abbrev pub grant_eq : Eq Grant
grant_eq = record { dec = Grant-discrete }

unfoldable pub run_write : Write → List Grant → List Grant
run_write (save g) rows = add g rows
run_write (delete g) rows = remove g rows

-- The queue runs in the order of its writes.
unfoldable pub run_writes : List Write → List Grant → List Grant
unfolding run_write
run_writes [] rows = rows
run_writes (w ∷ ws) rows = run_writes ws (run_write w rows)
