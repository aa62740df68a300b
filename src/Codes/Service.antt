-- ===== src/Codes/Service.antt =====
-- src/services/shortCodes.ts, the service: a code for each user, group and join request, by which they
-- are shown and found again.
pub mod Consistent
pub mod Resolving
use qq_group_ops.Base.{
  [], ℕ, String, Bool, true, false, Option, none, some, List, ◌∷◌, ◌++◌, string_eq, if◌then◌else◌,
}
use qq_group_ops.Base.Dict.{Dict, lookup, insert, has}
use qq_group_ops.Base.Keys.{separator}
use qq_group_ops.Base.Text.{trim, is_empty, concat, starts_with}
use qq_group_ops.Base.Outcome.{Outcome, ok, thrown, ◌>>=◌}
use qq_group_ops.Core.Platform.{Host, World}
use qq_group_ops.Codes.{reserve_global_code, seed_global_code}

-- `ShortCodeKind`
pub data ShortCodeKind : Type 0 where
  user group join_request : ShortCodeKind

abbrev pub kind_text : ShortCodeKind → String
kind_text user = "user"
kind_text group = "group"
kind_text join_request = "join_request"

-- `ShortCodeEntry`, of which the kind is one of the three: the table holds no other
-- (src/db/schema.ts).
pub record ShortCodeEntry : Type 0 where
  pub code : String
  pub kind : ShortCodeKind
  pub target_id : String
  pub created_at : ℕ

pub record ShortCodes : Type 0 where
  pub by_code : Dict String ShortCodeEntry
  pub code_by_target : Dict String String
  pub length : ℕ
  pub persistent : Bool
  pub queue : List ShortCodeEntry

-- `targetKeyOf`
unfoldable pub target_key_of : ShortCodeKind → String → String
target_key_of kind target = concat (kind_text kind) (concat separator target)

-- `register`
unfoldable pub register : Host → ShortCodeEntry → World → ShortCodes → World × ShortCodes
register host e w s = (
  seed_global_code host e.code w,
  record s {
    by_code = insert (host.to_lower_case e.code) e s.by_code;
    code_by_target = insert (target_key_of e.kind e.target_id) e.code s.code_by_target;
  },
)

-- The loop of `load` over the rows: of two rows with one code up to case, the first counts.
unfoldable pub load_loop : Host → List ShortCodeEntry → World → ShortCodes → World × ShortCodes
unfolding register
load_loop host [] w s = (w, s)
load_loop host (e ∷ rest) w s =
    let skip = load_loop host rest w s in
    let (w', s') = register host e w s in
    let next = load_loop host rest w' s' in
    if has (host.to_lower_case e.code) s.by_code then skip else next

-- `load`, of a service with a table
unfoldable pub load : Host → List ShortCodeEntry → World → ShortCodes → World × ShortCodes
unfolding load_loop
load host rows w s = load_loop host rows w (record s { by_code = []; code_by_target = [] })

-- `codeFor` for an id that has no code yet.
unfoldable pub new_code :
    Host
    → ShortCodeKind
    → String
    → ℕ
    → World
    → ShortCodes
    → Outcome String (String × World × ShortCodes)
unfolding register
new_code host kind target now w s = do
  (code, w') ← reserve_global_code host s.length w
  let e : ShortCodeEntry = record { code = code; kind = kind; target_id = target; created_at = now }
  let (w'', s') = register host e w' s
  ok (code, w'', record s' { queue = if s.persistent then s.queue ++ e ∷ [] else s.queue })

abbrev code_found :
    Host
    → ShortCodeKind
    → String
    → ℕ
    → Option String
    → World
    → ShortCodes
    → Outcome String (String × World × ShortCodes)
code_found host kind target now (some code) w s = ok (code, w, s)
code_found host kind target now none w s = new_code host kind target now w s

-- `codeFor`
unfoldable pub code_for :
    Host
    → ShortCodeKind
    → String
    → ℕ
    → World
    → ShortCodes
    → Outcome String (String × World × ShortCodes)
unfolding new_code
code_for host kind target now w s =
    code_found host kind target now (lookup (target_key_of kind target) s.code_by_target) w s

-- `existingCode`
unfoldable pub existing_code : ShortCodeKind → String → ShortCodes → Option String
existing_code kind target s = lookup (target_key_of kind target) s.code_by_target

abbrev pub label_of : String → String
label_of code = concat "#" code

-- `label`
unfoldable pub label :
    Host
    → ShortCodeKind
    → String
    → ℕ
    → World
    → ShortCodes
    → Outcome String (String × World × ShortCodes)
unfolding code_for
label host kind target now w s = do
  (code, w', s') ← code_for host kind target now w s
  ok (label_of code, w', s')

abbrev rest_of : String → String
rest_of String.[] = ""
rest_of (String.◌∷◌ _ s) = s

abbrev resolved : Option ShortCodeEntry → Option (String × ShortCodeKind × String)
resolved none = none
resolved (some e) = some (e.code, e.kind, e.target_id)

-- `resolve`
unfoldable pub resolve : Host → String → ShortCodes → Option (String × ShortCodeKind × String)
resolve host input s =
    let trimmed = trim input in
    let code = trim (rest_of trimmed) in
    if starts_with "#" trimmed
    then (if is_empty code then none else resolved (lookup (host.to_lower_case code) s.by_code))
    else none
