-- ===== src/Appeals.antt =====
-- src/services/appeals.ts: what a punished member asks for, and what a reviewer decides. An appeal is
-- pending until it is decided; one user has at most one pending appeal against one punishment.
pub mod Change
pub mod OnePending
pub mod Deciding
pub mod Table
use qq_group_ops.Base.{
  [], ℕ, String, Bool, true, false, not, ◌&&◌, Option, none, some, List, ◌∷◌, ◌++◌, filter, find,
  take, length, ltb, string_eq, ◌==◌, if◌then◌else◌,
}
use qq_group_ops.Base.Dict.{Dict, lookup, insert, erase, has, values}
use qq_group_ops.Base.Text.{is_empty}
use qq_group_ops.Base.Outcome.{Outcome, ok, thrown, ◌>>=◌}
use qq_group_ops.Core.Ordering.{newest_first}
use qq_group_ops.Core.RowTable.{set_all}
use qq_group_ops.Core.Platform.{Host, World}
use qq_group_ops.Codes.{generate_code, normalize_code, seed_global_code}
use qq_group_ops.Blacklist.{trimmed_or_empty}
use qq_group_ops.Punishments.{PunishmentRecord}

-- `AppealStatus`
pub data AppealStatus : Type 0 where
  pending accepted rejected : AppealStatus

-- `AppealRecord`
pub record AppealRecord : Type 0 where
  pub appeal_id : String
  pub punishment_id : String
  pub group_id : String
  pub user_id : String
  pub reason : String
  pub status : AppealStatus
  pub reviewer_id : String
  pub remark : String
  pub created_at : ℕ
  pub reviewed_at : Option ℕ

-- The writes that the service queues.
pub data AppealWrite : Type 0 where
  save : AppealRecord → AppealWrite
  delete_older : ℕ → AppealWrite

pub record Appeals : Type 0 where
  pub appeals : Dict String AppealRecord
  pub persistent : Bool
  pub queue : List AppealWrite

abbrev pub enqueue : AppealWrite → Appeals → Appeals
enqueue w s = record s { queue = if s.persistent then s.queue ++ w ∷ [] else s.queue }

-- `this.appeals.set(record.appealId, record); this.persist(record);`
abbrev pub put : AppealRecord → Appeals → Appeals
put a s = enqueue (save a) (record s { appeals = insert a.appeal_id a s.appeals })

abbrev pub is_pending : AppealStatus → Bool
is_pending pending = true
is_pending accepted = false
is_pending rejected = false

unfoldable pub seed_codes : Host → List AppealRecord → World → World
seed_codes host [] w = w
seed_codes host (a ∷ rest) w = seed_codes host rest (seed_global_code host a.appeal_id w)

-- `load`, from the rows of the table
unfoldable pub load : Host → List AppealRecord → World → Appeals → World × Appeals
unfolding seed_codes
load host rows w s =
    (seed_codes host rows w, record s { appeals = set_all (λ a. a.appeal_id) rows [] })

abbrev lookup? : Option String → Appeals → Option AppealRecord
lookup? none s = none
lookup? (some code) s = lookup code s.appeals

-- `get`
unfoldable pub get : Host → String → Appeals → Option AppealRecord
get host code s = lookup? (normalize_code host (some code)) s

-- `all`
unfoldable pub all : Appeals → List AppealRecord
all s = newest_first (λ a. a.created_at) (values s.appeals)

-- The test of `pendingFor`.
abbrev pub pends : String → String → AppealRecord → Bool
pends punishment user a =
    a.punishment_id == punishment && (a.user_id == user && is_pending a.status)

-- `pendingFor`
unfoldable pub pending_for : String → String → Appeals → Option AppealRecord
unfolding all
pending_for punishment user s = find (pends punishment user) (all s)

-- `pendingByPunishment`
unfoldable pub pending_by_punishment : String → Appeals → List AppealRecord
unfolding all
pending_by_punishment punishment s =
    filter (λ a. a.punishment_id == punishment && is_pending a.status) (all s)

-- `listPending`
unfoldable pub list_pending : Appeals → List AppealRecord
unfolding all
list_pending s = filter (λ a. is_pending a.status) (all s)

-- `listForUser`
unfoldable pub list_for_user : String → ℕ → Appeals → List AppealRecord
unfolding all
list_for_user user limit s = take limit (filter (λ a. a.user_id == user) (all s))

abbrev pub with_reason : String → AppealRecord → AppealRecord
with_reason reason a = record a { reason = if is_empty reason then a.reason else reason }

abbrev pub submitted_appeal : String → ℕ → PunishmentRecord → String → String → AppealRecord
submitted_appeal code now punishment user reason = record {
  appeal_id = code;
  punishment_id = punishment.record_id;
  group_id = punishment.group_id;
  user_id = user;
  reason = reason;
  status = pending;
  reviewer_id = "";
  remark = "";
  created_at = now;
  reviewed_at = none;
}

-- `submit` when no appeal of the user is pending.
unfoldable pub submit_new :
    Host
    → ℕ
    → PunishmentRecord
    → String
    → String
    → World
    → Appeals
    → Outcome String ((AppealRecord × Bool) × World × Appeals)
submit_new host now punishment user reason w s = do
  (code, w') ← generate_code host "申诉短码生成失败：连续碰撞，请检查随机源" (λ c. has c s.appeals) w
  let a = submitted_appeal code now punishment user reason
  ok ((a, false), w', put a s)

abbrev submit_found :
    Option AppealRecord
    → Host
    → ℕ
    → PunishmentRecord
    → String
    → String
    → World
    → Appeals
    → Outcome String ((AppealRecord × Bool) × World × Appeals)
submit_found none host now punishment user reason w s =
    submit_new host now punishment user reason w s
submit_found (some existing) host now punishment user reason w s =
    let a = with_reason reason existing in ok ((a, true), w, put a s)

-- `submit`: the appeal, and whether it is one that was there.
unfoldable pub submit :
    Host
    → ℕ
    → PunishmentRecord
    → String
    → Option String
    → World
    → Appeals
    → Outcome String ((AppealRecord × Bool) × World × Appeals)
unfolding pending_for submit_new
submit host now punishment user reason w s =
    submit_found (pending_for punishment.record_id user s) host now punishment user
      (trimmed_or_empty reason) w s

-- The two statuses of `decide`.
pub data Verdict : Type 0 where
  accept reject : Verdict

abbrev pub status_of : Verdict → AppealStatus
status_of accept = accepted
status_of reject = rejected

abbrev pub decided_appeal : ℕ → String → Verdict → Option String → AppealRecord → AppealRecord
decided_appeal now reviewer verdict remark a = record a {
  status = status_of verdict;
  reviewer_id = reviewer;
  remark = trimmed_or_empty remark;
  reviewed_at = some now;
}

abbrev decide_found :
    ℕ
    → String
    → Verdict
    → Option String
    → Option AppealRecord
    → Appeals
    → Option AppealRecord × Appeals
decide_found now reviewer verdict remark none s = (none, s)
decide_found now reviewer verdict remark (some a) s =
    let updated = decided_appeal now reviewer verdict remark a in (some updated, put updated s)

-- `decide`
unfoldable pub decide :
    Host
    → ℕ
    → (code reviewer : String) → Verdict
    → (remark : Option String) → Appeals
    → Option AppealRecord × Appeals
unfolding get
decide host now code reviewer verdict remark s =
    decide_found now reviewer verdict remark (get host code s) s

abbrev appended : List AppealRecord → Option AppealRecord → List AppealRecord
appended decided none = decided
appended decided (some a) = decided ++ a ∷ []

-- The loop of `acceptByPunishment` over the pending appeals.
unfoldable pub accept_loop :
    Host
    → ℕ
    → String
    → String
    → List AppealRecord
    → List AppealRecord
    → Appeals
    → List AppealRecord × Appeals
unfolding decide
accept_loop host now reviewer remark [] decided s = (decided, s)
accept_loop host now reviewer remark (a ∷ rest) decided s =
    let (updated, s') = decide host now a.appeal_id reviewer accept (some remark) s in
    accept_loop host now reviewer remark rest (appended decided updated) s'

-- `acceptByPunishment`
unfoldable pub accept_by_punishment :
    Host → ℕ → (punishment reviewer remark : String) → Appeals → List AppealRecord × Appeals
unfolding accept_loop pending_by_punishment
accept_by_punishment host now punishment reviewer remark s =
    accept_loop host now reviewer remark (pending_by_punishment punishment s) [] s

abbrev pub is_stale : ℕ → AppealRecord → Bool
is_stale cutoff a = ltb a.created_at cutoff && not (is_pending a.status)

-- The loop of `pruneOlderThan`
unfoldable pub erase_appeals :
    List AppealRecord → Dict String AppealRecord → Dict String AppealRecord
erase_appeals [] d = d
erase_appeals (a ∷ rest) d = erase_appeals rest (erase a.appeal_id d)

-- `pruneOlderThan`
unfoldable pub prune_older_than : ℕ → Appeals → ℕ × Appeals
unfolding all erase_appeals
prune_older_than cutoff s =
    let stale = filter (is_stale cutoff) (all s) in
    let kept = record s { appeals = erase_appeals stale s.appeals } in
    (length stale, if ltb 0 (length stale) then enqueue (delete_older cutoff) kept else kept)
