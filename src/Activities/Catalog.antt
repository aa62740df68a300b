-- ===== src/Activities/Catalog.antt =====
-- Creating activities, the groups they are bound to and their status, from
-- src/services/activity.ts.
use qq_group_ops.Base.{
  [], ℕ, String, Bool, true, false, Option, none, some, List, ◌∷◌, leb, contains, add, remove,
  string_eq, if◌then◌else◌,
}
use qq_group_ops.Base.Dict.{Dict, lookup, insert, erase, has}
use qq_group_ops.Base.Text.{trim, is_empty, text_le}
use qq_group_ops.Base.Sort.{sort}
use qq_group_ops.Base.Outcome.{◌>>=◌, Outcome, ok, thrown}
use qq_group_ops.Activities.{
  Activity, ActivityStatus, draft, PromotionMode, manual, ActivityLink, ActivityService,
  ActivityError, empty_title, bad_capacity, duplicate_activity, empty_group, save_group,
  remove_group, enqueue_if, persist, store, get_activity,
}

abbrev pub groups_or_empty : Option (List String) → List String
groups_or_empty none = []
groups_or_empty (some groups) = groups

-- `addGroupBinding`
unfoldable pub add_group_binding : String → String → ActivityService → ActivityService
add_group_binding activity group s = if is_empty (trim group) then s else record s {
  bound_groups =
      insert activity (add (trim group) (groups_or_empty (lookup activity s.bound_groups)))
        s.bound_groups;
}

-- `bindGroup`
unfoldable pub bind_group :
    String → String → ActivityService → Outcome ActivityError (Bool × ActivityService)
unfolding get_activity add_group_binding
bind_group activity group s = do
  a ← get_activity activity s
  let trimmed = trim group
  let bound = contains trimmed (groups_or_empty (lookup activity s.bound_groups))
  let s' =
      enqueue_if s.repositories.groups (save_group activity trimmed)
        (add_group_binding activity trimmed s)
  if is_empty trimmed then thrown empty_group else if bound then ok (false, s) else ok (true, s')

abbrev without : String → List String → Dict String (List String) → Dict String (List String)
without activity [] d = erase activity d
without activity groups d = insert activity groups d

-- `unbindGroup`
unfoldable pub unbind_group : String → String → ActivityService → Bool × ActivityService
unbind_group activity group s =
    let groups = groups_or_empty (lookup activity s.bound_groups) in
    let left = remove (trim group) groups in
    if contains (trim group) groups
    then (
      true,
      enqueue_if s.repositories.groups (remove_group activity (trim group))
          (record s { bound_groups = without activity left s.bound_groups }),
    )
    else (false, s)

abbrev bound_or_owner : String → List String → List String
bound_or_owner owner [] = if is_empty owner then [] else owner ∷ []
bound_or_owner owner groups = groups

-- `listBoundGroups`
unfoldable pub list_bound_groups : String → ActivityService → Outcome ActivityError (List String)
unfolding get_activity
list_bound_groups activity s = do
  a ← get_activity activity s
  ok (bound_or_owner a.group_id (sort text_le (groups_or_empty (lookup activity s.bound_groups))))

-- `CreateActivityInput`, with the id and the code that are given or generated.
pub record CreateInput : Type 0 where
  pub activity_id : String
  pub code : String
  pub group_id : String
  pub group_number : Option String
  pub title : String
  pub created_by : String
  pub description : Option String
  pub links : List ActivityLink
  pub capacity : Option ℕ
  pub allow_colleges : List String
  pub deny_colleges : List String
  pub allow_years : List String
  pub deny_years : List String
  pub mention_all : Option Bool
  pub notify_creator : Option Bool
  pub waitlist_promotion : Option PromotionMode
  pub close_at : Option ℕ

abbrev pub is_zero : Option ℕ → Bool
is_zero none = false
is_zero (some n) = leb n 0

abbrev trim_or_empty : Option String → String
trim_or_empty none = ""
trim_or_empty (some s) = trim s

abbrev pub value_or {ℓ} : {A : Type ℓ} → A → Option A → A
value_or d none = d
value_or d (some a) = a

abbrev pub new_activity : CreateInput → ℕ → Activity
new_activity input now = record {
  activity_id = input.activity_id;
  code = input.code;
  group_id = input.group_id;
  group_number = trim_or_empty input.group_number;
  title = trim input.title;
  created_by = input.created_by;
  description = value_or "" input.description;
  links = input.links;
  capacity = input.capacity;
  allow_colleges = input.allow_colleges;
  deny_colleges = input.deny_colleges;
  allow_years = input.allow_years;
  deny_years = input.deny_years;
  status = draft;
  mention_all = value_or false input.mention_all;
  notify_creator = value_or false input.notify_creator;
  waitlist_promotion = value_or manual input.waitlist_promotion;
  held_slots = 0;
  close_at = input.close_at;
  remind_at = none;
  created_at = now;
}

-- `createActivity`: a group id that is blank throws from `bindGroup`, when the activity is stored
-- already, so the service after the error is given too.
unfoldable pub create_activity :
    CreateInput → ℕ → ActivityService → Outcome ActivityError Activity × ActivityService
unfolding bind_group
create_activity input now s =
    let a = new_activity input now in
    let stored = persist a (store a s) in
    if is_empty (trim input.title)
    then (thrown empty_title, s)
    else if is_zero input.capacity
    then (thrown bad_capacity, s)
    else if has input.activity_id s.activities
    then (thrown (duplicate_activity input.activity_id), s)
    else elim (bind_group input.activity_id a.group_id stored) [
      | ok (_, bound) ↦ (ok a, bound)
      | thrown e ↦ (thrown e, stored)
    ]

-- `setStatus`; `openActivity`, `closeActivity` and `cancelActivity` give it their status.
unfoldable pub set_status :
    String → ActivityStatus → ActivityService → Outcome ActivityError (Activity × ActivityService)
unfolding get_activity
set_status id status s = do
  a ← get_activity id s
  let updated : Activity = record a { status = status }
  ok (updated, persist updated (record s { activities = insert id updated s.activities }))
