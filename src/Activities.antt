-- ===== src/Activities.antt =====
-- src/services/activity.ts and the data of src/services/activityCore.ts: activities, the
-- registrations for them and their waiting lists.
-- A method that changes the service returns the new record; a thrown error is `thrown`. Times are
-- milliseconds and come from the caller with the random ids. `log` lines are left out.
pub mod Catalog
pub mod Settings
pub mod Editing
pub mod Registration
pub mod Joining
pub mod Leaving
use qq_group_ops.Base.{
  [], ℕ, String, Bool, true, false, Option, none, some, List, ◌∷◌, ◌++◌, ltb, string_eq,
  if◌then◌else◌,
}
use qq_group_ops.Base.Dict.{Dict, lookup, insert}
use qq_group_ops.Base.Outcome.{Outcome, ok, thrown}

-- `ActivityStatus`
pub data ActivityStatus : Type 0 where
  draft open_status closed cancelled : ActivityStatus

-- `WaitlistPromotionMode`
pub data PromotionMode : Type 0 where
  auto manual : PromotionMode

pub record ActivityLink : Type 0 where
  pub label : String
  pub url : String

pub record Activity : Type 0 where
  pub activity_id : String
  pub code : String
  pub group_id : String
  pub group_number : String
  pub title : String
  pub created_by : String
  pub description : String
  pub links : List ActivityLink
  pub capacity : Option ℕ
  pub allow_colleges : List String
  pub deny_colleges : List String
  pub allow_years : List String
  pub deny_years : List String
  pub status : ActivityStatus
  pub mention_all : Bool
  pub notify_creator : Bool
  pub waitlist_promotion : PromotionMode
  pub held_slots : ℕ
  pub close_at : Option ℕ
  pub remind_at : Option ℕ
  pub created_at : ℕ

pub record ActivityRegistration : Type 0 where
  pub registration_id : String
  pub activity_id : String
  pub group_id : String
  pub user_id : String
  pub display_name : String
  pub note : String
  pub created_at : ℕ

pub record WaitlistEntry : Type 0 where
  pub activity_id : String
  pub user_id : String
  pub display_name : String
  pub note : String
  pub created_at : ℕ

-- `ACTIVITY_SETTING_KEYS`
pub data SettingKey : Type 0 where
  mention_all_key notify_creator_key close_at_key promotion_key held_slots_key remind_at_key :
      SettingKey

-- What the service writes to its five tables.
pub data ActivityWrite : Type 0 where
  save_activity save_details : Activity → ActivityWrite
  save_setting : (activity : String) → SettingKey → (value : String) → ActivityWrite
  remove_setting : (activity : String) → SettingKey → ActivityWrite
  save_registration : ActivityRegistration → ActivityWrite
  delete_registration : String → ActivityWrite
  save_waitlist : WaitlistEntry → ActivityWrite
  remove_waitlist save_group remove_group : String → String → ActivityWrite

-- Which of the five repositories are given.
pub record Repositories : Type 0 where
  pub activities : Bool
  pub details : Bool
  pub waitlist : Bool
  pub settings : Bool
  pub groups : Bool

-- What the language gives: the texts of numbers and dates, and how it reads them. A text that is no
-- number or no date gives nothing.
pub record Texts : Type 0 where
  pub of_number : ℕ → String
  pub parse_int : String → Option ℕ
  pub to_iso : ℕ → String
  pub date : String → Option ℕ

-- The waiting list is keyed by `activityId\0userId`: here by the pair, as no id holds a NUL.
pub record ActivityService : Type 0 where
  pub activities : Dict String Activity
  pub registrations : Dict String ActivityRegistration
  pub waitlist : Dict (String × String) WaitlistEntry
  pub bound_groups : Dict String (List String)
  pub repositories : Repositories
  pub texts : Texts
  pub queue : List ActivityWrite

pub data ActivityError : Type 0 where
  empty_title bad_capacity : ActivityError
  duplicate_activity activity_not_found : String → ActivityError
  empty_group : ActivityError
  not_open : ActivityStatus → ActivityError
  full : ℕ → ActivityError
  past_deadline already_registered : ActivityError
  duplicate_registration registration_not_found : String → ActivityError
  not_own_registration : ActivityError
  already_waiting : ℕ → ActivityError

abbrev pub enqueue_if : Bool → ActivityWrite → ActivityService → ActivityService
enqueue_if on w s = record s { queue = if on then s.queue ++ w ∷ [] else s.queue }

abbrev pub bool_text : Bool → String
bool_text true = "true"
bool_text false = "false"

abbrev pub mode_text : PromotionMode → String
mode_text auto = "auto"
mode_text manual = "manual"

abbrev pub date_write : (ℕ → String) → String → SettingKey → Option ℕ → ActivityWrite
date_write to_iso id key none = remove_setting id key
date_write to_iso id key (some at) = save_setting id key (to_iso at)

-- `persistSettings`: six writes, with `String(n)` and `toISOString`.
abbrev pub setting_writes : Texts → Activity → List ActivityWrite
setting_writes texts a =
    save_setting a.activity_id mention_all_key (bool_text a.mention_all)
    ∷ save_setting a.activity_id notify_creator_key (bool_text a.notify_creator)
    ∷ save_setting a.activity_id promotion_key (mode_text a.waitlist_promotion)
    ∷ date_write texts.to_iso a.activity_id close_at_key a.close_at
    ∷ (if ltb 0 a.held_slots
        then save_setting a.activity_id held_slots_key (texts.of_number a.held_slots)
        else remove_setting a.activity_id held_slots_key)
    ∷ date_write texts.to_iso a.activity_id remind_at_key a.remind_at
    ∷ []

abbrev pub persist_settings : Activity → ActivityService → ActivityService
persist_settings a s = record s {
  queue = if s.repositories.settings then s.queue ++ setting_writes s.texts a else s.queue;
}

-- `persist`
abbrev pub persist : Activity → ActivityService → ActivityService
persist a s = persist_settings a (
    enqueue_if s.repositories.details (save_details a)
      (enqueue_if s.repositories.activities (save_activity a) s))

abbrev pub store : Activity → ActivityService → ActivityService
store a s = record s { activities = insert a.activity_id a s.activities }

abbrev found_activity : String → Option Activity → Outcome ActivityError Activity
found_activity id none = thrown (activity_not_found id)
found_activity id (some a) = ok a

-- `getActivity`
unfoldable pub get_activity : String → ActivityService → Outcome ActivityError Activity
get_activity id s = found_activity id (lookup id s.activities)
