-- ===== src/Activities/Editing.antt =====
-- Editing an activity and who may register, from src/services/activity.ts and
-- src/services/activityCore.ts.
pub mod Edits
pub mod Laws
use qq_group_ops.Base.{
  [], ℕ, zero, suc, String, Bool, true, false, not, ◌&&◌, ◌||◌, Option, none, some, List, ◌∷◌, ◌++◌,
  leb, any, contains, ◌==◌, string_eq, nat_eq, if◌then◌else◌,
}
use Prim.Native.Char.{code}
use qq_group_ops.Base.Dict.{insert}
use qq_group_ops.Base.Text.{trim, is_empty, includes}
use qq_group_ops.Base.Outcome.{◌>>=◌, Outcome, ok, thrown}
use qq_group_ops.Activities.{
  Activity, ActivityLink, PromotionMode, ActivityService, ActivityError, empty_title, bad_capacity,
  persist, persist_settings, get_activity,
}

-- `UpdateActivityInput`. `none` is a field that is absent; of the three that may be cleared,
-- `some none` clears one.
pub record Patch : Type 0 where
  pub title : Option String
  pub description : Option String
  pub capacity : Option (Option ℕ)
  pub group_number : Option String
  pub links : Option (List ActivityLink)
  pub allow_colleges : Option (List String)
  pub deny_colleges : Option (List String)
  pub allow_years : Option (List String)
  pub deny_years : Option (List String)
  pub mention_all : Option Bool
  pub notify_creator : Option Bool
  pub waitlist_promotion : Option PromotionMode
  pub close_at : Option (Option ℕ)
  pub remind_at : Option (Option ℕ)

-- `normalizeList`
unfoldable pub normalize_loop : List String → List String → List String
normalize_loop [] result = result
normalize_loop (value ∷ values) result = normalize_loop values (
    if is_empty (trim value) || contains (trim value) result
    then result
    else result ++ trim value ∷ [])

unfoldable pub normalize_list : List String → List String
unfolding normalize_loop
normalize_list values = normalize_loop values []

abbrev pub patched {ℓ} : {A : Type ℓ} → Option A → A → A
patched none before = before
patched (some value) before = value

abbrev pub trimmed : Option String → String → String
trimmed none before = before
trimmed (some text) before = trim text

abbrev pub normalized : Option (List String) → List String → List String
normalized none before = before
normalized (some values) before = normalize_list values

abbrev pub is_blank : Option String → Bool
is_blank none = false
is_blank (some title) = is_empty (trim title)

abbrev pub is_bad_capacity : Option (Option ℕ) → Bool
is_bad_capacity none = false
is_bad_capacity (some none) = false
is_bad_capacity (some (some capacity)) = leb capacity 0

-- The fields of the copy that `updateActivity` changes.
abbrev pub apply_patch : Patch → Activity → Activity
apply_patch p a = record a {
  title = trimmed p.title a.title;
  description = trimmed p.description a.description;
  group_number = trimmed p.group_number a.group_number;
  links = patched p.links a.links;
  capacity = patched p.capacity a.capacity;
  allow_colleges = normalized p.allow_colleges a.allow_colleges;
  deny_colleges = normalized p.deny_colleges a.deny_colleges;
  allow_years = normalized p.allow_years a.allow_years;
  deny_years = normalized p.deny_years a.deny_years;
  mention_all = patched p.mention_all a.mention_all;
  notify_creator = patched p.notify_creator a.notify_creator;
  waitlist_promotion = patched p.waitlist_promotion a.waitlist_promotion;
  close_at = patched p.close_at a.close_at;
  remind_at = patched p.remind_at a.remind_at;
}

-- `updateActivity`: the errors come before the map is written.
unfoldable pub update_activity :
    String → Patch → ActivityService → Outcome ActivityError (Activity × ActivityService)
unfolding get_activity
update_activity id p s = do
  a ← get_activity id s
  let updated = apply_patch p a
  let stored = record s { activities = insert id updated s.activities }
  if is_blank p.title
      then thrown empty_title
      else if is_bad_capacity p.capacity
      then thrown bad_capacity
      else ok (updated, persist_settings updated (persist updated stored))

pub data RuleError : Type 0 where
  bad_student_id : RuleError
  denied_year denied_college : String → RuleError
  other_year other_college : List String → String → RuleError
  no_college : RuleError

-- The fields of `UserProfile` that are read.
pub record Profile : Type 0 where
  pub student_id : String
  pub class_name : String
  pub college : String

pub record Eligibility : Type 0 where
  pub student_id : String
  pub class_name : String
  pub college : String
  pub year : String

-- `\d`
abbrev pub is_digit : ℕ → Bool
is_digit c = leb 48 c && leb c 57

-- `/^\d{n}$/` for a number of digits
unfoldable pub is_digits : ℕ → String → Bool
is_digits zero String.[] = true
is_digits zero (String.◌∷◌ c s) = false
is_digits (suc n) String.[] = false
is_digits (suc n) (String.◌∷◌ c s) = is_digit (code c) && is_digits n s

-- `s.slice(0, 2)`
unfoldable pub first_two : String → String
first_two String.[] = String.[]
first_two (String.◌∷◌ c String.[]) = String.◌∷◌ c String.[]
first_two (String.◌∷◌ c (String.◌∷◌ d s)) = String.◌∷◌ c (String.◌∷◌ d String.[])

-- `studentYear`
unfoldable pub student_year : String → Outcome RuleError String
unfolding is_digits first_two
student_year student_id =
    if not (is_digits 11 (trim student_id))
    then thrown bad_student_id
    else ok (first_two (trim student_id))

-- `matchesCollege`
unfoldable pub matches_college : List String → String → Bool
matches_college list college =
    any (λ value. value == college || (includes value college || includes college value)) list

abbrev pub is_nil {ℓ} : {A : Type ℓ} → List A → Bool
is_nil [] = true
is_nil (_ ∷ _) = false

-- `checkEligibility`
unfoldable pub check_eligibility : Activity → Profile → Outcome RuleError Eligibility
unfolding student_year
check_eligibility a profile = do
  year ← student_year profile.student_id
  let college = profile.college
  if contains year a.deny_years
      then thrown (denied_year year)
      else if not (is_nil a.deny_colleges)
          && (not (is_empty college) && matches_college a.deny_colleges college)
      then thrown (denied_college college)
      else if not (is_nil a.allow_years) && not (contains year a.allow_years)
      then thrown (other_year a.allow_years year)
      else if not (is_nil a.allow_colleges) && is_empty college
      then thrown no_college
      else if not (is_nil a.allow_colleges) && not (matches_college a.allow_colleges college)
      then thrown (other_college a.allow_colleges college)
      else ok (record {
        student_id = profile.student_id;
        class_name = profile.class_name;
        college = college;
        year = year;
      })
