-- ===== src/Activities/Settings.antt =====
-- The settings of an activity as rows of src/db/activitySettingsRepository.ts, and how a reload
-- reads them, `applySettings` of src/services/activityCore.ts.
pub mod Reload
use qq_group_ops.Base.{
  [], ℕ, String, Bool, Option, none, some, List, ◌∷◌, Eq, ◌==◌, string_eq, pair_eq, if◌then◌else◌,
}
use qq_group_ops.Base.Dict.{Dict, lookup, insert, erase}
use qq_group_ops.Base.Text.{is_empty}
use qq_group_ops.Activities.{
  Activity, PromotionMode, auto, manual, SettingKey, mention_all_key, notify_creator_key,
  close_at_key, promotion_key, held_slots_key, remind_at_key, ActivityWrite, save_setting,
  remove_setting, Texts,
}

unfoldable pub SettingKey-discrete : Discrete SettingKey
SettingKey-discrete = hlevel

instance abbrev pub key_eq : Eq SettingKey
key_eq = record { dec = SettingKey-discrete }

-- The rows of `activity_settings`, by their primary key.
abbrev pub SettingsTable : Type 0
SettingsTable = Dict (String × SettingKey) String

-- What a write does to the rows; the other tables are not these.
unfoldable pub run_setting : ActivityWrite → SettingsTable → SettingsTable
run_setting (save_setting id key value) table = insert (id, key) value table
run_setting (remove_setting id key) table = erase (id, key) table
run_setting _ table = table

unfoldable pub run_settings : List ActivityWrite → SettingsTable → SettingsTable
unfolding run_setting
run_settings [] table = table
run_settings (w ∷ ws) table = run_settings ws (run_setting w table)

abbrev pub read_bool : Bool → Option String → Bool
read_bool before none = before
read_bool before (some text) = text == "true"

abbrev pub read_mode : PromotionMode → Option String → PromotionMode
read_mode before none = before
read_mode before (some text) =
    if text == "auto" then auto else if text == "manual" then manual else before

abbrev positive_or_zero : Option ℕ → ℕ
positive_or_zero none = 0
positive_or_zero (some n) = n

abbrev pub read_held : (String → Option ℕ) → Option String → ℕ
read_held parse none = positive_or_zero (parse "")
read_held parse (some text) = positive_or_zero (parse text)

abbrev date_or : Option ℕ → Option ℕ → Option ℕ
date_or before none = before
date_or before (some at) = some at

abbrev pub read_date : (String → Option ℕ) → Option ℕ → Option String → Option ℕ
read_date date before none = before
read_date date before (some text) = if is_empty text then before else date_or before (date text)

-- `applySettings`: `bucket` holds the texts of one activity.
unfoldable pub apply_settings : Texts → Activity → (SettingKey → Option String) → Activity
apply_settings texts a bucket = record a {
  mention_all = read_bool a.mention_all (bucket mention_all_key);
  notify_creator = read_bool a.notify_creator (bucket notify_creator_key);
  waitlist_promotion = read_mode a.waitlist_promotion (bucket promotion_key);
  held_slots = read_held texts.parse_int (bucket held_slots_key);
  close_at = read_date texts.date a.close_at (bucket close_at_key);
  remind_at = read_date texts.date a.remind_at (bucket remind_at_key);
}

-- The texts that `load` collects for an activity.
unfoldable pub bucket_of : String → SettingsTable → SettingKey → Option String
bucket_of id table key = lookup (id, key) table
