-- ===== src/Activities/Settings/Reload.antt =====
-- Theorems on `persistSettings` and `applySettings` together.
use qq_group_ops.Base.{
  ℕ, zero, suc, ◌≡◌, refl, ◌∙◌, ap, String, Bool, true, false, Option, none, some, ltb, ◌==◌,
  string_eq, pair_eq, if◌then◌else◌, arith,
}
use mathlib.Core.Path.{ap₂}
use qq_group_ops.Base.Dict.{lookup-insert, lookup-erase}
use qq_group_ops.Base.Text.{is_empty}
use qq_group_ops.Activities.{
  Activity, PromotionMode, auto, manual, SettingKey, mention_all_key, notify_creator_key,
  close_at_key, promotion_key, held_slots_key, remind_at_key, save_setting, remove_setting, Texts,
  bool_text, mode_text, date_write, setting_writes,
}
use qq_group_ops.Activities.Settings.{
  SettingKey-discrete, key_eq, SettingsTable, run_setting, run_settings, read_bool, read_mode,
  read_held, read_date, apply_settings, bucket_of,
}

abbrev iso_of : (ℕ → String) → Option ℕ → Option String
iso_of to_iso none = none
iso_of to_iso (some at) = some (to_iso at)

module _ (id : String) (k : SettingKey) (table : SettingsTable) where
  bucket_of-save :
      (key : SettingKey) (value : String)
      → bucket_of id (run_setting (save_setting id key value) table) k
        ≡ (if k == key then some value else bucket_of id table k)
  unfolding run_setting bucket_of
  bucket_of-save key value = ground (arith, lookup-insert (id, k) (id, key) value table)

  bucket_of-remove :
      (key : SettingKey)
      → bucket_of id (run_setting (remove_setting id key) table) k
        ≡ (if k == key then none else bucket_of id table k)
  unfolding run_setting bucket_of
  bucket_of-remove key = ground (arith, lookup-erase (id, k) (id, key) table)

  bucket_of-date :
      (to_iso : ℕ → String) (key : SettingKey) (at : Option ℕ)
      → bucket_of id (run_setting (date_write to_iso id key at) table) k
        ≡ (if k == key then iso_of to_iso at else bucket_of id table k)
  bucket_of-date to_iso key none = bucket_of-remove key
  bucket_of-date to_iso key (some at) = bucket_of-save key (to_iso at)

  bucket_of-choice :
      (b : Bool) (key : SettingKey) (value : String)
      → bucket_of id
          (run_setting (if b then save_setting id key value else remove_setting id key) table)
          k
        ≡ (if k == key then (if b then some value else none) else bucket_of id table k)
  bucket_of-choice true key value = bucket_of-save key value
  bucket_of-choice false key value = bucket_of-remove key

module _ (texts : Texts) (a : Activity) (table : SettingsTable) where
  abbrev rows_after : SettingsTable
  rows_after = run_settings (setting_writes texts a) table

  -- The text that is stored under each key, if any.
  abbrev stored_text : SettingKey → Option String
  stored_text mention_all_key = some (bool_text a.mention_all)
  stored_text notify_creator_key = some (bool_text a.notify_creator)
  stored_text close_at_key = iso_of texts.to_iso a.close_at
  stored_text promotion_key = some (mode_text a.waitlist_promotion)
  stored_text held_slots_key =
      if ltb 0 a.held_slots then some (texts.of_number a.held_slots) else none
  stored_text remind_at_key = iso_of texts.to_iso a.remind_at

  bucket_of-stored : (k : SettingKey) → bucket_of a.activity_id rows_after k ≡ stored_text k
  unfolding run_settings SettingKey-discrete
  bucket_of-stored mention_all_key =
      rw
        (
          bucket_of-date, bucket_of-choice, bucket_of-date, bucket_of-save, bucket_of-save,
          bucket_of-save,
        )
        refl
  bucket_of-stored notify_creator_key =
      rw (bucket_of-date, bucket_of-choice, bucket_of-date, bucket_of-save, bucket_of-save) refl
  bucket_of-stored promotion_key =
      rw (bucket_of-date, bucket_of-choice, bucket_of-date, bucket_of-save) refl
  bucket_of-stored close_at_key = rw (bucket_of-date, bucket_of-choice, bucket_of-date) refl
  bucket_of-stored held_slots_key = rw (bucket_of-date, bucket_of-choice) refl
  bucket_of-stored remind_at_key = rw (bucket_of-date) refl

-- The language reads the numbers and dates that it writes.
pub record ReadsBack (texts : Texts) : Type 0 where
  pub number_back : (n : ℕ) → texts.parse_int (texts.of_number n) ≡ some n
  pub no_number : texts.parse_int "" ≡ none
  pub date_back : (at : ℕ) → texts.date (texts.to_iso at) ≡ some at
  pub date_text : (at : ℕ) → is_empty (texts.to_iso at) ≡ false

read_bool-text : (before b : Bool) → read_bool before (some (bool_text b)) ≡ b
unfolding string_eq
read_bool-text before true = refl
read_bool-text before false = refl

read_mode-text : (before m : PromotionMode) → read_mode before (some (mode_text m)) ≡ m
unfolding string_eq
read_mode-text before auto = refl
read_mode-text before manual = refl

module _ (texts : Texts) (back : ReadsBack texts) where
  read_date-iso : (at : Option ℕ) → read_date texts.date none (iso_of texts.to_iso at) ≡ at
  read_date-iso none = refl
  read_date-iso (some at) = rw (back.date_text at, back.date_back at) refl

  read_held-text :
      (n : ℕ) → read_held texts.parse_int (if ltb 0 n then some (texts.of_number n) else none) ≡ n
  read_held-text zero = rw back.no_number refl
  read_held-text (suc n) = ground (arith, back.number_back (suc n))

-- If the language reads back the numbers and dates that it writes: whatever rows were stored before,
-- once the settings of an activity are written, a reload onto its row without dates restores all
-- six of them.
pub apply_settings-stored :
    (texts : Texts) (a base : Activity) (table : SettingsTable)
    → ReadsBack texts
    → base.close_at ≡ none
    → base.remind_at ≡ none
    → let found =
        apply_settings texts base
          (bucket_of a.activity_id (run_settings (setting_writes texts a) table)) in
      (found.mention_all ≡ a.mention_all)
      × (found.notify_creator ≡ a.notify_creator)
      × (found.waitlist_promotion ≡ a.waitlist_promotion)
      × (found.held_slots ≡ a.held_slots)
      × (found.close_at ≡ a.close_at)
      × (found.remind_at ≡ a.remind_at)
unfolding apply_settings
apply_settings-stored texts a base table back no_close no_remind =
    let at = bucket_of-stored texts a table in
    (
      ap (read_bool base.mention_all) (at mention_all_key)
          ∙ read_bool-text base.mention_all a.mention_all,
      ap (read_bool base.notify_creator) (at notify_creator_key)
          ∙ read_bool-text base.notify_creator a.notify_creator,
      ap (read_mode base.waitlist_promotion) (at promotion_key)
          ∙ read_mode-text base.waitlist_promotion a.waitlist_promotion,
      ap (read_held texts.parse_int) (at held_slots_key) ∙ read_held-text texts back a.held_slots,
      ap₂ (read_date texts.date) no_close (at close_at_key) ∙ read_date-iso texts back a.close_at,
      ap₂ (read_date texts.date) no_remind (at remind_at_key)
          ∙ read_date-iso texts back a.remind_at,
    )
