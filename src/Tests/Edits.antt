-- ===== src/Tests/Edits.antt =====
-- Edits, settings and eligibility of activities at concrete inputs.
use qq_group_ops.Base.{
  [], nat_eq, ap, ℕ, zero, suc, ◌≡◌, refl, String, true, false, Option, none, some, ◌∷◌, arith,
  string_eq, ◌==◌, Bool-cases, inl, inr,
}
use mathlib.Core.Path.{subst}
use qq_group_ops.Base.Dict.{lookup, insert, lookup-insert}
use qq_group_ops.Base.Text.{trim, trim_start, trim_end, is_space}
use qq_group_ops.Base.Outcome.{ok}
use qq_group_ops.Activities.{
  Activity, open_status, mention_all_key, auto, manual, ActivityService, Texts, setting_writes,
  persist, persist_settings, get_activity,
}
use qq_group_ops.Activities.Settings.{SettingsTable, run_settings, apply_settings, bucket_of}
use qq_group_ops.Activities.Settings.Reload.{ReadsBack, apply_settings-stored}
use qq_group_ops.Activities.Editing.{
  Patch, apply_patch, update_activity, Profile, check_eligibility,
}
use qq_group_ops.Activities.Editing.Edits.{IsValid}
use qq_group_ops.Activities.Editing.Laws.{is_ok, may_register, check_eligibility_lem}

-- A language that writes a number as so many strokes after a dot.
strokes : ℕ → String
strokes zero = ""
strokes (suc n) = String.◌∷◌ "|" (strokes n)

count_of : String → ℕ
count_of String.[] = 0
count_of (String.◌∷◌ c s) = suc (count_of s)

count_of-strokes : (n : ℕ) → count_of (strokes n) ≡ n
unfolding count_of strokes
count_of-strokes zero = refl
count_of-strokes (suc n) = ap suc (count_of-strokes n)

abbrev dotted : ℕ → String
dotted n = String.◌∷◌ "." (strokes n)

abbrev read : String → Option ℕ
read String.[] = none
read (String.◌∷◌ c s) = some (count_of s)

abbrev strokes_texts : Texts
strokes_texts = record { of_number = dotted; parse_int = read; to_iso = dotted; date = read }

strokes-ReadsBack : ReadsBack strokes_texts
strokes-ReadsBack = record {
  number_back = λ n. ap some (count_of-strokes n);
  no_number = refl;
  date_back = λ n. ap some (count_of-strokes n);
  date_text = λ n. refl;
}

abbrev activity : Activity
activity = record {
  activity_id = "a";
  code = "1234";
  group_id = "g1";
  group_number = "";
  title = "Hike";
  created_by = "root";
  description = "";
  links = [];
  capacity = some 2;
  allow_colleges = "Physics" ∷ [];
  deny_colleges = [];
  allow_years = "23" ∷ [];
  deny_years = "22" ∷ [];
  status = open_status;
  mention_all = true;
  notify_creator = false;
  waitlist_promotion = manual;
  held_slots = 1;
  close_at = some 90;
  remind_at = none;
  created_at = 1;
}

abbrev bare : Activity
bare = record activity { mention_all = false; held_slots = 0; close_at = none }

abbrev old_rows : SettingsTable
old_rows = (("a", mention_all_key), "false") ∷ []

apply_settings-stored_example :
    let found =
      apply_settings strokes_texts bare
        (bucket_of "a" (run_settings (setting_writes strokes_texts activity) old_rows)) in
    (found.mention_all ≡ true)
    × (found.notify_creator ≡ false)
    × (found.waitlist_promotion ≡ manual)
    × (found.held_slots ≡ 1)
    × (found.close_at ≡ some 90)
    × (found.remind_at ≡ none)
apply_settings-stored_example =
    apply_settings-stored strokes_texts activity bare old_rows strokes-ReadsBack refl refl

abbrev service : ActivityService
service = record {
  activities = ("a", activity) ∷ [];
  registrations = [];
  waitlist = [];
  bound_groups = [];
  repositories = record {
    activities = true;
    details = true;
    waitlist = true;
    settings = true;
    groups = true;
  };
  texts = strokes_texts;
  queue = [];
}

-- A new title and the automatic mode, no capacity any more.
abbrev patch : Patch
patch = record {
  title = some " Walk ";
  description = none;
  capacity = some none;
  group_number = none;
  links = none;
  allow_colleges = none;
  deny_colleges = none;
  allow_years = none;
  deny_years = none;
  mention_all = none;
  notify_creator = none;
  waitlist_promotion = some auto;
  close_at = none;
  remind_at = none;
}

abbrev edited : Activity
edited = apply_patch patch activity

abbrev after_edit : ActivityService
after_edit =
    persist_settings edited
      (persist edited (record service { activities = insert "a" edited service.activities }))

after_edit-ok : update_activity "a" patch service ≡ ok (edited, after_edit)
unfolding update_activity get_activity lookup string_eq trim trim_start trim_end is_space nat_eq
after_edit-ok = refl

service-IsValid : (b : String) (a : Activity) → lookup b service.activities ≡ some a → IsValid a
unfolding lookup
service-IsValid b a f = elim (Bool-cases (b == "a")) [
  | inl here ↦ let same : activity ≡ a = ground (arith, here) in subst IsValid same (refl, refl)
  | inr other ↦ absurd (ground (arith, other))
]

edited-found : lookup "a" after_edit.activities ≡ some edited
edited-found = ground (arith, lookup-insert "a" "a" edited service.activities)

abbrev profile : Profile
profile = record { student_id = "23000000001"; class_name = "P1"; college = "School of Physics" }

check_eligibility_lem_example :
    is_ok (check_eligibility activity profile) ≡ may_register activity profile
check_eligibility_lem_example = check_eligibility_lem activity profile
