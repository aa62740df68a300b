-- ===== src/Tests/Events.antt =====
-- The activities of src/services/activity.ts at concrete inputs.
use qq_group_ops.Base.{
  ◌≢◌, ◌==◌, [], ℕ, ◌+◌, ◌≡◌, refl, String, true, false, Option, none, some, ◌∷◌, arith, string_eq,
  pair_eq, nat_eq, count, find, any, filter, ◌⊎◌,
}
use qq_group_ops.Base.Dict.{lookup, insert, values, NodupKeys}
use qq_group_ops.Base.Sort.{sort}
use qq_group_ops.Base.Outcome.{ok}
use qq_group_ops.Activities.{
  Activity, open_status, PromotionMode, auto, manual, ActivityRegistration, WaitlistEntry,
  ActivityService, get_activity, persist_settings,
}
use qq_group_ops.Activities.Registration.{
  RegisterInput, registered, waitlisted, join_activity, promote_next_waitlist, CancelResult,
  cancel_with_promotion, release_held_slot, is_full, new_registration, new_entry,
  store_registration, store_entry, promoted_registration, drop_entry, is_registration_closed,
  find_registration, take_place, register, list_registrations, list_waitlist, wait,
  waitlist_position, position_of, cancel_registration, set_held_slots,
}
use qq_group_ops.Activities.Joining.{
  registrations_of, waiting_for, WithinCapacity, WaitlistKeyed, join_activity-WithinCapacity,
}
use qq_group_ops.Activities.Joining.OnePlace.{OnePlace, join_activity-OnePlace}
use qq_group_ops.Activities.Joining.Answer.{join_activity_lem}
use qq_group_ops.Activities.Leaving.{Promoted, promote_next_waitlist_lem}
use qq_group_ops.Activities.Leaving.Cancelling.{PlaceKept, cancel_with_promotion_lem}

-- Two places, of which one is held.
abbrev activity : PromotionMode → Activity
activity mode = record {
  activity_id = "a";
  code = "1234";
  group_id = "g1";
  group_number = "";
  title = "Hike";
  created_by = "root";
  description = "";
  links = [];
  capacity = some 2;
  allow_colleges = [];
  deny_colleges = [];
  allow_years = [];
  deny_years = [];
  status = open_status;
  mention_all = false;
  notify_creator = false;
  waitlist_promotion = mode;
  held_slots = 1;
  close_at = none;
  remind_at = none;
  created_at = 1;
}

abbrev registration : ActivityRegistration
registration = record {
  registration_id = "r1";
  activity_id = "a";
  group_id = "g1";
  user_id = "ann";
  display_name = "Ann";
  note = "";
  created_at = 5;
}

abbrev entry : WaitlistEntry
entry = record {
  activity_id = "a";
  user_id = "bob";
  display_name = "Bob";
  note = "";
  created_at = 6;
}

-- Ann is registered and Bob waits.
abbrev service : PromotionMode → ActivityService
service mode = record {
  activities = ("a", activity mode) ∷ [];
  registrations = ("r1", registration) ∷ [];
  waitlist = (("a", "bob"), entry) ∷ [];
  bound_groups = [];
  repositories = record {
    activities = true;
    details = true;
    waitlist = true;
    settings = true;
    groups = true;
  };
  texts = record {
    of_number = λ n. "1";
    parse_int = λ t. none;
    to_iso = λ n. "now";
    date = λ t. none;
  };
  queue = [];
}

-- A place is free.
abbrev roomy : ActivityService
roomy = record (service auto) { activities = ("a", record (activity auto) { held_slots = 0 }) ∷ [] }

abbrev input : RegisterInput
input = record {
  activity_id = "a";
  user_id = "cat";
  display_name = "Cat";
  note = "";
  registration_id = "r2";
}

service-NodupKeys : NodupKeys (service auto).waitlist
unfolding lookup string_eq pair_eq
service-NodupKeys = (refl, tt)

service-WaitlistKeyed : (mode : PromotionMode) → WaitlistKeyed (service mode)
unfolding lookup pair_eq
service-WaitlistKeyed mode id user w f = ground arith

anns-bobs : ◌==◌ {A = String} "ann" "bob" ≡ false
unfolding string_eq
anns-bobs = refl

ann-ne-bob : ◌≢◌ {A = String} "ann" "bob"
ann-ne-bob = ground (arith, anns-bobs)

service-OnePlace : OnePlace roomy
unfolding count values
service-OnePlace id user = ground (arith, ann-ne-bob)

roomy-WithinCapacity : WithinCapacity "a" roomy
unfolding count values lookup string_eq
roomy-WithinCapacity a f = ground arith

-- Cat joins when a place is free, and waits when it is held.
abbrev cats : ActivityRegistration
cats = new_registration input (activity auto) 7

abbrev joined : ActivityService
joined = store_registration cats roomy

joined-ok : join_activity input 7 7 roomy ≡ ok (registered cats true 2, joined)
unfolding join_activity get_activity is_registration_closed find_registration find take_place
    register any list_registrations filter sort values insert lookup string_eq pair_eq count
joined-ok = refl

join_activity-WithinCapacity_example : WithinCapacity "a" joined
join_activity-WithinCapacity_example =
    join_activity-WithinCapacity input 7 7 roomy joined (registered cats true 2) "a" joined-ok
      roomy-WithinCapacity

join_activity-OnePlace_example : OnePlace joined
join_activity-OnePlace_example =
    join_activity-OnePlace input 7 7 roomy joined (registered cats true 2) joined-ok
      service-NodupKeys (service-WaitlistKeyed auto) service-OnePlace

waits-ok :
    join_activity input 7 7 (service auto)
    ≡ ok (waitlisted 2 (new_entry input 7), store_entry (new_entry input 7) (service auto))
unfolding join_activity get_activity is_registration_closed find_registration find wait
    waitlist_position position_of list_waitlist any list_registrations filter sort values insert
    lookup string_eq pair_eq count
waits-ok = refl

a-found : (mode : PromotionMode) → lookup "a" (service mode).activities ≡ some (activity mode)
unfolding lookup string_eq
a-found mode = refl

join_activity_lem_example :
    (is_full (some 2) (registrations_of "a" (service auto) + 1) ≡ true
      → (position : ℕ) × (waitlisted 2 (new_entry input 7)
          ≡ waitlisted position (new_entry input 7))
        × (registrations_of "a" (store_entry (new_entry input 7) (service auto))
            ≡ registrations_of "a" (service auto))
        × (waiting_for "a" (store_entry (new_entry input 7) (service auto))
            ≡ waiting_for "a" (service auto) + 1))
    × (is_full (some 2) (registrations_of "a" (service auto) + 1) ≡ false
        → (waitlisted 2 (new_entry input 7)
            ≡ registered
                (new_registration input (activity auto) 7)
                (is_full
                  (some 2)
                  (registrations_of "a" (store_entry (new_entry input 7) (service auto)) + 1))
                (registrations_of "a" (store_entry (new_entry input 7) (service auto))))
          × (registrations_of "a" (store_entry (new_entry input 7) (service auto))
              ≡ registrations_of "a" (service auto) + 1)
          × (waiting_for "a" (store_entry (new_entry input 7) (service auto))
              ≡ waiting_for "a" (service auto)))
join_activity_lem_example =
    join_activity_lem input 7 7 (service auto) (store_entry (new_entry input 7) (service auto))
      (waitlisted 2 (new_entry input 7)) (activity auto) waits-ok (a-found auto)

-- Bob takes the place of Ann.
abbrev bobs : ActivityRegistration
bobs = promoted_registration "r3" (activity auto) entry

abbrev answer : Option (WaitlistEntry × ActivityRegistration)
answer = some (entry, bobs)

abbrev promoted : ActivityService
promoted = store_registration bobs (drop_entry entry (service auto))

promoted-ok : promote_next_waitlist "a" "r3" (service auto) ≡ ok (answer, promoted)
unfolding promote_next_waitlist list_waitlist get_activity filter sort values lookup string_eq
    pair_eq
promoted-ok = refl

r3-fresh : (mode : PromotionMode) → lookup "r3" (service mode).registrations ≡ none
unfolding lookup string_eq
r3-fresh mode = refl

promote_next_waitlist_lem_example :
    ((waiting_for "a" (service auto) ≡ 0) × (answer ≡ none) × (promoted ≡ service auto))
    ⊎ ((w : WaitlistEntry) × (r : ActivityRegistration) × (answer ≡ some (w, r))
        × Promoted "a" "r3" (service auto) promoted w r)
promote_next_waitlist_lem_example =
    promote_next_waitlist_lem "a" "r3" (service auto) promoted answer promoted-ok service-NodupKeys
      (service-WaitlistKeyed auto) (r3-fresh auto)

abbrev cancelled : CancelResult
cancelled = record { cancelled = registration; promotion = none; held_slots = 2 }

abbrev left : ActivityService
left = (cancel_with_promotion "r1" "ann" "r3" (service manual)).1

left-ok : cancel_with_promotion "r1" "ann" "r3" (service manual) ≡ (ok cancelled, left)
unfolding cancel_with_promotion cancel_registration get_activity set_held_slots lookup string_eq
left-ok = refl

regs-NodupKeys : NodupKeys (service manual).registrations
unfolding lookup
regs-NodupKeys = (refl, tt)

cancel_with_promotion_lem_example :
    (lookup "r1" (service manual).registrations ≡ some registration)
    × (registration.user_id ≡ cancelled.cancelled.user_id)
    × PlaceKept (activity manual) "a" (service manual) left
cancel_with_promotion_lem_example =
    cancel_with_promotion_lem "r1" "ann" "r3" (service manual) left cancelled (activity manual)
      left-ok regs-NodupKeys service-NodupKeys (service-WaitlistKeyed manual) (r3-fresh manual)
      (a-found manual)

abbrev release_answer : Option (Option (WaitlistEntry × ActivityRegistration) × ℕ)
release_answer = some (answer, 0)

abbrev released : ActivityService
released =
    store_registration bobs
      (drop_entry entry (persist_settings (record (activity auto) { held_slots = 0 }) roomy))

released-ok : release_held_slot "a" "r3" (service auto) ≡ ok (release_answer, released)
unfolding release_held_slot set_held_slots promote_next_waitlist list_waitlist get_activity filter
    sort values lookup insert string_eq pair_eq
released-ok = refl
