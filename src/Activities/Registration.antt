-- ===== src/Activities/Registration.antt =====
-- Registering, waiting, cancelling and promoting, from src/services/activity.ts.
use qq_group_ops.Base.{
  [], ℕ, suc, ◌+◌, ◌-◌, String, Bool, true, false, not, ◌&&◌, ◌||◌, Option, none, some, List, ◌∷◌,
  leb, length, filter, find, any, ◌==◌, string_eq, pair_eq, if◌then◌else◌, is_some,
}
use qq_group_ops.Base.Dict.{lookup, insert, erase, has, values}
use qq_group_ops.Base.Sort.{sort}
use qq_group_ops.Base.Outcome.{Outcome, ok, thrown, ◌>>=◌}
use qq_group_ops.Activities.{
  Activity, ActivityStatus, open_status, PromotionMode, auto, manual, ActivityRegistration,
  WaitlistEntry, ActivityService, ActivityError, not_open, full, past_deadline, already_registered,
  duplicate_registration, registration_not_found, not_own_registration, already_waiting,
  save_registration, delete_registration, save_waitlist, remove_waitlist, enqueue_if,
  persist_settings, get_activity,
}

-- `RegisterActivityInput`, with the id that is given or generated.
pub record RegisterInput : Type 0 where
  pub activity_id : String
  pub user_id : String
  pub display_name : String
  pub note : String
  pub registration_id : String

abbrev pub is_open : ActivityStatus → Bool
is_open open_status = true
is_open _ = false

abbrev pub of_activity : String → ActivityRegistration → Bool
of_activity id r = r.activity_id == id

abbrev pub by_user : String → String → ActivityRegistration → Bool
by_user id user r = r.activity_id == id && r.user_id == user

abbrev pub waits_for : String → WaitlistEntry → Bool
waits_for id w = w.activity_id == id

-- `listRegistrations`
unfoldable pub list_registrations : String → ActivityService → List ActivityRegistration
list_registrations id s =
    sort (λ l r. leb l.created_at r.created_at) (filter (of_activity id) (values s.registrations))

-- `findRegistration`
unfoldable pub find_registration : String → String → ActivityService → Option ActivityRegistration
find_registration id user s = find (by_user id user) (values s.registrations)

-- `listWaitlist`
unfoldable pub list_waitlist : String → ActivityService → List WaitlistEntry
list_waitlist id s =
    sort (λ l r. leb l.created_at r.created_at) (filter (waits_for id) (values s.waitlist))

-- `findIndex`, from 1
unfoldable pub position_of : String → List WaitlistEntry → Option ℕ
position_of user [] = none
position_of user (w ∷ ws) =
    let later = position_of user ws in
    if w.user_id == user then some 1 else elim later [ none ↦ none | some n ↦ some (suc n) ]

-- `waitlistPosition`
unfoldable pub waitlist_position : String → String → ActivityService → Option ℕ
unfolding list_waitlist position_of
waitlist_position id user s = position_of user (list_waitlist id s)

abbrev position_or : ℕ → Option ℕ → ℕ
position_or d none = d
position_or d (some n) = n

-- `now >= closeAt`
abbrev pub is_past : ℕ → Option ℕ → Bool
is_past now none = false
is_past now (some at) = leb at now

-- `isRegistrationClosed`
unfoldable pub is_registration_closed : Activity → ℕ → Bool
is_registration_closed a now = not (is_open a.status) || is_past now a.close_at

-- `capacity !== undefined && taken >= capacity`
abbrev pub is_full : Option ℕ → ℕ → Bool
is_full none taken = false
is_full (some capacity) taken = leb capacity taken

abbrev capacity_of : Option ℕ → ℕ
capacity_of none = 0
capacity_of (some n) = n

abbrev pub new_registration : RegisterInput → Activity → ℕ → ActivityRegistration
new_registration input a now = record {
  registration_id = input.registration_id;
  activity_id = input.activity_id;
  group_id = a.group_id;
  user_id = input.user_id;
  display_name = input.display_name;
  note = input.note;
  created_at = now;
}

abbrev pub store_registration : ActivityRegistration → ActivityService → ActivityService
store_registration r s =
    enqueue_if s.repositories.activities (save_registration r)
      (record s { registrations = insert r.registration_id r s.registrations })

-- `register`
unfoldable pub register :
    RegisterInput
    → ℕ
    → ActivityService
    → Outcome ActivityError (ActivityRegistration × ActivityService)
unfolding get_activity list_registrations
register input now s = do
  a ← get_activity input.activity_id s
  let current = list_registrations input.activity_id s
  let r = new_registration input a now
  if not (is_open a.status)
      then thrown (not_open a.status)
      else if is_full a.capacity (length current)
      then thrown (full (capacity_of a.capacity))
      else if any (λ c. c.user_id == input.user_id) current
      then thrown already_registered
      else if has input.registration_id s.registrations
      then thrown (duplicate_registration input.registration_id)
      else ok (r, store_registration r s)

pub data JoinResult : Type 0 where
  registered : ActivityRegistration → (became_full : Bool) → (count : ℕ) → JoinResult
  waitlisted : (position : ℕ) → WaitlistEntry → JoinResult

abbrev pub new_entry : RegisterInput → ℕ → WaitlistEntry
new_entry input now = record {
  activity_id = input.activity_id;
  user_id = input.user_id;
  display_name = input.display_name;
  note = input.note;
  created_at = now;
}

abbrev pub store_entry : WaitlistEntry → ActivityService → ActivityService
store_entry w s =
    enqueue_if s.repositories.waitlist (save_waitlist w)
      (record s { waitlist = insert (w.activity_id, w.user_id) w s.waitlist })

-- The branch of `joinActivity` that finds no place.
unfoldable pub wait : RegisterInput → ℕ → ActivityService → JoinResult × ActivityService
wait input now s =
    let w = new_entry input now in
    let s' = store_entry w s in
    (waitlisted (position_or 1 (waitlist_position w.activity_id w.user_id s')) w, s')

-- The branch that finds one.
unfoldable pub take_place :
    RegisterInput
    → ℕ
    → Activity
    → ActivityService
    → Outcome ActivityError (JoinResult × ActivityService)
take_place input now a s = do
  done ← register input now s
  let count = length (list_registrations input.activity_id done.1)
  ok (registered done.0 (is_full a.capacity (count + a.held_slots)) count, done.1)

-- `joinActivity`: `closing` is the time of the deadline check, `now` that of the new record.
unfoldable pub join_activity :
    RegisterInput → ℕ → ℕ → ActivityService → Outcome ActivityError (JoinResult × ActivityService)
unfolding get_activity is_registration_closed find_registration wait take_place
join_activity input closing now s = do
  a ← get_activity input.activity_id s
  let taken = length (list_registrations input.activity_id s) + a.held_slots
  if is_registration_closed a closing
      then thrown (if not (is_open a.status) then not_open a.status else past_deadline)
      else if is_some (find_registration input.activity_id input.user_id s)
      then thrown already_registered
      else if has (input.activity_id, input.user_id) s.waitlist
      then thrown
          (already_waiting (position_or 0 (waitlist_position input.activity_id input.user_id s)))
      else if is_full a.capacity taken
      then ok (wait input now s)
      else take_place input now a s

abbrev cancel_found :
    String
    → String
    → ActivityService
    → Option ActivityRegistration
    → Outcome ActivityError (ActivityRegistration × ActivityService)
cancel_found id user s none = thrown (registration_not_found id)
cancel_found id user s (some r) =
    if not (r.user_id == user)
    then thrown not_own_registration
    else ok (
      r,
      enqueue_if s.repositories.activities (delete_registration id)
          (record s { registrations = erase id s.registrations }),
    )

-- `cancelRegistration`
unfoldable pub cancel_registration :
    String
    → String
    → ActivityService
    → Outcome ActivityError (ActivityRegistration × ActivityService)
cancel_registration id user s = cancel_found id user s (lookup id s.registrations)

abbrev pub promoted_registration : String → Activity → WaitlistEntry → ActivityRegistration
promoted_registration id a w = record {
  registration_id = id;
  activity_id = w.activity_id;
  group_id = a.group_id;
  user_id = w.user_id;
  display_name = w.display_name;
  note = w.note;
  created_at = w.created_at;
}

abbrev pub drop_entry : WaitlistEntry → ActivityService → ActivityService
drop_entry w s =
    enqueue_if s.repositories.waitlist (remove_waitlist w.activity_id w.user_id)
      (record s { waitlist = erase (w.activity_id, w.user_id) s.waitlist })

promote_first :
    String
    → String
    → List WaitlistEntry
    → ActivityService
    → Outcome ActivityError (Option (WaitlistEntry × ActivityRegistration) × ActivityService)
promote_first activity id [] s = ok (none, s)
promote_first activity id (w ∷ _) s = do
  a ← get_activity activity s
  let r = promoted_registration id a w
  ok (some (w, r), store_registration r (drop_entry w s))

-- `promoteNextWaitlist`; `id` is the fresh id of the registration.
unfoldable pub promote_next_waitlist :
    String
    → String
    → ActivityService
    → Outcome ActivityError (Option (WaitlistEntry × ActivityRegistration) × ActivityService)
unfolding promote_first list_waitlist get_activity
promote_next_waitlist activity id s = promote_first activity id (list_waitlist activity s) s

-- `setHeldSlots`, for a whole number that is not negative
unfoldable pub set_held_slots :
    String → ℕ → ActivityService → Outcome ActivityError (Activity × ActivityService)
unfolding get_activity
set_held_slots id value s = do
  a ← get_activity id s
  let updated : Activity = record a { held_slots = value }
  ok (updated, persist_settings updated (record s { activities = insert id updated s.activities }))

pub record CancelResult : Type 0 where
  pub cancelled : ActivityRegistration
  pub promotion : Option (WaitlistEntry × ActivityRegistration)
  pub held_slots : ℕ

abbrev pub is_auto : PromotionMode → Bool
is_auto auto = true
is_auto manual = false

-- `cancelRegistrationWithPromotion`. When the activity is not found the source throws after the
-- registration is gone, so the service after the cancellation comes with the error.
unfoldable pub cancel_with_promotion :
    String
    → String
    → String
    → ActivityService
    → Outcome ActivityError CancelResult × ActivityService
unfolding cancel_registration get_activity promote_next_waitlist set_held_slots
cancel_with_promotion id user fresh s = elim (cancel_registration id user s) [
  | thrown e ↦ (thrown e, s)
  | ok (r, gone) ↦ elim (get_activity r.activity_id gone) [
    | thrown e ↦ (thrown e, gone)
    | ok a ↦ elim a.waitlist_promotion [
      | auto ↦ elim (promote_next_waitlist r.activity_id fresh gone) [
        | thrown e ↦ (thrown e, gone)
        | ok (p, s') ↦ (ok (record { cancelled = r; promotion = p; held_slots = 0 }), s')
      ]
      | manual ↦ elim (set_held_slots r.activity_id (a.held_slots + 1) gone) [
        | thrown e ↦ (thrown e, gone)
        | ok (a', s') ↦
            (ok (record { cancelled = r; promotion = none; held_slots = a'.held_slots }), s')
      ]
    ]
  ]
]

-- `releaseHeldSlot`: `none` is the source's `undefined`.
unfoldable pub release_held_slot :
    String
    → String
    → ActivityService
    → Outcome ActivityError
        (Option (Option (WaitlistEntry × ActivityRegistration) × ℕ) × ActivityService)
unfolding get_activity set_held_slots promote_next_waitlist
release_held_slot activity fresh s = do
  a ← get_activity activity s
  let freed = set_held_slots activity (a.held_slots - 1) s
  let released = freed >>= λ f.
      promote_next_waitlist activity fresh f.1 >>= λ p. ok (some (p.0, f.0.held_slots), p.1)
  if leb a.held_slots 0 then ok (none, s) else released
