-- ===== src/Activities/Joining.antt =====
-- Theorems on `joinActivity` and `register` of src/services/activity.ts.
pub mod OnePlace
pub mod Answer
use mathlib.Core.Path.{subst}
use qq_group_ops.Activities.{
  activity_not_found, Activity, ActivityRegistration, WaitlistEntry, ActivityService,
}
use qq_group_ops.Base.{
  ℕ, ◌+◌, ◌≤◌, ◌≡◌, sym, ◌∙◌, String, true, false, Option, none, some, length, filter, string_eq,
  pair_eq, if◌then◌else◌, arith, count, length-filter, Option-cases, inl, inr, ◌⊎◌,
}
use qq_group_ops.Base.Dict.{lookup, values, count-values-insert_fresh}
use qq_group_ops.Base.Sort.{sort-length}
use qq_group_ops.Base.Outcome.{ok, thrown, >>=-eq-ok}
use qq_group_ops.Activities.Registration.{
  RegisterInput, is_open, of_activity, waits_for, list_registrations, find_registration,
  is_registration_closed, is_full, new_registration, store_registration, register, JoinResult,
  registered, new_entry, store_entry, wait, take_place, join_activity,
}

-- How many are registered for an activity, and how many wait for it.
abbrev pub registrations_of : String → ActivityService → ℕ
registrations_of id s = count (of_activity id) (values s.registrations)

abbrev pub waiting_for : String → ActivityService → ℕ
waiting_for id s = count (waits_for id) (values s.waitlist)

-- The waiting list is keyed by the activity and the user of its entries.
abbrev pub WaitlistKeyed : ActivityService → Type 0
WaitlistKeyed s =
    (id user : String) (w : WaitlistEntry)
    → lookup (id, user) s.waitlist ≡ some w
    → (w.activity_id ≡ id) × (w.user_id ≡ user)

pub length-list_registrations :
    (id : String) (s : ActivityService) → length (list_registrations id s) ≡ registrations_of id s
unfolding list_registrations
length-list_registrations id s =
    sort-length _ (filter (of_activity id) (values s.registrations))
    ∙ length-filter (of_activity id) _

-- What a successful `register` found and did.
record Registered (input : RegisterInput) (now : ℕ) (s : ActivityService) (r : ActivityRegistration)
    (s' : ActivityService) : Type 0 where
  activity : Activity
  known : lookup input.activity_id s.activities ≡ some activity
  made : r ≡ new_registration input activity now
  stored : s' ≡ store_registration r s
  fresh : lookup input.registration_id s.registrations ≡ none
  opened : is_open activity.status ≡ true
  room : is_full activity.capacity (length (list_registrations input.activity_id s)) ≡ false

register-Registered :
    (input : RegisterInput) (now : ℕ) (s s' : ActivityService) (r : ActivityRegistration)
    → register input now s ≡ ok (r, s')
    → Registered input now s r s'
unfolding register
register-Registered input now s s' r e =
    elim (Option-cases (lookup input.activity_id s.activities)) [
      | inl missing ↦ absurd (
          let bad : thrown (activity_not_found input.activity_id) ≡ ok (r, s') =
            rw (missing, register) at e in
          cc)
      | inr (a, found) ↦
          let e' = rw (found, register) at e in
          elim (Option-cases (lookup input.registration_id s.registrations)) [
            | inl new ↦ record {
              activity = a;
              known = found;
              made = ground arith;
              stored = ground arith;
              fresh = new;
              opened = ground arith;
              room = ground arith;
            }
            | inr (old, taken) ↦ absurd (ground arith)
          ]
    ]

-- The registered and the held places of an activity stay within its capacity.
abbrev pub Fits : Option ℕ → ℕ → Type 0
Fits none taken = Unit
Fits (some capacity) taken = taken ≤ capacity

abbrev pub WithinCapacity : String → ActivityService → Type 0
WithinCapacity id s =
    (a : Activity)
    → lookup id s.activities ≡ some a
    → Fits a.capacity (registrations_of id s + a.held_slots)

-- What a successful `join_activity` found and did.
record Joined (input : RegisterInput) (closing now : ℕ) (s : ActivityService) (res : JoinResult)
    (s' : ActivityService) : Type 0 where
  activity : Activity
  known : lookup input.activity_id s.activities ≡ some activity
  running : is_registration_closed activity closing ≡ false
  new_user : find_registration input.activity_id input.user_id s ≡ none
  not_waiting : lookup (input.activity_id, input.user_id) s.waitlist ≡ none
  outcome :
      ((is_full activity.capacity
            (length (list_registrations input.activity_id s) + activity.held_slots)
          ≡ true)
        × ((res, s') ≡ wait input now s))
      ⊎ ((is_full activity.capacity
              (length (list_registrations input.activity_id s) + activity.held_slots)
            ≡ false)
          × (take_place input now activity s ≡ ok (res, s')))

join_activity-Joined :
    (input : RegisterInput) (closing now : ℕ) (s s' : ActivityService) (res : JoinResult)
    → join_activity input closing now s ≡ ok (res, s')
    → Joined input closing now s res s'
unfolding join_activity
join_activity-Joined input closing now s s' res e =
    elim (Option-cases (lookup input.activity_id s.activities)) [
      | inl missing ↦ absurd (
          let bad : thrown (activity_not_found input.activity_id) ≡ ok (res, s') =
            rw (missing, join_activity) at e in
          cc)
      | inr (a, found) ↦
          let e' = rw (found, join_activity) at e in
          record {
            activity = a;
            known = found;
            running = ground arith;
            new_user = ground arith;
            not_waiting = ground arith;
            outcome = ground arith;
          }
    ]

-- A place is taken by one registration more.
record TookPlace (input : RegisterInput) (now : ℕ) (a : Activity) (s : ActivityService)
    (res : JoinResult) (s' : ActivityService) : Type 0 where
  registration : ActivityRegistration
  registering : Registered input now s registration s'
  answer :
      res
      ≡ registered registration
          (is_full a.capacity (length (list_registrations input.activity_id s') + a.held_slots))
          (length (list_registrations input.activity_id s'))

take_place-TookPlace :
    (input : RegisterInput) (now : ℕ) (a : Activity) (s s' : ActivityService) (res : JoinResult)
    → take_place input now a s ≡ ok (res, s')
    → TookPlace input now a s res s'
unfolding take_place
take_place-TookPlace input now a s s' res e =
    let ((r, s1), done, rest) = >>=-eq-ok (register input now s) _ e in
    let same : s1 ≡ s' = cc in
    record {
      registration = r;
      registering = rw (← same) (register-Registered input now s s1 r done);
      answer = rw (← same) (ground arith);
    }

pub registrations_of-store :
    (id : String) (r : ActivityRegistration) (s : ActivityService)
    → lookup r.registration_id s.registrations ≡ none
    → registrations_of id (store_registration r s)
      ≡ registrations_of id s + (if of_activity id r then 1 else 0)
registrations_of-store id r s fresh =
    count-values-insert_fresh (of_activity id) r.registration_id r s.registrations fresh

store_registration-WithinCapacity :
    (b : String) (r : ActivityRegistration) (a : Activity) (s : ActivityService)
    → lookup r.registration_id s.registrations ≡ none
    → lookup r.activity_id s.activities ≡ some a
    → is_full a.capacity (registrations_of r.activity_id s + a.held_slots) ≡ false
    → WithinCapacity b s
    → WithinCapacity b (store_registration r s)
store_registration-WithinCapacity b r a s fresh known room fits act found =
    ground (arith, registrations_of-store b r s fresh, fits act found, known, found)

-- A successful `join_activity` keeps each activity that is within its capacity, held places
-- included, within it.
pub join_activity-WithinCapacity :
    (input : RegisterInput) (closing now : ℕ) (s s' : ActivityService) (res : JoinResult)
    (b : String)
    → join_activity input closing now s ≡ ok (res, s')
    → WithinCapacity b s
    → WithinCapacity b s'
join_activity-WithinCapacity input closing now s s' res b e fits =
    let j = join_activity-Joined input closing now s s' res e in
    elim j.outcome [
      | inl (no_room, waited) ↦
          let same : store_entry (new_entry input now) s ≡ s' = unfold wait in cc in
          subst (λ t. WithinCapacity b t) same fits
      | inr (room, placed) ↦
          let p = take_place-TookPlace input now j.activity s s' res placed in
          let R = p.registering in
          subst (λ t. WithinCapacity b t) (sym R.stored)
            (store_registration-WithinCapacity b p.registration j.activity s (rw R.made R.fresh)
              (rw R.made j.known)
              (rw R.made (rw (← length-list_registrations input.activity_id s) room)) fits)
    ]
