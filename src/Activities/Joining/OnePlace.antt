-- ===== src/Activities/Joining/OnePlace.antt =====
-- Theorems on the places that one user has for an activity.
use mathlib.Core.Path.{subst, subst₂}
use qq_group_ops.Activities.{Activity, WaitlistEntry, ActivityService}
use qq_group_ops.Base.{
  [], ℕ, ◌+◌, ◌≤◌, ◌≡◌, refl, sym, String, Bool, true, false, ◌&&◌, none, some, List, ◌∷◌, find,
  ◌==◌, string_eq, pair_eq, arith, count, inl, inr,
}
use qq_group_ops.Base.Dict.{
  lookup, values, NodupKeys, count-values-insert_fresh, count-values-eq-zero,
}
use qq_group_ops.Base.Outcome.{ok}
use qq_group_ops.Activities.Joining.{WaitlistKeyed, join_activity-Joined, take_place-TookPlace}
use qq_group_ops.Activities.Registration.{
  RegisterInput, by_user, find_registration, new_registration, store_registration, JoinResult,
  new_entry, store_entry, wait, join_activity,
}

-- A user registers once for an activity, and never registers while waiting.
abbrev pub places_of : String → String → ActivityService → ℕ
places_of id user s = count (by_user id user) (values s.registrations)

abbrev pub waits_as : String → String → WaitlistEntry → Bool
waits_as id user w = w.activity_id == id && w.user_id == user

abbrev pub waits_of : String → String → ActivityService → ℕ
waits_of id user s = count (waits_as id user) (values s.waitlist)

-- Every user has one place at most for an activity: registered or waiting.
abbrev pub OnePlace : ActivityService → Type 0
OnePlace s = (id user : String) → places_of id user s + waits_of id user s ≤ 1

find-eq-none {ℓ} : {A : Type ℓ} (p : A → Bool) (xs : List A) → find p xs ≡ none → count p xs ≡ 0
unfolding find count
find-eq-none p [] h = refl
find-eq-none p (x ∷ xs) h = ground (arith, find-eq-none p xs)

module _ (input : RegisterInput) (s : ActivityService) where
  abbrev is_theirs : String → String → Bool
  is_theirs id user = input.activity_id == id && input.user_id == user

  waits_of-eq-zero :
      NodupKeys s.waitlist
      → WaitlistKeyed s
      → lookup (input.activity_id, input.user_id) s.waitlist ≡ none
      → waits_of input.activity_id input.user_id s ≡ 0
  waits_of-eq-zero u keyed absent =
      count-values-eq-zero (waits_as input.activity_id input.user_id) s.waitlist u
        (λ k w f. no_match k w f)
    where
      no_match :
          (k : String × String) (w : WaitlistEntry)
          → lookup k s.waitlist ≡ some w
          → waits_as input.activity_id input.user_id w ≡ false
      no_match (i, v) w f = ground (arith, keyed i v w f)

  -- They had no place and did not wait.
  none_before :
      find_registration input.activity_id input.user_id s ≡ none
      → NodupKeys s.waitlist
      → WaitlistKeyed s
      → lookup (input.activity_id, input.user_id) s.waitlist ≡ none
      → (id user : String) → is_theirs id user ≡ true
      → places_of id user s + waits_of id user s ≡ 0
  unfolding find_registration
  none_before absent u keyed not_waiting id user m =
      let p : input.activity_id ≡ id = ground arith in
      let q : input.user_id ≡ user = ground arith in
      subst₂ (λ i v. places_of i v s + waits_of i v s ≡ 0) p q
        (omega (
          arith,
          find-eq-none (by_user input.activity_id input.user_id) _ absent,
          waits_of-eq-zero u keyed not_waiting,
        ))

  store_entry-OnePlace :
      (now : ℕ)
      → lookup (input.activity_id, input.user_id) s.waitlist ≡ none
      → ((id user : String)
          → is_theirs id user ≡ true
          → places_of id user s + waits_of id user s ≡ 0)
      → OnePlace s
      → OnePlace (store_entry (new_entry input now) s)
  store_entry-OnePlace now absent zero_there one id user =
      let w = new_entry input now in
      ground (
        arith,
        zero_there id user,
        one id user,
        count-values-insert_fresh (waits_as id user) (input.activity_id, input.user_id) w s.waitlist
            absent,
      )

  store_registration-OnePlace :
      (a : Activity) (now : ℕ)
      → lookup input.registration_id s.registrations ≡ none
      → ((id user : String)
          → is_theirs id user ≡ true
          → places_of id user s + waits_of id user s ≡ 0)
      → OnePlace s
      → OnePlace (store_registration (new_registration input a now) s)
  store_registration-OnePlace a now fresh zero_there one id user = ground (
    arith,
    zero_there id user,
    one id user,
    count-values-insert_fresh (by_user id user) input.registration_id (new_registration input a now)
        s.registrations fresh,
  )

-- With a waiting list whose keys are distinct and those of its entries: if no user has a second
-- place for an activity, that is, nobody is registered twice, waits twice, or waits while
-- registered, then a successful `join_activity` gives nobody one.
pub join_activity-OnePlace :
    (input : RegisterInput) (closing now : ℕ) (s s' : ActivityService) (res : JoinResult)
    → join_activity input closing now s ≡ ok (res, s')
    → NodupKeys s.waitlist
    → WaitlistKeyed s
    → OnePlace s
    → OnePlace s'
join_activity-OnePlace input closing now s s' res e u keyed one =
    let j = join_activity-Joined input closing now s s' res e in
    let zero_there = none_before input s j.new_user u keyed j.not_waiting in
    elim j.outcome [
      | inl (no_room, waited) ↦
          let same : store_entry (new_entry input now) s ≡ s' = unfold wait in cc in
          subst OnePlace same (store_entry-OnePlace input s now j.not_waiting zero_there one)
      | inr (room, placed) ↦
          let R = (take_place-TookPlace input now j.activity s s' res placed).registering in
          subst OnePlace (sym R.stored)
            (rw R.made (store_registration-OnePlace input s R.activity now R.fresh zero_there one))
    ]
