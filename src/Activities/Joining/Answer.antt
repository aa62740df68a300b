-- ===== src/Activities/Joining/Answer.antt =====
-- Theorems on the answer of `joinActivity`.
use mathlib.Core.Path.{ap₂, subst}
use qq_group_ops.Activities.{Activity, ActivityService}
use qq_group_ops.Base.{
  ℕ, ◌+◌, ◌≡◌, ◌≢◌, refl, sym, ◌∙◌, ap, Bool, true, false, Option, none, some, length, string_eq,
  pair_eq, arith, inl, inr,
}
use qq_group_ops.Base.Dict.{lookup, count-values-insert_fresh}
use qq_group_ops.Base.Outcome.{ok}
use qq_group_ops.Activities.Joining.{
  registrations_of, waiting_for, registrations_of-store, length-list_registrations,
  join_activity-Joined, take_place-TookPlace,
}
use qq_group_ops.Activities.Registration.{
  RegisterInput, waits_for, list_registrations, is_full, new_registration, store_registration,
  JoinResult, registered, waitlisted, new_entry, store_entry, wait, join_activity,
}

wait-eq :
    (input : RegisterInput) (now : ℕ) (s : ActivityService)
    → (position : ℕ) × (wait input now s
        ≡ (waitlisted position (new_entry input now), store_entry (new_entry input now) s))
unfolding wait
wait-eq input now s = (_, refl)

waiting_for-store :
    (input : RegisterInput) (now : ℕ) (s : ActivityService)
    → lookup (input.activity_id, input.user_id) s.waitlist ≡ none
    → waiting_for input.activity_id (store_entry (new_entry input now) s)
      ≡ waiting_for input.activity_id s + 1
waiting_for-store input now s absent = ground (
  arith,
  count-values-insert_fresh (waits_for input.activity_id) (input.activity_id, input.user_id)
      (new_entry input now) s.waitlist absent,
)

-- A registration of the user's own counts for its activity.
registrations_of-new :
    (input : RegisterInput) (a : Activity) (now : ℕ) (s : ActivityService)
    → lookup input.registration_id s.registrations ≡ none
    → registrations_of input.activity_id (store_registration (new_registration input a now) s)
      ≡ registrations_of input.activity_id s + 1
registrations_of-new input a now s fresh =
    ground (arith, registrations_of-store input.activity_id (new_registration input a now) s fresh)

true≢false : true ≢ false
true≢false h = cc

same-activity : (x : Option Activity) (a b : Activity) → x ≡ some a → x ≡ some b → a ≡ b
same-activity x a b p q = cc

-- Who joins successfully is registered exactly when a place is free, held places counted, else
-- waits; the answer says which, and the counts of registrations and waiting entries follow. The
-- answer of a registration gives the new count and says whether the activity is full with it.
pub join_activity_lem :
    (input : RegisterInput) (closing now : ℕ) (s s' : ActivityService) (res : JoinResult)
    (a : Activity)
    → join_activity input closing now s ≡ ok (res, s')
    → lookup input.activity_id s.activities ≡ some a
    → (is_full a.capacity (registrations_of input.activity_id s + a.held_slots) ≡ true
        → (position : ℕ) × (res ≡ waitlisted position (new_entry input now))
          × (registrations_of input.activity_id s' ≡ registrations_of input.activity_id s)
          × (waiting_for input.activity_id s' ≡ waiting_for input.activity_id s + 1))
      × (is_full a.capacity (registrations_of input.activity_id s + a.held_slots) ≡ false
          → (res
              ≡ registered
                  (new_registration input a now)
                  (is_full a.capacity (registrations_of input.activity_id s' + a.held_slots))
                  (registrations_of input.activity_id s'))
            × (registrations_of input.activity_id s' ≡ registrations_of input.activity_id s + 1)
            × (waiting_for input.activity_id s' ≡ waiting_for input.activity_id s))
join_activity_lem input closing now s s' res a e found =
    let j = join_activity-Joined input closing now s s' res e in
    let same = same-activity _ j.activity a j.known found in
    let test =
      λ (b : Bool)
          (h : is_full j.activity.capacity
              (length (list_registrations input.activity_id s) + j.activity.held_slots)
            ≡ b).
        subst (λ x. is_full x.capacity (registrations_of input.activity_id s + x.held_slots) ≡ b)
          same (rw (← length-list_registrations input.activity_id s) h) in
    elim j.outcome [
      | inl (no_room, waited) ↦
          let (position, w) = wait-eq input now s in
          let all = waited ∙ w in
          let after : s' ≡ store_entry (new_entry input now) s = ap (λ t. t.1) all in
          (
            λ f. (
              position,
              ap (λ t. t.0) all,
              ap (registrations_of input.activity_id) after,
              ap (waiting_for input.activity_id) after
                  ∙ waiting_for-store input now s j.not_waiting,
            ),
            λ f. let bad = sym (test true no_room) ∙ f in absurd (true≢false bad),
          )
      | inr (room, placed) ↦
          let p = take_place-TookPlace input now j.activity s s' res placed in
          let R = p.registering in
          let made =
            R.made
            ∙ ap (λ x. new_registration input x now) (same-activity _ R.activity a R.known found) in
          (
            λ f. absurd (true≢false (sym f ∙ test false room)),
            λ f. (
              p.answer
                  ∙ ap₂
                      (λ r n.
                        registered r (is_full j.activity.capacity (n + j.activity.held_slots)) n)
                      made (length-list_registrations input.activity_id s')
                  ∙ ap
                      (λ x.
                        registered (new_registration input a now)
                          (is_full x.capacity
                            (registrations_of input.activity_id s' + x.held_slots))
                          (registrations_of input.activity_id s'))
                      same,
              ap (registrations_of input.activity_id) R.stored
                  ∙ ap (λ r. registrations_of input.activity_id (store_registration r s)) made
                  ∙ registrations_of-new input a now s R.fresh,
              ap (waiting_for input.activity_id) R.stored,
            ),
          )
    ]
