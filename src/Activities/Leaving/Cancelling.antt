-- ===== src/Activities/Leaving/Cancelling.antt =====
-- Theorems on `cancelRegistrationWithPromotion` of src/services/activity.ts.
use qq_group_ops.Activities.{
  Activity, PromotionMode, auto, manual, ActivityRegistration, WaitlistEntry, ActivityService,
  get_activity,
}
use qq_group_ops.Base.{
  ◌+◌, ◌≡◌, ◌∙◌, string_eq, pair_eq, refl, sym, ap, Option, none, some, arith, Option-cases, String,
  inl, inr, ◌⊎◌,
}
use mathlib.Core.Path.{subst, subst₂}
use qq_group_ops.Base.Dict.{
  lookup, insert, erase, NodupKeys, count-values-erase, lookup-insert, lookup-erase,
}
use qq_group_ops.Base.Outcome.{ok, Outcome-cases}
use qq_group_ops.Activities.Leaving.{taken_places, promote_next_waitlist_lem}
use qq_group_ops.Activities.Registration.{
  of_activity, promote_next_waitlist, cancel_registration, set_held_slots, CancelResult,
  cancel_with_promotion,
}
use qq_group_ops.Activities.Joining.{registrations_of, waiting_for, WaitlistKeyed}

record Cancelled (rid user : String) (s : ActivityService) (r : ActivityRegistration)
    (s' : ActivityService) : Type 0 where
  was : lookup rid s.registrations ≡ some r
  own : r.user_id ≡ user
  gone : lookup rid s'.registrations ≡ none
  one_fewer : registrations_of r.activity_id s' + 1 ≡ registrations_of r.activity_id s
  same_wait : s'.waitlist ≡ s.waitlist
  same_activities : s'.activities ≡ s.activities
  none_new : (k : String) → lookup k s.registrations ≡ none → lookup k s'.registrations ≡ none

cancel_registration-Cancelled :
    (rid user : String) (s s' : ActivityService) (r : ActivityRegistration)
    → cancel_registration rid user s ≡ ok (r, s')
    → NodupKeys s.registrations
    → Cancelled rid user s r s'
unfolding cancel_registration
cancel_registration-Cancelled rid user s s' r h u =
    elim (Option-cases (lookup rid s.registrations)) [
      | inl missing ↦ absurd (let h' = rw (missing, cancel_registration) at h in ground arith)
      | inr (x, found) ↦
          let h' = rw (found, cancel_registration) at h in
          let same : x ≡ r = ground arith in
          let regs : s'.registrations ≡ erase rid s.registrations = ground arith in
          record {
            was = found ∙ ap some same;
            own = ground arith;
            gone = ground (arith, regs, lookup-erase rid rid s.registrations);
            one_fewer = ground (
              arith,
              regs,
              count-values-erase (of_activity r.activity_id) rid r s.registrations u,
              found,
              same,
            );
            same_wait = ground arith;
            same_activities = ground arith;
            none_new = λ k f. ground (arith, regs, lookup-erase k rid s.registrations);
          }
    ]

-- How a cancelled place is dealt with, by the mode of the activity.
pub data PlaceKept (a : Activity) (id : String) (s s' : ActivityService) : Type 0 where
  held :
      a.waitlist_promotion ≡ manual
      → taken_places id s' ≡ taken_places id s
      → waiting_for id s' ≡ waiting_for id s
      → PlaceKept a id s s'
  taken_over :
      a.waitlist_promotion ≡ auto
      → taken_places id s' ≡ taken_places id s
      → waiting_for id s' + 1 ≡ waiting_for id s
      → PlaceKept a id s s'
  freed :
      a.waitlist_promotion ≡ auto
      → taken_places id s' + 1 ≡ taken_places id s
      → waiting_for id s ≡ 0
      → waiting_for id s' ≡ 0
      → PlaceKept a id s s'

PromotionMode-cases : (m : PromotionMode) → (m ≡ auto) ⊎ (m ≡ manual)
PromotionMode-cases auto = inl refl
PromotionMode-cases manual = inr refl

hold_place :
    (id : String) (a : Activity) (s gone s' : ActivityService) (r : ActivityRegistration)
    (rid user : String)
    → Cancelled rid user s r gone
    → lookup r.activity_id s.activities ≡ some a
    → s'.registrations ≡ gone.registrations
    → s'.waitlist ≡ gone.waitlist
    → s'.activities
      ≡ insert r.activity_id (record a { held_slots = a.held_slots + 1 }) gone.activities
    → (taken_places r.activity_id s' ≡ taken_places r.activity_id s)
      × (waiting_for r.activity_id s' ≡ waiting_for r.activity_id s)
hold_place id a s gone s' r rid user c found regs waits acts = ground (
  arith,
  c.one_fewer,
  found,
  regs,
  waits,
  acts,
  c.same_wait,
  lookup-insert r.activity_id r.activity_id (record a { held_slots = a.held_slots + 1 })
      gone.activities,
)

pass_place :
    (fresh rid user : String) (s gone s' : ActivityService) (r : ActivityRegistration)
    (a : Activity) (p : Option (WaitlistEntry × ActivityRegistration))
    → Cancelled rid user s r gone
    → promote_next_waitlist r.activity_id fresh gone ≡ ok (p, s')
    → NodupKeys s.waitlist
    → WaitlistKeyed s
    → lookup fresh s.registrations ≡ none
    → a.waitlist_promotion ≡ auto
    → PlaceKept a r.activity_id s s'
pass_place fresh rid user s gone s' r a p c h uw keyed absent mode =
    let wait_eq = c.same_wait in
    elim (promote_next_waitlist_lem r.activity_id fresh gone s' p h
      (subst NodupKeys (sym wait_eq) uw)
      (λ i v w f. keyed i v w (ap (λ d. lookup (i, v) d) (sym wait_eq) ∙ f))
      (c.none_new fresh absent)) [
        | inl (none_wait, _, same) ↦
            freed mode (ground (arith, same, c.one_fewer, c.same_activities))
              (ground (arith, none_wait, wait_eq)) (ground (arith, none_wait, same))
        | inr (w, x, _, done) ↦
            taken_over mode
              (ground (arith, done.one_more, c.one_fewer, c.same_activities, done.kept))
              (ground (arith, done.one_fewer, wait_eq))
      ]

settle_place :
    (fresh rid user : String) (s gone s' : ActivityService) (r : ActivityRegistration)
    (a : Activity) (res : CancelResult)
    → Cancelled rid user s r gone
    → cancel_registration rid user s ≡ ok (r, gone)
    → cancel_with_promotion rid user fresh s ≡ (ok res, s')
    → lookup r.activity_id gone.activities ≡ some a
    → NodupKeys s.waitlist
    → WaitlistKeyed s
    → lookup fresh s.registrations ≡ none
    → (res.cancelled ≡ r) × PlaceKept a r.activity_id s s'
unfolding cancel_with_promotion get_activity set_held_slots
settle_place fresh rid user s gone s' r a res c done h known uw keyed absent =
    let h' = rw (done, known, cancel_with_promotion) at h in
    elim (PromotionMode-cases a.waitlist_promotion) [
      | inl is_auto ↦ elim (Outcome-cases (promote_next_waitlist r.activity_id fresh gone)) [
        | inr (x, e) ↦ absurd (let h3 = rw (is_auto, e) at h' in ground arith)
        | inl ((p, s2), e) ↦
            let h3 = rw (is_auto, e) at h' in
            let same : s2 ≡ s' = ground arith in
            (
              ground arith,
              pass_place fresh rid user s gone s' r a p c (e ∙ ap (λ t. ok (p, t)) same) uw keyed
                  absent is_auto,
            )
      ]
      | inr is_manual ↦
          let h3 = rw (is_manual, known) at h' in
          let kept =
            hold_place r.activity_id a s gone s' r rid user c
              (ap (λ d. lookup r.activity_id d) (sym c.same_activities) ∙ known) (ground arith)
              (ground arith) (ground arith) in
          (ground arith, held is_manual kept.0 kept.1)
    ]

-- With distinct keys, a waiting list keyed by its entries and a fresh registration id: a successful
-- cancellation is of the user's own registration, and its place never goes to someone new while
-- others wait. The places taken stay as many, by a held place (manual mode) or by one waiting entry
-- that is registered (auto mode); a place is free only in auto mode when nobody waits.
pub cancel_with_promotion_lem :
    (rid user fresh : String) (s s' : ActivityService) (res : CancelResult) (a : Activity)
    → cancel_with_promotion rid user fresh s ≡ (ok res, s')
    → NodupKeys s.registrations
    → NodupKeys s.waitlist
    → WaitlistKeyed s
    → lookup fresh s.registrations ≡ none
    → lookup res.cancelled.activity_id s.activities ≡ some a
    → (lookup rid s.registrations ≡ some res.cancelled)
      × (res.cancelled.user_id ≡ user)
      × PlaceKept a res.cancelled.activity_id s s'
unfolding cancel_with_promotion get_activity
cancel_with_promotion_lem rid user fresh s s' res a h ur uw keyed absent found =
    elim (Outcome-cases (cancel_registration rid user s)) [
      | inr (x, e) ↦ absurd (let h' = rw (e, cancel_with_promotion) at h in ground arith)
      | inl ((r, gone), e) ↦
          let c = cancel_registration-Cancelled rid user s gone r e ur in
          elim (Option-cases (lookup r.activity_id gone.activities)) [
            | inl missing ↦
                absurd (let h' = rw (e, missing, cancel_with_promotion) at h in ground arith)
            | inr (b, known) ↦
                let (same, kept) =
                  settle_place fresh rid user s gone s' r b res c e h known uw keyed absent in
                let b_eq : b ≡ a = ground (arith, known, found, c.same_activities, same) in
                (
                  c.was ∙ ap some (sym same),
                  ap (λ x. x.user_id) same ∙ c.own,
                  subst₂ (λ x y. PlaceKept x y.activity_id s s') b_eq (sym same) kept,
                )
          ]
    ]
