-- ===== src/Activities/Leaving/Releasing.antt =====
-- Theorems on `releaseHeldSlot` of src/services/activity.ts.
use qq_group_ops.Activities.{
  persist_settings, Activity, ActivityRegistration, WaitlistEntry, ActivityService, get_activity,
}
use qq_group_ops.Base.{
  Bool-cases, ℕ, ◌+◌, ◌-◌, ◌≡◌, string_eq, pair_eq, Option, none, some, leb, arith, String, inl,
  inr, ◌⊎◌,
}
use qq_group_ops.Base.Dict.{lookup, insert, NodupKeys, lookup-insert}
use qq_group_ops.Base.Outcome.{ok, Outcome-cases}
use qq_group_ops.Activities.Leaving.{held_of, promote_next_waitlist_lem}
use qq_group_ops.Activities.Registration.{promote_next_waitlist, release_held_slot}
use qq_group_ops.Activities.Joining.{registrations_of, waiting_for, WaitlistKeyed}

-- With distinct keys, a waiting list keyed by its entries and a fresh registration id: a successful
-- release changes nothing when no place is held; else one place fewer is held, and either nobody
-- waited and the registrations stay as many, or one entry is registered and waits no more.
pub release_held_slot_lem :
    (id fresh : String) (s s' : ActivityService) (a : Activity)
    (res : Option (Option (WaitlistEntry × ActivityRegistration) × ℕ))
    → release_held_slot id fresh s ≡ ok (res, s')
    → lookup id s.activities ≡ some a
    → NodupKeys s.waitlist
    → WaitlistKeyed s
    → lookup fresh s.registrations ≡ none
    → ((a.held_slots ≡ 0) × (res ≡ none) × (s' ≡ s))
      ⊎ ((held_of (lookup id s'.activities) + 1 ≡ a.held_slots)
          × (((waiting_for id s ≡ 0) × (registrations_of id s' ≡ registrations_of id s))
              ⊎ ((waiting_for id s' + 1 ≡ waiting_for id s)
                  × (registrations_of id s' ≡ registrations_of id s + 1))))
unfolding release_held_slot get_activity
release_held_slot_lem id fresh s s' a res h found uw keyed absent =
    let b : Activity = record a { held_slots = a.held_slots - 1 } in
    let s1 = persist_settings b (record s { activities = insert id b s.activities }) in
    let h' = rw (found, release_held_slot) at h in
    elim (Bool-cases (leb a.held_slots 0)) [
      | inl zero_held ↦
          let h'' = rw zero_held at h' in inl (ground arith, ground arith, ground arith)
      | inr some_held ↦ elim (Outcome-cases (promote_next_waitlist id fresh s1)) [
        | inr (x, e) ↦ absurd (ground arith)
        | inl ((p, s2), e) ↦
            let h'' = rw (some_held, e) at h' in
            let same : s2 ≡ s' = ground arith in
            let at_id = lookup-insert id id b s.activities in
            elim (promote_next_waitlist_lem id fresh s1 s2 p e uw keyed absent) [
              | inl (none_wait, _, kept) ↦ inr (
                ground (arith, at_id, kept, same),
                inl (ground (arith, none_wait), ground (arith, kept, same)),
              )
              | inr (w, x, _, done) ↦ inr (
                ground (arith, at_id, done.kept, same),
                inr (ground (arith, done.one_fewer, same), ground (arith, done.one_more, same)),
              )
            ]
      ]
    ]
