-- ===== src/Activities/Leaving.antt =====
-- Theorems on `cancelRegistrationWithPromotion`, `promoteNextWaitlist` and `releaseHeldSlot` of
-- src/services/activity.ts.
pub mod Cancelling
pub mod Releasing
use qq_group_ops.Base.{
  length, [], length-filter, ℕ, ◌+◌, ◌≤◌, ◌≡◌, ◌∙◌, string_eq, pair_eq, refl, sym, ap, Bool, true,
  not, ◌&&◌, Option, none, some, List, ◌∷◌, leb, filter, arith, count, Option-cases, All,
  filter-All, count-filter, String, inl, inr, ◌⊎◌,
}
use qq_group_ops.Activities.{
  Activity, ActivityRegistration, WaitlistEntry, ActivityService, get_activity,
}
use mathlib.Core.Path.{subst, ap₂}
use qq_group_ops.Base.Sort.{
  sort-length, sort-All, sort-count, sort-Sorted, Sorted, Sorted-count_below,
}
use qq_group_ops.Base.Dict.{
  lookup, values, values-All, NodupKeys, count-values-pos, count-values-erase, lookup-insert,
  lookup-erase,
}
use qq_group_ops.Base.Outcome.{ok, ok-injective}
use qq_group_ops.Activities.Registration.{
  waits_for, list_waitlist, promoted_registration, drop_entry, store_registration,
  promote_next_waitlist,
}
use qq_group_ops.Activities.Joining.{
  registrations_of, waiting_for, WaitlistKeyed, registrations_of-store,
}

abbrev earlier_entry : WaitlistEntry → WaitlistEntry → Bool
earlier_entry l r = leb l.created_at r.created_at

-- The entry is on the waiting list, for the activity.
abbrev pub Waits : String → ActivityService → WaitlistEntry → Type 0
Waits id s w = (w.activity_id ≡ id) × (lookup (id, w.user_id) s.waitlist ≡ some w)

waits_after : String → WaitlistEntry → WaitlistEntry → Bool
waits_after id w v = waits_for id v && not (earlier_entry w v)

module _ (id : String) (s : ActivityService) (u : NodupKeys s.waitlist)
    (keyed : WaitlistKeyed s) where
  waiting-All : All (λ w. lookup (w.activity_id, w.user_id) s.waitlist ≡ some w) (values s.waitlist)
  waiting-All = values-All _ s.waitlist u (λ k w f. at k w f)
    where
      at :
          (k : String × String) (w : WaitlistEntry)
          → lookup k s.waitlist ≡ some w
          → lookup (w.activity_id, w.user_id) s.waitlist ≡ some w
      at (i, v) w f = let (p, q) = keyed i v w f in ap₂ (λ i v. lookup (i, v) s.waitlist) p q ∙ f

  list_waitlist-All :
      All
        (λ w. (waits_for id w ≡ true) × (lookup (w.activity_id, w.user_id) s.waitlist ≡ some w))
        (list_waitlist id s)
  unfolding list_waitlist
  list_waitlist-All = sort-All earlier_entry _ _ (filter-All _ (waits_for id) _ waiting-All)

  head-Waits :
      (w : WaitlistEntry) (ws : List WaitlistEntry) → list_waitlist id s ≡ w ∷ ws → Waits id s w
  head-Waits w ws e =
      let ((p, f), rest) = rw e at list_waitlist-All in
      let same : w.activity_id ≡ id = ground arith in
      (same, ap (λ i. lookup (i, w.user_id) s.waitlist) (sym same) ∙ f)

  list_waitlist-count :
      (q : WaitlistEntry → Bool)
      → count q (list_waitlist id s) ≡ count (λ w. waits_for id w && q w) (values s.waitlist)
  unfolding list_waitlist
  list_waitlist-count q = sort-count earlier_entry q _ ∙ count-filter (waits_for id) q _

  list_waitlist-Sorted : Sorted earlier_entry (list_waitlist id s)
  unfolding list_waitlist
  list_waitlist-Sorted = sort-Sorted earlier_entry (λ x y h. ground arith) _

  -- Nobody who waits came before the first of the list.
  head-earliest :
      (w : WaitlistEntry) (ws : List WaitlistEntry)
      → list_waitlist id s ≡ w ∷ ws
      → (k : String × String) (v : WaitlistEntry) → lookup k s.waitlist ≡ some v
      → v.activity_id ≡ id
      → w.created_at ≤ v.created_at
  head-earliest w ws e k v f of_id =
      let none_below =
        Sorted-count_below earlier_entry (λ x y z h g. ground arith) (λ x. ground arith) w ws
          (rw e at list_waitlist-Sorted) in
      let moved = list_waitlist-count (λ v. not (earlier_entry w v)) in
      let pos =
        count-values-pos (λ v. waits_for id v && not (earlier_entry w v)) s.waitlist k v f in
      ground (arith, none_below, moved, pos, e)

-- What promoting the first of the waiting list does: it registers an entry that came no later than
-- any other, under the fresh id and with the time it began to wait, and ends its wait.
pub record Promoted (id fresh : String) (s s' : ActivityService) (w : WaitlistEntry)
    (r : ActivityRegistration) : Type 0 where
  pub waited : Waits id s w
  pub earliest :
      (k : String × String) (v : WaitlistEntry)
      → lookup k s.waitlist ≡ some v
      → v.activity_id ≡ id
      → w.created_at ≤ v.created_at
  pub same_user : r.user_id ≡ w.user_id
  pub same_time : r.created_at ≡ w.created_at
  pub now_registered : lookup fresh s'.registrations ≡ some r
  pub waits_no_more : lookup (id, w.user_id) s'.waitlist ≡ none
  pub one_more : registrations_of id s' ≡ registrations_of id s + 1
  pub one_fewer : waiting_for id s' + 1 ≡ waiting_for id s
  pub kept : s'.activities ≡ s.activities

list_waitlist-empty :
    (id : String) (s : ActivityService) → list_waitlist id s ≡ [] → waiting_for id s ≡ 0
unfolding list_waitlist count
list_waitlist-empty id s e = ground (
  arith,
  sort-length earlier_entry (filter (waits_for id) (values s.waitlist)),
  length-filter (waits_for id) (values s.waitlist),
  ap length e,
)

list_waitlist-cases :
    (id : String) (s : ActivityService)
    → (list_waitlist id s ≡ [])
      ⊎ ((w : WaitlistEntry) × (ws : List WaitlistEntry) × (list_waitlist id s ≡ w ∷ ws))
list_waitlist-cases id s = list-cases (list_waitlist id s)
  where
    list-cases :
        (xs : List WaitlistEntry)
        → (xs ≡ []) ⊎ ((w : WaitlistEntry) × (ws : List WaitlistEntry) × (xs ≡ w ∷ ws))
    list-cases [] = inl refl
    list-cases (w ∷ ws) = inr (w, ws, refl)

store-Promoted :
    (id fresh : String) (s : ActivityService) (a : Activity) (w : WaitlistEntry)
    (ws : List WaitlistEntry)
    → NodupKeys s.waitlist
    → WaitlistKeyed s
    → lookup fresh s.registrations ≡ none
    → list_waitlist id s ≡ w ∷ ws
    → Promoted id fresh s
        (store_registration (promoted_registration fresh a w) (drop_entry w s))
        w
        (promoted_registration fresh a w)
store-Promoted id fresh s a w ws u keyed absent e =
    let (of_id, f) = head-Waits id s u keyed w ws e in
    let at : lookup (w.activity_id, w.user_id) s.waitlist ≡ some w =
      ap (λ i. lookup (i, w.user_id) s.waitlist) of_id ∙ f in
    record {
      waited = (of_id, f);
      earliest = head-earliest id s u keyed w ws e;
      same_user = refl;
      same_time = refl;
      now_registered =
          ground
            (arith, lookup-insert fresh fresh (promoted_registration fresh a w) s.registrations);
      waits_no_more =
          ground (arith, lookup-erase (id, w.user_id) (w.activity_id, w.user_id) s.waitlist, of_id);
      one_more = ground (
        arith,
        registrations_of-store id (promoted_registration fresh a w) (drop_entry w s) absent,
        of_id,
      );
      one_fewer = ground (
        arith,
        count-values-erase (waits_for id) (w.activity_id, w.user_id) w s.waitlist u at,
        of_id,
      );
      kept = refl;
    }

-- With distinct keys that are those of the entries, and a fresh registration id: a successful
-- promotion changes nothing when nobody waits, and else registers an entry that waited no shorter
-- than any other of the activity, with its time, and takes it off the waiting list.
pub promote_next_waitlist_lem :
    (id fresh : String) (s s' : ActivityService)
    (res : Option (WaitlistEntry × ActivityRegistration))
    → promote_next_waitlist id fresh s ≡ ok (res, s')
    → NodupKeys s.waitlist
    → WaitlistKeyed s
    → lookup fresh s.registrations ≡ none
    → ((waiting_for id s ≡ 0) × (res ≡ none) × (s' ≡ s))
      ⊎ ((w : WaitlistEntry) × (r : ActivityRegistration) × (res ≡ some (w, r))
          × Promoted id fresh s s' w r)
unfolding promote_next_waitlist get_activity
promote_next_waitlist_lem id fresh s s' res h u keyed absent = elim (list_waitlist-cases id s) [
  | inl e ↦
      let h' = rw (e, promote_next_waitlist) at h in
      inl (list_waitlist-empty id s e, ground arith, ground arith)
  | inr (w, ws, e) ↦ elim (Option-cases (lookup id s.activities)) [
    | inl missing ↦ absurd (let h' = rw (e, missing, promote_next_waitlist) at h in ground arith)
    | inr (a, found) ↦
        let h' = rw (e, found, promote_next_waitlist) at h in
        let same : s' ≡ store_registration (promoted_registration fresh a w) (drop_entry w s) =
          sym (ap (λ t. t.1) (ok-injective _ _ _ refl h')) in
        inr (
          w,
          promoted_registration fresh a w,
          sym (ap (λ t. t.0) (ok-injective _ _ _ refl h')),
          subst (λ t. Promoted id fresh s t w (promoted_registration fresh a w)) (sym same)
              (store-Promoted id fresh s a w ws u keyed absent e),
        )
  ]
]

abbrev pub held_of : Option Activity → ℕ
held_of none = 0
held_of (some a) = a.held_slots

-- The places of an activity that nobody can take: registered or held.
abbrev pub taken_places : String → ActivityService → ℕ
taken_places id s = registrations_of id s + held_of (lookup id s.activities)
