-- ===== src/Activities/Editing/Edits.antt =====
-- Theorems on `updateActivity` and `normalizeList`.
use qq_group_ops.Base.{
  nat_eq, ◌==◌, [], ℕ, ◌≡◌, refl, ◌∙◌, ap, sym, String, Bool, true, false, ◌||◌, Option, none, some,
  List, ◌∷◌, ◌++◌, any, contains, string_eq, arith, Option-cases, Bool-cases, inl, inr,
  contains-append,
}
use qq_group_ops.Base.Text.{trim, is_empty}
use mathlib.Core.Path.{subst}
use qq_group_ops.Base.Dict.{lookup, insert, lookup-insert}
use qq_group_ops.Base.Outcome.{ok}
use qq_group_ops.Activities.{Activity, ActivityService}
use qq_group_ops.Activities.Joining.{waiting_for}
use qq_group_ops.Activities.Leaving.{taken_places}
use qq_group_ops.Activities.Editing.{
  Patch, normalize_loop, normalize_list, patched, trimmed, is_blank, is_bad_capacity, apply_patch,
  update_activity,
}

-- What a successful edit found and did.
record Updated (id : String) (p : Patch) (s : ActivityService) (a' : Activity)
    (s' : ActivityService) : Type 0 where
  before : Activity
  known : lookup id s.activities ≡ some before
  title_given : is_blank p.title ≡ false
  capacity_given : is_bad_capacity p.capacity ≡ false
  now : a' ≡ apply_patch p before
  activities : s'.activities ≡ insert id a' s.activities
  registrations : s'.registrations ≡ s.registrations
  waitlist : s'.waitlist ≡ s.waitlist

update_activity-Updated :
    (id : String) (p : Patch) (s s' : ActivityService) (a' : Activity)
    → update_activity id p s ≡ ok (a', s')
    → Updated id p s a' s'
unfolding update_activity
update_activity-Updated id p s s' a' e = elim (Option-cases (lookup id s.activities)) [
  | inl missing ↦ absurd (let e' = rw (missing, update_activity) at e in ground arith)
  | inr (a, found) ↦
      let e' = rw (found, update_activity) at e in
      record {
        before = a;
        known = found;
        title_given = ground arith;
        capacity_given = ground arith;
        now = ground arith;
        activities = ground arith;
        registrations = ground arith;
        waitlist = ground arith;
      }
]

-- A title that is not empty, and a capacity that is not zero.
abbrev pub IsValid : Activity → Type 0
IsValid a = (is_empty a.title ≡ false) × (is_bad_capacity (some a.capacity) ≡ false)

apply_patch-IsValid :
    (p : Patch) (a : Activity)
    → is_blank p.title ≡ false
    → is_bad_capacity p.capacity ≡ false
    → IsValid a
    → IsValid (apply_patch p a)
apply_patch-IsValid p a t c (v, w) = (title p.title t, capacity p.capacity c)
  where
    title : (o : Option String) → is_blank o ≡ false → is_empty (trimmed o a.title) ≡ false
    title none h = v
    title (some text) h = h

    capacity :
        (o : Option (Option ℕ))
        → is_bad_capacity o ≡ false
        → is_bad_capacity (some (patched o a.capacity)) ≡ false
    capacity none h = w
    capacity (some c) h = h

-- All activities stay valid under every successful edit: a title is not empty and a capacity not
-- zero.
pub update_activity-IsValid :
    (id : String) (p : Patch) (s s' : ActivityService) (a' : Activity)
    → update_activity id p s ≡ ok (a', s')
    → ((b : String) (a : Activity) → lookup b s.activities ≡ some a → IsValid a)
    → (b : String) (a : Activity) → lookup b s'.activities ≡ some a
    → IsValid a
update_activity-IsValid id p s s' a' e valid b a found =
    let u = update_activity-Updated id p s s' a' e in
    let at = lookup-insert b id a' s.activities in
    let new : IsValid a' =
      subst IsValid (sym u.now) (
        apply_patch-IsValid p u.before u.title_given u.capacity_given
          (valid id u.before u.known)) in
    elim (Bool-cases (b == id)) [
      | inl here ↦
          let same : a' ≡ a = ground (arith, at, here, u.activities) in subst IsValid same new
      | inr other ↦ valid b a (ground (arith, at, other, u.activities))
    ]

-- A successful edit changes neither the taken places nor the waiting list of any activity, whatever
-- the new promotion mode: held places stay held when the mode becomes automatic.
pub update_activity-taken_places :
    (id : String) (p : Patch) (s s' : ActivityService) (a' : Activity) (b : String)
    → update_activity id p s ≡ ok (a', s')
    → (taken_places b s' ≡ taken_places b s) × (waiting_for b s' ≡ waiting_for b s)
update_activity-taken_places id p s s' a' b e =
    let u = update_activity-Updated id p s s' a' e in
    (
      ground (
        arith,
        lookup-insert b id a' s.activities,
        u.activities,
        u.registrations,
        u.now,
        u.known,
      ),
      ground (arith, u.waitlist),
    )

-- Each element is no white space alone, and stands once.
abbrev pub IsNormal : List String → Type 0
IsNormal [] = Unit
IsNormal (x ∷ xs) = (is_empty x ≡ false) × (contains x xs ≡ false) × IsNormal xs

IsNormal-concat :
    (xs : List String) (y : String)
    → IsNormal xs
    → is_empty y ≡ false
    → contains y xs ≡ false
    → IsNormal (xs ++ y ∷ [])
unfolding contains
IsNormal-concat [] y h n c = (n, refl, tt)
IsNormal-concat (x ∷ xs) y (a, b, h) n c =
    (a, ground (arith, contains-append x xs (y ∷ [])), IsNormal-concat xs y h n (ground arith))

normalize_loop-IsNormal :
    (values result : List String) → IsNormal result → IsNormal (normalize_loop values result)
unfolding normalize_loop
normalize_loop-IsNormal [] result h = h
normalize_loop-IsNormal (v ∷ vs) result h =
    elim (Bool-cases (is_empty (trim v) || contains (trim v) result)) [
      | inl skip ↦ rw skip (normalize_loop-IsNormal vs result h)
      | inr keep ↦ rw keep (
          normalize_loop-IsNormal vs (result ++ trim v ∷ [])
            (IsNormal-concat result (trim v) h (ground arith) (ground arith)))
    ]

-- A value that adds nothing changes nothing.
skipped :
    (x t : String) (result : List String) (b : Bool)
    → is_empty x ≡ false
    → (is_empty t || contains t result) ≡ true
    → (contains x result || b) ≡ (contains x result || (x == t || b))
skipped x t result b n skip = elim (Bool-cases (x == t)) [
  | inl same ↦
      let p : x ≡ t = ground arith in
      let held : contains x result ≡ true =
        subst (λ y. contains y result ≡ true) (sym p)
          (ground (arith, subst (λ y. is_empty y ≡ false) p n)) in
      rw held refl
  | inr other ↦ rw other refl
]

kept : (c e b : Bool) → ((c || (e || false)) || b) ≡ (c || (e || b))
kept c e b = ground arith

contains-normalize_loop :
    (x : String) (values result : List String)
    → is_empty x ≡ false
    → contains x (normalize_loop values result)
      ≡ (contains x result || any (λ v. x == trim v) values)
unfolding normalize_loop any contains
contains-normalize_loop x [] result n = ground arith
contains-normalize_loop x (v ∷ vs) result n =
    elim (Bool-cases (is_empty (trim v) || contains (trim v) result)) [
      | inl skip ↦
          rw skip (contains-normalize_loop x vs result n ∙ skipped x (trim v) result _ n skip)
      | inr keep ↦ rw keep (
          contains-normalize_loop x vs (result ++ trim v ∷ []) n
          ∙ ap (λ c. c || any (λ w. x == trim w) vs) (contains-append x result (trim v ∷ []))
          ∙ kept (contains x result) (x == trim v) _)
    ]

-- A normalised list holds no empty text and none twice, and holds a text that is not empty exactly
-- when it is one of the given ones with the white space around it taken off.
pub normalize_list_lem :
    (values : List String)
    → IsNormal (normalize_list values)
      × ((x : String)
          → is_empty x ≡ false
          → contains x (normalize_list values) ≡ any (λ v. x == trim v) values)
unfolding normalize_list any contains
normalize_list_lem values =
    (normalize_loop-IsNormal values [] tt, λ x n. contains-normalize_loop x values [] n)
