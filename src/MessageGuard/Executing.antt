-- ===== src/MessageGuard/Executing.antt =====
-- src/services/messageGuard.ts: which calls a plan leads to, whatever the platform answers to them.
use qq_group_ops.Base.{
  [], string_eq, ◌≡◌, refl, ◌∙◌, ap, sym, String, Bool, true, false, ◌&&◌, ◌||◌, not, Option, none,
  some, List, ◌∷◌, ◌++◌, any, if◌then◌else◌, is_some, arith, Option-cases, Bool-cases, inl, inr,
}
use qq_group_ops.Base.Text.{concat, ends_with, is_empty}
use qq_group_ops.Core.Platform.{
  Host, World, Readings, PlatformCall, recall_group_message, mute_group_member, remove_group_member,
  update_member_blacklist, call, audit,
}
use mathlib.Core.Path.{ap₂}
use mathlib.Core.List.{append-nil, append_assoc}
use qq_group_ops.Blacklist.{Blacklist, add, update_official}
use qq_group_ops.MessageGuard.Engines.{MessageGuard}
use qq_group_ops.MessageGuard.Actions.{attempt, attempt_blacklist, any_done, execute, execute_plan}
use qq_group_ops.MessageGuard.Planning.{IncomingMessage, GuardConfig, Plan, is_review, warning_call}

abbrev only {ℓ} : {A : Type ℓ} → Bool → A → List A
only b a = if b then a ∷ [] else []

-- The calls that a plan leads to, in their order, without that of the blacklist.
abbrev pub calls_before : Plan → IncomingMessage → List PlatformCall
calls_before plan message =
    only plan.recall (recall_group_message message.group_id message.message_id)
    ++ only plan.mute
        (mute_group_member message.group_id message.user_id plan.mute_duration_seconds)
    ++ only plan.kick (remove_group_member message.group_id message.user_id)

abbrev pub calls_listing : Plan → IncomingMessage → Option Blacklist → List PlatformCall
calls_listing plan message b =
    only (plan.blacklist && is_some b)
      (update_member_blacklist message.group_id message.user_id true)

abbrev pub calls_after :
    MessageGuard → Plan → IncomingMessage → GuardConfig → Option String → List PlatformCall
calls_after guard plan message config punishment =
    only plan.warn (warning_call guard.rich plan message config punishment)

-- Whether the platform takes one of some calls, made after others.
unfoldable pub takes_one : Host → List PlatformCall → List PlatformCall → Bool
takes_one host log [] = false
takes_one host log (c ∷ cs) = not (is_some (host.answer log c)) || takes_one host (log ++ c ∷ []) cs

attempt-calls :
    (b : Bool) (host : Host) (label : String) (c : PlatformCall) (w : World)
    → (attempt b host label c w).1.calls ≡ w.calls ++ only b c
unfolding attempt call
attempt-calls true host label c w = refl
attempt-calls false host label c w = sym (append-nil w.calls)

attempt-done :
    (b : Bool) (host : Host) (label : String) (c : PlatformCall) (w : World)
    → ends_with "_failed" label ≡ false
    → ends_with "_failed" (concat label "_failed") ≡ true
    → any_done (attempt b host label c w).0 ≡ takes_one host w.calls (only b c)
unfolding attempt call takes_one any
attempt-done true host label c w p q = elim (Option-cases (host.answer w.calls c)) [
  | inl e ↦ rw e (simp p)
  | inr (error, e) ↦ rw e (simp q)
]
attempt-done false host label c w p q = refl

takes_one-concat :
    (host : Host) (log xs ys : List PlatformCall)
    → takes_one host log (xs ++ ys) ≡ (takes_one host log xs || takes_one host (log ++ xs) ys)
unfolding takes_one
takes_one-concat host log [] ys = ap (λ l. takes_one host l ys) (sym (append-nil log))
takes_one-concat host log (x ∷ xs) ys =
    let further =
      takes_one-concat host (log ++ x ∷ []) xs ys
      ∙ ap (λ l. takes_one host (log ++ x ∷ []) xs || takes_one host l ys)
          (append_assoc log (x ∷ []) xs) in
    ground (arith, further)

any_done-concat : (xs ys : List String) → any_done (xs ++ ys) ≡ (any_done xs || any_done ys)
unfolding any
any_done-concat [] ys = refl
any_done-concat (x ∷ xs) ys = ground (arith, any_done-concat xs ys)

-- The entry is there, and its only call is that of the platform's own list.
attempt_blacklist-calls :
    (planned : Bool) (host : Host) (env : Readings) (message : IncomingMessage) (w : World)
    (b : Option Blacklist)
    → is_empty message.group_id ≡ false
    → (attempt_blacklist planned host env message w b).1.calls
      ≡ w.calls
        ++ only
            (planned && is_some b)
            (update_member_blacklist message.group_id message.user_id true)
unfolding attempt_blacklist add update_official call audit
attempt_blacklist-calls false host env message w b named = sym (append-nil w.calls)
attempt_blacklist-calls true host env message w none named = sym (append-nil w.calls)
attempt_blacklist-calls true host env message w (some b) named = rw named refl

attempt_blacklist-done :
    (planned : Bool) (host : Host) (env : Readings) (message : IncomingMessage) (w : World)
    (b : Option Blacklist)
    → any_done (attempt_blacklist planned host env message w b).0 ≡ (planned && is_some b)
unfolding attempt_blacklist any ends_with string_eq
attempt_blacklist-done false host env message w b = refl
attempt_blacklist-done true host env message w none = refl
attempt_blacklist-done true host env message w (some b) = refl

-- The calls made since the log was `log`, and whether one of them was taken.
abbrev Tracks : Host → List PlatformCall → List PlatformCall → List String → World → Type 0
Tracks host log made details w =
    (w.calls ≡ log ++ made) × (any_done details ≡ takes_one host log made)

attempt-Tracks :
    (b : Bool) (host : Host) (label : String) (c : PlatformCall) (log made : List PlatformCall)
    (details : List String) (w : World)
    → ends_with "_failed" label ≡ false
    → ends_with "_failed" (concat label "_failed") ≡ true
    → Tracks host log made details w
    → Tracks host log
        (made ++ only b c)
        (details ++ (attempt b host label c w).0)
        (attempt b host label c w).1
attempt-Tracks b host label c log made details w p q (calls, done) = (
  attempt-calls b host label c w ∙ ap (λ l. l ++ only b c) calls ∙ append_assoc log made (only b c),
  any_done-concat details (attempt b host label c w).0
      ∙ ap₂ ◌||◌ done
          (attempt-done b host label c w p q ∙ ap (λ l. takes_one host l (only b c)) calls)
      ∙ sym (takes_one-concat host log made (only b c)),
)

module _ (host : Host) (env : Readings) (guard : MessageGuard) (plan : Plan)
    (message : IncomingMessage) (config : GuardConfig) (punishment : Option String) (w : World)
    (b : Option Blacklist) where
  abbrev recalled : List String × World
  recalled =
      attempt plan.recall host "recall" (recall_group_message message.group_id message.message_id) w

  abbrev muted : List String × World
  muted =
      attempt plan.mute host "mute"
        (mute_group_member message.group_id message.user_id plan.mute_duration_seconds) recalled.1

  abbrev kicked : List String × World
  kicked =
      attempt plan.kick host "remove" (remove_group_member message.group_id message.user_id) muted.1

  -- What comes before the blacklist: the details and the world.
  abbrev before : List String × World
  before = (recalled.0 ++ muted.0 ++ kicked.0, kicked.1)

  before-Tracks : Tracks host w.calls (calls_before plan message) before.0 before.1
  unfolding ends_with string_eq takes_one any
  before-Tracks =
      attempt-Tracks plan.kick host "remove" (remove_group_member message.group_id message.user_id)
        w.calls _ (recalled.0 ++ muted.0) muted.1 refl refl
        (attempt-Tracks plan.mute host "mute"
          (mute_group_member message.group_id message.user_id plan.mute_duration_seconds) w.calls _
          recalled.0 recalled.1 refl refl
          (attempt-Tracks plan.recall host "recall"
            (recall_group_message message.group_id message.message_id) w.calls [] [] w refl refl
            (sym (append-nil w.calls), refl)))

  abbrev listing : List String × World × Option Blacklist
  listing = attempt_blacklist plan.blacklist host env message before.1 b

  listing-calls :
      is_empty message.group_id ≡ false
      → listing.1.calls ≡ w.calls ++ calls_before plan message ++ calls_listing plan message b
  listing-calls named =
      attempt_blacklist-calls plan.blacklist host env message before.1 b named
      ∙ ap (λ l. l ++ calls_listing plan message b) before-Tracks.0

  abbrev warning : List String × World
  warning =
      attempt plan.warn host "warn" (warning_call guard.rich plan message config punishment)
        listing.1

  execute_plan-calls :
      is_empty message.group_id ≡ false
      → warning.1.calls
        ≡ w.calls
          ++ calls_before plan message
          ++ calls_listing plan message b
          ++ calls_after guard plan message config punishment
  execute_plan-calls named =
      attempt-calls plan.warn host "warn" _ listing.1
      ∙ ap (λ l. l ++ calls_after guard plan message config punishment) (listing-calls named)

  execute_plan-done :
      is_empty message.group_id ≡ false
      → any_done (before.0 ++ listing.0 ++ warning.0) ≡ (
          takes_one host w.calls (calls_before plan message)
          || (plan.blacklist && is_some b)
          || takes_one host
              (w.calls ++ calls_before plan message ++ calls_listing plan message b)
              (calls_after guard plan message config punishment))
  unfolding ends_with string_eq
  execute_plan-done named =
      any_done-concat (before.0 ++ listing.0) warning.0
      ∙ ap₂ ◌||◌
          (any_done-concat before.0 listing.0
            ∙ ap₂ ◌||◌ before-Tracks.1
                (attempt_blacklist-done plan.blacklist host env message before.1 b))
          (attempt-done plan.warn host "warn" _ listing.1 refl refl
            ∙ ap (λ l. takes_one host l (calls_after guard plan message config punishment))
                (listing-calls named))

-- For a group with an id and an action other than a review: a plan leads to the calls that it has, in
-- the order of recall, mute, removal, blacklist and warning, each made whatever the platform answered
-- to those before; it counts as executed exactly when the platform took one of them, where the call
-- of the blacklist counts as taken if there is a blacklist, since the entry stands there already. A
-- plan that asks for a review leads to no call and does not count as executed.
pub execute_lem :
    (host : Host) (env : Readings) (guard : MessageGuard) (plan : Plan) (message : IncomingMessage)
    (config : GuardConfig) (punishment : Option String) (w : World) (b : Option Blacklist)
    → is_empty message.group_id ≡ false
    → let (done, w', _) = execute host env guard plan message config punishment w b in
      let first = calls_before plan message in
      let listing = calls_listing plan message b in
      let last = calls_after guard plan message config punishment in
      (w'.calls ≡ w.calls ++ (if is_review plan.action then [] else first ++ listing ++ last))
      × (done.0 ≡ (
          not (is_review plan.action)
          && (takes_one host w.calls first
              || (plan.blacklist && is_some b)
              || takes_one host (w.calls ++ first ++ listing) last)))
unfolding execute execute_plan
execute_lem host env guard plan message config punishment w b named =
    elim (Bool-cases (is_review plan.action)) [
      | inl y ↦ rw y (sym (append-nil w.calls), refl)
      | inr n ↦ rw n (
        execute_plan-calls host env guard plan message config punishment w b named
            ∙ simp append_assoc,
        execute_plan-done host env guard plan message config punishment w b named,
      )
    ]
