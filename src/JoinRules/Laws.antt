-- ===== src/JoinRules/Laws.antt =====
-- Theorems on `evaluate`: when an answer is approved, rejected or left to a reviewer.
use qq_group_ops.JoinRules.{
  pattern_text, tested, issue_of, missing_of, JoinRuleEvaluator, JoinRuleSettings, JoinDecisionMode,
  JoinAction, approve, reject, is_manual, is_auto, lacks_roster, issue_or, class_in, name_in,
  is_given, check_pattern, manual, auto_approve, approve_on_match, reject_on_match,
  reject_on_mismatch, evaluate, decide, blocking, check_lists, has_requirements, has_roster_rules,
  is_nonempty, hits_college, hits_year, college_in, year_in, unless,
}
use qq_group_ops.Base.{
  Option-cases, ◌==◌, [], ◌≡◌, refl, sym, ◌∙◌, String, Bool, true, false, not, ◌&&◌, ◌||◌, any,
  Option, none, some, List, ◌∷◌, ◌++◌, arith, if◌then◌else◌, Bool-cases, inl, inr, is_some,
  string_eq,
}
use qq_group_ops.JoinRules.Text.{same_text, same_year}
use qq_group_ops.Base.Text.{is_empty, trim, is_empty-eq}
use qq_group_ops.Moderation.{Language}

four_lines :
    (a b c d : Bool) (t u v w : String)
    → is_nonempty (unless (not a) t ++ (unless (not b) u ++ (unless (not c) v ++ unless (not d) w)))
      ≡ ((a || b) || (c || d))
four_lines true b c d t u v w = refl
four_lines false true c d t u v w = refl
four_lines false false true d t u v w = refl
four_lines false false false true t u v w = refl
four_lines false false false false t u v w = refl

no_lists :
    (r ac dc ay dy h i j k : Bool)
    → (r && (ac || dc || ay || dy)) ≡ false
    → (r && (((dc && h) || (ac && i)) || ((dy && j) || (ay && k)))) ≡ false
no_lists r ac dc ay dy h i j k e = ground arith

-- A list of the group rules out a college or a year: it is on a list of those denied, or not on the
-- list of those allowed.
abbrev pub rules_out : List String → List String → (List String → Bool) → Bool
rules_out denied allowed on_list =
    (is_nonempty denied && on_list denied) || (is_nonempty allowed && not (on_list allowed))

-- A text that is there is, by a comparison, one of a list.
abbrev pub is_on : (String → String → Bool) → String → List String → Bool
is_on same text list = not (text == "") && any (λ v. same v text) list

abbrev pub is_blocked : JoinRuleEvaluator → JoinRuleSettings → String → Bool
is_blocked e s answer =
    is_some e.roster
    && (rules_out s.deny_colleges s.allow_colleges
          (is_on (same_text e.language) (college_in e answer))
        || rules_out s.deny_years s.allow_years (is_on same_year (year_in e answer)))

check_lists-nonempty :
    (language : Language) (s : JoinRuleSettings) (college year : String)
    → is_nonempty (check_lists language s college year) ≡ (
        rules_out s.deny_colleges s.allow_colleges (is_on (same_text language) college)
        || rules_out s.deny_years s.allow_years (is_on same_year year))
unfolding check_lists
check_lists-nonempty language s college year =
    rw (← is_empty-eq college, ← is_empty-eq year)
      (four_lines (is_nonempty s.deny_colleges && hits_college language college s.deny_colleges)
        (is_nonempty s.allow_colleges && not (hits_college language college s.allow_colleges))
        (is_nonempty s.deny_years && hits_year year s.deny_years)
        (is_nonempty s.allow_years && not (hits_year year s.allow_years)) _ _ _ _)

blocking-nonempty :
    (e : JoinRuleEvaluator) (s : JoinRuleSettings) (answer : String)
    → is_nonempty (blocking e s answer) ≡ is_blocked e s answer
unfolding blocking
blocking-nonempty e s answer = elim (Bool-cases (is_some e.roster && has_roster_rules s)) [
  | inl y ↦ rw y (
      check_lists-nonempty e.language s (college_in e answer) (year_in e answer)
      ∙ ground (arith, y))
  | inr n ↦ rw n (
      sym (
        no_lists (is_some e.roster) (is_nonempty s.allow_colleges) (is_nonempty s.deny_colleges)
          (is_nonempty s.allow_years) (is_nonempty s.deny_years)
          (is_on (same_text e.language) (college_in e answer) s.deny_colleges)
          (not (is_on (same_text e.language) (college_in e answer) s.allow_colleges))
          (is_on same_year (year_in e answer) s.deny_years)
          (not (is_on same_year (year_in e answer) s.allow_years)) n))
]

abbrev pub is_approval : JoinAction → Bool
is_approval approve = true
is_approval _ = false

abbrev pub is_rejection : JoinAction → Bool
is_rejection reject = true
is_rejection _ = false

-- What a mode makes of an answer that no list rules out: approved, or rejected.
abbrev pub approves : JoinDecisionMode → (sound matched : Bool) → Bool
approves auto_approve sound matched = true
approves approve_on_match sound matched = sound && matched
approves _ sound matched = false

abbrev pub rejects : JoinDecisionMode → (sound matched : Bool) → Bool
rejects reject_on_match sound matched = sound && matched
rejects reject_on_mismatch sound matched = sound && not matched
rejects _ sound matched = false

actions :
    (mode : JoinDecisionMode) (blocked required matched : Bool) (issue : Option String)
    → let action =
        if blocked && not (is_manual mode) then reject else decide mode matched required issue in
      let sound = required && not (is_some issue) in
      (is_approval action ≡ (not blocked && approves mode sound matched))
      × (is_rejection action
          ≡ ((blocked && not (is_manual mode)) || (not blocked && rejects mode sound matched)))
unfolding decide
actions manual blocked required matched issue = ground arith
actions auto_approve blocked required matched issue = ground arith
actions approve_on_match blocked required matched none = ground arith
actions approve_on_match blocked required matched (some i) = ground arith
actions reject_on_match blocked required matched none = ground arith
actions reject_on_match blocked required matched (some i) = ground arith
actions reject_on_mismatch blocked required matched none = ground arith
actions reject_on_mismatch blocked required matched (some i) = ground arith

-- An answer that a list of the group rules out is rejected in every mode but the manual one, where it
-- goes to a reviewer, so automatic approval does not let it in. Any other is approved exactly when the
-- mode is automatic approval, or it is approval of matches, the group has rules without a problem,
-- and the answer matches; and rejected exactly when the mode rejects matches or mismatches, the rules
-- are there without a problem, and the answer matches, or does not. All else goes to a reviewer.
pub evaluate_lem :
    (e : JoinRuleEvaluator) (answer : String) (s : JoinRuleSettings)
    → let r = evaluate e answer s in
      let blocked = is_blocked e s answer in
      let sound = has_requirements s && not (is_some r.config_issue) in
      (is_approval r.action ≡ (not blocked && approves s.mode sound r.matched))
      × (is_rejection r.action ≡ (
          (blocked && not (is_manual s.mode)) || (not blocked && rejects s.mode sound r.matched)))
unfolding evaluate
evaluate_lem e answer s = rw (← blocking-nonempty e s answer) (
    actions s.mode (is_nonempty (blocking e s answer)) (has_requirements s)
      (not (is_some (issue_of e s answer)) && not (is_nonempty (missing_of e s answer)))
      (issue_of e s answer))

nonempty-append :
    (xs ys : List String) → is_nonempty (xs ++ ys) ≡ (is_nonempty xs || is_nonempty ys)
nonempty-append [] ys = refl
nonempty-append (x ∷ xs) ys = refl

nonempty-unless : (b : Bool) (t : String) → is_nonempty (unless b t) ≡ not b
nonempty-unless true t = refl
nonempty-unless false t = refl

issue_or-some : (b : Bool) (o : Option String) → is_some (issue_or b o) ≡ (b || is_some o)
issue_or-some true none = refl
issue_or-some true (some i) = refl
issue_or-some false o = refl

-- The pattern of the settings, without the white space around it.
abbrev pub pattern_of : Option String → String
pattern_of none = ""
pattern_of (some p) = trim p

pattern_of-text : (setting : Option String) → pattern_text setting ≡ pattern_of setting
pattern_of-text none = refl
pattern_of-text (some p) = refl

-- A pattern that compiles is found in the answer.
abbrev pub is_found : Option (String → Bool) → String → Bool
is_found none answer = false
is_found (some test) answer = test answer

abbrev pub asks_roster : JoinRuleSettings → Bool
asks_roster s =
    is_nonempty s.allow_colleges
    || is_nonempty s.deny_colleges
    || is_nonempty s.allow_years
    || is_nonempty s.deny_years

-- The settings can be applied: they ask for something, unless the mode needs no rules, and there is a
-- roster where they ask for a class or have lists of colleges or years.
abbrev pub is_applicable : JoinRuleEvaluator → JoinRuleSettings → Bool
is_applicable e s =
    let asks =
      s.require_class
      || s.require_name
      || not (pattern_of s.answer_pattern == "")
      || asks_roster s in
    (asks || (is_manual s.mode || is_auto s.mode))
    && (not (s.require_class || asks_roster s) || is_some e.roster)

-- What is asked for is in the answer: a class, a name, the pattern.
abbrev pub is_complete : JoinRuleEvaluator → JoinRuleSettings → String → Bool
is_complete e s answer =
    let pattern = pattern_of s.answer_pattern in
    (not s.require_class || is_some (class_in e answer))
    && ((not s.require_name || is_given (name_in e answer))
        && (pattern == "" || is_found (e.language.compile pattern true) answer))

pattern-found :
    (e : JoinRuleEvaluator) (answer : String) (setting : Option String)
    → let (missing, issue) = check_pattern e answer setting in
      let pattern = pattern_of setting in
      (not (is_some issue) && not (is_nonempty missing))
      ≡ (pattern == "" || is_found (e.language.compile pattern true) answer)
unfolding check_pattern
pattern-found e answer setting =
    rw (pattern_of-text setting, ← is_empty-eq (pattern_of setting)) (found (pattern_of setting))
  where
    found :
        (p : String)
        → let (missing, issue) : List String × Option String =
            if is_empty p then ([], none) else tested e p answer (e.language.compile p true) in
          (not (is_some issue) && not (is_nonempty missing))
          ≡ (is_empty p || is_found (e.language.compile p true) answer)
    found String.[] = refl
    found (String.◌∷◌ c p) = elim (Option-cases (e.language.compile (String.◌∷◌ c p) true)) [
      | inl bad ↦ rw bad refl
      | inr (test, good) ↦ rw good (ground (arith, nonempty-unless (test answer)))
    ]

missing-loaded :
    (e : JoinRuleEvaluator) (answer : String) (s : JoinRuleSettings)
    → lacks_roster e s ≡ false
    → is_nonempty (missing_of e s answer) ≡ (
        (s.require_class && not (is_some (class_in e answer)))
        || ((s.require_name && not (is_given (name_in e answer)))
            || (is_nonempty (check_pattern e answer s.answer_pattern).0 || is_blocked e s answer)))
unfolding missing_of
missing-loaded e answer s loaded =
    rw loaded (simp (nonempty-append, nonempty-unless, blocking-nonempty e s answer) (ground arith))

issue-lacks :
    (e : JoinRuleEvaluator) (answer : String) (s : JoinRuleSettings)
    → lacks_roster e s ≡ true
    → is_some (issue_of e s answer) ≡ true
unfolding issue_of
issue-lacks e answer s lacks = rw (lacks, issue_or-some) (ground arith)

issue-loaded :
    (e : JoinRuleEvaluator) (answer : String) (s : JoinRuleSettings)
    → lacks_roster e s ≡ false
    → is_some (issue_of e s answer) ≡ (
        (not (has_requirements s) && (not (is_manual s.mode) && not (is_auto s.mode)))
        || is_some (check_pattern e answer s.answer_pattern).1)
unfolding issue_of
issue-loaded e answer s loaded = rw loaded (issue_or-some _ _)

asks-requirements :
    (s : JoinRuleSettings)
    → has_requirements s ≡ (
        s.require_class
        || s.require_name
        || not (pattern_of s.answer_pattern == "")
        || asks_roster s)
asks-requirements s =
    rw (pattern_of-text s.answer_pattern, is_empty-eq (pattern_of s.answer_pattern)) refl

all_hold :
    (asks m a issue class class_in name name_in missing blocked found lists roster : Bool)
    → ((class || lists) && not roster) ≡ false
    → (not issue && not missing) ≡ found
    → (not ((not asks && (not m && not a)) || issue)
        && not ((class && not class_in) || ((name && not name_in) || (missing || blocked))))
      ≡ (((asks || (m || a)) && (not (class || lists) || roster))
          && (((not class || class_in) && ((not name || name_in) && found)) && not blocked))
all_hold asks m a issue class class_in name name_in missing blocked found lists roster e f =
    ground arith

-- An answer is said to match exactly if the settings can be applied, so they ask for something or the mode
-- needs no rules, and a roster is there where they need one; a class and a name are recognised in the
-- answer where they are asked for; the pattern, if there is one, compiles and is found in the answer; and
-- no list of the group rules the answer out.
pub evaluate-matched :
    (e : JoinRuleEvaluator) (answer : String) (s : JoinRuleSettings)
    → (evaluate e answer s).matched
      ≡ (is_applicable e s && (is_complete e s answer && not (is_blocked e s answer)))
unfolding evaluate
evaluate-matched e answer s = elim (Bool-cases (lacks_roster e s)) [
  | inl lacks ↦ ground (arith, lacks, issue-lacks e answer s lacks)
  | inr loaded ↦
      rw (issue-loaded e answer s loaded, missing-loaded e answer s loaded, asks-requirements s)
        (all_hold
          (s.require_class
            || s.require_name
            || not (pattern_of s.answer_pattern == "")
            || asks_roster s)
          (is_manual s.mode) (is_auto s.mode) (is_some (check_pattern e answer s.answer_pattern).1)
          s.require_class (is_some (class_in e answer)) s.require_name (is_given (name_in e answer))
          (is_nonempty (check_pattern e answer s.answer_pattern).0) (is_blocked e s answer) _
          (asks_roster s) (is_some e.roster) loaded (pattern-found e answer s.answer_pattern))
]
