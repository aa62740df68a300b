-- ===== src/Activities/Editing/Laws.antt =====
-- Theorems on `checkEligibility`, src/services/activityCore.ts.
use qq_group_ops.Base.{
  length, zero, suc, nat_eq, leb, ◌==◌, [], ℕ, ◌≡◌, refl, ◌∙◌, ap, sym, String, Bool, true, false,
  not, ◌&&◌, ◌||◌, List, ◌∷◌, any, contains, string_eq, arith, Bool-cases, inl, inr,
}
use qq_group_ops.Base.Text.{starts_with, includes, is_empty-eq, trim, is_empty}
use mathlib.Core.Path.{ap₂}
use Prim.Native.Char.{code}
use qq_group_ops.Base.Outcome.{Outcome, ok, thrown}
use qq_group_ops.Activities.{Activity}
use qq_group_ops.Activities.Editing.{
  RuleError, Profile, Eligibility, is_digits, first_two, matches_college, is_nil, check_eligibility,
}

-- A text is a part of another, or the other of it.
abbrev pub overlaps : String → String → Bool
overlaps value college = includes value college || includes college value

-- The numbers of the characters of a text.
abbrev pub codes : String → List ℕ
codes String.[] = []
codes (String.◌∷◌ c s) = code c ∷ codes s

abbrev pub all_digits : List ℕ → Bool
all_digits [] = true
all_digits (c ∷ cs) = (leb b'0' c && leb c b'9') && all_digits cs

-- The first characters of a text.
abbrev pub leading : ℕ → String → String
leading zero s = ""
leading (suc n) String.[] = ""
leading (suc n) (String.◌∷◌ c s) = String.◌∷◌ c (leading n s)

first_two-leading : (s : String) → first_two s ≡ leading 2 s
unfolding first_two
first_two-leading String.[] = refl
first_two-leading (String.◌∷◌ c String.[]) = refl
first_two-leading (String.◌∷◌ c (String.◌∷◌ d s)) = refl

-- Who may register: the student id without the white space around it has 11 digits, of which the first
-- two are the year; the year is not denied, and allowed where years are listed; a college that is given
-- overlaps none that is denied; and where colleges are listed, one is given and overlaps one of them.
abbrev pub may_register : Activity → Profile → Bool
may_register a profile =
    let id = codes (trim profile.student_id) in
    let year = leading 2 (trim profile.student_id) in
    let given = not (profile.college == "") in
    (length id == 11 && all_digits id)
    && (not (contains year a.deny_years)
        && (not (given && any (λ v. overlaps v profile.college) a.deny_colleges)
            && ((is_nil a.allow_years || contains year a.allow_years)
                && (is_nil a.allow_colleges
                    || (given && any (λ v. overlaps v profile.college) a.allow_colleges)))))

starts_with_refl : (s : String) → starts_with s s ≡ true
unfolding starts_with nat_eq
starts_with_refl String.[] = refl
starts_with_refl (String.◌∷◌ c s) = ground (arith, starts_with_refl s)

includes_refl : (s : String) → includes s s ≡ true
unfolding includes starts_with
includes_refl String.[] = refl
includes_refl (String.◌∷◌ c s) = rw (starts_with_refl (String.◌∷◌ c s)) refl

-- A text that is equal to a college overlaps it.
equal-overlaps :
    (value college : String)
    → (value == college || (includes value college || includes college value))
      ≡ overlaps value college
equal-overlaps value college = elim (Bool-cases (value == college)) [
  | inl y ↦
      let same : ◌≡◌ {A = String} value college = ground (arith, y) in
      rw y (
        sym (
          ap (λ t. includes t college || includes college t) same
          ∙ rw (includes_refl college) refl))
  | inr n ↦ rw n refl
]

matches_college-overlaps :
    (list : List String) (college : String)
    → matches_college list college ≡ any (λ v. overlaps v college) list
unfolding matches_college any
matches_college-overlaps [] college = refl
matches_college-overlaps (x ∷ xs) college =
    ap₂ ◌||◌ (equal-overlaps x college) (matches_college-overlaps xs college)

is_digits-codes :
    (n : ℕ) (s : String) → is_digits n s ≡ (length (codes s) == n && all_digits (codes s))
unfolding is_digits
is_digits-codes zero String.[] = ground arith
is_digits-codes zero (String.◌∷◌ c s) = ground arith
is_digits-codes (suc n) String.[] = ground arith
is_digits-codes (suc n) (String.◌∷◌ c s) = ground (arith, is_digits-codes n s)

abbrev pub is_ok : Outcome RuleError Eligibility → Bool
is_ok (ok _) = true
is_ok (thrown _) = false

matches_college-nil :
    (list : List String) (college : String)
    → is_nil list ≡ true
    → matches_college list college ≡ false
unfolding matches_college any
matches_college-nil [] college h = refl
matches_college-nil (x ∷ xs) college h = cc

may_check : Activity → Profile → Bool
may_check a profile =
    let year = first_two (trim profile.student_id) in
    is_digits 11 (trim profile.student_id)
    && (not (contains year a.deny_years)
        && (not (not (is_empty profile.college) && matches_college a.deny_colleges profile.college)
            && ((is_nil a.allow_years || contains year a.allow_years)
                && (is_nil a.allow_colleges
                    || (not (is_empty profile.college)
                        && matches_college a.allow_colleges profile.college)))))

check_eligibility-may_check :
    (a : Activity) (profile : Profile) → is_ok (check_eligibility a profile) ≡ may_check a profile
unfolding check_eligibility may_check
check_eligibility-may_check a profile = elim (Bool-cases (is_digits 11 (trim profile.student_id))) [
  | inl good ↦
      rw (good, check_eligibility)
        (ground (arith, matches_college-nil a.deny_colleges profile.college))
  | inr bad ↦ rw (bad, check_eligibility) refl
]

-- The check of eligibility passes exactly when the student id without the white space around it has
-- 11 digits; the year, its first two, is not denied, and is listed where years are allowed by a list; a
-- college that is given neither contains a denied one nor is contained in one; and, where colleges are
-- allowed by a list, a college is given that contains one of them or is contained in one.
pub check_eligibility_lem :
    (a : Activity) (profile : Profile)
    → is_ok (check_eligibility a profile) ≡ may_register a profile
unfolding may_check nat_eq
check_eligibility_lem a profile =
    check_eligibility-may_check a profile
    ∙ rw
        (
          may_check,
          first_two-leading (trim profile.student_id),
          is_digits-codes 11 (trim profile.student_id),
          matches_college-overlaps a.deny_colleges profile.college,
          matches_college-overlaps a.allow_colleges profile.college,
          is_empty-eq profile.college,
        )
        refl
