-- ===== src/JoinRules.antt =====
-- src/services/joinRules.ts: what the rules of a group decide about an answer. The class roster and
-- the alias table, which other services load, and regular expressions are arguments.
pub mod Text
pub mod Laws
use qq_group_ops.Base.{
  [], ℕ, String, Bool, true, false, not, ◌&&◌, ◌||◌, Option, none, some, List, ◌∷◌, ◌++◌, any,
  add_all, string_eq, if◌then◌else◌, is_some, length, ltb,
}
use qq_group_ops.Base.Text.{trim, is_empty, concat}
use qq_group_ops.Moderation.{Language}
use qq_group_ops.JoinRules.Text.{same_text, same_year, truncate, join_with}

-- `JoinDecisionMode`
pub data JoinDecisionMode : Type 0 where
  manual auto_approve approve_on_match reject_on_match reject_on_mismatch : JoinDecisionMode

-- `JoinAction`
pub data JoinAction : Type 0 where
  approve reject to_manual : JoinAction

-- `JoinRuleSettings`; a list that is left out is empty.
pub record JoinRuleSettings : Type 0 where
  pub mode : JoinDecisionMode
  pub require_class : Bool
  pub require_name : Bool
  pub answer_pattern : Option String
  pub allow_colleges : List String
  pub deny_colleges : List String
  pub allow_years : List String
  pub deny_years : List String
  pub opinion_enabled : Bool

pub record ClassInfo : Type 0 where
  pub major : Option String
  pub college : Option String
  pub year : Option String

pub record ClassMatch : Type 0 where
  pub class_name : String
  pub info : Option ClassInfo

-- `findClassIn` and `extractName` of the roster
pub record Roster : Type 0 where
  pub find_class_in : String → Option ClassMatch
  pub extract_name : String → Option String → Option String

-- `JoinRuleEvaluator`, with what an invalid pattern's error says
pub record JoinRuleEvaluator : Type 0 where
  pub roster : Option Roster
  pub expand : Option (String → String)
  pub language : Language
  pub regex_error : String → String

-- `JoinEvaluation`
pub record JoinEvaluation : Type 0 where
  pub matched : Bool
  pub class_match : Option ClassMatch
  pub name : Option String
  pub missing : List String
  pub config_issue : Option String
  pub action : JoinAction
  pub opinion : String

abbrev pub is_nonempty : List String → Bool
is_nonempty [] = false
is_nonempty (_ ∷ _) = true

abbrev text_of : Option String → String
text_of none = ""
text_of (some s) = s

abbrev pub pattern_text : Option String → String
pattern_text none = ""
pattern_text (some s) = trim s

abbrev info_of : Option ClassMatch → Option ClassInfo
info_of none = none
info_of (some m) = m.info

abbrev college_of : Option ClassInfo → Option String
college_of none = none
college_of (some i) = i.college

abbrev year_of : Option ClassInfo → Option String
year_of none = none
year_of (some i) = i.year

abbrev major_of : Option ClassInfo → Option String
major_of none = none
major_of (some i) = i.major

abbrev class_name_of : Option ClassMatch → Option String
class_name_of none = none
class_name_of (some m) = some m.class_name

-- Whether a list of the settings names the college or the year of the roster.
abbrev pub has_roster_rules : JoinRuleSettings → Bool
has_roster_rules s =
    is_nonempty s.allow_colleges
    || is_nonempty s.deny_colleges
    || is_nonempty s.allow_years
    || is_nonempty s.deny_years

abbrev pub has_requirements : JoinRuleSettings → Bool
has_requirements s =
    s.require_class
    || s.require_name
    || not (is_empty (pattern_text s.answer_pattern))
    || has_roster_rules s

-- `truthy` values of `name` and of the parts of a class: a text that is there and not empty.
abbrev pub is_given : Option String → Bool
is_given none = false
is_given (some s) = not (is_empty s)

abbrev pub unless : Bool → String → List String
unless true text = []
unless false text = text ∷ []

abbrev pub tested :
    JoinRuleEvaluator → String → String → Option (String → Bool) → List String × Option String
tested e pattern answer none =
    ("自定义规则（配置错误）" ∷ [], some (concat "自定义规则不是合法正则：" (e.regex_error pattern)))
tested e pattern answer (some test) =
    (unless (test answer) (concat "自定义规则 /" (concat pattern "/")), none)

-- The part of `evaluate` on the pattern: what is missing, and a problem of the pattern.
unfoldable pub check_pattern :
    JoinRuleEvaluator → String → Option String → List String × Option String
check_pattern e answer setting =
    let pattern = pattern_text setting in
    if is_empty pattern
    then ([], none)
    else tested e pattern answer (e.language.compile pattern true)

module _ (language : Language) where
  abbrev pub hits_college : String → List String → Bool
  hits_college college colleges =
      not (is_empty college) && any (λ v. same_text language v college) colleges

abbrev pub hits_year : String → List String → Bool
hits_year year years = not (is_empty year) && any (λ v. same_year v year) years

-- The four lists: what is missing.
unfoldable pub check_lists : Language → JoinRuleSettings → String → String → List String
check_lists language s college year =
    unless (not (is_nonempty s.deny_colleges && hits_college language college s.deny_colleges))
      (concat "学院黑名单（" (concat college "）"))
    ++ (unless
          (not
            (is_nonempty s.allow_colleges && not (hits_college language college s.allow_colleges)))
          (if is_empty college then "学院白名单（班级库未识别到学院）" else concat "学院白名单（不含 " (concat college "）"))
        ++ (unless (not (is_nonempty s.deny_years && hits_year year s.deny_years))
              (concat "年级黑名单（" (concat year "）"))
            ++ unless (not (is_nonempty s.allow_years && not (hits_year year s.allow_years))) (
                if is_empty year
                then "年级白名单（班级库未识别到年级）"
                else concat "年级白名单（不含 " (concat year "）"))))

abbrev pub is_manual : JoinDecisionMode → Bool
is_manual manual = true
is_manual _ = false

abbrev pub is_auto : JoinDecisionMode → Bool
is_auto auto_approve = true
is_auto _ = false

abbrev by_match : JoinDecisionMode → Bool → JoinAction
by_match manual matched = to_manual
by_match auto_approve matched = to_manual
by_match approve_on_match matched = if matched then approve else to_manual
by_match reject_on_match matched = if matched then reject else to_manual
by_match reject_on_mismatch matched = if matched then to_manual else reject

-- `decide`
unfoldable pub decide : JoinDecisionMode → Bool → Bool → Option String → JoinAction
decide mode matched required issue =
    if is_auto mode
    then approve
    else if is_manual mode
    then to_manual
    else if is_some issue || not required
    then to_manual
    else by_match mode matched

abbrev action_text : JoinAction → String
action_text approve = "通过"
action_text reject = "拒绝"
action_text to_manual = "人工核实"

abbrev or_empty : Option String → List String
or_empty none = []
or_empty (some s) = if is_empty s then [] else s ∷ []

abbrev year_detail : Option String → List String
year_detail none = []
year_detail (some y) = if is_empty y then [] else concat y " 级" ∷ []

-- What was recognised: the class with its major, college and year, and the name.
abbrev class_hits : Option ClassMatch → List String
class_hits none = []
class_hits (some m) =
    let detail = join_with " / " (
      or_empty (major_of m.info)
      ++ (or_empty (college_of m.info) ++ year_detail (year_of m.info))) in
    if is_empty m.class_name
    then []
    else concat (concat "班级 " m.class_name)
        (if is_empty detail then "" else concat "（" (concat detail "）"))
      ∷ []

abbrev name_hits : Option String → List String
name_hits none = []
name_hits (some n) = if is_empty n then [] else concat "姓名 " n ∷ []

abbrev requirement_line : Option String → List String → Bool → String
requirement_line (some issue) missing required =
    if is_empty issue
    then (if is_nonempty missing
        then concat "  缺少：" (join_with "、" missing)
        else if required
        then "  规则要求已全部满足"
        else "  未配置规则要求")
    else concat "  配置问题：" issue
requirement_line none missing required =
    if is_nonempty missing
    then concat "  缺少：" (join_with "、" missing)
    else if required
    then "  规则要求已全部满足"
    else "  未配置规则要求"

-- `buildOpinion`
unfoldable pub build_opinion :
    String
    → Bool
    → Option ClassMatch
    → Option String
    → List String
    → Option String
    → JoinAction
    → String
unfolding truncate join_with
build_opinion answer required found name missing issue action =
    let hits = class_hits found ++ name_hits name in
    join_with "\n" (
      "审核意见（按当前入群规则自动生成）："
      ∷ (if is_nonempty hits then concat "  识别到：" (join_with "、" hits) else "  识别到：（无）")
      ∷ requirement_line issue missing required
      ∷ concat "  建议：" (action_text action)
      ∷ concat "  原始回答：" (truncate answer 200)
      ∷ [])

abbrev find_class : Option Roster → String → Option ClassMatch
find_class none text = none
find_class (some roster) text = roster.find_class_in text

abbrev find_name : Option Roster → String → Option String → Option String
find_name none text class_name = none
find_name (some roster) text class_name = roster.extract_name text class_name

abbrev expanded : Option (String → String) → String → String
expanded none answer = answer
expanded (some expand) answer = expand answer

-- What the roster recognises in an answer.
abbrev pub class_in : JoinRuleEvaluator → String → Option ClassMatch
class_in e answer = find_class e.roster (expanded e.expand answer)

abbrev pub name_in : JoinRuleEvaluator → String → Option String
name_in e answer = find_name e.roster (expanded e.expand answer) (class_name_of (class_in e answer))

abbrev pub college_in : JoinRuleEvaluator → String → String
college_in e answer = text_of (college_of (info_of (class_in e answer)))

abbrev pub year_in : JoinRuleEvaluator → String → String
year_in e answer = text_of (year_of (info_of (class_in e answer)))

-- The texts of the lists that block the answer, whose presence is `hardBlocked`.
unfoldable pub blocking : JoinRuleEvaluator → JoinRuleSettings → String → List String
unfolding check_lists
blocking e s answer =
    if is_some e.roster && has_roster_rules s
    then check_lists e.language s (college_in e answer) (year_in e answer)
    else []

abbrev pub lacks_roster : JoinRuleEvaluator → JoinRuleSettings → Bool
lacks_roster e s = (s.require_class || has_roster_rules s) && not (is_some e.roster)

-- All that is missing: `[...new Set(...)]` when the roster is not loaded.
unfoldable pub missing_of : JoinRuleEvaluator → JoinRuleSettings → String → List String
unfolding check_pattern blocking
missing_of e s answer =
    let found =
      unless (not (s.require_class && not (is_some (class_in e answer)))) "班级"
      ++ (unless (not (s.require_name && not (is_given (name_in e answer)))) "姓名"
          ++ ((check_pattern e answer s.answer_pattern).0 ++ blocking e s answer)) in
    if lacks_roster e s
    then add_all
        (found
          ++ (unless (not s.require_class) "班级"
              ++ unless (not (has_roster_rules s)) "学院 / 年级（班级库未加载）"))
        []
    else found

abbrev pub issue_or : Bool → Option String → Option String
issue_or false issue = issue
issue_or true (some issue) = some issue
issue_or true none = some "未配置入群审核规则（joinRequireClass / joinRequireName / joinAnswerPattern 都未设置）"

unfoldable pub issue_of : JoinRuleEvaluator → JoinRuleSettings → String → Option String
unfolding check_pattern
issue_of e s answer =
    issue_or (not (has_requirements s) && (not (is_manual s.mode) && not (is_auto s.mode))) (
      if lacks_roster e s
      then some "班级库未加载（请先运行 pnpm class:index）"
      else (check_pattern e answer s.answer_pattern).1)

-- `evaluate`
unfoldable pub evaluate : JoinRuleEvaluator → String → JoinRuleSettings → JoinEvaluation
unfolding missing_of issue_of blocking decide build_opinion
evaluate e answer s =
    let missing = missing_of e s answer in
    let issue = issue_of e s answer in
    let matched = not (is_some issue) && not (is_nonempty missing) in
    let action =
      if is_nonempty (blocking e s answer) && not (is_manual s.mode)
      then reject
      else decide s.mode matched (has_requirements s) issue in
    record {
      matched = matched;
      class_match = class_in e answer;
      name = name_in e answer;
      missing = missing;
      config_issue = issue;
      action = action;
      opinion =
          if s.opinion_enabled
          then build_opinion answer (has_requirements s) (class_in e answer) (name_in e answer)
              missing issue action
          else "";
    }
