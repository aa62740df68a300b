-- ===== src/Callbacks.antt =====
-- src/services/callbackData.ts: the data of a button, `cb:<namespace>:<action>[:<arg>...]`.
pub mod RoundTrip
use qq_group_ops.Base.{
  [], ℕ, String, Bool, true, false, ◌||◌, Option, none, some, List, ◌∷◌, nat_eq, ◌==◌,
  if◌then◌else◌,
}
use qq_group_ops.Base.Text.{concat, is_empty, starts_with}
use qq_group_ops.JoinRules.Text.{join_with}
use Prim.Native.Char.{Char, code}

abbrev pub callback_prefix : String
callback_prefix = "cb:"

abbrev pub colon : ℕ
colon = 58

-- `encodeCallback`
unfoldable pub encode_callback : String → String → List String → String
unfolding join_with
encode_callback space action args = join_with ":" (concat callback_prefix space ∷ action ∷ args)

-- `ParsedCallback`
pub record ParsedCallback : Type 0 where
  pub space : String
  pub action : String
  pub args : List String

abbrev pub prepend : Char → List String → List String
prepend c [] = String.◌∷◌ c "" ∷ []
prepend c (s ∷ rest) = String.◌∷◌ c s ∷ rest

-- `text.split(":")`
unfoldable pub split : String → List String
split String.[] = "" ∷ []
split (String.◌∷◌ c s) = let rest = split s in if code c == colon then "" ∷ rest else prepend c rest

-- `slice(CALLBACK_PREFIX.length)`, of a text that starts with the prefix
abbrev pub after_prefix : String → String
after_prefix (String.◌∷◌ _ (String.◌∷◌ _ (String.◌∷◌ _ s))) = s
after_prefix s = ""

abbrev pub parsed : List String → Option ParsedCallback
parsed [] = none
parsed (space ∷ []) = none
parsed (space ∷ action ∷ args) =
    if is_empty space || is_empty action
    then none
    else some (record { space = space; action = action; args = args })

-- `parseCallback`
unfoldable pub parse_callback : Option String → Option ParsedCallback
unfolding split
parse_callback none = none
parse_callback (some text) =
    if starts_with callback_prefix text then parsed (split (after_prefix text)) else none
