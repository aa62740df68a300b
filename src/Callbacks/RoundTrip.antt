-- ===== src/Callbacks/RoundTrip.antt =====
-- What is encoded in a button is what is read back.
use qq_group_ops.Base.{
  [], ◌≡◌, refl, ◌∙◌, ap, String, Bool, true, false, not, ◌&&◌, ◌||◌, none, some, List, ◌∷◌, arith,
  nat_eq, ◌==◌, All,
}
use qq_group_ops.Base.Text.{concat, is_empty, starts_with}
use qq_group_ops.JoinRules.Text.{join_with}
use qq_group_ops.Callbacks.{encode_callback, parse_callback, split, parsed, colon, callback_prefix}
use Prim.Native.Char.{Char, code}
use Prim.Native.String.append
use text.Mathlib.TextLemmas.{append_assoc}

-- A part without the separator of parts.
unfoldable pub has_no_colon : String → Bool
has_no_colon String.[] = true
has_no_colon (String.◌∷◌ c s) = not (code c == colon) && has_no_colon s

split-part : (s t : String) → has_no_colon s ≡ true → split (concat s (concat ":" t)) ≡ s ∷ split t
unfolding split has_no_colon nat_eq
split-part String.[] t h =
    ap split
      (append.nil (concat ":" t) ∙ append.cons ":" String.[] t ∙ ap (String.◌∷◌ ":") (append.nil t))
split-part (String.◌∷◌ c s) t h =
    ap split (append.cons c s (concat ":" t)) ∙ ground (arith, h, split-part s t)

split-last : (s : String) → has_no_colon s ≡ true → split s ≡ s ∷ []
unfolding split has_no_colon nat_eq
split-last String.[] h = refl
split-last (String.◌∷◌ c s) h = ground (arith, h, split-last s)

split-join :
    (s : String) (rest : List String)
    → All (λ p. has_no_colon p ≡ true) (s ∷ rest)
    → split (join_with ":" (s ∷ rest)) ≡ s ∷ rest
unfolding join_with
split-join s [] (h, _) = split-last s h
split-join s (t ∷ rest) (h, hs) =
    split-part s (join_with ":" (t ∷ rest)) h ∙ ap (λ l. s ∷ l) (split-join t rest hs)

first :
    (c : Char) (s x : String)
    → ◌≡◌ {A = String} (concat (concat (String.◌∷◌ c String.[]) s) x) (String.◌∷◌ c (concat s x))
first c s x =
    append_assoc (String.◌∷◌ c String.[]) s x
    ∙ append.cons c String.[] (concat s x)
    ∙ ap (String.◌∷◌ c) (append.nil (concat s x))

prefixed :
    (x : String)
    → ◌≡◌ {A = String} (concat "cb:" x) (String.◌∷◌ "c" (String.◌∷◌ "b" (String.◌∷◌ ":" x)))
prefixed x =
    first "c" "b:" x
    ∙ ap (String.◌∷◌ "c") (
        first "b" ":" x
        ∙ ap (String.◌∷◌ "b") (append.cons ":" String.[] x ∙ ap (String.◌∷◌ ":") (append.nil x)))

encoded :
    (space action : String) (args : List String)
    → ◌≡◌ {A = String}
        (encode_callback space action args)
        (concat "cb:" (join_with ":" (space ∷ action ∷ args)))
unfolding encode_callback join_with
encoded space action args = append_assoc "cb:" space (concat ":" (join_with ":" (action ∷ args)))

-- A namespace, an action and arguments without colons, of which the first two are not empty, are
-- read back from the data of the button as they were. Data that lacks the prefix is no callback.
pub parse-encode :
    (space action : String) (args : List String)
    → All (λ p. has_no_colon p ≡ true) (space ∷ action ∷ args)
    → (is_empty space || is_empty action) ≡ false
    → (parse_callback (some (encode_callback space action args))
        ≡ some (record { space = space; action = action; args = args }))
      × ((text : String)
          → starts_with callback_prefix text ≡ false
          → parse_callback (some text) ≡ none)
unfolding parse_callback starts_with nat_eq
parse-encode space action args plain given = (
  ap (λ t. parse_callback (some t))
        (encoded space action args ∙ prefixed (join_with ":" (space ∷ action ∷ args)))
      ∙ ap parsed (split-join space (action ∷ args) plain)
      ∙ rw given refl,
  λ text h. rw h refl,
)
