-- ===== src/JoinRules/Text.antt =====
-- src/services/joinRules.ts and joinApproval.ts: how texts are compared, cut and put in one line.
use qq_group_ops.Base.{
  [], ℕ, ◌-◌, String, Bool, true, false, not, ◌&&◌, List, ◌∷◌, ltb, leb, string_eq, nat_eq, ◌==◌,
  if◌then◌else◌, length, map, filter,
}
use qq_group_ops.Base.Text.{trim, is_empty, concat, units}
use qq_group_ops.Moderation.{Language}
use Prim.Native.Char.{code}

-- `sameText`
unfoldable pub same_text : Language → String → String → Bool
same_text language left right =
    language.to_lower_case (trim left) == language.to_lower_case (trim right)

-- `replace(/\D/gu, "")`, as the numbers of the digits
unfoldable pub digit_codes : String → List ℕ
digit_codes String.[] = []
digit_codes (String.◌∷◌ c s) =
    let rest = digit_codes s in
    if leb b'0' (code c) && leb (code c) b'9' then code c ∷ rest else rest

-- `slice(-2)`
unfoldable pub last_two : List ℕ → List ℕ
last_two (x ∷ y ∷ z ∷ rest) = last_two (y ∷ z ∷ rest)
last_two xs = xs

unfoldable pub same_codes : List ℕ → List ℕ → Bool
same_codes [] [] = true
same_codes (x ∷ xs) (y ∷ ys) = x == y && same_codes xs ys
same_codes _ _ = false

-- `sameYear`
unfoldable pub same_year : String → String → Bool
unfolding digit_codes last_two same_codes
same_year left right =
    let a = digit_codes left in
    let b = digit_codes right in
    if leb 2 (length a) && leb 2 (length b)
    then same_codes (last_two a) (last_two b)
    else trim left == trim right

-- `slice(0, n)`, by UTF-16 units; of a character of two units that lies across the end, of which
-- the source keeps a half, nothing is kept.
unfoldable pub slice_units : ℕ → String → String
slice_units n String.[] = String.[]
slice_units n (String.◌∷◌ c s) =
    let size = if ltb (code c) 0x10000 then 1 else 2 in
    let rest = slice_units (n - size) s in if leb size n then String.◌∷◌ c rest else String.[]

-- `text.length > max` decides whether a text is cut.
unfoldable pub cut : String → ℕ → String
unfolding slice_units units
cut text max = if leb (length (units text)) max then text else concat (slice_units max text) "…"

-- `truncate`
unfoldable pub truncate : String → ℕ → String
unfolding cut
truncate text max = cut (trim text) max

-- `array.join(separator)`
unfoldable pub join_with : String → List String → String
join_with separator [] = ""
join_with separator (s ∷ []) = s
join_with separator (s ∷ t ∷ rest) = concat s (concat separator (join_with separator (t ∷ rest)))

-- `text.split("\n")`, with the first line so far before the others
unfoldable pub lines_from : String → String → List String
lines_from line String.[] = line ∷ []
lines_from line (String.◌∷◌ c s) =
    if code c == 10
    then line ∷ lines_from "" s
    else lines_from (concat line (String.◌∷◌ c String.[])) s

-- `buildRejectReason`
unfoldable pub build_reject_reason : String → String
unfolding lines_from join_with cut
build_reject_reason opinion =
    cut (join_with "；" (filter (λ l. not (is_empty l)) (map trim (lines_from "" opinion)))) 120
