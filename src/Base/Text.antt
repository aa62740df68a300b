-- ===== src/Base/Text.antt =====
-- What JavaScript's strings offer and the components use: `trim`, the order of `sort`.
use qq_group_ops.Base.{
  ℤ, suc, ◌≢◌, [], ℕ, pos, negsuc, zero, ◌+◌, ◌-◌, ◌/◌, ◌%◌, String, Bool, true, false, ◌&&◌, ◌||◌,
  List, ◌∷◌, ltb, leb, ◌==◌, nat_eq, string_eq, if◌then◌else◌, ◌≡◌, refl, arith,
}
use Prim.Native.Char.{code}
use Prim.Native.String.{◌++◌}

-- The white space and line ends that `String.prototype.trim` takes off.
unfoldable pub is_space : ℕ → Bool
is_space c =
    (leb 9 c && leb c 13)
    || c == 32
    || c == 160
    || c == 0x1680
    || (leb 0x2000 c && leb c 0x200a)
    || c == 0x2028
    || c == 0x2029
    || c == 0x202f
    || c == 0x205f
    || c == 0x3000
    || c == 0xfeff

unfoldable pub trim_start : String → String
trim_start String.[] = String.[]
trim_start (String.◌∷◌ c s) =
    let rest = trim_start s in if is_space (code c) then rest else String.◌∷◌ c s

abbrev pub is_empty : String → Bool
is_empty String.[] = true
is_empty (String.◌∷◌ _ _) = false

unfoldable pub trim_end : String → String
trim_end String.[] = String.[]
trim_end (String.◌∷◌ c s) =
    let rest = trim_end s in
    if is_empty rest && is_space (code c) then String.[] else String.◌∷◌ c rest

-- `s.trim()`
unfoldable pub trim : String → String
unfolding trim_start trim_end is_space
trim s = trim_end (trim_start s)

-- The UTF-16 code units of a text, by which `sort` compares.
unfoldable pub units : String → List ℕ
units String.[] = []
units (String.◌∷◌ c s) =
    if ltb (code c) 0x10000
    then code c ∷ units s
    else (0xd800 + (code c - 0x10000) / 0x400) ∷ (0xdc00 + (code c - 0x10000) % 0x400) ∷ units s

unfoldable pub units_le : List ℕ → List ℕ → Bool
units_le [] ys = true
units_le (x ∷ xs) [] = false
units_le (x ∷ xs) (y ∷ ys) = ltb x y || (x == y && units_le xs ys)

unfoldable pub text_le : String → String → Bool
unfolding units units_le
text_le s t = units_le (units s) (units t)

pub ne-nil_of_not_empty : (s : String) → is_empty s ≡ false → ◌≢◌ {A = String} s ""
ne-nil_of_not_empty String.[] h = absurd (ground arith)
ne-nil_of_not_empty (String.◌∷◌ c s) h = cc

units_le_total : (xs ys : List ℕ) → units_le xs ys ≡ false → units_le ys xs ≡ true
unfolding units_le nat_eq
units_le_total [] ys h = cc
units_le_total (x ∷ xs) [] h = refl
units_le_total (x ∷ xs) (y ∷ ys) h = ground (arith, units_le_total xs ys)

-- The order of `sort` is total.
pub text_le_total : (s t : String) → text_le s t ≡ false → text_le t s ≡ true
unfolding text_le
text_le_total s t h = units_le_total (units s) (units t) h

pub is_empty-eq : (s : String) → is_empty s ≡ (s == "")
is_empty-eq String.[] = ground arith
is_empty-eq (String.◌∷◌ c s) = ground (arith, ne-nil_of_not_empty (String.◌∷◌ c s) refl)

-- `s + t`
abbrev pub concat : String → String → String
concat s t = s ++ t

-- `s.startsWith(p)`
unfoldable pub starts_with : String → String → Bool
starts_with String.[] s = true
starts_with (String.◌∷◌ c p) String.[] = false
starts_with (String.◌∷◌ c p) (String.◌∷◌ d s) = code c == code d && starts_with p s

-- `s.includes(p)`
unfoldable pub includes : String → String → Bool
includes p String.[] = starts_with p String.[]
includes p (String.◌∷◌ d s) = starts_with p (String.◌∷◌ d s) || includes p s

-- The character of a text at an index; `undefined` in a text, where there is none.
unfoldable pub char_text : String → ℕ → String
char_text String.[] i = "undefined"
char_text (String.◌∷◌ c s) zero = String.◌∷◌ c String.[]
char_text (String.◌∷◌ c s) (suc i) = char_text s i

-- The digits of a number, with at most `fuel` of them, before a text.
unfoldable pub digits_before : ℕ → ℕ → String → String
unfolding char_text
digits_before zero n s = s
digits_before (suc fuel) n s =
    let here = concat (char_text "0123456789" (n % 10)) s in
    let more = digits_before fuel (n / 10) here in if ltb n 10 then here else more

-- `${n}`: a number has at most as many digits as it counts, and one.
unfoldable pub decimal : ℕ → String
unfolding digits_before
decimal n = digits_before (suc n) n ""

-- `${n}` of a whole number
unfoldable pub signed_decimal : ℤ → String
unfolding decimal
signed_decimal (pos n) = decimal n
signed_decimal (negsuc n) = concat "-" (decimal (suc n))

-- `text.endsWith(suffix)`
unfoldable pub ends_with : String → String → Bool
ends_with suffix String.[] = is_empty suffix
ends_with suffix (String.◌∷◌ c s) = String.◌∷◌ c s == suffix || ends_with suffix s
