-- ===== src/Codes/Words.antt =====
-- Codes are words: they hold no white space, so nothing is taken off them when they are read.
use qq_group_ops.Base.{
  ◌≡◌, refl, ◌∙◌, ap, ℕ, zero, suc, ◌<◌, String, Bool, true, false, not, ◌&&◌, arith, nat_eq,
}
use qq_group_ops.Base.Text.{concat, is_empty, is_space, trim, trim_start, trim_end, char_text}
use qq_group_ops.Codes.{random_code, alphabet_36}
use Prim.Native.Char.{code}
use Prim.Native.String.append

unfoldable pub is_word : String → Bool
is_word String.[] = true
is_word (String.◌∷◌ c s) = not (is_space (code c)) && is_word s

trim_start-word : (s : String) → is_word s ≡ true → ◌≡◌ {A = String} (trim_start s) s
unfolding trim_start is_word
trim_start-word String.[] h = refl
trim_start-word (String.◌∷◌ c s) h = ground (arith, h)

trim_end-word : (s : String) → is_word s ≡ true → ◌≡◌ {A = String} (trim_end s) s
unfolding trim_end is_word
trim_end-word String.[] h = refl
trim_end-word (String.◌∷◌ c s) h = ground (arith, h, trim_end-word s)

pub trim-word : (s : String) → is_word s ≡ true → ◌≡◌ {A = String} (trim s) s
unfolding trim
trim-word s h = ap trim_end (trim_start-word s h) ∙ trim_end-word s h

is_word-concat : (s t : String) → is_word s ≡ true → is_word t ≡ true → is_word (concat s t) ≡ true
unfolding is_word
is_word-concat String.[] t h g = ap is_word (append.nil t) ∙ g
is_word-concat (String.◌∷◌ c s) t h g =
    ap is_word (append.cons c s t) ∙ ground (arith, h, g, is_word-concat s t)

is_letter : String → Bool
is_letter s = not (is_empty s) && is_word s

all_below : ℕ → (ℕ → Bool) → Bool
all_below zero p = true
all_below (suc n) p = p n && all_below n p

all_below-lem : (n i : ℕ) (p : ℕ → Bool) → all_below n p ≡ true → i < n → p i ≡ true
unfolding all_below
all_below-lem zero i p h l = elim l [ ]
all_below-lem (suc n) i p h l = ground (arith, h, all_below-lem n i p)

alphabet-letters : all_below 36 (λ i. is_letter (char_text alphabet_36 i)) ≡ true
unfolding all_below is_letter char_text is_word is_space nat_eq
alphabet-letters = refl

concat-not_empty : (s t : String) → is_empty s ≡ false → is_empty (concat s t) ≡ false
concat-not_empty String.[] t h = cc
concat-not_empty (String.◌∷◌ c s) t h = ap is_empty (append.cons c s t)

-- A random code is a word, and is not empty if it has a length.
pub random_code-word :
    (n : ℕ) (draw : ℕ → ℕ) (at : ℕ)
    → ((i : ℕ) → draw i < 36)
    → (is_word (random_code n draw at) ≡ true) × (0 < n → is_empty (random_code n draw at) ≡ false)
unfolding random_code is_letter is_word
random_code-word zero draw at below = (refl, λ h. elim h [ ])
random_code-word (suc n) draw at below =
    let letter =
      all_below-lem 36 (draw at) (λ i. is_letter (char_text alphabet_36 i)) alphabet-letters
        (below at) in
    let (rest, _) = random_code-word n draw (suc at) below in
    let s = char_text alphabet_36 (draw at) in
    (
      is_word-concat s (random_code n draw (suc at)) (letter-word s letter) rest,
      λ h. concat-not_empty s (random_code n draw (suc at)) (letter-full s letter),
    )
  where
    letter-word : (s : String) → is_letter s ≡ true → is_word s ≡ true
    letter-word s h = ground (arith, h)

    letter-full : (s : String) → is_letter s ≡ true → is_empty s ≡ false
    letter-full s h = ground (arith, h)
