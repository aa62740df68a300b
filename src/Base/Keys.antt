-- ===== src/Base/Keys.antt =====
-- Keys that join texts by NUL characters, as the maps of several services do.
use qq_group_ops.Base.{◌≡◌, refl, sym, ◌∙◌, ap, String, Bool, true, not, ◌&&◌, arith, nat_eq, ◌==◌}
use qq_group_ops.Base.Text.{concat}
use Prim.Native.Char.{Char, code, nul}
use Prim.Native.String.append

abbrev pub separator : String
separator = "\0"

-- A text without the separator of keys. The ids of the platform are such.
unfoldable pub is_plain : String → Bool
is_plain String.[] = true
is_plain (String.◌∷◌ c s) = not (code c == 0) && is_plain s

pub separator-cons : (x : String) → ◌≡◌ {A = String} (concat separator x) (String.◌∷◌ nul x)
separator-cons x = append.cons nul String.[] x ∙ ap (String.◌∷◌ nul) (append.nil x)

pub cons-injective :
    (c d : Char) (s t : String)
    → ◌≡◌ {A = String} (String.◌∷◌ c s) (String.◌∷◌ d t)
    → (c ≡ d) × (◌≡◌ {A = String} s t)
cons-injective c d s t e = (cc, cc)

-- The part of a joined text before the first separator determines where it is split.
pub split_at_nul :
    (s t x y : String)
    → is_plain s ≡ true
    → is_plain t ≡ true
    → ◌≡◌ {A = String} (concat s (String.◌∷◌ nul x)) (concat t (String.◌∷◌ nul y))
    → (◌≡◌ {A = String} s t) × (◌≡◌ {A = String} x y)
unfolding is_plain nat_eq
split_at_nul String.[] String.[] x y p q e =
    let e' = sym (append.nil (String.◌∷◌ nul x)) ∙ e ∙ append.nil (String.◌∷◌ nul y) in
    (refl, (cons-injective nul nul x y e').1)
split_at_nul String.[] (String.◌∷◌ c t) x y p q e =
    let e' = sym (append.nil (String.◌∷◌ nul x)) ∙ e ∙ append.cons c t (String.◌∷◌ nul y) in
    let h = (cons-injective nul c x (concat t (String.◌∷◌ nul y)) e').0 in
    absurd (ground (arith, ap code h))
split_at_nul (String.◌∷◌ c s) String.[] x y p q e =
    let e' = sym (append.cons c s (String.◌∷◌ nul x)) ∙ e ∙ append.nil (String.◌∷◌ nul y) in
    let h = (cons-injective c nul (concat s (String.◌∷◌ nul x)) y e').0 in
    absurd (ground (arith, ap code h))
split_at_nul (String.◌∷◌ c s) (String.◌∷◌ d t) x y p q e =
    let e' = sym (append.cons c s (String.◌∷◌ nul x)) ∙ e ∙ append.cons d t (String.◌∷◌ nul y) in
    let (h, rest) =
      cons-injective c d (concat s (String.◌∷◌ nul x)) (concat t (String.◌∷◌ nul y)) e' in
    ground (arith, split_at_nul s t x y)
