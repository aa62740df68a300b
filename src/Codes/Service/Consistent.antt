-- ===== src/Codes/Service/Consistent.antt =====
-- The service of codes is consistent: its codes lead back to their ids.
use qq_group_ops.Base.{
  ◌≡◌, refl, sym, ◌∙◌, ap, ℕ, ◌<◌, String, true, false, some, arith, string_eq, nat_eq, ◌==◌,
  if◌then◌else◌, Bool-cases, inl, inr, contains,
}
use mathlib.Core.Option.{some-injective}
use qq_group_ops.Base.Dict.{lookup}
use qq_group_ops.Base.Keys.{is_plain, split_at_nul, separator-cons}
use qq_group_ops.Base.Text.{trim, is_empty, concat, starts_with, is_space}
use qq_group_ops.Base.Outcome.{ok}
use qq_group_ops.Core.Platform.{Host, World}
use qq_group_ops.Codes.{reserve_global_code, max_attempts}
use qq_group_ops.Codes.Laws.{IsReserved, reserve_global_code-IsReserved, reserve_loop-random}
use qq_group_ops.Codes.Words.{is_word, trim-word, random_code-word}
use qq_group_ops.Codes.Service.{
  ShortCodeKind, user, group, join_request, kind_text, ShortCodeEntry, ShortCodes, target_key_of,
  existing_code, label_of, resolve,
}
use Prim.Native.Char.{code}
use Prim.Native.String.append

first_code : String → ℕ
first_code String.[] = 0
first_code (String.◌∷◌ c s) = code c

kind-injective : (k k' : ShortCodeKind) → ◌≡◌ {A = String} (kind_text k) (kind_text k') → k ≡ k'
unfolding first_code
kind-injective user user e = refl
kind-injective user group e =
    let t : ◌≡◌ {A = ℕ} 117 103 = ap first_code e in absurd (omega (arith, t))
kind-injective user join_request e =
    let t : ◌≡◌ {A = ℕ} 117 106 = ap first_code e in absurd (omega (arith, t))
kind-injective group user e =
    let t : ◌≡◌ {A = ℕ} 103 117 = ap first_code e in absurd (omega (arith, t))
kind-injective group group e = refl
kind-injective group join_request e =
    let t : ◌≡◌ {A = ℕ} 103 106 = ap first_code e in absurd (omega (arith, t))
kind-injective join_request user e =
    let t : ◌≡◌ {A = ℕ} 106 117 = ap first_code e in absurd (omega (arith, t))
kind-injective join_request group e =
    let t : ◌≡◌ {A = ℕ} 106 103 = ap first_code e in absurd (omega (arith, t))
kind-injective join_request join_request e = refl

kind-plain : (k : ShortCodeKind) → is_plain (kind_text k) ≡ true
unfolding is_plain nat_eq
kind-plain user = refl
kind-plain group = refl
kind-plain join_request = refl

target_key-injective :
    (k k' : ShortCodeKind) (t t' : String)
    → target_key_of k t ≡ target_key_of k' t'
    → (k ≡ k') × (◌≡◌ {A = String} t t')
unfolding target_key_of
target_key-injective k k' t t' e =
    let (p, q) = split_at_nul (kind_text k) (kind_text k') t t' (kind-plain k) (kind-plain k') (
      ap (concat (kind_text k)) (sym (separator-cons t))
      ∙ e
      ∙ ap (concat (kind_text k')) (separator-cons t')) in
    (kind-injective k k' p, q)

-- Every code that is given to an id leads back to it, is a word and is in the pool.
pub record IsConsistent (host : Host) (w : World) (s : ShortCodes) : Type 0 where
  pub leads :
      (kind : ShortCodeKind) (target code : String)
      → existing_code kind target s ≡ some code
      → (e : ShortCodeEntry) × (lookup (host.to_lower_case code) s.by_code ≡ some e)
        × (◌≡◌ {A = String} e.code code)
        × (e.kind ≡ kind)
        × (◌≡◌ {A = String} e.target_id target)
  pub words :
      (kind : ShortCodeKind) (target code : String)
      → existing_code kind target s ≡ some code
      → (is_word code ≡ true) × (is_empty code ≡ false)
  pub pooled :
      (k : String) (e : ShortCodeEntry) → lookup k s.by_code ≡ some e → contains k w.pool ≡ true

hash-cons : (s : String) → ◌≡◌ {A = String} (concat "#" s) (String.◌∷◌ "#" s)
hash-cons s = append.cons "#" String.[] s ∙ ap (String.◌∷◌ "#") (append.nil s)

label-word : (c : String) → is_word c ≡ true → is_word (String.◌∷◌ "#" c) ≡ true
unfolding is_word is_space nat_eq
label-word c h = h

pub resolve-existing :
    (host : Host) (w : World) (s : ShortCodes) (kind : ShortCodeKind) (target c : String)
    → IsConsistent host w s
    → existing_code kind target s ≡ some c
    → resolve host (label_of c) s ≡ some (c, kind, target)
unfolding resolve starts_with nat_eq
resolve-existing host w s kind target c v e =
    let (word, full) = v.words kind target c e in
    let (x, found, its_code, its_kind, its_target) = v.leads kind target c e in
    let shown = ap trim (hash-cons c) ∙ trim-word (String.◌∷◌ "#" c) (label-word c word) in
    rw (shown, trim-word c word, full, found, its_code, its_kind, its_target) refl

-- The state after an id gets its code.
module _ (host : Host) (below : (i : ℕ) → host.draw i < 36) (w w1 : World) (s s' : ShortCodes)
    (kind : ShortCodeKind) (target c : String) (e : ShortCodeEntry) (v : IsConsistent host w s)
    (given : reserve_global_code host s.length w ≡ ok (c, w1))
    (its_code : ◌≡◌ {A = String} e.code c) (its_kind : e.kind ≡ kind)
    (its_target : ◌≡◌ {A = String} e.target_id target)
    (codes : (k : String)
      → lookup k s'.by_code ≡ (if k == host.to_lower_case c then some e else lookup k s.by_code))
    (targets : (k : String)
      → lookup k s'.code_by_target
        ≡ (if k == target_key_of kind target then some c else lookup k s.code_by_target)) where
  reserved : IsReserved host c w w1
  reserved = reserve_global_code-IsReserved host s.length w w1 c given

  pub new-leads :
      (kind' : ShortCodeKind) (target' c' : String)
      → existing_code kind' target' s' ≡ some c'
      → (x : ShortCodeEntry) × (lookup (host.to_lower_case c') s'.by_code ≡ some x)
        × (◌≡◌ {A = String} x.code c')
        × (x.kind ≡ kind')
        × (◌≡◌ {A = String} x.target_id target')
  unfolding existing_code
  new-leads kind' target' c' f =
      elim (Bool-cases (target_key_of kind' target' == target_key_of kind target)) [
        | inl mine ↦
            let same_key : target_key_of kind' target' ≡ target_key_of kind target =
              ground (arith, mine) in
            let (p, q) = target_key-injective kind' kind target' target same_key in
            let same_c =
              some-injective c c' (sym (rw mine at (targets (target_key_of kind' target'))) ∙ f) in
            (
              e,
              ground (arith, codes (host.to_lower_case c'), same_c),
              its_code ∙ same_c,
              its_kind ∙ sym p,
              its_target ∙ sym q,
            )
        | inr other ↦
            let old = sym (rw other at (targets (target_key_of kind' target'))) ∙ f in
            let (x, found, a, b, d) = v.leads kind' target' c' old in
            let used = v.pooled (host.to_lower_case c') x found in
            (
              x,
              ground (arith, codes (host.to_lower_case c'), used, reserved.was_free, found),
              a,
              b,
              d,
            )
      ]

  pub new-words :
      0 < s.length
      → (kind' : ShortCodeKind) (target' c' : String) → existing_code kind' target' s' ≡ some c'
      → (is_word c' ≡ true) × (is_empty c' ≡ false)
  unfolding existing_code reserve_global_code
  new-words long kind' target' c' f =
      elim (Bool-cases (target_key_of kind' target' == target_key_of kind target)) [
        | inl mine ↦
            let same_c =
              some-injective c c' (sym (rw mine at (targets (target_key_of kind' target'))) ∙ f) in
            let (at, drawn) = reserve_loop-random host max_attempts s.length w w1 c given in
            let (word, full) = random_code-word s.length host.draw at below in
            (
              ap is_word (sym same_c ∙ sym drawn) ∙ word,
              ap is_empty (sym same_c ∙ sym drawn) ∙ full long,
            )
        | inr other ↦
            v.words kind' target' c' (sym (rw other at (targets (target_key_of kind' target'))) ∙ f)
      ]

  pub new-pooled :
      (w' : World)
      → ((k : String) → contains k w1.pool ≡ true → contains k w'.pool ≡ true)
      → (k : String) (x : ShortCodeEntry) → lookup k s'.by_code ≡ some x
      → contains k w'.pool ≡ true
  new-pooled w' grows k x f = elim (Bool-cases (k == host.to_lower_case c)) [
    | inl mine ↦ ground (arith, mine, grows k, reserved.is_taken)
    | inr other ↦ grows k (reserved.keeps k (v.pooled k x (sym (rw other at (codes k)) ∙ f)))
  ]
