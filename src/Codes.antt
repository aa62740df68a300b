-- ===== src/Codes.antt =====
-- src/services/shortCodes.ts, the codes and their pool: a code is six random letters or digits, and
-- no two of the process are the same. The loops are over the attempts that are left.
pub mod Laws
pub mod Words
pub mod Service
use qq_group_ops.Base.{
  ℕ, zero, suc, ◌+◌, String, Bool, true, false, Option, none, some, List, contains, add, string_eq,
  if◌then◌else◌,
}
use qq_group_ops.Base.Text.{trim, is_empty, concat, char_text, starts_with}
use qq_group_ops.Base.Outcome.{Outcome, ok, thrown, ◌>>=◌}
use qq_group_ops.Core.Platform.{Host, World}

abbrev pub short_code_length : ℕ
short_code_length = 6

abbrev pub alphabet_36 : String
alphabet_36 = "0123456789ABCDEFGHIJKLMNOPQRSTUVWXYZ"

abbrev pub max_attempts : ℕ
max_attempts = 20

-- `randomCode`, from the draws of `randomInt` from an index on
unfoldable pub random_code : ℕ → (ℕ → ℕ) → ℕ → String
unfolding char_text
random_code zero draw at = ""
random_code (suc n) draw at = concat (char_text alphabet_36 (draw at)) (random_code n draw (suc at))

-- `seedGlobalCode`
unfoldable pub seed_global_code : Host → String → World → World
seed_global_code host code w =
    let normalized = host.to_lower_case (trim code) in
    record w { pool = if is_empty normalized then w.pool else add normalized w.pool }

-- `hasGlobalCode`
unfoldable pub has_global_code : Host → String → World → Bool
has_global_code host code w = contains (host.to_lower_case (trim code)) w.pool

-- The loop of `reserveGlobalCode`.
unfoldable pub reserve_loop : ℕ → Host → ℕ → World → Outcome String (String × World)
unfolding random_code
reserve_loop zero host length w = thrown "短码生成失败：连续碰撞，请检查随机源"
reserve_loop (suc attempts) host length w =
    let candidate = random_code length host.draw w.drawn in
    let key = host.to_lower_case candidate in
    let drawn = record w { drawn = w.drawn + length } in
    let rest = reserve_loop attempts host length drawn in
    if contains key w.pool then rest else ok (candidate, record drawn { pool = add key w.pool })

-- `reserveGlobalCode`, without a random source of the caller's
unfoldable pub reserve_global_code : Host → ℕ → World → Outcome String (String × World)
unfolding reserve_loop
reserve_global_code host length w = reserve_loop max_attempts host length w

-- `generateCode` of the punishments and of the appeals: a code that `taken` does not hold.
unfoldable pub generate_loop :
    ℕ → Host → String → (String → Bool) → World → Outcome String (String × World)
unfolding reserve_global_code
generate_loop zero host message taken w = thrown message
generate_loop (suc attempts) host message taken w = do
  (candidate, w') ← reserve_global_code host short_code_length w
  let rest = generate_loop attempts host message taken w'
  if taken candidate then rest else ok (candidate, w')

unfoldable pub generate_code :
    Host → String → (String → Bool) → World → Outcome String (String × World)
unfolding generate_loop
generate_code host message taken w = generate_loop max_attempts host message taken w

-- `replace(/^#/u, "")`
unfoldable pub without_prefix : String → String
without_prefix String.[] = String.[]
without_prefix (String.◌∷◌ c s) = if starts_with "#" (String.◌∷◌ c s) then s else String.◌∷◌ c s

-- `normalizeCode` and `normalizeAppealCode`
unfoldable pub normalize_code : Host → Option String → Option String
unfolding without_prefix
normalize_code host none = none
normalize_code host (some code) =
    let trimmed = trim (without_prefix (trim code)) in
    if is_empty trimmed then none else some (host.to_upper_case trimmed)
