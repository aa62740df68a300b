-- ===== src/Tests/Coding.antt =====
-- The theorems on codes and on the data of buttons at concrete values.
use qq_group_ops.Base.{
  add, [], ◌≡◌, refl, String, true, false, none, some, ◌∷◌, arith, contains, string_eq, nat_eq,
}
use qq_group_ops.Base.Dict.{lookup, insert}
use qq_group_ops.Base.Text.{char_text, starts_with, trim, trim_start, trim_end, is_space}
use qq_group_ops.Base.Outcome.{ok}
use qq_group_ops.Core.Platform.{World}
use qq_group_ops.Codes.{reserve_global_code, reserve_loop, random_code, seed_global_code}
use qq_group_ops.Codes.Laws.{IsReserved, reserve_global_code_lem}
use qq_group_ops.Codes.Service.{
  ShortCodes, user, code_for, new_code, register, resolve, label_of, existing_code,
}
use qq_group_ops.Codes.Service.Resolving.{resolve-code_for}
use qq_group_ops.Codes.Service.Consistent.{IsConsistent}
use qq_group_ops.Callbacks.{encode_callback, parse_callback, callback_prefix}
use qq_group_ops.Callbacks.RoundTrip.{parse-encode, has_no_colon}
use qq_group_ops.Tests.Outside.{host, host-draws, world}

reserve_global_code_lem_example :
    (code : String) × (w' : World) × (reserve_global_code host 6 world ≡ ok (code, w'))
    × IsReserved host code world w'
unfolding contains
reserve_global_code_lem_example = reserve_global_code_lem host 6 0 world (omega arith) refl

abbrev codes : ShortCodes
codes = record { by_code = []; code_by_target = []; length = 6; persistent = true; queue = [] }

codes-IsConsistent : IsConsistent host world codes
unfolding existing_code lookup
codes-IsConsistent = record {
  leads = λ kind target code e. absurd (ground arith);
  words = λ kind target code e. absurd (ground arith);
  pooled = λ k e f. absurd (ground arith);
}

abbrev after_code : World
after_code = record world { pool = "012345" ∷ []; drawn = 6 }

abbrev codes_after : ShortCodes
codes_after =
    (register host (record { code = "012345"; kind = user; target_id = "ann"; created_at = 5 })
      after_code codes).1

ann_code :
    code_for host user "ann" 5 world codes
    ≡ ok (
      "012345",
      after_code,
      record codes_after {
        queue = (record { code = "012345"; kind = user; target_id = "ann"; created_at = 5 }) ∷ [];
      },
    )
unfolding add code_for new_code register reserve_global_code reserve_loop random_code char_text
    contains seed_global_code lookup insert string_eq trim trim_start trim_end is_space nat_eq
ann_code = refl

resolve-code_for_example :
    (resolve host (label_of "012345") (record codes_after {
      queue = (record { code = "012345"; kind = user; target_id = "ann"; created_at = 5 }) ∷ [];
    })
      ≡ some ("012345", user, "ann"))
    × (code_for host user "ann" 9 after_code (record codes_after {
      queue = (record { code = "012345"; kind = user; target_id = "ann"; created_at = 5 }) ∷ [];
    })
        ≡ ok (
          "012345",
          after_code,
          record codes_after {
            queue =
                (record { code = "012345"; kind = user; target_id = "ann"; created_at = 5 }) ∷ [];
          },
        ))
    × IsConsistent host after_code (record codes_after {
      queue = (record { code = "012345"; kind = user; target_id = "ann"; created_at = 5 }) ∷ [];
    })
resolve-code_for_example =
    resolve-code_for host host-draws user "ann" 5 9 world after_code codes
      (record codes_after {
        queue = (record { code = "012345"; kind = user; target_id = "ann"; created_at = 5 }) ∷ [];
      })
      "012345" (omega arith) codes-IsConsistent ann_code

parse-encode_example :
    (parse_callback (some (encode_callback "pending" "page" ("G1" ∷ "2" ∷ [])))
      ≡ some (record { space = "pending"; action = "page"; args = "G1" ∷ "2" ∷ [] }))
    × ((text : String)
        → starts_with callback_prefix text ≡ false
        → parse_callback (some text) ≡ none)
unfolding has_no_colon nat_eq
parse-encode_example =
    parse-encode "pending" "page" ("G1" ∷ "2" ∷ []) (refl, (refl, (refl, (refl, tt)))) refl
