-- ===== src/Limits/PassiveReply.antt =====
-- src/adapters/passiveReplyQuota.ts: how often one message may be answered, and for how long.
-- Each reading of the clock is an argument: a call may read it twice.
pub mod Laws
use qq_group_ops.Base.{
  [], ℕ, ◌+◌, ◌-◌, String, Bool, true, false, Option, none, some, ◌∷◌, leb, ltb, length, string_eq,
  if◌then◌else◌,
}
use qq_group_ops.Base.Dict.{Dict, lookup, insert}

pub data DenyReason : Type 0 where
  count expired : DenyReason

-- `PassiveReplyDecision`
pub record Decision : Type 0 where
  pub allowed : Bool
  pub reason : Option DenyReason
  pub used : ℕ
  pub remaining : ℕ

pub record Entry : Type 0 where
  pub replies : ℕ
  pub first_at : ℕ

pub record Quota : Type 0 where
  pub entries : Dict String Entry
  pub max_replies : ℕ
  pub window_ms : ℕ
  pub cache_size : ℕ

-- `isExpired`: `clock() - firstAt >= windowMs`
abbrev pub is_expired : Quota → ℕ → Entry → Bool
is_expired q now e = leb (e.first_at + q.window_ms) now

decide : Quota → ℕ → ℕ → Option Entry → Decision
decide q now later none = record {
  allowed = true;
  reason = none;
  used = 0;
  remaining = q.max_replies;
}
decide q now later (some e) =
    let used = if is_expired q now e then q.max_replies else e.replies in
    if leb q.max_replies used
    then record {
      allowed = false;
      reason = some (if is_expired q later e then expired else count);
      used = used;
      remaining = 0;
    }
    else record { allowed = true; reason = none; used = used; remaining = q.max_replies - used }

-- `check`
unfoldable pub check : Quota → ℕ → ℕ → String → Decision
unfolding decide
check q now later message = decide q now later (lookup message q.entries)

-- `evictIfNeeded`: the oldest key goes while there are too many. It is the first of the map.
unfoldable pub evict : ℕ → Dict String Entry → Dict String Entry
evict size [] = []
evict size (entry ∷ rest) =
    let fewer = evict size rest in if ltb size (length (entry ∷ rest)) then fewer else entry ∷ rest

next_entry : Quota → ℕ → ℕ → Option Entry → Entry
next_entry q now later none = record { replies = 1; first_at = now }
next_entry q now later (some e) =
    if is_expired q later e
    then record { replies = 1; first_at = now }
    else record e { replies = e.replies + 1 }

-- `record`
unfoldable pub record_reply : ℕ → ℕ → String → Quota → Quota
unfolding next_entry evict
record_reply now later message q =
    let entry = next_entry q now later (lookup message q.entries) in
    record q { entries = evict q.cache_size (insert message entry q.entries) }
