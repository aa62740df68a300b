-- ===== src/Core/Platform.antt =====
-- The official interface of the platform (adapters/qqOfficial.ts), as the moderation services call
-- it, and what else those services share: the calls made so far and the audit log.
use qq_group_ops.Base.{ℕ, ℤ, String, Bool, Option, none, some, List, [], ◌∷◌, ◌++◌}
use qq_group_ops.Audit
use qq_group_ops.Audit.{AuditLog, AuditRecord, executed}

-- A button of a card, which only the user may press.
pub record Button : Type 0 where
  pub label : String
  pub callback_data : String
  pub user_id : String

-- What a card says, before it is laid out.
pub record Card : Type 0 where
  pub title : String
  pub lines : List String
  pub buttons : List Button
  pub footer : List String

-- The calls of `QQOfficialAPI`, and that of the sender of cards to a group.
pub data PlatformCall : Type 0 where
  remove_group_member : (group user : String) → PlatformCall
  mute_group_member : (group user : String) → (seconds : ℤ) → PlatformCall
  update_member_blacklist : (group user : String) → (add : Bool) → PlatformCall
  recall_group_message : (group message_id : String) → PlatformCall
  send_group_message : (group content message_id : String) → PlatformCall
  reply_to_group : (group : String) → Card → (message_id : String) → PlatformCall
  approve_join_request :
      (group user : String)
      → (approve : Bool) → (join_request_id : String) → (reason : Option String) → PlatformCall

-- What is not the program's: the answer of the platform to a call after others, an error's message
-- or none; what `randomInt(36)` gives when it is called for the n-th time; and the maps of case.
pub record Host : Type 0 where
  pub answer : List PlatformCall → PlatformCall → Option String
  pub draw : ℕ → ℕ
  pub to_lower_case : String → String
  pub to_upper_case : String → String

-- What the services share: the calls made, the audit log, the codes in use (`globalCodePool`) and how
-- many random numbers were drawn.
pub record World : Type 0 where
  pub calls : List PlatformCall
  pub audit_log : Option AuditLog
  pub pool : List String
  pub drawn : ℕ

-- What the clock and `randomUUID` give while an operation runs.
pub record Readings : Type 0 where
  pub now : ℕ
  pub logged_at : ℕ
  pub record_id : String

-- `await api.<method>(...)`: the error that is thrown, if any.
unfoldable pub call : Host → PlatformCall → World → Option String × World
call host c w = (host.answer w.calls c, record w { calls = w.calls ++ c ∷ [] })

abbrev pub append_to : AuditRecord → Option AuditLog → Option AuditLog
append_to r none = none
append_to r (some log) = some (Audit.append r log)

-- `audit` of the blacklist and of the punishments
unfoldable pub audit : Readings → (group actor target action reason : String) → World → World
audit env group actor target action reason w =
    let logged : AuditRecord = record {
      record_id = env.record_id;
      group_id = group;
      actor_id = actor;
      target_user_id = some target;
      action = action;
      status = executed;
      reason = reason;
      created_at = env.logged_at;
    } in
    record w { audit_log = append_to logged w.audit_log }
