-- ===== src/Lib.antt =====
-- Verification library of the QQ group operations bot: its permissions, join requests, blacklist,
-- punishments, appeals, activities, moderation rules, codes, audit log, and the limits on what it
-- sends and accepts.
--
-- The program keeps its state in memory, in services that are the only writers, and queues each
-- change as a write for one database connection; on a restart it reads the tables back. Commands,
-- callbacks and the admin API call the services; the services that moderate call the official
-- interface of the platform and record in the audit log; the adapters send messages under a quota, a
-- rate limit, a minimal distance and with retries. Here each service is a record, each method a
-- function that returns the new record, a thrown error is a value of `Outcome`, and the queued writes
-- are data in the order of their queuing, and reach their table: which of them may fail, and what then
-- is left, is the matter of Core.WriteQueue alone. Clocks, random ids and random draws are arguments.
--
-- Base (Equality, Numbers, Lists, Dict, Text, Sort, Keys, Outcome): shared notation. `Dict` is a
--   JavaScript Map, a list of entries in the order of insertion; `add` and `remove` are those of a Set;
--   `sort` is the stable `Array.prototype.sort`; `text_le` its default order, by UTF-16 units; Keys
--   the texts joined by a separator under which maps keep their entries.
-- Core: Levels (src/core/enums.ts), Ordering (`newestFirst`, src/core/ordering.ts), WriteQueue
--   (`WriteQueue`, src/db/writeQueue.ts: tasks in order, where one that throws stops no other
--   and may leave a part of what it does),
--   Platform (the official interface as a parameter `Host`, and the `World` of what the services
--   share: calls made, audit log, codes in use, random numbers drawn), RowTable (a table whose writes
--   act on each row by itself, and its reading at a restart).
-- Permissions: `PermissionService` of src/services/permissions.ts; Permissions.Roles the one entry for
--   all roles, src/services/permissionRoles.ts; Levels and Loading the levels and `load`; Table the
--   table of src/db/permissionRepository.ts. Proofs: Axes (levels), Grants (who stays), Holding (the
--   roles as rows), Reload (memory, table and restart), History (from one restart to the next).
-- JoinAudit: `JoinAuditService` of src/services/joinAudit.ts. Proofs: Lookup (what a sweep and a
--   pruning do to one request), Decisions (all operations as one type, and their runs), Expiry,
--   Mirror and Following (the rows of JoinAudit.Table, src/db/joinRequestRepository.ts) and History
--   (from the start).
-- JoinRules: `JoinRuleEvaluator` of src/services/joinRules.ts; Text how it compares and cuts texts.
--   Proofs: Laws.
-- JoinApproval: `JoinApprovalService` of src/services/joinApproval.ts over JoinAudit, JoinRules and
--   Blacklist; ByHand the decisions of a reviewer. Proofs: PlatformFirst (the order of platform and
--   memory), Deciding (what a decision does to the requests), Blacklisted (who is refused, and
--   decisions by hand).
-- Blacklist: `BlacklistService` of src/services/blacklist.ts. Proofs: Hits (whom it stops), Table
--   (src/db/blacklistRepository.ts and the restart).
-- Punishments: `PunishmentService` of src/services/punishments.ts; Cards what the buttons of a card
--   do, Retention what is removed with time. Proofs: Change (what an operation may change), Releasing,
--   Listing, Clearing, Pruning, Table (src/db/punishmentRepository.ts and the restart).
-- Appeals: `AppealService` of src/services/appeals.ts. Proofs: Change, OnePending, Deciding, Table
--   (src/db/appealRepository.ts and the restart).
-- MessageGuard: `MessageGuardService` of src/services/messageGuard.ts over Permissions, Moderation,
--   Punishments and Blacklist; Planning what is to be done and told, Engines the engine of a group,
--   Actions what a plan leads to. Proofs: Executing (the calls of a plan), Sparing and
--   Recording (the two cases), Handling (who is left alone, and what is recorded).
-- Codes: the pool of codes of src/services/shortCodes.ts and what punishments and appeals do with it;
--   Service is `ShortCodeService`. Proofs: Laws, Words (what a code consists of), Service.Consistent
--   and Service.Resolving.
-- Callbacks: src/services/callbackData.ts. Proofs: RoundTrip.
-- Audit: `AuditLogStore` of src/services/audit.ts with its table, src/db/auditRepository.ts.
-- Activities: `ActivityService` of src/services/activity.ts over the data of
--   src/services/activityCore.ts. Catalog has creation, group bindings and status, Editing
--   `updateActivity` and `checkEligibility`, Registration what concerns registrations and the waiting
--   list, Settings the rows of src/db/activitySettingsRepository.ts and `applySettings`. Proofs:
--   Joining (capacity; OnePlace, Answer), Leaving (promotion; Cancelling, Releasing), Editing.Edits,
--   Editing.Laws (who may register),
--   Settings.Reload. How the language writes and reads numbers and dates is the parameter `Texts`.
-- Limits: PassiveReply (src/adapters/passiveReplyQuota.ts), RateLimit (src/adminApi/rateLimit.ts),
--   Retry (src/core/retry.ts and the spacing of src/adapters/sendThrottle.ts).
-- Moderation: `RuleEngine` of src/services/moderation.ts. Proofs: Laws (the highest action),
--   Configured (engines from keywords and patterns). Regular expressions and the lower case are a
--   parameter, `Language`.
-- Tests: each result at a concrete input.
--
-- Numbers are natural numbers: times in milliseconds, counts and limits; the seconds of a mute are
-- integers. The retry loop is the only one with fuel: `retry` gives it one more than the attempts
-- allowed, and the loop makes no more attempts than that. A code is drawn at most twenty times, as in
-- the source. The delay of a retry is computed exactly where the source rounds a floating-point
-- number. An operation that waits for the platform is one step here: operations run one after the
-- other, and what another does while one waits is left out. The answers of the platform are a
-- function of the calls made before, so it may refuse any call. A text that is cut between the two
-- UTF-16 units of a character loses both here, and keeps the first in the source.
--
-- Not modelled: the transport to QQ (src/adapters/qqOfficial*.ts and the gateways), the HTTP server
-- and the web front end, the texts and cards of replies, the commands' parsing, notifications of
-- reviewers, lines of the log, deployment and process control (src/services/deploy*.ts, restart*.ts),
-- backup and migration, the SQL driver, the layout of cards, the configuration of groups,
-- announcements and schedules. What they do to the services are calls of the operations above. The
-- roster of members, the aliases of classes and the maps of case are parameters.
-- The column of a punishment's actions, which is JSON, is a record here.
pub mod Base
pub mod Core
pub mod Audit
pub mod JoinAudit
pub mod Limits
pub mod Activities
pub mod Permissions
pub mod Moderation
pub mod Blacklist
pub mod Codes
pub mod Punishments
pub mod Appeals
pub mod JoinRules
pub mod JoinApproval
pub mod Callbacks
pub mod MessageGuard
pub mod Tests
