-- ===== src/Limits.antt =====
-- What bounds the rate of messages and requests.
pub mod PassiveReply
pub mod RateLimit
pub mod Retry
