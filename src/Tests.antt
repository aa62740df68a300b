-- ===== src/Tests.antt =====
-- The theorems at concrete inputs, by the part of the program.
mod Roles
mod Outside
mod Stopping
mod Appealing
mod Admitting
mod Coding
mod Guarding
mod Punishing
mod Requests
mod Limits
mod Events
mod Rules
mod Edits
