-- ===== src/Tests/Outside.antt =====
-- A platform, a clock and the rest of the outside for the tests.
use qq_group_ops.Base.{[], ℕ, ◌%◌, ◌<◌, none, arith}
use qq_group_ops.Core.Platform.{Host, World, Readings}

-- A platform that takes every call. The codes are drawn from the letters in turn.
abbrev pub host : Host
host = record {
  answer = λ calls c. none;
  draw = λ n. n % 36;
  to_lower_case = λ s. s;
  to_upper_case = λ s. s;
}

pub host-draws : (i : ℕ) → host.draw i < 36
host-draws i = omega arith

abbrev pub world : World
world = record { calls = []; audit_log = none; pool = []; drawn = 0 }

abbrev pub readings : Readings
readings = record { now = 50; logged_at = 51; record_id = "a1" }
