-- ===== src/Core/Levels.antt =====
-- src/core/enums.ts: the permission levels on their two axes.
use qq_group_ops.Base.{ℕ, ℤ, pos, negsuc}

-- The thresholds of the group axis, `GroupLevel`.
pub data GroupLevel : Type 0 where
  blacklisted guest member moderator group_admin super_admin : GroupLevel

-- The number that a threshold stands for.
abbrev pub level_value : GroupLevel → ℤ
level_value blacklisted = negsuc 0
level_value guest = pos 0
level_value member = pos 110
level_value moderator = pos 120
level_value group_admin = pos 130
level_value super_admin = pos 140

abbrev pub global_super_admin : ℕ
global_super_admin = 240

abbrev pub platform_offset : ℕ
platform_offset = 100

abbrev pub platform_level_min : ℕ
platform_level_min = 200
