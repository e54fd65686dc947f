-- ===== src/Core/Clock.antt =====
-- core/clock.py: the time at which one handler runs.
use moot.Common.{ℕ}

pub record Clock : Type 0 where
  pub monotonic : ℕ
  pub wall : ℕ
