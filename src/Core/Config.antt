-- ===== src/Core/Config.antt =====
-- core/config.py: the fields of Config that the hub and its connections read. Durations are in
-- milliseconds. The file names below `home` and the watchdog's own period are left out.
use moot.Common.{ℕ, Bool, true}

pub record Config : Type 0 where
  pub outbound_queue_max : ℕ
  pub context_cap : ℕ
  pub deliver_wake_cap : ℕ
  pub queue_cap : ℕ
  pub backlog_on_join : ℕ
  pub recent_window : ℕ
  pub rate_messages : ℕ
  pub rate_window : ℕ
  pub rate_burst : ℕ
  pub dedup_window : ℕ
  pub initial_max_rounds : ℕ
  pub assume_idle_after : ℕ
  pub stall_after : ℕ
  pub present_within : ℕ
  pub blocked_after : ℕ
  pub dead_after : ℕ
  pub dead_ttl : ℕ
  pub pong_timeout : ℕ
  pub notifications : Bool

abbrev pub default_config : Config
default_config = record {
  outbound_queue_max = 256;
  context_cap = 15;
  deliver_wake_cap = 10;
  queue_cap = 100;
  backlog_on_join = 10;
  recent_window = 200;
  rate_messages = 6;
  rate_window = 60_000;
  rate_burst = 3;
  dedup_window = 120_000;
  initial_max_rounds = 24;
  assume_idle_after = 90_000;
  stall_after = 60_000;
  present_within = 60_000;
  blocked_after = 60_000;
  dead_after = 300_000;
  dead_ttl = 86_400_000;
  pong_timeout = 30_000;
  notifications = true;
}
