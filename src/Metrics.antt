-- ===== src/Metrics.antt =====
-- The counters, read off the trace, and their snapshot: crates/app-powerd-core/src/metrics.rs.
use app_powerd.Prelude.{ℕ, ◌+◌, ◌%◌, ◌^◌, [], ◌∷◌, ◌==◌, if◌then◌else◌}
use app_powerd.Host.{
  Trace, Metric, counted, apps_frozen_total, apps_thawed_total, apps_throttled_total,
  apps_unthrottled_total, focus_changes_total, guard_blocks_total, config_reloads_total,
  time_in_frozen_ms, time_in_throttled_ms, reconcile_ticks_total, pids_reaped_total,
  apps_removed_stale_total, protection_blocks_total, journal_recovered_total,
  journal_stale_dropped_total, warns_suppressed_total,
}

abbrev index_of : Metric → ℕ
index_of apps_frozen_total = 0
index_of apps_thawed_total = 1
index_of apps_throttled_total = 2
index_of apps_unthrottled_total = 3
index_of focus_changes_total = 4
index_of guard_blocks_total = 5
index_of config_reloads_total = 6
index_of time_in_frozen_ms = 7
index_of time_in_throttled_ms = 8
index_of reconcile_ticks_total = 9
index_of pids_reaped_total = 10
index_of apps_removed_stale_total = 11
index_of protection_blocks_total = 12
index_of journal_recovered_total = 13
index_of journal_stale_dropped_total = 14
index_of warns_suppressed_total = 15

-- `fetch_add` wraps around at 64 bits.
unfoldable pub total : Metric → Trace → ℕ
total metric [] = 0
total metric (counted m n ∷ t) =
    let before = total metric t in
    if index_of m == index_of metric then (before + n) % 2 ^ 64 else before
total metric (_ ∷ t) = total metric t

pub record MetricsSnapshot : Type 0 where
  pub frozen : ℕ
  pub thawed : ℕ
  pub throttled : ℕ
  pub unthrottled : ℕ
  pub focus_changes : ℕ
  pub guard_blocks : ℕ
  pub config_reloads : ℕ
  pub frozen_ms : ℕ
  pub throttled_ms : ℕ
  pub reconcile_ticks : ℕ
  pub pids_reaped : ℕ
  pub apps_removed_stale : ℕ
  pub protection_blocks : ℕ
  pub journal_recovered : ℕ
  pub journal_stale_dropped : ℕ
  pub warns_suppressed : ℕ

unfoldable pub snapshot : Trace → MetricsSnapshot
unfolding total
snapshot t = record {
  frozen = total apps_frozen_total t;
  thawed = total apps_thawed_total t;
  throttled = total apps_throttled_total t;
  unthrottled = total apps_unthrottled_total t;
  focus_changes = total focus_changes_total t;
  guard_blocks = total guard_blocks_total t;
  config_reloads = total config_reloads_total t;
  frozen_ms = total time_in_frozen_ms t;
  throttled_ms = total time_in_throttled_ms t;
  reconcile_ticks = total reconcile_ticks_total t;
  pids_reaped = total pids_reaped_total t;
  apps_removed_stale = total apps_removed_stale_total t;
  protection_blocks = total protection_blocks_total t;
  journal_recovered = total journal_recovered_total t;
  journal_stale_dropped = total journal_stale_dropped_total t;
  warns_suppressed = total warns_suppressed_total t;
}
