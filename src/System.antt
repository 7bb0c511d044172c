-- ===== src/System.antt =====
-- Processes, signals and cgroups: crates/app-powerd-core/src/system.
pub mod Process
pub mod Tree
pub mod Apply
pub mod Cgroup
pub mod Freeze
pub mod Throttle
pub mod Undone
pub mod Protection
pub mod Reach
pub mod Power
pub mod DesktopFile
pub mod Paths
