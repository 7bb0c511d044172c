-- ===== src/Host.antt =====
-- The boundary of the daemon: what it asks of the kernel, the file system, the clock, the timers of
-- the async runtime and the serde formats, none of which is code of this repository.
mod Effects
mod Answers
pub mod Log
pub mod Quiet
pub mod Disk
pub use Effects.*
unfoldable pub use Answers.*
