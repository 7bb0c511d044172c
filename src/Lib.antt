-- ===== src/Lib.antt =====
-- A model of app-powerd, a daemon that stops or throttles the applications in the background while
-- a laptop runs on battery, and of what makes it safe to do so.
--
-- The parts. The display backends report windows and focus (Desktop). An application is identified
-- by its window (Desktop.Identity), gets a policy from the rules (Config, Config.Matching) unless
-- it is protected (System.Protection), and is tracked in the registry (State.Registry,
-- State.AppEntry, State.ProcessSet) with a power state (State.Machine). The engine (Engine) handles
-- focus changes (Engine.Focus, Engine.Windows), timers (Engine.Suspend) and power changes
-- (Engine.Power); each handler carries out transitions (Engine.Transitions), which act on processes
-- (System.Freeze, System.Throttle, System.Cgroup) after the guards were asked (Guards) and the
-- intent was written to the journal (State.Journal), from which a crashed daemon's processes are
-- resumed (State.Journal.Recover). Repeated messages are held back (Engine.RateLimit). A tick takes
-- what has exited out of the registry and the journal (Engine.Reconcile), a new configuration is
-- applied to what is tracked (Engine.Reload), and a shutdown releases everything (Engine.Shutdown).
-- The events come in one by one (Engine.Loop). The command line (Cli) sends requests over a socket
-- (Ipc), which the engine carries out (Engine.Commands), and starts the daemon after recovery
-- (Cli.Daemon).
--
-- All code is under crates/app-powerd-core/src: Desktop is desktop/window.rs; Desktop.Identity and
-- State.AppEntry are state/app_entry.rs; System.Process and System.Tree are system/process.rs, with
-- `expand_tree` of system/freeze.rs; System.X, State.X and Engine.X are the files system/x.rs,
-- state/x.rs and engine/x.rs, with Engine.Windows the second half of engine/focus.rs and
-- Engine.Power, Engine.Reload and Engine.Shutdown parts of engine/config_power.rs; Engine.Commands
-- is engine/ipc_handler.rs, with the release of recorded processes in Engine.Shutdown; Engine.Loop
-- is engine/mod.rs; Ipc is ipc/protocol.rs, with Ipc.Server for ipc/server.rs and ipc/client.rs;
-- Metrics is metrics.rs; System.Paths the functions that say where files are; System.DesktopFile a
-- part of system/process.rs; Config is config/mod.rs, Config.Matching config/matching.rs,
-- Config.Loader and Config.Validation config/loader.rs; Guards is guards/mod.rs, and Guards.Sensing
-- guards/audio.rs, camera.rs and input.rs. Cli is crates/app-powerd/src/main.rs. Functions keep
-- their names; where a function is a loop, or has a step that a proof speaks of, the step is a
-- definition of its own beside it.
--
-- The outside. Kernel, files, clock, timers, serde_json and systemd are a parameter, the record
-- Host: every answer is a function of the trace of all effects so far, and the statements hold for
-- every such function. A read is no effect and leaves nothing in the trace: until the next effect
-- repeated reads agree, so a check and the signal right after it see the same process, and the
-- clock stands still. What another process does just between two such steps is outside the model.
-- An operation takes the trace and returns it extended (Io).
-- Host.Disk says what the calls in a trace leave in a file, by the documented behaviour of POSIX
-- files, where a failed write may leave anything; the theorems on files are about that content. The
-- regex library, the YAML and JSON libraries, the dump of PipeWire and the idle time of X11 are
-- parameters too. Handlers run one at a time in the source, on one event loop, and so here.
--
-- Bounds and fuel. Times are milliseconds on ℕ, and a difference of times stops at 0, as
-- `Instant::elapsed` does. The walk of the process tree runs on a number of visits, `scan_budget`,
-- which stands for the scan's time limit: when it is used up the scan yields nothing, as a scan
-- that times out does in the source. All other loops are structural.
--
-- Not modelled: the clients of X11, Wayland and D-Bus, the accepting of connections and their
-- limit, writes to a socket that fail, the watch of the configuration file, the tasks that only
-- pass events on, the parsing of the command line, serde attributes, and log messages.
pub mod Prelude
pub mod Desktop
pub mod Host
pub mod System
pub mod Config
pub mod Guards
pub mod Metrics
pub mod Ipc
pub mod State
pub mod Engine
pub mod Cli
mod Tests
