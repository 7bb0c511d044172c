-- ===== src/System/Paths.antt =====
-- Where things are: `runtime_dir` and `cgroup_base_path` of crates/app-powerd-core/src/system/mod.rs,
-- `socket_path` of ipc/protocol.rs, `FreezeJournal::default_path` of state/journal.rs, and
-- `config_path` of config/loader.rs.
use app_powerd.Prelude.{
  ◌==◌, List, [], ◌∷◌, ◌++◌, none, some, Text, codes, decimal, lines, strip_prefix, join, unwrap_or,
  if◌then◌else◌,
}
use app_powerd.Host.{Host, Trace, contents, refused}

module _ (host : Host) where
  unfoldable pub runtime_dir : Text
  runtime_dir =
      unwrap_or (host.env (codes "XDG_RUNTIME_DIR")) (codes "/run/user/" ++ decimal host.uid)

  abbrev pub socket_path : Text
  socket_path = join runtime_dir (codes "app-powerd.sock")

  -- (main.rs)
  abbrev pub lock_path : Text
  lock_path = host.with_extension socket_path (codes "lock")

  abbrev pub journal_default_path : Text
  journal_default_path = join (join runtime_dir (codes "app-powerd")) (codes "frozen.json")

  unfoldable pub config_path : Text
  config_path =
      let config_dir = elim (host.env (codes "XDG_CONFIG_HOME")) as (λ _. Text) [
        | some dir ↦ dir
        | none ↦ join (unwrap_or (host.env (codes "HOME")) (codes "/tmp")) (codes ".config")
      ] in
      join (join config_dir (codes "app-powerd")) (codes "config.yaml")

-- `trim_start_matches('/')`.
unfoldable pub trim_slashes : Text → Text
trim_slashes [] = []
trim_slashes (c ∷ s) = if c == b'/' then trim_slashes s else c ∷ s

module _ (host : Host) (t : Trace) where
  abbrev fallback_base : Text
  fallback_base =
      codes "/sys/fs/cgroup/user.slice/user-"
      ++ decimal host.uid
      ++ codes ".slice/user@"
      ++ decimal host.uid
      ++ codes ".service"

  -- The first line of the unified hierarchy whose directory is there.
  unfoldable pub base_in : List Text → Text
  unfolding trim_slashes
  base_in [] = fallback_base
  base_in (line ∷ rest) =
      let next = base_in rest in
      elim (strip_prefix (codes "0::") line) [
        | none ↦ next
        | some path ↦
            let dir = join (codes "/sys/fs/cgroup") (trim_slashes path) in
            if host.path_exists t dir then dir else next
      ]

  unfoldable pub cgroup_base_path : Text
  unfolding base_in lines
  cgroup_base_path = elim (host.read_file t (codes "/proc/self/cgroup")) [
    | contents content ↦ base_in (lines content)
    | refused e ↦ fallback_base
  ]
