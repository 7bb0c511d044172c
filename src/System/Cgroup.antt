-- ===== src/System/Cgroup.antt =====
-- cgroup v2 operations: crates/app-powerd-core/src/system/cgroup.rs. `none` is success.
pub mod Detection
use app_powerd.Prelude.{
  join, ℕ, ◌*◌, ◌/◌, List, [], ◌∷◌, ◌++◌, Bool, ◌||◌, ◌&&◌, Option, none, some, Text, codes, ◌==◌,
  ltb, leb, is_digit, decimal, parse_unsigned, map, if◌then◌else◌,
}
use app_powerd.Host.{
  Host, Io, ◌>>=◌, ◌>>◌, pure, IoError, write, create_dir_all, remove_dir, call_fs,
  call_start_scope,
}
use app_powerd.System.Process.{SystemError, cgroup_error, cgroup_operation}

pub data CgroupCapability : Type 0 where
  systemd_transient direct_write signal_only : CgroupCapability

pub record CgroupCapabilities : Type 0 where
  pub tier : CgroupCapability
  pub freezer : Bool
  pub cpu_control : Bool

-- `map_err` into a cgroup error.
abbrev pub cgroup_result : Option IoError → Option SystemError
cgroup_result none = none
cgroup_result (some e) = some cgroup_operation

module _ (host : Host) where
  unfoldable pub write_control : Text → Text → Text → Io (Option SystemError)
  write_control cgroup_path file value = do
    r ← call_fs host (write (join cgroup_path file) value)
    pure (cgroup_result r)

  unfoldable pub move_pid : Text → ℕ → Io (Option SystemError)
  unfolding write_control
  move_pid cgroup_path pid = write_control cgroup_path (codes "cgroup.procs") (decimal pid)

  unfoldable pub freeze : Text → Io (Option SystemError)
  unfolding write_control
  freeze cgroup_path = write_control cgroup_path (codes "cgroup.freeze") (codes "1")

  unfoldable pub thaw : Text → Io (Option SystemError)
  unfolding write_control
  thaw cgroup_path = write_control cgroup_path (codes "cgroup.freeze") (codes "0")

  unfoldable pub set_cpu_weight : Text → ℕ → Io (Option SystemError)
  unfolding write_control
  set_cpu_weight cgroup_path weight =
      write_control cgroup_path (codes "cpu.weight") (decimal weight)

-- `trim_end_matches('%')`.
unfoldable pub trim_percent : Text → Text
trim_percent [] = []
trim_percent (c ∷ s) = elim (trim_percent s) [
  | [] ↦ if c == b'%' then [] else c ∷ []
  | d ∷ r ↦ c ∷ d ∷ r
]

abbrev pub cpu_period_us : ℕ
cpu_period_us = 100000

-- "40%" as "40000 100000"; a share that is no number from 1 to 100 is refused.
unfoldable pub cpu_max_value : Text → Option Text
unfolding trim_percent
cpu_max_value quota_pct = elim (parse_unsigned 32 (trim_percent quota_pct)) [
  | none ↦ none
  | some pct ↦
      if (pct == 0) || ltb 100 pct
      then none
      else some (decimal (cpu_period_us * pct / 100) ++ b' ' ∷ decimal cpu_period_us)
]

module _ (host : Host) where
  unfoldable pub set_cpu_max : Text → Text → Io (Option SystemError)
  unfolding cpu_max_value write_control
  set_cpu_max cgroup_path quota_pct = elim (cpu_max_value quota_pct) [
    | none ↦ pure (some cgroup_error)
    | some value ↦ write_control host cgroup_path (codes "cpu.max") value
  ]

  unfoldable pub reset_cpu : Text → Io (Unit {0})
  reset_cpu cgroup_path = do
    call_fs host (write (join cgroup_path (codes "cpu.weight")) (codes "100"))
    call_fs host
        (write (join cgroup_path (codes "cpu.max")) (codes "max " ++ decimal cpu_period_us))
    pure tt

  unfoldable pub remove_cgroup : Text → Io (Option SystemError)
  remove_cgroup cgroup_path t =
      if host.path_exists t cgroup_path
      then (do r ← call_fs host (remove_dir cgroup_path); pure (cgroup_result r)) t
      else (none, t)

  abbrev unit_char : ℕ → ℕ
  unit_char c =
      if leb b'a' c && leb c b'z'
      then c
      else if leb b'A' c && leb c b'Z'
      then c
      else if is_digit c
      then c
      else if (c == b'-') || (c == b'_')
      then c
      else if ltb 127 c && host.is_alphanumeric c
      then c
      else b'-'

  -- (system/mod.rs)
  unfoldable pub sanitize_unit_name : Text → Text
  sanitize_unit_name = map unit_char

  -- The path of the new cgroup; `none` is an error.
  unfoldable pub create_cgroup : CgroupCapabilities → Text → Text → List ℕ → Io (Option Text)
  unfolding sanitize_unit_name
  create_cgroup caps base name pids t = elim caps.tier [
    | direct_write ↦
        let path = join base (codes "app-powerd-" ++ sanitize_unit_name name) in
        if host.path_exists t path
        then (some path, t)
        else (do
          r ← call_fs host (create_dir_all path)
          pure (elim r [ none ↦ some path | some e ↦ none ]))
            t
    | systemd_transient ↦ call_start_scope host name pids t
    | signal_only ↦ (none, t)
  ]
