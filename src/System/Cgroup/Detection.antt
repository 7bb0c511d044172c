-- ===== src/System/Cgroup/Detection.antt =====
-- What the kernel lets the daemon do with cgroups, found out once at the start, and the cgroups that
-- an earlier run left: `CgroupManager::new` and `cleanup_stale_cgroups` of
-- crates/app-powerd-core/src/system/cgroup.rs.
use app_powerd.Prelude.{
  List, [], ◌∷◌, Bool, true, false, Option, none, some, Text, codes, text_eq, any, join,
  starts_with, if◌then◌else◌,
}
use app_powerd.Host.{
  Host, Io, Trace, ◌>>=◌, ◌>>◌, pure, FileRead, contents, refused, create_dir, remove_dir, write,
  call_fs,
}
use app_powerd.System.Process.{split_whitespace}
use app_powerd.System.Cgroup.{systemd_transient, direct_write, signal_only, CgroupCapabilities}
use app_powerd.System.Paths.{cgroup_base_path}

pub record CgroupManager : Type 0 where
  pub capabilities : CgroupCapabilities
  pub base_path : Text

unfoldable pub lists : Text → FileRead → Bool
unfolding split_whitespace any
lists controller (refused e) = false
lists controller (contents content) = any (λ c. text_eq c controller) (split_whitespace content)

module _ (host : Host) where
  unfoldable pub controller_enabled : Trace → Text → Text → Bool
  unfolding lists
  controller_enabled t path controller =
      lists controller (host.read_file t (join path (codes "cgroup.subtree_control")))

  -- A directory made for a moment tells whether cgroups can be written.
  unfoldable pub probe : Text → Io Bool
  probe base t =
      if host.path_exists t base
      then (do
        call_fs host (remove_dir (join base (codes "app-powerd-probe")))
        r ← call_fs host (create_dir (join base (codes "app-powerd-probe")))
        pure (elim r [ none ↦ true | some e ↦ false ]))
          t
      else (false, t)

  abbrev direct : Text → Trace → CgroupManager
  direct base t = record {
    capabilities = record {
      tier = direct_write;
      freezer =
          host.path_exists t (join (join base (codes "app-powerd-probe")) (codes "cgroup.freeze"));
      cpu_control = controller_enabled t base (codes "cpu");
    };
    base_path = base;
  }

  abbrev indirect : Text → Bool → CgroupManager
  indirect base systemd = record {
    capabilities = record {
      tier = if systemd then systemd_transient else signal_only;
      freezer = systemd;
      cpu_control = systemd;
    };
    base_path = base;
  }

  unfoldable pub detect_at : Text → Bool → Io CgroupManager
  unfolding controller_enabled
  detect_at base true t =
      (direct base t, (call_fs host (remove_dir (join base (codes "app-powerd-probe"))) t).1)
  detect_at base false t = (indirect base (host.systemd t), t)

  -- `CgroupManager::new`.
  unfoldable pub detect : Io CgroupManager
  unfolding detect_at probe
  detect t = let base = cgroup_base_path host t in let p = probe base t in detect_at base p.0 p.1

  -- A frozen cgroup cannot be removed, so it is thawed first.
  unfoldable pub cleanup_each : Text → List Text → Io (Unit {0})
  cleanup_each base [] t = (tt, t)
  cleanup_each base (name ∷ names) t =
      let path = join base name in
      let done =
        if starts_with (codes "app-powerd-") name
        then (call_fs host (remove_dir path)
            (call_fs host (write (join path (codes "cgroup.freeze")) (codes "0")) t).1).1
        else t in
      cleanup_each base names done

  unfoldable pub cleanup_listed : Text → Option (List Text) → Io (Unit {0})
  unfolding cleanup_each
  cleanup_listed base none t = (tt, t)
  cleanup_listed base (some names) t = cleanup_each base names t

  unfoldable pub cleanup_stale_cgroups : CgroupManager → Io (Unit {0})
  unfolding cleanup_listed
  cleanup_stale_cgroups m t = elim m.capabilities.tier [
    | signal_only ↦ (tt, t)
    | _ ↦ cleanup_listed m.base_path (host.read_dir t m.base_path) t
  ]
