-- ===== src/System/Protection.antt =====
-- Processes that must never be suspended: crates/app-powerd-core/src/system/protection.rs.
pub mod Partition
use app_powerd.Prelude.{
  ℕ, zero, suc, ◌≡◌, List, [], ◌∷◌, ◌++◌, Bool, true, false, not, Option, none, some, Text, codes,
  ◌==◌, is_empty, trim_left, trim, any, find, length, reverse, HashMap, get, nat_eq, contains,
  option_map, unwrap_or, strip_first, strip_last, strip_prefix, ascii_lower, eq_ignore_ascii_case,
  if◌then◌else◌,
}
use app_powerd.Host.{Host, Trace, ProcessHandle}

abbrev pub builtin_deny : List Text
builtin_deny =
    codes "xdg-desktop-portal*"
    ∷ codes "xdg-document-portal"
    ∷ codes "xdg-permission-store"
    ∷ codes "dbus-daemon"
    ∷ codes "dbus-broker"
    ∷ codes "pipewire"
    ∷ codes "pipewire-pulse"
    ∷ codes "wireplumber"
    ∷ codes "pulseaudio"
    ∷ codes "gvfsd*"
    ∷ codes "gnome-keyring-daemon"
    ∷ codes "at-spi-bus-launcher"
    ∷ codes "at-spi2-registryd"
    ∷ codes "ibus-daemon"
    ∷ codes "fcitx5"
    ∷ codes "dconf-service"
    ∷ codes "polkit-*"
    ∷ codes "elogind"
    ∷ codes "systemd*"
    ∷ codes "zenity"
    ∷ codes "yad"
    ∷ codes "kdialog"
    ∷ codes "xmessage"
    ∷ codes "pinentry*"
    ∷ codes "ssh-askpass*"
    ∷ codes "polkit-gnome-authentication-agent-1"
    ∷ codes "lxpolkit"
    ∷ codes "gcr-prompter"
    ∷ []

pub data ProtectionReason : Type 0 where
  builtin : Text → ProtectionReason
  dbus_name_owner : Text → ProtectionReason
  unidentifiable : ProtectionReason

-- PIDs with a well-known name that each owns.
pub record ProtectionPolicy : Type 0 where
  pub dbus_owners : HashMap ℕ Text

abbrev pub apply_refresh : HashMap ℕ Text → ProtectionPolicy → ProtectionPolicy
apply_refresh owners p = record p { dbus_owners = owners }

-- `name[..prefix.len()].eq_ignore_ascii_case(prefix)`, where `name` is long enough.
unfoldable pub prefix_ignore_case : Text → Text → Bool
prefix_ignore_case [] name = true
prefix_ignore_case (c ∷ prefix) [] = false
prefix_ignore_case (c ∷ prefix) (d ∷ name) =
    if ascii_lower d == ascii_lower c then prefix_ignore_case prefix name else false

unfoldable pub pattern_matches : Text → Text → Bool
unfolding prefix_ignore_case
pattern_matches pat name = elim (strip_last b'*' pat) [
  | some prefix ↦ prefix_ignore_case prefix name
  | none ↦ eq_ignore_ascii_case name pat
]

-- `trim_start_matches`, as often as the text is long at most.
unfoldable pub trim_start : ℕ → Text → Text → Text
trim_start zero pat s = s
trim_start (suc fuel) pat s = elim (strip_prefix pat s) [
  | none ↦ s
  | some rest ↦ trim_start fuel pat rest
]

unfoldable pub trim_end : Text → Text → Text
unfolding trim_start
trim_end pat s = reverse (trim_start (length s) (reverse pat) (reverse s))

-- The name, the name without a leading dot, and that without `-real` at its end.
unfoldable pub candidates : Text → List Text
unfolding trim_end
candidates name =
    let stripped = unwrap_or (strip_first b'.' name) name in
    name ∷ stripped ∷ trim_end (codes "-real") stripped ∷ []

unfoldable pub matches_deny_list : Text → Option Text
unfolding any find
matches_deny_list name =
    find (λ pat. any (λ candidate. pattern_matches pat candidate) (candidates name)) builtin_deny

-- `process::comm` (system/process.rs): an empty name is no name.
unfoldable pub comm : Host → Trace → ℕ → Option Text
unfolding trim_left
comm host t pid = elim (host.read_comm t pid) [
  | none ↦ none
  | some s ↦ if is_empty (trim s) then none else some (trim s)
]

module _ (host : Host) (t : Trace) where
  -- The name by which a process is judged.
  unfoldable pub judged_name : ℕ → Option Text → Option Text
  judged_name pid none = comm host t pid
  judged_name pid (some e) = if is_empty e then comm host t pid else some e

  unfoldable pub check : ℕ → Option Text → Option ProtectionReason
  unfolding judged_name
  check pid exe = elim (judged_name pid exe) [
    | some name ↦ option_map builtin (matches_deny_list name)
    | none ↦ some unidentifiable
  ]

  unfoldable pub check_foreign : ProtectionPolicy → ℕ → Option Text → Option ProtectionReason
  check_foreign policy pid exe = elim (get pid policy.dbus_owners) [
    | some bus_name ↦ some (dbus_name_owner bus_name)
    | none ↦ check pid exe
  ]

  -- What decides about one process of the tree.
  unfoldable pub verdict : ProtectionPolicy → List ℕ → ProcessHandle → Option ProtectionReason
  verdict policy own_roots handle =
      if contains own_roots handle.pid
      then check handle.pid none
      else check_foreign policy handle.pid none

  unfoldable pub partition_from :
      ProtectionPolicy
      → List ℕ
      → List ProcessHandle
      → List (ℕ × ProtectionReason)
      → List ProcessHandle
      → List ProcessHandle × List (ℕ × ProtectionReason)
  partition_from policy own_roots allowed protected [] = (allowed, protected)
  partition_from policy own_roots allowed protected (handle ∷ procs) =
      let v = verdict policy own_roots handle in
      partition_from policy own_roots
        (elim v [ none ↦ allowed ++ handle ∷ [] | some reason ↦ allowed ])
        (elim v [ none ↦ protected | some reason ↦ protected ++ (handle.pid, reason) ∷ [] ]) procs

  unfoldable pub partition :
      ProtectionPolicy
      → List ProcessHandle
      → List ℕ
      → List ProcessHandle × List (ℕ × ProtectionReason)
  unfolding partition_from
  partition policy procs own_roots = partition_from policy own_roots [] [] procs

abbrev pub reason_text : ProtectionReason → Text
reason_text (builtin pat) = codes "built-in deny-list (" ++ pat ++ codes ")"
reason_text (dbus_name_owner name) = codes "owns D-Bus name " ++ name
reason_text unidentifiable = codes "executable could not be identified"
