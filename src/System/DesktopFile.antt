-- ===== src/System/DesktopFile.antt =====
-- Desktop files, and the name and command line of a process: the rest of
-- crates/app-powerd-core/src/system/process.rs.
use app_powerd.Prelude.{
  ℕ, List, [], ◌∷◌, ◌++◌, map, Bool, false, not, Option, none, some, Text, codes, text_eq, text_key,
  HashMap, insert, find, contains, nat_eq, and_then, unwrap_or, strip_prefix, starts_with, lines,
  trim, split_at, file_name, join, join_with, decimal, reverse, is_empty, if◌then◌else◌,
}
use app_powerd.Host.{Host, Trace, FileRead, contents, refused, IoError, not_found, io_error}
use app_powerd.System.Process.{SystemError, process_not_found, process_read_error, split_whitespace}

-- `to_string` of a refusal is the host's.
unfoldable pub read_refused : ℕ → Text → IoError → SystemError
read_refused pid message not_found = process_not_found pid
read_refused pid message (io_error e) = process_read_error pid message

pub data Read {ℓ} (A : Type ℓ) : Type ℓ where
  ok : A → Read A
  err : SystemError → Read A

abbrev proc_path : ℕ → Text → Text
proc_path pid file = codes "/proc/" ++ decimal pid ++ b'/' ∷ file

module _ (host : Host) (t : Trace) where
  unfoldable pub exe_name : ℕ → Read Text
  unfolding read_refused
  exe_name pid = elim (host.read_link t (proc_path pid (codes "exe"))) [
    | refused e ↦ err (read_refused pid (codes "failed to read exe") e)
    | contents link ↦ ok (unwrap_or (file_name link) link)
  ]

  -- The arguments, which a zero separates.
  unfoldable pub cmdline : ℕ → Read Text
  unfolding read_refused split_at join_with
  cmdline pid = elim (host.read_file t (proc_path pid (codes "cmdline"))) [
    | refused e ↦ err (read_refused pid (codes "failed to read cmdline") e)
    | contents data' ↦ ok (trim (join_with (codes " ") (split_at 0 data')))
  ]

-- The command of an `Exec=` line: `env` and its settings do not count.
unfoldable pub exec_command : List Text → Option Text
unfolding find
exec_command [] = none
exec_command (cmd ∷ args) =
    if text_eq cmd (codes "env") then find (λ word. not (contains word b'=')) args else some cmd

unfoldable pub exec_name : Text → Option Text
unfolding exec_command split_whitespace
exec_name value = and_then (exec_command (split_whitespace value)) file_name

-- The loop over the lines; the flag says that the group is `[Desktop Entry]`. The first `Exec=`
-- line in it decides.
unfoldable pub exec_from_lines : Bool → List Text → Option Text
unfolding exec_name
exec_from_lines in_entry [] = none
exec_from_lines in_entry (line ∷ rest) =
    let s = trim line in
    let other = exec_from_lines (text_eq s (codes "[Desktop Entry]")) rest in
    let next = exec_from_lines in_entry rest in
    if starts_with (codes "[") s
    then other
    else if not in_entry
    then next
    else elim (strip_prefix (codes "Exec=") s) [ none ↦ next | some value ↦ exec_name value ]

unfoldable pub parse_exec_from_desktop : Text → Option Text
unfolding exec_from_lines lines
parse_exec_from_desktop content = exec_from_lines false (lines content)

-- `Path::extension` is `desktop`: there is something before the dot.
unfoldable pub is_desktop_file : Text → Bool
is_desktop_file name = elim (strip_prefix (reverse (codes ".desktop")) (reverse name)) [
  | none ↦ false
  | some stem ↦ not (is_empty stem)
]

abbrev pub DesktopIndex : Type 0
DesktopIndex = HashMap Text Text

module _ (host : Host) (t : Trace) where
  -- The directories with desktop files, in the order in which they are read.
  unfoldable pub desktop_dirs : List Text
  unfolding split_at
  desktop_dirs =
      map (λ d. join d (codes "applications"))
        (split_at b':'
          (unwrap_or (host.env (codes "XDG_DATA_DIRS")) (codes "/usr/local/share:/usr/share")))
      ++ elim (host.env (codes "XDG_DATA_HOME")) [
        | some data_home ↦ join data_home (codes "applications") ∷ []
        | none ↦ elim (host.env (codes "HOME")) [
          | some home ↦ join home (codes ".local/share/applications") ∷ []
          | none ↦ []
        ]
      ]

  -- One file: the desktop file's name, under the name of its executable.
  unfoldable pub index_content : Text → FileRead → DesktopIndex → DesktopIndex
  unfolding parse_exec_from_desktop
  index_content desktop_id (refused e) index = index
  index_content desktop_id (contents text) index = elim (parse_exec_from_desktop text) [
    | none ↦ index
    | some exec ↦ insert exec desktop_id index
  ]

  unfoldable pub index_dir : Text → List Text → DesktopIndex → DesktopIndex
  unfolding is_desktop_file index_content
  index_dir dir [] index = index
  index_dir dir (name ∷ names) index = index_dir dir names (
      if is_desktop_file name
      then index_content name (host.read_file t (join dir name)) index
      else index)

  unfoldable pub index_dirs : List Text → DesktopIndex → DesktopIndex
  unfolding index_dir
  index_dirs [] index = index
  index_dirs (dir ∷ dirs) index =
      index_dirs dirs
        (elim (host.read_dir t dir) [ none ↦ index | some names ↦ index_dir dir names index ])

  unfoldable pub build_desktop_index : DesktopIndex
  unfolding desktop_dirs index_dirs
  build_desktop_index = index_dirs desktop_dirs []
