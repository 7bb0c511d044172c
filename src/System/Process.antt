-- ===== src/System/Process.antt =====
-- Process identity: crates/app-powerd-core/src/system/process.rs.
pub mod Identity
use app_powerd.Prelude.{
  ℕ, zero, suc, ◌≡◌, List, [], ◌∷◌, ◌++◌, Bool, true, false, Option, none, some, Text, ◌==◌,
  is_space, is_empty, parse_unsigned, and_then, option_map, get_elem?, reverse, if◌then◌else◌,
}
use app_powerd.Host.{Host, Trace, ProcessHandle}

pub data SystemError : Type 0 where
  process_not_found : ℕ → SystemError
  process_gone : ℕ → SystemError
  process_read_error : ℕ → Text → SystemError
  cgroup_error : SystemError
  cgroup_operation : SystemError
  no_cgroup_capability : SystemError
  nix : ℕ → SystemError

-- The text behind the last `)`, if there is one: `&stat[stat.rfind(')')? + 1..]`.
unfoldable pub behind_last_paren : Text → Option Text
behind_last_paren [] = none
behind_last_paren (c ∷ s) = elim (behind_last_paren s) [
  | some tail ↦ some tail
  | none ↦ if c == b')' then some s else none
]

-- `split_whitespace`, the word at hand kept backwards in `word`.
unfoldable pub words_from : Text → Text → List Text
words_from word [] = if is_empty word then [] else reverse word ∷ []
words_from word (c ∷ s) =
    let ended = words_from [] s in
    let longer = words_from (c ∷ word) s in
    if is_space c then (if is_empty word then ended else reverse word ∷ ended) else longer

unfoldable pub split_whitespace : Text → List Text
unfolding words_from
split_whitespace s = words_from [] s

-- Field 22 of the record, which is the word with index 19 behind the command's name.
unfoldable pub parse_starttime : Text → Option ℕ
unfolding behind_last_paren split_whitespace
parse_starttime stat =
    and_then (behind_last_paren stat)
      λ tail. and_then (get_elem? (split_whitespace tail) 19) (parse_unsigned 64)

unfoldable pub read_starttime : Host → Trace → ℕ → Option ℕ
read_starttime host t pid = and_then (host.read_stat t pid) parse_starttime

-- `ProcessHandle::open`: process 0 has no identity.
unfoldable pub open_process : Host → Trace → ℕ → Option ProcessHandle
open_process host t pid =
    if pid == 0
    then none
    else option_map (λ starttime. record { pid = pid; starttime = starttime })
        (read_starttime host t pid)

-- `ProcessHandle::is_alive`.
unfoldable pub is_alive : Host → Trace → ProcessHandle → Bool
is_alive host t handle = elim (read_starttime host t handle.pid) [
  | some starttime ↦ starttime == handle.starttime
  | none ↦ false
]

unfoldable pub is_owned_pid : Host → Trace → ℕ → Bool
is_owned_pid host t pid = elim (host.proc_uid t pid) [
  | some owner ↦ owner == host.uid
  | none ↦ false
]

abbrev pub is_owned : Host → Trace → ProcessHandle → Bool
is_owned host t handle = is_owned_pid host t handle.pid
