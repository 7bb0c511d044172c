-- ===== src/System/Tree.antt =====
-- The tree of processes: `descendant_pids` (system/process.rs) and `expand_tree` (system/freeze.rs).
pub mod Complete
use app_powerd.Prelude.{
  ℕ, zero, suc, List, [], ◌∷◌, ◌++◌, Option, none, some, Text, reverse, contains, nat_eq,
  parse_unsigned, if◌then◌else◌,
}
use app_powerd.Host.{Host, Trace, ProcessHandle}
use app_powerd.System.Process.{split_whitespace, open_process}

-- The words that are 32-bit numbers.
unfoldable pub numbers : List Text → List ℕ
numbers [] = []
numbers (w ∷ ws) = elim (parse_unsigned 32 w) [ none ↦ numbers ws | some n ↦ n ∷ numbers ws ]

unfoldable pub listed_children : List (Option Text) → List ℕ
unfolding numbers split_whitespace
listed_children [] = []
listed_children (none ∷ files) = listed_children files
listed_children (some text ∷ files) = numbers (split_whitespace text) ++ listed_children files

unfoldable pub children_of : Host → Trace → ℕ → List ℕ
unfolding listed_children
children_of host t pid = elim (host.read_children t pid) [
  | none ↦ []
  | some files ↦ listed_children files
]

-- The walk, the top of the stack first. The fuel is the number of processes that there is time to
-- visit; `none` means that it ran out.
unfoldable pub walk : Host → Trace → ℕ → List ℕ → List ℕ → Option (List ℕ)
walk host t fuel [] found = some found
walk host t zero (pid ∷ stack) found = none
walk host t (suc fuel) (pid ∷ stack) found =
    let children = children_of host t pid in
    walk host t fuel (reverse children ++ stack) (found ++ children)

unfoldable pub descendant_pids : Host → Trace → ℕ → ℕ → Option (List ℕ)
unfolding walk
descendant_pids host t fuel pid = walk host t fuel (pid ∷ []) []

-- One candidate of the inner loop: seen once, and kept if it can be identified.
unfoldable pub keep_candidates :
    Host → Trace → List ℕ → List ProcessHandle → List ℕ → List ℕ × List ProcessHandle
keep_candidates host t seen handles [] = (seen, handles)
keep_candidates host t seen handles (pid ∷ pids) =
    keep_candidates host t (if contains seen pid then seen else pid ∷ seen)
      (if contains seen pid
        then handles
        else elim (open_process host t pid) [ none ↦ handles | some h ↦ handles ++ h ∷ [] ])
      pids

unfoldable pub expand_from :
    Host → Trace → ℕ → List ℕ → List ProcessHandle → List ℕ → Option (List ProcessHandle)
expand_from host t fuel seen handles [] = some handles
expand_from host t fuel seen handles (pid ∷ roots) = elim (descendant_pids host t fuel pid) [
  | none ↦ none
  | some below ↦
      let kept = keep_candidates host t seen handles (pid ∷ below) in
      expand_from host t fuel kept.0 kept.1 roots
]

unfoldable pub expand_tree : Host → Trace → ℕ → List ℕ → Option (List ProcessHandle)
unfolding expand_from
expand_tree host t fuel roots = expand_from host t fuel [] [] roots
