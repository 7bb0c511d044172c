-- ===== src/Host/Disk.antt =====
-- The content of files as the calls in a trace leave it, by the documented behaviour of POSIX
-- files: a rename puts one file in the place of another in one step.
use app_powerd.Prelude.{[], ◌∷◌, ◌++◌, Option, none, some, Text, text_eq, unwrap_or, if◌then◌else◌}
use app_powerd.Host.Effects.{
  Trace, FsCall, IoError, fs_called, open_truncated, write_all, rename, remove_file, write,
}

-- `torn` says what a write that failed half-way leaves; `start` what was there at first.
module _ (torn : Trace → Text → Option Text) (start : Text → Option Text) where
  unfoldable pub after_call :
      FsCall → Option IoError → (Text → Option Text) → Trace → Text → Option Text
  after_call (open_truncated q) none before t p = if text_eq q p then some [] else before p
  after_call (write_all q s) none before t p =
      if text_eq q p then some (unwrap_or (before p) [] ++ s) else before p
  after_call (write q s) none before t p = if text_eq q p then some s else before p
  after_call (rename q r) none before t p =
      if text_eq r p then before q else if text_eq q p then none else before p
  after_call (remove_file q) none before t p = if text_eq q p then none else before p
  after_call (open_truncated q) (some e) before t p = if text_eq q p then torn t p else before p
  after_call (write_all q s) (some e) before t p = if text_eq q p then torn t p else before p
  after_call (write q s) (some e) before t p = if text_eq q p then torn t p else before p
  after_call c r before t p = before p

  unfoldable pub disk : Trace → Text → Option Text
  disk [] p = start p
  disk (fs_called c r ∷ t) p = after_call c r (disk t) t p
  disk (e ∷ t) p = disk t p
