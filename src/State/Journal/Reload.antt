-- ===== src/State/Journal/Reload.antt =====
-- Writing the journal and reading it back: `persist` and `load` of
-- crates/app-powerd-core/src/state/journal.rs.
use app_powerd.Prelude.{
  ◌≡◌, refl, sym, ap, ◌∙◌, [], ◌∷◌, ◌++◌, false, Option, none, some, Text, codes, text_eq, text_key,
  insert, NoKey, Distinct, values,
}
use app_powerd.Host.{Host, Trace, JournalEntry, JournalFile, contents}
use app_powerd.Host.Disk.{disk}
use app_powerd.State.Journal.Persist.{Entries, FreezeJournal, file_of, is_disabled, persist}
use app_powerd.State.Journal.Recover.{ok, collect_from, read_journal, load}
use app_powerd.State.Journal.Durable.{persist-Written}

-- Each entry stands under its application's key.
abbrev pub IsKeyed : Entries → Type 0
IsKeyed [] = Unit
IsKeyed ((k, e) ∷ m) = (e.app_id ≡ k) × IsKeyed m

append_nil : (m : Entries) → m ++ [] ≡ m
append_nil [] = refl
append_nil (p ∷ m) = ap (λ r. p ∷ r) (append_nil m)

append_one : (m : Entries) (p : Text × JournalEntry) (n : Entries) → (m ++ p ∷ []) ++ n ≡ m ++ p ∷ n
append_one [] p n = refl
append_one (q ∷ m) p n = ap (λ r. q ∷ r) (append_one m p n)

insert-new :
    (k : Text) (e : JournalEntry) (m : Entries) → NoKey k m → insert k e m ≡ m ++ (k, e) ∷ []
unfolding insert
insert-new k e [] n = refl
insert-new k e ((j, x) ∷ m) n =
    rw (text_key.same_sym j k, n.0) (ap (λ r. (j, x) ∷ r) (insert-new k e m n.1))

-- No key of the second stands in the first.
abbrev AreApart : Entries → Entries → Type 0
AreApart acc [] = Unit
AreApart acc ((k, e) ∷ m) = NoKey k acc × AreApart acc m

NoKey-snoc :
    (j k : Text) (e : JournalEntry) (acc : Entries)
    → NoKey j acc
    → text_eq j k ≡ false
    → NoKey j (acc ++ (k, e) ∷ [])
NoKey-snoc j k e [] n d = (d, tt)
NoKey-snoc j k e ((i, x) ∷ acc) n d = (n.0, NoKey-snoc j k e acc n.1 d)

AreApart-snoc :
    (k : Text) (e : JournalEntry) (acc m : Entries)
    → NoKey k m
    → AreApart acc m
    → AreApart (acc ++ (k, e) ∷ []) m
AreApart-snoc k e acc [] n a = tt
AreApart-snoc k e acc ((j, x) ∷ m) n a =
    (NoKey-snoc j k e acc a.0 (rw (text_key.same_sym j k) n.0), AreApart-snoc k e acc m n.1 a.1)

collect_from-values :
    (acc m : Entries)
    → IsKeyed m
    → Distinct m
    → AreApart acc m
    → collect_from acc (values m) ≡ acc ++ m
unfolding collect_from
collect_from-values acc [] k d a = sym (append_nil acc)
collect_from-values acc ((j, e) ∷ m) k d a =
    let later =
      collect_from-values (acc ++ (j, e) ∷ []) m k.1 d.1 (AreApart-snoc j e acc m d.0 a.1) in
    let named : insert e.app_id e acc ≡ acc ++ (j, e) ∷ [] =
      ap (λ (x : Text). insert x e acc) k.0 ∙ insert-new j e acc a.0 in
    ap (λ (x : Entries). collect_from x (values m)) named ∙ later ∙ append_one acc (j, e) m

AreApart-nil : (m : Entries) → AreApart [] m
AreApart-nil [] = tt
AreApart-nil (p ∷ m) = (tt, AreApart-nil m)

module _ (torn : Trace → Text → Option Text) (start : Text → Option Text) (host : Host)
    (j : FreezeJournal) (t : Trace)
    -- serde_json reads what it wrote.
    (parses : (file : JournalFile) (json : Text)
      → host.to_json file ≡ some json
      → host.from_json json ≡ some file)
    -- A file is read as it stands.
    (reads : (at : Trace) (path text : Text)
      → disk torn start at path ≡ some text
      → host.read_file at path ≡ contents text)
    (json : Text) (printed : host.to_json (file_of j) ≡ some json)
    (apart : text_eq (host.with_extension j.path (codes "json.tmp")) j.path ≡ false)
    (on : is_disabled j ≡ false) (keyed : IsKeyed j.entries) (distinct : Distinct j.entries) where
  reread :
      (persist host j t).0.1 ≡ none
      → read_journal host (persist host j t).1 j.path ≡ ok (some (file_of j))
  unfolding read_journal
  reread written =
      let after = (persist host j t).1 in
      let there = (persist-Written torn start host j apart t on).1 written in
      rw (reads after j.path json (there ∙ printed), read_journal)
        (rw (parses (file_of j) json printed) refl)

  -- A journal whose write reported success is read back as it was, entry for entry, by `load`; this
  -- is for a journal that is in use, with different keys, each that of its entry, which serde_json
  -- can print and read, and a temporary file beside the journal's.
  pub load-persist : (persist host j t).0.1 ≡ none → load host (persist host j t).1 j.path ≡ ok j
  unfolding load
  load-persist written =
      rw (reread written, load)
        (ap (λ (m : Entries). ok (record { path = j.path; entries = m }))
          (collect_from-values [] j.entries keyed distinct (AreApart-nil j.entries)))
