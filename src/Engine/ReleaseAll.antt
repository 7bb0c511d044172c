-- ===== src/Engine/ReleaseAll.antt =====
-- The journal's record when everything is released: `release_recorded_processes` of
-- crates/app-powerd-core/src/engine/ipc_handler.rs.
use app_powerd.Prelude.{
  ℕ, ◌≡◌, refl, ◌⊎◌, inl, inr, List, [], ◌∷◌, ◌++◌, map, true, false, Option, none, some, Text,
  text_eq, text_eq→eq, contains, nat_eq, ==_iff, subst, sym, In, In-append, In-of-contains,
  is_empty, contains-of-In, Bool-cases, get, text_key,
}
use app_powerd.Host.{
  Host, Trace, ProcessHandle, Errno, esrch, errno, sigcont, kill_called, fs_called, remove_file,
}
use app_powerd.Host.Log.{none_added, added, Extends-trans}
use app_powerd.System.Process.{SystemError, is_alive}
use app_powerd.System.Freeze.{valid_pid, classify, send_signal}
use app_powerd.System.Freeze.Reports.{Later}
use app_powerd.State.Journal.{recorded, retire, clear}
use app_powerd.State.Journal.Persist.{FreezeJournal, Entries, is_disabled}
use app_powerd.State.Journal.Ledger.{retire-recorded}
use app_powerd.State.Journal.Quiet.{retire-Quietly}
use app_powerd.State.Journal.Refinement.{longer-differs}
use app_powerd.Engine.{Engine}
use app_powerd.Engine.Release.{Later-of-Quietly}
use app_powerd.Engine.Shutdown.{
  Released, settle, release_one, release_procs, release_entries, clear_empty,
  release_recorded_processes,
}

-- The journal's processes, by application.
abbrev Listing : Type 0
Listing = List (Text × List ProcessHandle)

abbrev pub listing : Engine → Listing
listing e = map (λ p. (p.1.app_id, p.1.procs)) e.journal.entries

-- The process stands in the listing under the application.
abbrev pub IsListed : Listing → Text → ProcessHandle → Type 0
IsListed es k g = (procs : List ProcessHandle) × (In (k, procs) es × In g procs)

module _ (host : Host) (es : Listing) (start : Trace) where
  -- Between `start` and `t` a process that the listing has for `k` under the PID was found dead, or
  -- found alive and SIGCONT reached it then.
  abbrev pub IsSettled : Text → Trace → ℕ → Type 0
  IsSettled k t pid =
      (g : ProcessHandle) × (IsListed es k g
        × ((g.pid ≡ pid)
            × ((at : Trace) × (Later start at
                  × (((is_alive host at g ≡ false) × Later at t)
                      ⊎ ((is_alive host at g ≡ true)
                          × Later (kill_called pid sigcont none ∷ at) t))))))

  IsSettled-Later :
      (k : Text) (a b : Trace) (pid : ℕ) → Later a b → IsSettled k a pid → IsSettled k b pid
  IsSettled-Later k a b pid l (g, (i, (s, (at, (f, inl (d, m)))))) =
      (g, (i, (s, (at, (f, inl (d, Extends-trans m l))))))
  IsSettled-Later k a b pid l (g, (i, (s, (at, (f, inr (d, m)))))) =
      (g, (i, (s, (at, (f, inr (d, Extends-trans m l))))))

  abbrev AreSettled : Text → Trace → List ℕ → Type 0
  AreSettled k t pids = (pid : ℕ) → In pid pids → IsSettled k t pid

  AreSettled-Later :
      (k : Text) (a b : Trace) (pids : List ℕ)
      → Later a b
      → AreSettled k a pids
      → AreSettled k b pids
  AreSettled-Later k a b pids l s = λ pid i. IsSettled-Later k a b pid l (s pid i)

  one_more :
      (k : Text) (t : Trace) (pids : List ℕ) (pid : ℕ)
      → AreSettled k t pids
      → IsSettled k t pid
      → AreSettled k t (pids ++ pid ∷ [])
  one_more k t pids pid s x = λ p i. elim (In-append p pids (pid ∷ []) i) [
    | inl old ↦ s p old
    | inr (inl here) ↦ subst (λ q. IsSettled k t q) (sym here) x
    | inr (inr no') ↦ absurd no'
  ]

  settle-AreSettled :
      (k : Text) (t : Trace) (pid : ℕ) (o : Option SystemError) (r : Released)
      → (o ≡ none → IsSettled k t pid)
      → AreSettled k t r.settled
      → AreSettled k t (settle pid o r).settled
  unfolding settle
  settle-AreSettled k t pid none r w s = one_more k t r.settled pid s (w refl)
  settle-AreSettled k t pid (some e) r w s = s

  answered :
      (k : Text) (h : ProcessHandle) (o : Option Errno) (t : Trace)
      → IsListed es k h
      → Later start t
      → is_alive host t h ≡ true
      → classify h.pid o ≡ none
      → IsSettled k (kill_called h.pid sigcont o ∷ t) h.pid
  unfolding classify
  answered k h none t i f a e = (h, (i, (refl, (t, (f, inr (a, none_added))))))
  answered k h (some esrch) t i f a e = cc
  answered k h (some (errno x)) t i f a e = cc

  -- `r` grows to `r'` from `a` to `b`, and still counts nobody as settled without a reason.
  abbrev IsHonest : Text → Trace → Trace → Released → Released → Type 0
  IsHonest k a b r r' = Later a b × (AreSettled k a r.settled → AreSettled k b r'.settled)

  release_one-IsHonest :
      (k : Text) (h : ProcessHandle) (r : Released) (t : Trace)
      → IsListed es k h
      → Later start t
      → let s = release_one host h r t in IsHonest k t s.1 r s.0
  unfolding release_one send_signal settle
  release_one-IsHonest k h r t i f = elim (Bool-cases (is_alive host t h)) [
    | inl a ↦ elim (Bool-cases (valid_pid h.pid)) [
      | inl v ↦
          let o = host.kill t h.pid sigcont in
          let l : Later t (kill_called h.pid sigcont o ∷ t) =
            added (kill_called h.pid sigcont o) tt none_added in
          rw (a, v)
            (
              l,
              λ s.
                  settle-AreSettled k (kill_called h.pid sigcont o ∷ t) h.pid (classify h.pid o) r
                    (answered k h o t i f a) (AreSettled-Later k t _ r.settled l s),
            )
      | inr v ↦ rw (a, v) (none_added, λ s. s)
    ]
    | inr d ↦
        let dead : IsSettled k t h.pid = (h, (i, (refl, (t, (f, inl (d, none_added)))))) in
        rw d (none_added, λ s. one_more k t r.settled h.pid s dead)
  ]

  release_procs-IsHonest :
      (k : Text) (procs : List ProcessHandle) (r : Released) (t : Trace)
      → ((h : ProcessHandle) → In h procs → IsListed es k h)
      → Later start t
      → let s = release_procs host procs r t in IsHonest k t s.1 r s.0
  unfolding release_procs
  release_procs-IsHonest k [] r t i f = (none_added, λ s. s)
  release_procs-IsHonest k (h ∷ procs) r t i f =
      let one = release_one host h r t in
      let here = release_one-IsHonest k h r t (i h (inl refl)) f in
      let rest =
        release_procs-IsHonest k procs one.0 one.1 (λ g m. i g (inr m)) (Extends-trans f here.0) in
      (Extends-trans here.0 rest.0, λ s. rest.1 (here.1 s))

  -- A process that one journal records is recorded by the other still, or is settled.
  abbrev IsAccounted : Text → ProcessHandle → FreezeJournal → FreezeJournal → Trace → Type 0
  IsAccounted k h j j' t =
      In h (recorded k j.entries) → In h (recorded k j'.entries) ⊎ IsSettled k t h.pid

  module _ (k : Text) (h : ProcessHandle) where
    retire-IsAccounted :
        (j : FreezeJournal) (key : Text) (done : List ℕ) (t : Trace)
        → AreSettled key t done
        → IsAccounted k h j (retire host j key done t).0.0 (retire host j key done t).1
    retire-IsAccounted j key done t s i =
        let later = Later-of-Quietly t _ (retire-Quietly host j key done t) in
        elim (Bool-cases (text_eq key k)) [
          | inl same ↦ elim (Bool-cases (contains done h.pid)) [
            | inl c ↦
                let settled = s h.pid (In-of-contains (λ a b. (==_iff a b).0) done h.pid c) in
                inr (
                  IsSettled-Later k t _ h.pid later
                    (subst (λ n. IsSettled n t h.pid) (text_eq→eq key k same) settled))
            | inr c ↦
                let own =
                  (retire-recorded host j key (0 ∷ key) (longer-differs 0 key) done t h).0.1 in
                let left : ¬ In h.pid done = λ m. let there = contains-of-In done h.pid m in cc in
                let keeps =
                  subst
                    (λ n.
                      In h (recorded n j.entries)
                      → In h (recorded n (retire host j key done t).0.0.entries))
                    (text_eq→eq key k same) (λ m. own (m, left)) in
                inl (keeps i)
          ]
          | inr d ↦ inl (rw (retire-recorded host j key k d done t h).1 i)
        ]

    release_entries-IsAccounted :
        (rest : Listing) (j : FreezeJournal) (released stuck : ℕ) (t : Trace)
        → ((p : Text × List ProcessHandle) → In p rest → In p es)
        → Later start t
        → let s = release_entries host rest j released stuck t in
          Later t s.1 × IsAccounted k h j s.0.0 s.1
    unfolding release_entries
    release_entries-IsAccounted [] j released stuck t i f = (none_added, λ m. inl m)
    release_entries-IsAccounted ((key, procs) ∷ rest) j released stuck t i f =
        let begin : Released = record { settled = []; released = released; stuck = stuck } in
        let ps = release_procs host procs begin t in
        let honest =
          release_procs-IsHonest key procs begin t (λ g m. (procs, (i (key, procs) (inl refl), m)))
            f in
        let r = retire host j key ps.0.settled ps.1 in
        let one = retire-IsAccounted j key ps.0.settled ps.1 (honest.1 (λ pid m. absurd m)) in
        let later = Later-of-Quietly ps.1 r.1 (retire-Quietly host j key ps.0.settled ps.1) in
        let so_far = Extends-trans honest.0 later in
        let others =
          release_entries-IsAccounted rest r.0.0 ps.0.released ps.0.stuck r.1 (λ p m. i p (inr m))
            (Extends-trans f so_far) in
        (
          Extends-trans so_far others.0,
          λ m. elim (one m) [
            | inl still ↦ others.1 still
            | inr done ↦ inr (IsSettled-Later k r.1 _ h.pid others.0 done)
          ],
        )

    recorded_empty : (m : Entries) → is_empty m ≡ true → In h (recorded k m) → ⊥
    unfolding recorded get
    recorded_empty [] e i = i
    recorded_empty (p ∷ m) e i = cc

    clear_empty-IsAccounted :
        (j : FreezeJournal) (t : Trace)
        → let s = clear_empty host j t in Later t s.1 × IsAccounted k h j s.0 s.1
    unfolding clear_empty clear
    clear_empty-IsAccounted j t = elim (Bool-cases (is_empty j.entries)) [
      | inr full ↦ rw full (none_added, λ i. inl i)
      | inl e ↦ elim (Bool-cases (is_disabled j)) [
        | inl off ↦ rw (e, off) (none_added, λ i. absurd (recorded_empty j.entries e i))
        | inr on ↦
            let removed = fs_called (remove_file j.path) (host.fs t (remove_file j.path)) in
            rw (e, on) (added removed tt none_added, λ i. absurd (recorded_empty j.entries e i))
      ]
    ]

-- Releasing everything loses nobody: a process that the journal recorded is recorded still, or in
-- the course of the release a process recorded for the same application under the same PID was
-- found dead, or was found alive and SIGCONT reached it.
pub release_recorded_processes-accounted :
    (host : Host) (e : Engine) (t : Trace) (k : Text) (h : ProcessHandle)
    → In h (recorded k e.journal.entries)
    → let r = release_recorded_processes host e t in
      In h (recorded k r.0.0.journal.entries) ⊎ IsSettled host (listing e) t k r.1 h.pid
unfolding release_recorded_processes
release_recorded_processes-accounted host e t k h i =
    let es = listing e in
    let r = release_entries host es e.journal 0 0 t in
    let all = release_entries-IsAccounted host es t k h es e.journal 0 0 t (λ p m. m) none_added in
    let cleared = clear_empty-IsAccounted host es t k h r.0.0 r.1 in
    elim (all.1 i) [
      | inl still ↦ cleared.1 still
      | inr done ↦ inr (IsSettled-Later host es t k r.1 _ h.pid cleared.0 done)
    ]
