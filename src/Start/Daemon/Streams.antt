-- ===== src/Start/Daemon/Streams.antt =====
-- What a process is after `become_daemon`.
use sacagawea.Common.{
  ◌∙◌, Bool, ◌>>=◌, >>=-eq-returns, none, true, [], false, ◌∷◌, returns, some, ◌≡◌, refl, arith,
}
use sacagawea.Start.Daemon.{
  detach, in_child, in_parent, fork_failed, require, Fork, fork_on, null_both, null_write,
  null_read, DaemonAnswers, ProcessState, Table, File, reopen_streams, become_daemon,
}

-- The three standard descriptors are /dev/null, for reading, for writing and for both; all other
-- descriptors are as they were, and the three were open before.
abbrev pub Reopened : Table → Table → Type 0
Reopened t u =
    (f : File) × (g : File) × (h : File) × (rest : Table) × (t ≡ some f ∷ some g ∷ some h ∷ rest)
    × (u ≡ some null_read ∷ some null_write ∷ some null_both ∷ rest)

reopen_streams-Reopened :
    (a : DaemonAnswers) (t : Table) {u : Table} → reopen_streams a t ≡ returns u → Reopened t u
unfolding reopen_streams
reopen_streams-Reopened a [] h = cc
reopen_streams-Reopened a (none ∷ t) h = cc
reopen_streams-Reopened a (some f ∷ []) h = cc
reopen_streams-Reopened a (some f ∷ none ∷ t) h = cc
reopen_streams-Reopened a (some f ∷ some g ∷ []) h = cc
reopen_streams-Reopened a (some f ∷ some g ∷ none ∷ t) h = cc
reopen_streams-Reopened a (some f ∷ some g ∷ some k ∷ t) h = (f, g, k, t, refl, ground arith)

detach-child :
    (a : DaemonAnswers) (p : ProcessState) {q : ProcessState}
    → detach a p ≡ returns q
    → (q.table ≡ p.table) × (q.leads_session ≡ false) × (q.ignores_sighup ≡ true)
unfolding detach
detach-child a p h = split a.first_fork a.setsid_ok a.signal_ok a.second_fork h
  where
    split :
        (f : Fork) (b c : Bool) (g : Fork) {q : ProcessState}
        → (fork_on f p >>= λ child. require b >>= λ _. require c >>= λ _.
            fork_on g (record child { leads_session = true; ignores_sighup = true }))
          ≡ returns q
        → (q.table ≡ p.table) × (q.leads_session ≡ false) × (q.ignores_sighup ≡ true)
    split fork_failed b c g e = cc
    split (in_parent pid) b c g e = cc
    split in_child false c g e = cc
    split in_child true false g e = cc
    split in_child true true fork_failed e = cc
    split in_child true true (in_parent pid) e = cc
    split in_child true true in_child e = ground arith

finish-Reopened :
    (a : DaemonAnswers) (d : ProcessState) {q : ProcessState}
    → (require a.chdir_ok >>= λ _.
        reopen_streams a d.table >>= λ t. returns (record d { umask = 23; table = t }))
      ≡ returns q
    → Reopened d.table q.table
      × (q.leads_session ≡ d.leads_session)
      × (q.ignores_sighup ≡ d.ignores_sighup)
      × (q.umask ≡ 23)
finish-Reopened a d {q} h =
    let (_, _, e) = >>=-eq-returns (require a.chdir_ok) _ h in
    let (t, reopened, last) = >>=-eq-returns (reopen_streams a d.table) _ e in
    let table_is : t ≡ q.table = ground arith in
    (
      rw table_is at (reopen_streams-Reopened a d.table reopened),
      ground arith,
      ground arith,
      ground arith,
    )

-- Where `become_daemon` returns, the process leads no session, so it cannot get a terminal back, it
-- ignores SIGHUP, its umask is octal 027, and its standard descriptors, which were open, are /dev/null
-- while all its other descriptors are as before.
pub become_daemon-Reopened :
    (a : DaemonAnswers) (p : ProcessState) {q : ProcessState}
    → become_daemon a p ≡ returns q
    → Reopened p.table q.table
      × (q.leads_session ≡ false)
      × (q.ignores_sighup ≡ true)
      × (q.umask ≡ 23)
unfolding become_daemon
become_daemon-Reopened a p h =
    let (d, detached, e) = >>=-eq-returns (detach a p) _ h in
    let (same, follows, ignores) = detach-child a p detached in
    let (reopened, leads, hup, mask) = finish-Reopened a d e in
    (rw same at reopened, leads ∙ follows, hup ∙ ignores, mask)
