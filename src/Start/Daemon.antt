-- ===== src/Start/Daemon.antt =====
-- `become_daemon` of src/server/sacagawea.c. The descriptors of the process are a table; what the
-- system calls answer is a parameter.
pub mod Streams
use sacagawea.Common.{
  zero, suc, suc, [], none, false, true, ◌∷◌, returns, if◌then◌else◌, Option, ◌>>=◌, some, exits,
  Bool, List, ℕ, Process,
}

-- What a descriptor is open on: something that it had before, or /dev/null for reading, for writing or
-- for both.
pub data File : Type 0 where
  before : ℕ → File
  null_read null_write null_both : File

-- Descriptor `i` is the element `i`; `none` is a closed one.
abbrev pub Table : Type 0
Table = List (Option File)

-- `fork` fails, or the code goes on in the child, or in the parent with the pid of the child.
pub data Fork : Type 0 where
  fork_failed in_child : Fork
  in_parent : ℕ → Fork

pub record DaemonAnswers : Type 0 where
  pub first_fork : Fork
  pub setsid_ok : Bool
  pub signal_ok : Bool
  pub second_fork : Fork
  pub chdir_ok : Bool
  pub stdin_ok : Bool
  pub stdout_ok : Bool
  pub stderr_ok : Bool

-- What of the process the function changes.
pub record ProcessState : Type 0 where
  pub table : Table
  pub umask : ℕ
  pub leads_session : Bool
  pub ignores_sighup : Bool

-- EXIT_FAILURE where a call fails.
abbrev require : Bool → Process (Unit {0})
require ok = if ok then returns tt else exits 1

-- EXIT_SUCCESS in the parent. A child leads no session.
pub fork_on : Fork → ProcessState → Process ProcessState
fork_on fork_failed p = exits 1
fork_on (in_parent pid) p = exits 0
fork_on in_child p = returns (record p { leads_session = false })

-- `close`, which fails on a descriptor that is not open.
pub close_fd : ℕ → Table → Process Table
close_fd fd [] = exits 1
close_fd zero (none ∷ t) = exits 1
close_fd zero (some f ∷ t) = returns (none ∷ t)
close_fd (suc fd) (slot ∷ t) = do t' ← close_fd fd t; returns (slot ∷ t')

-- `open` takes the lowest descriptor that is free.
pub open_fd : File → Table → Table
open_fd f [] = some f ∷ []
open_fd f (none ∷ t) = some f ∷ t
open_fd f (some g ∷ t) = some g ∷ open_fd f t

-- The standard descriptors are closed, and /dev/null is opened three times.
pub reopen_streams : DaemonAnswers → Table → Process Table
unfolding close_fd open_fd
reopen_streams a t = do
  t0 ← close_fd 0 t
  t1 ← close_fd 1 t0
  t2 ← close_fd 2 t1
  _ ← require a.stdin_ok
  _ ← require a.stdout_ok
  _ ← require a.stderr_ok
  returns (open_fd null_both (open_fd null_write (open_fd null_read t2)))

-- The two forks, with `setsid` and `signal` between them.
pub detach : DaemonAnswers → ProcessState → Process ProcessState
unfolding fork_on
detach a p = do
  child ← fork_on a.first_fork p
  _ ← require a.setsid_ok
  _ ← require a.signal_ok
  fork_on a.second_fork (record child { leads_session = true; ignores_sighup = true })

-- `umask(027)` is octal.
unfoldable pub become_daemon : DaemonAnswers → ProcessState → Process ProcessState
unfolding detach reopen_streams
become_daemon a p = do
  daemon ← detach a p
  _ ← require a.chdir_ok
  t ← reopen_streams a daemon.table
  returns (record daemon { umask = 23; table = t })
