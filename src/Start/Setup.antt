-- ===== src/Start/Setup.antt =====
-- What `main` of src/server/sacagawea.c sets up before it serves: the memory that it shares with the
-- log process, the log process and the handlers of signals; and `close_all`, which ends the server.
pub mod Stages
pub mod Quiet
use sacagawea.Common.{not, ◌==◌, ◌++◌, map, true, ◌∷◌, [], List, Bool, if◌then◌else◌, ℕ}
use sacagawea.Effects.{
  Stop, crashes, process_exit, stop, value, do_action, pure, Trace, ◌>>=◌, ◌>>◌,
}
use sacagawea.Server
use sacagawea.Server.{Event}
use sacagawea.Server.Reload.{SocketCall, shuts}
use sacagawea.Start.Daemon.{Fork, fork_failed, in_child, in_parent}

pub data Signal : Type 0 where
  sighup sigint sigterm sigalrm sigusr1 sigusr2 : Signal

-- `sighup_handler`, or `close_all`.
pub data Handler : Type 0 where
  reloads closes_down : Handler

-- What the server process does. `serves` is one round of `listen_descriptor`.
pub data Doing : Type 0 where
  ignores_sigchld becomes_daemon : Doing
  shares_memory sizes_memory maps_memory sets_cond_attr sets_mutex_attr inits_mutex inits_cond :
      Doing
  makes_pipe closes_read_end closes_write_end unlinks_memory frees_settings runs_log_process : Doing
  forks_log : ℕ → Doing
  kills : ℕ → Doing
  handles : Signal → Handler → Doing
  calls_socket : SocketCall → Doing
  serves : List Event → Doing

-- The globals that `close_all` reads: `settings->socket`, `logProcess`, `logs_proces_pid`, and whether
-- `condVar` points to the shared memory yet.
pub record Globals : Type 0 where
  pub socket : ℕ
  pub log_process : ℕ
  pub logs_proces_pid : ℕ
  pub mapped : Bool

-- SIGTERM for the process 0 is for the group of the server itself, which has no handler for it then: the
-- server ends with the call, for which a shell tells 143.
abbrev pub killed {ℓ} : {A : Type ℓ} → Stop A
killed = process_exit 143

-- A failure of one of its calls is only logged. Before the log process is made, both of its numbers are
-- 0, and the second one is until the read end is closed; before the memory is mapped, `condVar` is NULL.
unfoldable pub close_all : Globals → Trace Doing (Unit {0})
close_all g =
    if g.log_process == 0
    then (calls_socket (shuts g.socket) ∷ kills 0 ∷ [], killed)
    else if not g.mapped
    then (calls_socket (shuts g.socket) ∷ kills g.log_process ∷ [], crashes)
    else if g.logs_proces_pid == 0
    then (
      calls_socket (shuts g.socket) ∷ kills g.log_process ∷ closes_write_end ∷ kills 0 ∷ [],
      killed,
    )
    else (
      calls_socket (shuts g.socket)
          ∷ kills g.log_process
          ∷ closes_write_end
          ∷ kills g.logs_proces_pid
          ∷ unlinks_memory
          ∷ frees_settings
          ∷ [],
      process_exit 1,
    )

pub record SetupAnswers : Type 0 where
  pub shm_open_ok : Bool
  pub ftruncate_ok : Bool
  pub mmap_ok : Bool
  pub cond_attr_ok : Bool
  pub mutex_attr_ok : Bool
  pub mutex_ok : Bool
  pub cond_ok : Bool
  pub pipe_ok : Bool
  pub log_fork : Fork
  pub close_ok : Bool
  pub reload_mask_ok : Bool
  pub term_mask_ok : Signal → Bool
  pub term_empty_ok : Bool
  pub action_ok : Signal → Bool

-- A call whose failure ends the process with a code.
abbrev pub or_exit : ℕ → Bool → Doing → Trace Doing (Unit {0})
or_exit code ok d = if ok then do_action d else stop (process_exit code)

-- Such calls, one after the other.
pub or_exit_all : ℕ → List (Bool × Doing) → Trace Doing (Unit {0})
or_exit_all code [] = pure tt
or_exit_all code ((ok, d) ∷ calls) = or_exit code ok d >> or_exit_all code calls

-- A call whose failure calls `close_all`.
abbrev pub or_close : Globals → Bool → List Doing → Trace Doing (Unit {0})
or_close g ok t = if ok then (t, value tt) else close_all g

pub or_close_all : Globals → List (Bool × List Doing) → Trace Doing (Unit {0})
unfolding close_all
or_close_all g [] = pure tt
or_close_all g ((ok, t) ∷ calls) = or_close g ok t >> or_close_all g calls

-- The shared memory with its mutex and its condition variable, and the pipe.
pub share_calls : SetupAnswers → List (Bool × Doing)
share_calls a =
    (a.shm_open_ok, shares_memory)
    ∷ (a.ftruncate_ok, sizes_memory)
    ∷ (a.mmap_ok, maps_memory)
    ∷ (a.cond_attr_ok, sets_cond_attr)
    ∷ (a.mutex_attr_ok, sets_mutex_attr)
    ∷ (a.mutex_ok, inits_mutex)
    ∷ (a.cond_ok, inits_cond)
    ∷ (a.pipe_ok, makes_pipe)
    ∷ []

pub share_memory : SetupAnswers → Trace Doing (Unit {0})
unfolding or_exit_all share_calls
share_memory a = or_exit_all 5 (share_calls a)

abbrev pub with_log : ℕ → ℕ → Globals
with_log pid logs_pid = record {
  socket = 0;
  log_process = pid;
  logs_proces_pid = logs_pid;
  mapped = true;
}

-- The log process closes the write end and never comes back from `log_management`; the server closes
-- the read end. `logs_proces_pid` is set behind that.
pub start_log_process : Fork → Bool → Trace Doing ℕ
unfolding close_all
start_log_process fork_failed close_ok = stop (process_exit 5)
start_log_process in_child close_ok =
    if close_ok
    then (closes_write_end ∷ runs_log_process ∷ [], process_exit 0)
    else ([], process_exit 1)
start_log_process (in_parent pid) close_ok = do
  do_action (forks_log pid)
  or_close (with_log pid 0) close_ok (closes_read_end ∷ [])
  pure pid

abbrev pub term_signals : List Signal
term_signals = sigint ∷ sigterm ∷ sigalrm ∷ sigusr1 ∷ sigusr2 ∷ []

-- SIGHUP reloads; the signals that would end the process close the server. The masks are made first.
pub handler_calls : SetupAnswers → List (Bool × List Doing)
handler_calls a =
    (a.reload_mask_ok, [])
    ∷ (a.action_ok sighup, handles sighup reloads ∷ [])
    ∷ (a.term_empty_ok, [])
    ∷ (map (λ signal. (a.term_mask_ok signal, [])) (sighup ∷ term_signals)
        ++ map (λ signal. (a.action_ok signal, handles signal closes_down ∷ [])) term_signals)

pub set_handlers : SetupAnswers → Globals → Trace Doing (Unit {0})
unfolding or_close_all handler_calls
set_handlers a g = or_close_all g (handler_calls a)

unfoldable pub set_up : SetupAnswers → Trace Doing Globals
unfolding share_memory start_log_process set_handlers
set_up a = do
  share_memory a
  pid ← start_log_process a.log_fork a.close_ok
  set_handlers a (with_log pid pid)
  pure (with_log pid pid)
