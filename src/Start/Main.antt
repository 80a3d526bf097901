-- ===== src/Start/Main.antt =====
-- `main` of src/server/sacagawea.c (the Linux branches).
pub mod Ready
pub mod Listener
mod Tests
use sacagawea.Common.{true, none, map, some, List, Option, false, Bool, Bytes}
use sacagawea.Effects.{after, do_action, crashes, pure_process, pure, stop, Trace, ◌>>=◌, ◌>>◌}
use sacagawea.Config.{Settings, ConfFile}
use sacagawea.Server.Reload.{SocketAnswers, open_socket}
use sacagawea.Start.Options.{Opt, start_settings}
use sacagawea.Start.Daemon.{DaemonAnswers, ProcessState, become_daemon}
use sacagawea.Start.Setup.{
  calls_socket, becomes_daemon, ignores_sigchld, or_exit, Doing, Globals, close_all, SetupAnswers,
  set_up,
}
use sacagawea.Start.Loop.{Round, serve_loop}

-- All that the system, the file, the command line and the clients answer. No `cwd` means that
-- `getcwd` fails, no `host` that `gethostname` does.
pub record Machine : Type 0 where
  pub sigchld_ok : Bool
  pub cwd : Option Bytes
  pub host : Option Bytes
  pub opendir : Bytes → Bool
  pub file : ConfFile
  pub opts : List Opt
  pub process : ProcessState
  pub daemon : DaemonAnswers
  pub setup : SetupAnswers
  pub sockets : SocketAnswers
  pub rounds : List Round

-- The globals before anything is set up.
abbrev pub early : Globals
early = record { socket = 0; log_process = 0; logs_proces_pid = 0; mapped = false }

-- The working directory, the file and the options.
read_settings : Machine → Option Bytes → Trace Doing (Settings × Bool)
unfolding start_settings close_all
read_settings w none = close_all early >>= λ _. stop crashes
read_settings w (some cwd) = pure_process (start_settings w.opendir w.file cwd w.host w.opts)

-- Without -d the process becomes a daemon.
daemonize : Machine → Bool → Trace Doing (Unit {0})
unfolding become_daemon
daemonize w true = pure tt
daemonize w false =
    pure_process (become_daemon w.daemon w.process) >>= λ _. do_action becomes_daemon

-- The listening socket, with which the settings are complete.
open_listener : Machine → Settings → Trace Doing Settings
unfolding open_socket
open_listener w s = pure_process (open_socket w.sockets s) >>= λ (sd, calls).
    after (map calls_socket calls) (pure (record s { socket = sd }))

-- Everything in front of the loop.
pub prepare : Machine → Trace Doing Settings
unfolding read_settings daemonize open_listener set_up
prepare w = do
  or_exit 1 w.sigchld_ok ignores_sigchld
  (s, debug_mode) ← read_settings w w.cwd
  daemonize w debug_mode
  _ ← set_up w.setup
  open_listener w s

-- SIGHUP is handled when the loop begins, whatever `become_daemon` set. `listen_descriptor` never
-- returns 0, so nothing follows the loop.
pub main : Machine → Trace Doing (Unit {0})
unfolding prepare serve_loop
main w = prepare w >>= λ s. serve_loop w.opendir s false w.rounds
