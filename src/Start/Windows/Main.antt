-- ===== src/Start/Windows/Main.antt =====
-- `main` of src/server/sacagawea.c on Windows, from the job object to the loop.
use sacagawea.Common.{some, none, List, Option, Bool, Bytes}
use sacagawea.Effects.{crashes, pure_process, stop, Trace, ◌>>=◌}
use sacagawea.Regex.{Pattern}
use sacagawea.Config.{Settings, ConfFile}
use sacagawea.Server.Windows.{WinsockAnswers}
use sacagawea.Start.Options.{Opt}
use sacagawea.Start.Windows.{WindowsDoing, StartAnswers, close_all_win32, prepare_win32}
use sacagawea.Start.Windows.Defaults.{start_settings_win32}
use sacagawea.Start.Windows.Loop.{WindowsRound, open_listener_win32, serve_loop_win32}

-- What the system, PCRE2, the file, the command line and the clients answer. No `cwd` means that
-- `GetCurrentDirectoryA` fails, no `host` that `GetComputerNameA` does.
pub record WindowsMachine : Type 0 where
  pub start : StartAnswers
  pub cwd : Option Bytes
  pub host : Option Bytes
  pub group : Pattern → Bytes → Option Bytes
  pub opendir : Bytes → Bool
  pub file : ConfFile
  pub opts : List Opt
  pub winsock : WinsockAnswers
  pub rounds : List WindowsRound

unfoldable pub configure : WindowsMachine → Option Bytes → Trace WindowsDoing Settings
unfolding close_all_win32
configure w none = close_all_win32 0 >>= λ _. stop crashes
configure w (some cwd) =
    pure_process (start_settings_win32 w.group w.opendir w.file cwd w.host w.opts)

-- `listen_descriptor` never returns 0, so nothing follows the loop.
unfoldable pub main_win32 : WindowsMachine → Trace WindowsDoing (Unit {0})
unfolding configure
main_win32 w = do
  s ← prepare_win32 w.start (configure w w.cwd)
  t ← open_listener_win32 w.winsock s
  serve_loop_win32 w.group w.opendir t w.rounds
