-- ===== src/Start/Windows.antt =====
-- The Windows branches of src/server/sacagawea.c: the job object, the log process, `close_all` and the
-- handler of the console's events. What the calls of Windows answer is a parameter.
pub mod Logger
pub mod Defaults
pub mod Loop
pub mod Main
pub mod Quiet
pub mod Consistency
pub mod Listener
mod Tests
use sacagawea.Server.Windows.{WinsockCall, closes_listener, cleans_winsock}
use sacagawea.Server.Windows.Accept.{AcceptEvent}
use sacagawea.Common.{List, false, true, if◌then◌else◌, ◌∷◌, Bool, ℕ, []}
use sacagawea.Effects.{stop, do_action, process_exit, pure, ◌>>◌, ◌>>=◌, Trace}
use sacagawea.Config.{Settings}

pub data WindowsDoing : Type 0 where
  creates_job kills_job_on_close joins_job makes_logger logger_joins_job handles_console :
      WindowsDoing
  ends_logger_thread ends_logger frees_settings : WindowsDoing
  calls_winsock : WinsockCall → WindowsDoing
  serves_win32 : List AcceptEvent → WindowsDoing

-- A failure of one of its calls is only logged.
pub close_all_win32 : ℕ → Trace WindowsDoing (Unit {0})
close_all_win32 socket = (
  calls_winsock (closes_listener socket)
      ∷ ends_logger_thread
      ∷ ends_logger
      ∷ calls_winsock cleans_winsock
      ∷ frees_settings
      ∷ [],
  process_exit 1,
)

pub record StartAnswers : Type 0 where
  pub job_ok : Bool
  pub limit_ok : Bool
  pub self_ok : Bool
  pub logger_ok : Bool
  pub assign_ok : Bool
  pub console_ok : Bool

abbrev pub or_exit_1 : Bool → WindowsDoing → Trace WindowsDoing (Unit {0})
or_exit_1 ok d = if ok then do_action d else stop (process_exit 1)

-- The beginning of `main`: all that this process makes ends with it.
pub make_job : StartAnswers → Trace WindowsDoing (Unit {0})
make_job a = do
  or_exit_1 a.job_ok creates_job
  or_exit_1 a.limit_ok kills_job_on_close
  or_exit_1 a.self_ok joins_job

-- A call whose failure closes the server, whose socket is not open yet.
pub or_close_win32 : Bool → WindowsDoing → Trace WindowsDoing (Unit {0})
unfolding close_all_win32
or_close_win32 ok d = if ok then do_action d else close_all_win32 0

pub make_logger : StartAnswers → Trace WindowsDoing (Unit {0})
unfolding or_close_win32
make_logger a = do
  or_close_win32 a.logger_ok makes_logger
  or_close_win32 a.assign_ok logger_joins_job

-- What `main` does in front of `open_socket`; the settings are read between the job and the log
-- process, by `configure`.
pub prepare_win32 : StartAnswers → Trace WindowsDoing Settings → Trace WindowsDoing Settings
unfolding make_job make_logger
prepare_win32 a configure = do
  make_job a
  s ← configure
  make_logger a
  or_close_win32 a.console_ok handles_console
  pure s

-- CTRL+BREAK reloads (`universal_handler`, here `reload`), and every other event closes the server.
unfoldable pub console_event_handler :
    Bool → (Settings → Trace WindowsDoing Settings) → Settings → Trace WindowsDoing Settings
unfolding close_all_win32
console_event_handler true reload s = reload s
console_event_handler false reload s = close_all_win32 s.socket >>= λ _. pure s
