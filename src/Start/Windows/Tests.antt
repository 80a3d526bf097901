-- ===== src/Start/Windows/Tests.antt =====
-- Starts of the server on Windows.

use sacagawea.Handoff.{process_management_win32}
use sacagawea.Server.{client_of}
use sacagawea.Start.Windows.Defaults.{start_settings_win32}
use sacagawea.Server.Windows.Accept.Served.{given}
use sacagawea.Children.{Client}
use sacagawea.Start.Windows.Loop.{
  universal_handler_win32, serve_loop_win32, open_listener_win32, console, wakes_win32,
}
use sacagawea.Regex.{do_regex_win32, do_regex}
use sacagawea.Start.Windows.Listener.{main_win32-ConsistentWin32}
use sacagawea.Server.Windows.Accept.{
  listen_descriptor_win32, not_a_socket, descriptors, WindowsConnection,
}
use sacagawea.Start.Windows.Quiet.{ConsistentWin32}
use sacagawea.Start.Windows.Main.{main_win32, WindowsMachine}
use sacagawea.Common.{
  decimal, starts_with, ◌++◌, map, arith, none, returns, some, List, ℕ, ◌∷◌, ◌≡◌, codes, [], true,
  false, refl,
}
use sacagawea.Effects.{process_exit, value}
use sacagawea.Start.Options.{read_options, default_hostname, write_at, atoi, port_arg}
use sacagawea.Config.{conf_lines, read_conf_file, missing, readable, Settings}
use sacagawea.Server.Windows.{
  port_to_string, open_socket_win32, WinsockAnswers, closes_listener, cleans_winsock,
}
use sacagawea.Start.Windows.{
  serves_win32, WindowsDoing, calls_winsock, frees_settings, ends_logger, ends_logger_thread,
  makes_logger, joins_job, kills_job_on_close, creates_job, StartAnswers, prepare_win32,
  console_event_handler,
}
use sacagawea.Start.Windows.Logger.{LoggerOwned, prepare_win32-LoggerOwned}

abbrev settings : Settings
settings = record {
  port = 7070;
  socket = 0;
  mode = b't';
  homedir = codes "/";
  hostname = codes "h";
}

-- The log process is made but does not come into the job.
abbrev no_job : StartAnswers
no_job = record {
  job_ok = true;
  limit_ok = true;
  self_ok = true;
  logger_ok = true;
  assign_ok = false;
  console_ok = true;
}

run_no_job : prepare_win32 no_job ([], value settings) ≡ (
  creates_job
      ∷ kills_job_on_close
      ∷ joins_job
      ∷ makes_logger
      ∷ calls_winsock (closes_listener 0)
      ∷ ends_logger_thread
      ∷ ends_logger
      ∷ calls_winsock cleans_winsock
      ∷ frees_settings
      ∷ [],
  process_exit 1,
)
unfolding prepare_win32
run_no_job = refl

run_close : console_event_handler false (λ s. ([], value s)) settings ≡ (
  calls_winsock (closes_listener 0)
      ∷ ends_logger_thread
      ∷ ends_logger
      ∷ calls_winsock cleans_winsock
      ∷ frees_settings
      ∷ [],
  process_exit 1,
)
unfolding console_event_handler
run_close = refl

prepare_win32-LoggerOwned_example : LoggerOwned [] (prepare_win32 no_job ([], value settings))
prepare_win32-LoggerOwned_example = prepare_win32-LoggerOwned no_job ([], value settings) tt

abbrev winsock_at : ℕ → WinsockAnswers
winsock_at sd = record {
  startup_ok = true;
  resolve_ok = true;
  listen_socket = some sd;
  nonblock_ok = true;
  reuse_ok = true;
  bind_ok = true;
  listen_ok = true;
}

abbrev client_at : ℕ → WindowsConnection
client_at sd = record {
  connection = record { new_s = sd; ip = codes "10.0.0.4"; sin_port = 27663; started = true };
  blocking_ok = true;
  handoff = record { mapping = some 4; view_ok = true; process_ok = true };
}

-- A client on the port of the command line; CTRL+BREAK moves the server to port 1234, where a second
-- client is served; then the console is closed.
abbrev machine : WindowsMachine
machine = record {
  start = record {
    job_ok = true;
    limit_ok = true;
    self_ok = true;
    logger_ok = true;
    assign_ok = true;
    console_ok = true;
  };
  cwd = some (codes "C:\\srv");
  host = none;
  group = λ p s. some (do_regex p s);
  opendir = λ path. true;
  file = readable (codes "mode p\n");
  opts = port_arg (codes "80") ∷ [];
  winsock = winsock_at 3;
  rounds =
      wakes_win32 (descriptors true) (client_at 7 ∷ [])
      ∷ console true (readable (codes "port 1234\n")) (winsock_at 5)
      ∷ wakes_win32 not_a_socket []
      ∷ wakes_win32 (descriptors true) (client_at 8 ∷ [])
      ∷ console false missing (winsock_at 6)
      ∷ [];
}

good_port : atoi (codes "80") ≡ returns 80
unfolding atoi
good_port = refl

main_win32-ConsistentWin32_example : ConsistentWin32 [] (main_win32 machine).0
main_win32-ConsistentWin32_example =
    main_win32-ConsistentWin32 machine ((80, good_port, omega arith, omega arith), tt)
      (tt, (tt, (tt, (tt, (tt, tt)))))

-- The ports that the clients of a run are told.
abbrev told_ports : List WindowsDoing → List ℕ
told_ports [] = []
told_ports (serves_win32 events ∷ t) =
    map (λ (c : Client). c.settings.port) (given events) ++ told_ports t
told_ports (_ ∷ t) = told_ports t

run_main_win32 :
    (told_ports (main_win32 machine).0 ≡ 80 ∷ 1234 ∷ []) × ((main_win32 machine).1 ≡ process_exit 1)
unfolding main_win32 prepare_win32 start_settings_win32 write_at default_hostname read_options
    read_conf_file do_regex do_regex_win32 starts_with conf_lines atoi open_socket_win32
    port_to_string listen_descriptor_win32 open_listener_win32 serve_loop_win32
    universal_handler_win32 console_event_handler client_of process_management_win32 decimal
run_main_win32 = (refl, refl)
