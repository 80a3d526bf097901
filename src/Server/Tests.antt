-- ===== src/Server/Tests.antt =====
-- Runs of the server, and its theorems at concrete connections.
use sacagawea.Effects.{process_exit}
use sacagawea.Gopher.Menu.{print_int}
use sacagawea.Server.Windows.{
  cleans_winsock, closes_listener, frees_address, binds_to, sets_reuse, sets_nonblocking,
  creates_socket, resolves_port, starts_winsock, port_to_string, open_socket_win32, WinsockAnswers,
}
use sacagawea.Regex.{do_regex}
use sacagawea.Server.Reload.{
  listens, binds, creates, shuts, SocketCall, Moved, SocketAnswers, universal_handler,
  universal_handler_moves,
}
use sacagawea.Common.{
  decimal, returns, starts_with, some, replicate, inr, [], false, true, ◌++◌, ◌≡◌, ◌∷◌, arith, List,
  codes, ℕ, refl,
}
use sacagawea.Config.{read_conf_file, conf_lines, readable, Settings}
use sacagawea.Config.Ports.{IsValid}
use sacagawea.Server.{
  derailed, frees, closes, starts_thread, forks, allocates, returned, Connection, accept_wrapper,
  client_of, exited, thread_management, process_management,
}
use sacagawea.Handoff.{HandoffAnswers}
use sacagawea.Server.Windows.Accept.{WindowsConnection, accept_wrapper_win32}
use sacagawea.Server.Windows.Accept.Served.{given, accept_wrapper_win32_serves}
use sacagawea.Server.Dispatch.{
  releases, allocations, served, closed_sockets, clients, accept_wrapper_serves,
  accept_wrapper_balance,
}

abbrev settings_of : ℕ → Settings
settings_of mode = record {
  port = 7070;
  socket = 3;
  mode = mode;
  homedir = codes "/srv/" ++ replicate 4 0;
  hostname = codes "localhost" ++ replicate 4 0;
}

abbrev first : Connection
first = record { new_s = 5; ip = codes "10.0.0.4"; sin_port = 27663; started = true }

abbrev second : Connection
second = record { new_s = 6; ip = codes "10.0.0.5"; sin_port = 1; started = false }

abbrev third : Connection
third = record { new_s = 7; ip = codes "10.0.0.6"; sin_port = 2; started = true }

abbrev queue : List Connection
queue = first ∷ second ∷ third ∷ []

abbrev process_settings : Settings
process_settings = settings_of b'p'

process_settings-IsValid : IsValid process_settings
process_settings-IsValid = record {
  port_pos = omega arith;
  port_lt = omega arith;
  mode_known = inr refl;
}

run_accept : accept_wrapper process_settings (first ∷ second ∷ []) ≡ (
  allocates
      ∷ forks (client_of process_settings first)
      ∷ closes 5
      ∷ frees
      ∷ allocates
      ∷ allocates
      ∷ frees
      ∷ [],
  returned,
)
unfolding accept_wrapper process_management
run_accept = refl

run_threads :
    accept_wrapper (settings_of b't') (first ∷ second ∷ [])
    ≡ (allocates ∷ starts_thread (client_of (settings_of b't') first) ∷ allocates ∷ [], derailed)
unfolding accept_wrapper thread_management
run_threads = refl

accept_wrapper_serves_example :
    (served (accept_wrapper process_settings queue).0 ≡ clients process_settings queue)
    × ((accept_wrapper process_settings queue).1 ≡ returned)
accept_wrapper_serves_example =
    accept_wrapper_serves process_settings queue process_settings-IsValid

accept_wrapper_balance_example :
    (closed_sockets (accept_wrapper process_settings queue).0 ≡ 5 ∷ 7 ∷ [])
    × (allocations (accept_wrapper process_settings queue).0 ≡ 4)
    × (releases (accept_wrapper process_settings queue).0 ≡ 3)
accept_wrapper_balance_example = accept_wrapper_balance process_settings queue refl

abbrev new_socket : SocketAnswers
new_socket = record {
  socket_fd = some 8;
  ioctl_ok = true;
  recvbuf_ok = true;
  bind_ok = true;
  listen_ok = true;
}

abbrev moved_settings : Settings
moved_settings = record process_settings { port = 1234; socket = 8 }

abbrev move_calls : List SocketCall
move_calls = shuts 3 ∷ creates 8 ∷ binds 8 1234 ∷ listens 8 ∷ []

run_reload :
    universal_handler (λ _. true) (readable (codes "port 1234\n")) new_socket process_settings
    ≡ returns (moved_settings, move_calls)
unfolding universal_handler read_conf_file do_regex starts_with conf_lines
run_reload = refl

universal_handler_moves_example :
    IsValid moved_settings
    × (moved_settings.homedir ≡ process_settings.homedir)
    × (moved_settings.hostname ≡ process_settings.hostname)
    × (moved_settings.mode ≡ process_settings.mode)
    × Moved process_settings moved_settings move_calls
universal_handler_moves_example =
    universal_handler_moves (λ _. true) (readable (codes "port 1234\n")) new_socket process_settings
      process_settings-IsValid run_reload

abbrev winsock : WinsockAnswers
winsock = record {
  startup_ok = true;
  resolve_ok = true;
  listen_socket = some 5;
  nonblock_ok = true;
  reuse_ok = true;
  bind_ok = true;
  listen_ok = false;
}

abbrev windows_settings : Settings
windows_settings = record {
  port = 7070;
  socket = 0;
  mode = b't';
  homedir = codes "/";
  hostname = codes "h";
}

run_open_socket_win32 : open_socket_win32 winsock windows_settings ≡ (
  starts_winsock
      ∷ resolves_port (codes "7070")
      ∷ creates_socket 5
      ∷ sets_nonblocking 5
      ∷ sets_reuse 5
      ∷ binds_to 5 (codes "7070")
      ∷ frees_address
      ∷ closes_listener 5
      ∷ cleans_winsock
      ∷ [],
  process_exit 1,
)
unfolding open_socket_win32 port_to_string print_int decimal
run_open_socket_win32 = refl

abbrev handed_over : HandoffAnswers
handed_over = record { mapping = some 4; view_ok = true; process_ok = true }

-- The second client's process cannot be made.
abbrev windows_queue : List WindowsConnection
windows_queue =
    record { connection = first; blocking_ok = true; handoff = handed_over }
    ∷ record {
      connection = second;
      blocking_ok = true;
      handoff = record { mapping = some 4; view_ok = true; process_ok = false };
    }
    ∷ record { connection = third; blocking_ok = true; handoff = handed_over }
    ∷ []

accept_wrapper_win32_serves_example :
    (given (accept_wrapper_win32 process_settings windows_queue).0
      ≡ client_of process_settings first ∷ [])
    × ((accept_wrapper_win32 process_settings windows_queue).1 ≡ exited 1)
accept_wrapper_win32_serves_example =
    accept_wrapper_win32_serves process_settings windows_queue process_settings-IsValid
