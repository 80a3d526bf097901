-- ===== src/Start/Main/Tests.antt =====
-- A run of the server, and the theorems on `main` at it.
use sacagawea.Common.{
  ◌++◌, returns, false, starts_with, ◌≡◌, List, codes, some, ℕ, true, ◌∷◌, [], refl, arith,
}
use sacagawea.Effects.{value, waits}
use sacagawea.Config.{read_conf_file, Settings, readable, conf_lines}
use sacagawea.Regex.{do_regex}
use sacagawea.Server.{
  Connection, allocates, frees, accept_one, ready, accept_wrapper, listen_descriptor,
}
use sacagawea.Server.Reload.{shuts, SocketAnswers, creates, binds, listens}
use sacagawea.Start.Options.{atoi, port_arg, filled, homedir_size, hostname_size}
use sacagawea.Start.Daemon.{
  DaemonAnswers, ProcessState, become_daemon, in_child, in_parent, before, null_read, null_write,
  null_both,
}
use sacagawea.Start.Daemon.Streams.{Reopened, become_daemon-Reopened}
use sacagawea.Start.Setup.{
  calls_socket, becomes_daemon, serves, ignores_sigchld, SetupAnswers, set_up,
}
use sacagawea.Start.Options.Validity.{has_debug}
use sacagawea.Start.Setup.Stages.{SetUp, set_up_ends, ready_events}
use sacagawea.Start.Loop.{Round, wakes, hangs_up, hangs_up_accepting, serve_loop}
use sacagawea.Start.Loop.Consistency.{Consistent}
use sacagawea.Start.Main.{Machine, prepare, main}
use sacagawea.Start.Main.Ready.{prepare_ready, daemon_events, listener_events}
use sacagawea.Start.Main.Listener.{main-Consistent}

abbrev setup : SetupAnswers
setup = record {
  shm_open_ok = true;
  ftruncate_ok = true;
  mmap_ok = true;
  cond_attr_ok = true;
  mutex_attr_ok = true;
  mutex_ok = true;
  cond_ok = true;
  pipe_ok = true;
  log_fork = in_parent 42;
  close_ok = true;
  reload_mask_ok = true;
  term_mask_ok = λ signal. true;
  term_empty_ok = true;
  action_ok = λ signal. true;
}

abbrev socket_at : ℕ → SocketAnswers
socket_at sd = record {
  socket_fd = some sd;
  ioctl_ok = true;
  recvbuf_ok = true;
  bind_ok = true;
  listen_ok = true;
}

abbrev terminal : ProcessState
terminal = record {
  table = some (before 1) ∷ some (before 2) ∷ some (before 3) ∷ some (before 4) ∷ [];
  umask = 18;
  leads_session = false;
  ignores_sighup = false;
}

abbrev daemon_answers : DaemonAnswers
daemon_answers = record {
  first_fork = in_child;
  setsid_ok = true;
  signal_ok = true;
  second_fork = in_child;
  chdir_ok = true;
  stdin_ok = true;
  stdout_ok = true;
  stderr_ok = true;
}

abbrev visitor : Connection
visitor = record { new_s = 9; ip = codes "10.0.0.4"; sin_port = 1; started = true }

-- A client, a reload that moves the port, and another client.
abbrev rounds : List Round
rounds =
    wakes (ready true) (visitor ∷ [])
    ∷ hangs_up (readable (codes "port 1234\n")) (socket_at 8)
    ∷ wakes (ready true) (visitor ∷ [])
    ∷ []

abbrev machine : Machine
machine = record {
  sigchld_ok = true;
  cwd = some (codes "/srv");
  host = some (codes "host");
  opendir = λ path. true;
  file = readable (codes "mode p\n");
  opts = port_arg (codes "8080") ∷ [];
  process = terminal;
  daemon = daemon_answers;
  setup = setup;
  sockets = socket_at 3;
  rounds = rounds;
}

abbrev ready_settings : Settings
ready_settings = record {
  port = 8080;
  socket = 3;
  mode = b'p';
  homedir = filled homedir_size (codes "/srv/");
  hostname = filled hostname_size (codes "host");
}

abbrev daemon_state : ProcessState
daemon_state = record {
  table = some null_read ∷ some null_write ∷ some null_both ∷ some (before 4) ∷ [];
  umask = 23;
  leads_session = false;
  ignores_sighup = true;
}

run_daemon : become_daemon daemon_answers terminal ≡ returns daemon_state
unfolding become_daemon
run_daemon = refl

run_prepare : prepare machine ≡ (
  ignores_sigchld ∷ becomes_daemon ∷ (ready_events 42 ++ listener_events ready_settings),
  value ready_settings,
)
unfolding prepare read_conf_file do_regex starts_with conf_lines
run_prepare = refl

run_loop : serve_loop (λ path. true) ready_settings false rounds ≡ (
  serves (accept_wrapper ready_settings (visitor ∷ [])).0
      ∷ calls_socket (shuts 3)
      ∷ calls_socket (creates 8)
      ∷ calls_socket (binds 8 1234)
      ∷ calls_socket (listens 8)
      ∷ serves (accept_wrapper (record ready_settings { port = 1234; socket = 8 }) (visitor ∷ [])).0
      ∷ [],
  waits,
)
unfolding serve_loop read_conf_file do_regex starts_with conf_lines listen_descriptor accept_wrapper
run_loop = refl

become_daemon-Reopened_example :
    Reopened terminal.table daemon_state.table
    × (daemon_state.leads_session ≡ false)
    × (daemon_state.ignores_sighup ≡ true)
    × (daemon_state.umask ≡ 23)
become_daemon-Reopened_example = become_daemon-Reopened daemon_answers terminal run_daemon

set_up_ends_example : SetUp (in_parent 42) (set_up setup)
set_up_ends_example = set_up_ends setup (omega arith)

prepare_ready_example :
    (pid : ℕ) × (in_parent 42 ≡ in_parent pid)
    × (ignores_sigchld ∷ becomes_daemon ∷ (ready_events 42 ++ listener_events ready_settings)
        ≡ ignores_sigchld
          ∷ (daemon_events (has_debug false (port_arg (codes "8080") ∷ []))
              ++ (ready_events pid ++ listener_events ready_settings)))
prepare_ready_example = prepare_ready machine (omega arith) run_prepare

port_8080 : atoi (codes "8080") ≡ returns 8080
unfolding atoi
port_8080 = refl

main-Consistent_example : Consistent [] (main machine).0
main-Consistent_example =
    main-Consistent machine ((8080, port_8080, omega arith, omega arith), tt) (tt, (tt, (tt, tt)))

-- A client whose settings were copied before the reload still carries the old port and the old socket.
run_accepting :
    serve_loop
      (λ path. true)
      ready_settings
      false
      (hangs_up_accepting [] visitor (readable (codes "port 1234\n")) (socket_at 8) [] ∷ [])
    ≡ (
      serves (allocates ∷ [])
          ∷ calls_socket (shuts 3)
          ∷ calls_socket (creates 8)
          ∷ calls_socket (binds 8 1234)
          ∷ calls_socket (listens 8)
          ∷ serves (accept_one ready_settings visitor).0
          ∷ serves (allocates ∷ frees ∷ [])
          ∷ [],
      waits,
    )
unfolding serve_loop read_conf_file do_regex starts_with conf_lines listen_descriptor accept_wrapper
    accept_one
run_accepting = refl
