-- ===== src/Children/Tests.antt =====
-- Runs of `management_function`, and its theorems at concrete clients.
use sacagawea.Request.Lines.{crlf}
use sacagawea.Common.{
  All, decimal, ◌==◌, not, some, false, true, none, replicate, arith, starts_with, returns, ◌∷◌,
  ◌++◌, contains, [], ◌≡◌, Bytes, codes, refl,
}
use sacagawea.Effects.{
  thread_exit, close_socket, free_args, unmaps, shuts_down, ignores_sighup, closes_file, unlocks,
  free_input, maps, sends, locks, opens, sent_bytes,
}
use sacagawea.Security.{check_security_path}
use sacagawea.Gopher.TypePath.{type_path, output}
use sacagawea.Gopher.Sender.{thread_sender, logs_string, accepted, discarded, closed}
use sacagawea.Gopher.Sender.Delivery.{log_actions}
use sacagawea.Loader.{load_file_memory_and_send}
use sacagawea.Request.{request, received, read_request}
use sacagawea.Children.{Client, World, management_function}
use sacagawea.Children.Opens.{OpensAllowed, management_function-OpensAllowed}
use sacagawea.Children.Closing.{Closed, management_function-Closed}
use sacagawea.Children.Answers.{room}
use sacagawea.Children.Files.{management_function_sends_file}

abbrev client : Client
client = record {
  addr = codes "10.0.0.4:3948";
  socket = 9;
  settings = record {
    port = 7070;
    socket = 3;
    mode = b't';
    homedir = codes "/srv/" ++ replicate 4 0;
    hostname = codes "localhost" ++ replicate 4 0;
  };
}

-- The client sends `line` in two parts; `file` answers `mime`; the file holds "hi".
abbrev world : Bytes → Bytes → World
world line mime = record {
  arrivals = received line ∷ received (codes "\r\n") ∷ [];
  popen = λ command. output mime;
  stale = [];
  opendir = λ path. none;
  before_path = 0;
  before_selector = 0;
  file = record {
    open_ok = true;
    lock_ok = true;
    contents = some (codes "hi");
    mmap_ok = λ n. not (n == 0);
    unlock_ok = true;
    close_ok = true;
    create_ok = true;
    join_ok = true;
    munmap_ok = true;
  };
  sender = record {
    signal_ok = true;
    sending = accepted 1 ∷ accepted 1 ∷ [];
    shutdown_ok = true;
    draining = discarded ∷ closed ∷ [];
    lock_ok = true;
    write_len_ok = true;
    write_text_ok = true;
  };
  date = codes "[Jul 21 2019 15:54:33]";
}

abbrev text_world : World
text_world = world (codes "a") (codes "text/plain; charset=us-ascii\n")

abbrev error_world : World
error_world = world (codes "b") (codes "cannot open `/srv/b'\n")

abbrev bad_world : World
bad_world = world (codes "../a") (codes "text/plain; charset=us-ascii\n")

-- The whole run for a request of a file.
run_file : management_function client text_world ≡ (
  opens (codes "/srv/a")
      ∷ locks
      ∷ maps 2
      ∷ unlocks
      ∷ closes_file
      ∷ ignores_sighup
      ∷ sends (codes "h")
      ∷ sends (codes "i")
      ∷ shuts_down
      ∷ (log_actions (codes "[Jul 21 2019 15:54:33] /srv/a 2 B 10.0.0.4:3948\n")
          ++ (unmaps ∷ free_input ∷ free_args ∷ close_socket 9 ∷ [])),
  thread_exit,
)
unfolding management_function read_request check_security_path contains starts_with type_path
    load_file_memory_and_send thread_sender logs_string decimal
run_file = refl

read_text : read_request (room client) text_world.arrivals ≡ request (codes "a") 2
unfolding read_request
read_text = refl

read_error : read_request (room client) error_world.arrivals ≡ request (codes "b") 2
unfolding read_request
read_error = refl

read_bad : read_request (room client) bad_world.arrivals ≡ request (codes "../a") 5
unfolding read_request
read_bad = refl

refused_path : check_security_path (codes "/srv/../a") ≡ true
unfolding check_security_path starts_with contains
refused_path = refl

allowed_path : check_security_path (codes "/srv/a") ≡ false
unfolding check_security_path starts_with contains
allowed_path = refl

error_path : check_security_path (codes "/srv/b") ≡ false
unfolding check_security_path starts_with contains
error_path = refl

text_type : type_path text_world.popen [] (codes "/srv/a") ≡ returns b'0'
unfolding type_path starts_with
text_type = refl

error_type : type_path error_world.popen [] (codes "/srv/b") ≡ returns b'3'
unfolding type_path starts_with
error_type = refl

no_end : contains crlf (codes "a") ≡ false
unfolding contains starts_with
no_end = refl

management_function-Closed_example : Closed client (management_function client text_world)
management_function-Closed_example = management_function-Closed client text_world

management_function_sends_file_example :
    (sent_bytes (management_function client text_world).0 ≡ codes "hi")
    × ((management_function client text_world).1 ≡ thread_exit)
    × Closed client (management_function client text_world)
management_function_sends_file_example =
    management_function_sends_file client text_world (codes "a") [] refl no_end (omega arith)
      allowed_path text_type refl refl
      (record {
        opened = refl;
        lock_taken = refl;
        holds = refl;
        mapped = refl;
        unlocked = refl;
        file_closed = refl;
        created = refl;
        thread_joined = refl;
        unmapped = refl;
      })
      (record {
        signal_set = refl;
        accepted_all = refl;
        total_ge = omega arith;
        shut_down = refl;
        drained = refl;
        locked = refl;
        wrote_len = refl;
        wrote_text = refl;
      })

management_function-OpensAllowed_example :
    All (OpensAllowed client) (management_function client text_world).0
management_function-OpensAllowed_example = management_function-OpensAllowed client text_world
