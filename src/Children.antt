-- ===== src/Children.antt =====
-- src/sacagalib/children.c: `management_function`, which answers one client, `close_socket_kill_child`
-- and `free_client_args`. It calls `read_request` (Request), `check_security_path` (Security),
-- `type_path`, `send_content_of_dir` and `thread_sender` (Gopher) and `load_file_memory_and_send`
-- (Loader). What the client sends and the system answers is a parameter.
pub mod Closing
pub mod Answers
pub mod Files
pub mod Opens
pub mod Windows
mod Tests
use sacagawea.Loader.{load_file_memory_and_send, FileAnswers}
use sacagawea.Security.{check_security_path}
use sacagawea.Gopher.Menu.{send_content_of_dir, Menu}
use sacagawea.Common.{
  undefined, none, exits, [], some, ◌+◌, ◌∷◌, length, returns, ◌-◌, leb, c_string, ◌++◌, ◌==◌,
  Option, if◌then◌else◌, Process, codes, List, ℕ, Bytes,
}
use sacagawea.Effects.{
  ◌>>◌, crashes, pure_process, process_exit, ◌>>=◌, sends, thread_exit, do_action, close_socket,
  free_input, pure, waits, after, free_args, stop, Run,
}
use sacagawea.Config.{Settings}
use sacagawea.Gopher.Sender
use sacagawea.Gopher.Sender.{Job, thread_sender}
use sacagawea.Gopher.TypePath.{type_path, Stream}
use sacagawea.Request.{refused, waiting, request, read_request, Outcome, Arrival}

abbrev pub max_request_len : ℕ
max_request_len = 4096

abbrev pub path_max : ℕ
path_max = 4096

-- `client_args`: what is known of the client before it is answered.
pub record Client : Type 0 where
  pub addr : Bytes
  pub socket : ℕ
  pub settings : Settings

-- The client and the system: what arrives, how `file` answers (and what its array holds), what the
-- directory of a path holds, the bytes in front of the request and the path, the calls on the file, the
-- calls of the sender, and the date.
pub record World : Type 0 where
  pub arrivals : List Arrival
  pub popen : Bytes → Stream
  pub stale : Bytes
  pub opendir : Bytes → Option (List Bytes)
  pub before_path : ℕ
  pub before_selector : ℕ
  pub file : FileAnswers
  pub sender : Sender.Answers
  pub date : Bytes

-- In a thread the socket is closed and the thread ends; a process just exits.
unfoldable pub close_socket_kill_child : Client → ℕ → Run (Unit {0})
close_socket_kill_child c errcode =
    if c.settings.mode == b't'
    then (free_args ∷ close_socket c.socket ∷ [], thread_exit)
    else (free_args ∷ [], process_exit errcode)

-- The reply to a path that is an error.
abbrev pub error_reply : Bytes → Bytes
error_reply input = codes "3\t" ++ (input ++ codes "\r\n.\r\n")

-- What `send_content_of_dir` does with its text.
send_menu : Process (Option Bytes) → Run (Unit {0})
send_menu (returns none) = pure tt
send_menu (returns (some menu)) = do_action (sends menu)
send_menu (exits code) = stop (process_exit code)
send_menu undefined = stop crashes

menu_of : Client → World → Bytes → Bytes → Menu
menu_of c w path input = record {
  path_file = path;
  before_path = w.before_path;
  selector = input;
  before_selector = w.before_selector;
  hostname = c_string c.settings.hostname;
  port = c.settings.port;
}

abbrev pub job_of : Client → World → Bytes → Bytes → Job
job_of c w path contents = record {
  date = w.date;
  path_file = path;
  addr = c.addr;
  file_to_send = contents;
}

-- The reply by the type of the path.
pub reply : Client → World → Bytes → Bytes → ℕ → Run (Unit {0})
unfolding send_menu menu_of
reply c w path input type =
    if type == b'1'
    then send_menu
        (send_content_of_dir (type_path w.popen w.stale) (menu_of c w path input) (w.opendir path))
    else if type == b'3'
    then do_action (sends (error_reply input))
    else do
      _ ←
          load_file_memory_and_send w.file
            (λ contents. thread_sender w.sender (job_of c w path contents)) path
      pure tt

-- With the request in `input` and the whole path.
pub serve_path : Client → World → Bytes → Bytes → Run (Unit {0})
unfolding reply
serve_path c w path input =
    if check_security_path path then after (free_input ∷ []) (close_socket_kill_child c 0) else do
      type ← pure_process (type_path w.popen w.stale path)
      reply c w path input type
      do_action free_input
      close_socket_kill_child c 0

-- With the request in `input`.
pub serve : Client → World → Bytes → Run (Unit {0})
unfolding serve_path
serve c w input =
    if leb path_max (length (c_string c.settings.homedir) + length input)
    then close_socket_kill_child c 0
    else serve_path c w (c_string c.settings.homedir ++ input) input

manage : Client → World → Outcome → Run (Unit {0})
unfolding serve
manage c w waiting = stop waits
manage c w refused = close_socket_kill_child c 0
manage c w (request line n) = serve c w (c_string line)

pub management_function : Client → World → Run (Unit {0})
unfolding manage close_socket_kill_child
management_function c w =
    manage c w (read_request (max_request_len - length (c_string c.settings.homedir)) w.arrivals)
