-- ===== src/Children/Windows.antt =====
-- `management_function` of src/sacagalib/children.c on Windows: `WSAStartup`, shorter paths, the type of
-- a path by its extension (Gopher/TypePath), and the loader and the sender of Windows (Transfer).
pub mod Files
use sacagawea.Common.{
  ◌++◌, ◌+◌, ◌∷◌, take, length, returns, Option, ◌-◌, leb, ◌==◌, c_string, Process, ◌&&◌, List,
  if◌then◌else◌, Bytes, Bool, ℕ, [],
}
use sacagawea.Effects.{
  pure, ◌>>◌, value, sends, free_input, do_action, join, waits, after, stop, ◌>>=◌, Run,
}
use sacagawea.Security.{check_security_path}
use sacagawea.Gopher.Menu.{send_content_of_dir, Menu}
use sacagawea.Gopher.TypePath.{type_path_win32, FileInfo}
use sacagawea.Gopher.Sender.{Job}
use sacagawea.Request.{refused, waiting, request, read_request, Outcome, Arrival}
use sacagawea.Transfer.{LoadAnswers, SenderAnswers, thread_sender_win32}
use sacagawea.Children.{Client, close_socket_kill_child, error_reply, send_menu, max_request_len}

-- PATH_MAX, which is that of Windows.
abbrev pub path_max_win32 : ℕ
path_max_win32 = 260

-- The client and the system. `contents` is what the file holds. Where the sender is started and not
-- waited for, `beside` says how many of its actions come before the rest of this thread.
pub record WindowsWorld : Type 0 where
  pub winsock_ok : Bool
  pub arrivals : List Arrival
  pub info : Bytes → FileInfo
  pub opendir : Bytes → Option (List Bytes)
  pub before_path : ℕ
  pub before_selector : ℕ
  pub load : LoadAnswers
  pub contents : Bytes
  pub beside : ℕ
  pub sender : SenderAnswers
  pub date : Bytes

abbrev pub job_win32 : Client → WindowsWorld → Bytes → Job
job_win32 c w path = record {
  date = w.date;
  path_file = path;
  addr = c.addr;
  file_to_send = w.contents;
}

-- `load_file_memory_and_send` (Transfer) as this thread and the sender's act on the connection: the
-- sender runs if its thread was made, and it is waited for if the file was closed.
pub load_win32 : LoadAnswers → ℕ → Run (Unit {0}) → Run (Unit {0})
load_win32 a beside sender =
    if a.create_ok && (a.size_ok && (a.mapping_ok && a.thread_ok))
    then if a.close_file_ok && a.wait_ok then join sender else (take beside sender.0, value tt)
    else pure tt

-- The menu's types of the files in a directory.
abbrev pub type_of : WindowsWorld → Bytes → Process ℕ
type_of w path = returns (type_path_win32 w.info path)

menu_win32 : Client → WindowsWorld → Bytes → Bytes → Menu
menu_win32 c w path input = record {
  path_file = path;
  before_path = w.before_path;
  selector = input;
  before_selector = w.before_selector;
  hostname = c_string c.settings.hostname;
  port = c.settings.port;
}

pub reply_win32 : Client → WindowsWorld → Bytes → Bytes → ℕ → Run (Unit {0})
unfolding load_win32 menu_win32 send_menu
reply_win32 c w path input type =
    if type == b'1'
    then send_menu (send_content_of_dir (type_of w) (menu_win32 c w path input) (w.opendir path))
    else if type == b'3'
    then do_action (sends (error_reply input))
    else load_win32 w.load w.beside (thread_sender_win32 w.sender (job_win32 c w path))

pub serve_path_win32 : Client → WindowsWorld → Bytes → Bytes → Run (Unit {0})
unfolding reply_win32
serve_path_win32 c w path input =
    if check_security_path path then after (free_input ∷ []) (close_socket_kill_child c 0) else do
      reply_win32 c w path input (type_path_win32 w.info path)
      do_action free_input
      close_socket_kill_child c 0

pub serve_win32 : Client → WindowsWorld → Bytes → Run (Unit {0})
unfolding serve_path_win32
serve_win32 c w input =
    if leb path_max_win32 (length (c_string c.settings.homedir) + length input)
    then close_socket_kill_child c 0
    else serve_path_win32 c w (c_string c.settings.homedir ++ input) input

manage_win32 : Client → WindowsWorld → Outcome → Run (Unit {0})
unfolding serve_win32
manage_win32 c w waiting = stop waits
manage_win32 c w refused = close_socket_kill_child c 0
manage_win32 c w (request line n) = serve_win32 c w (c_string line)

unfoldable pub management_function_win32 : Client → WindowsWorld → Run (Unit {0})
unfolding manage_win32
management_function_win32 c w =
    if w.winsock_ok
    then manage_win32 c w
        (read_request (max_request_len - length (c_string c.settings.homedir)) w.arrivals)
    else close_socket_kill_child c 0
