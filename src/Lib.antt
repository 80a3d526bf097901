-- ===== src/Lib.antt =====
-- Sacagawea, a gopher server in C, for Linux and Windows. A client connects and sends one line, the
-- selector, ended by "\r\n". The server reads it (`read_request`), puts the home directory in front,
-- refuses a path with "../" in it (`check_security_path`), asks the command `file -bi` for the type of
-- the path (`type_path`), and answers with the menu of a directory (`send_content_of_dir`), with an
-- error line, or with the bytes of the file, which a thread of its own sends (`thread_sender`). The
-- sender then hands one line to a log process through a pipe, under a mutex (`log_management`). The
-- settings come from sacagawea.conf, which is read at the start and again in a signal handler
-- (`read_and_check_conf`). `management_function` composes all of this for one client.
--
-- The files, by the part of the program that they model (paths from the repository's root):
--   Common, Common/*: C strings and arrays as lists of bytes, `strstr`, `fgets`, `%d`, Boolean tests,
--     and the result `Process` of code that may end the process or do what C leaves undefined.
--   Effects: code that acts on the system, as the list of its actions and the way it stops.
--   Request: `read_request` (src/sacagalib/children.c); Request/Scan, Request/Stream, Request/Lines
--     prove what it reads of the byte stream.
--   Security: `check_security_path` (src/sacagalib/utility.c); Security/Walk says what the system does
--     with ".." in a path.
--   Gopher/Sanitize: `sanitize_path` and the command of `type_path` (src/sacagalib/gopher.c);
--     Gopher/Sanitize/Shell is a reader of shell commands to compare with.
--   Gopher/TypePath: the rest of `type_path`, for Linux and for Windows.
--   Gopher/Menu: `send_content_of_dir`; Gopher/Menu/Client is a client that parses menus.
--   Gopher/Sender: `thread_sender`, with what each of its calls answers as an argument.
--   Loader: `load_file_memory_and_send` (src/sacagalib/utility.c, the Linux branch).
--   Logs: `log_management` (src/sacagalib/log.c) and the senders as steps of one system (Logs/System);
--     Logs/Senders lets whole runs of `thread_sender` and of the log process take turns; Logs/Process
--     is `log_management` with all its failures, and `log_management_exit`.
--   Regex: `do_regex` for the four patterns of src/sacagalib/config.c.
--   Config: `settings_t`, `read_conf_line`, `check_if_port_change`, `read_and_check_conf`, for Linux and
--     for Windows.
--   Children: `management_function` and `close_socket_kill_child` (src/sacagalib/children.c); in
--     Children/Opens which files it opens, and in Children/Windows the Windows branches.
--   Server: `listen_descriptor`, `accept_wrapper`, `open_socket` (src/sacagalib/socket.c),
--     `thread_management`, `process_management` (src/sacagalib/children.c) as the server process runs
--     them, and in Server/Reload `universal_handler` (src/server/sacagawea.c).
--   Report: `write_log` (src/sacagalib/log.c), and in Report/Date `date_string`.
--   Start: `main` of src/server/sacagawea.c. Start/Options has the defaults and the command line,
--     Start/Daemon `become_daemon`, Start/Setup the shared memory, the log process, the handlers and
--     `close_all`, Start/Loop the loop with its reloads, and Start/Main all of it together.
--     Start/Windows is `main` on Windows: the job object, the settings, the log process, the console's
--     events, the loop and all of it together.
--   Transfer: the Windows branches of `load_file_memory_and_send` (src/sacagalib/utility.c) and
--     `thread_sender` (src/sacagalib/gopher.c); Server/Windows: those of `open_socket`, and in
--     Server/Windows/Accept those of `listen_descriptor`, `accept_wrapper` and `thread_management`.
--   PipeLogger: the log process of Windows (src/sacagalib/win32-multiprocess/logger.c), and in
--     PipeLogger/Transfers that process with the senders that write to it.
--   Handoff: `process_management` of Windows (src/sacagalib/children.c) and the process that it makes
--     (src/sacagalib/win32-multiprocess/mp.c); in Handoff/Answers that process answers the client.
-- Each Tests module runs the definitions and applies the theorems at concrete inputs.
--
-- How state is modelled. A byte is a number; a `char *` is the list of the bytes in front of its NUL,
-- and a `char` array of the settings is the list of all its bytes, so that a missing NUL could be seen.
-- An `int` is its bit pattern. What code outside the repository answers (sockets, files, `mmap`, the
-- command `file`, threads) is an argument: a list with one answer for each call, or a record of results.
-- `recv` gives at most the bytes that were asked for, and so do `send` and `read`. The list of the
-- answers bounds each loop; where it runs out the model says that the code still waits. The loop over
-- sacagawea.conf has the length of the file as fuel, which is enough since each line takes a byte
-- (Config/Lines). `regexec` is the leftmost longest match of POSIX for the patterns that occur; what
-- PCRE2 finds for them on Windows is an argument.
--
-- The single calls of `send` for a menu and for an error line are recorded with the bytes that they are
-- given; the code does not look at how many were accepted.
--
-- The bytes in front of an empty string, and what an array holds before its first use, are arguments
-- wherever the code reads them.
--
-- The loop of `main` is a list of rounds: `select` wakes up with some connections, SIGHUP arrives while
-- the loop waits or while it accepts, or the thread of a client begins. On Windows the handler of the
-- console runs in a thread of its own; where it runs while the loop accepts, it reads the file and moves
-- the socket in two steps, and the settings for one client are copied in front of them or between
-- them. Finer interleavings of the two threads are not modelled.
-- The file of the settings is the bytes that the reads give, which on Windows is behind the
-- translation of text mode. A process of Windows is made with a
-- command line and a file mapping, so the child is a function of what the server did before; how a
-- command line is split and what an inherited mapping shows are arguments with the hypotheses of
-- Handoff/Serves.
--
-- Not modelled: `print_client_args`, which only prints, the calls of `write_log` by the other code, and
-- the console handler of the log process of Windows, which only returns a constant.
-- Memory that runs out is not modelled, save in the log process: every other allocation succeeds.
pub mod Common
pub mod Children
pub mod Config
pub mod Effects
pub mod Gopher
pub mod Handoff
pub mod Loader
pub mod Logs
pub mod PipeLogger
pub mod Regex
pub mod Report
pub mod Request
pub mod Security
pub mod Server
pub mod Start
pub mod Transfer
