-- ===== src/Server/Windows/Accept.antt =====
-- `listen_descriptor` and `accept_wrapper` of src/sacagalib/socket.c and `thread_management` of
-- src/sacagalib/children.c on Windows, as the server process runs them. A client of its own process is
-- handed over by `process_management` (Handoff), whose failure ends the server.
pub mod Served
use sacagawea.Common.{◌==◌, ◌∷◌, ◌++◌, if◌then◌else◌, List, ℕ, Bool, []}
use sacagawea.Effects.{process_exit, Stop}
use sacagawea.Config.{Settings}
use sacagawea.Children.{Client}
use sacagawea.Server.{derailed, Connection, client_of, Ending, returned, exited}
use sacagawea.Handoff
use sacagawea.Handoff.{HandoffAnswers, process_management_win32}

-- A connection, with what `ioctlsocket` answers for it, and `CreateFileMapping` and the calls behind it.
-- `connection.started` says whether `CreateThread` makes a thread.
pub record WindowsConnection : Type 0 where
  pub connection : Connection
  pub blocking_ok : Bool
  pub handoff : HandoffAnswers

-- What the server process does; `hands_over` is one call of `process_management`.
pub data AcceptEvent : Type 0 where
  allocates_args frees_client : AcceptEvent
  shuts_client : ℕ → AcceptEvent
  threads : Client → AcceptEvent
  hands_over : Client → List Handoff.Event → AcceptEvent

-- How a call of `process_management` leaves the server.
abbrev pub ending : Stop (Unit {0}) → Ending
ending (process_exit code) = exited code
ending _ = returned

-- The handle of a thread that could not be made is closed all the same, which is only logged.
pub thread_management_win32 : Client → Bool → List AcceptEvent
thread_management_win32 client started = if started then threads client ∷ [] else []

-- Behind a call that may have ended the process.
abbrev pub goes_on :
    List AcceptEvent → Ending → List AcceptEvent × Ending → List AcceptEvent × Ending
goes_on events returned rest = (events ++ rest.0, rest.1)
goes_on events derailed rest = (events, derailed)
goes_on events (exited code) rest = (events, exited code)

-- One client.
pub dispatch : Settings → WindowsConnection → List AcceptEvent × Ending
unfolding thread_management_win32 process_management_win32
dispatch s c =
    let client = client_of s c.connection in
    let handed = process_management_win32 client c.handoff in
    if s.mode == b't'
    then (thread_management_win32 client c.connection.started, returned)
    else if s.mode == b'p'
    then (hands_over client handed.0 ∷ [], ending handed.1)
    else (frees_client ∷ [], exited 5)

-- The loop; behind the connections `accept` gives INVALID_SOCKET.
pub accept_wrapper_win32 : Settings → List WindowsConnection → List AcceptEvent × Ending
unfolding dispatch
accept_wrapper_win32 s [] = (allocates_args ∷ frees_client ∷ [], returned)
accept_wrapper_win32 s (c ∷ queue) =
    let rest = accept_wrapper_win32 s queue in
    if c.blocking_ok
    then goes_on (allocates_args ∷ (dispatch s c).0) (dispatch s c).1 rest
    else (allocates_args ∷ shuts_client c.connection.new_s ∷ [], exited 1)

-- One pass of that loop behind the copy of the settings, for a connection that `accept` gives.
unfoldable pub accept_one_win32 : Settings → WindowsConnection → List AcceptEvent × Ending
unfolding dispatch
accept_one_win32 s c =
    if c.blocking_ok then dispatch s c else (shuts_client c.connection.new_s ∷ [], exited 1)

-- `select` fails because the socket was closed under it, fails otherwise, has nothing, or has
-- descriptors, the server's or not.
pub data SelectedWin32 : Type 0 where
  not_a_socket select_error no_descriptor : SelectedWin32
  descriptors : Bool → SelectedWin32

unfoldable pub listen_descriptor_win32 :
    Settings → SelectedWin32 → List WindowsConnection → List AcceptEvent × Ending
unfolding accept_wrapper_win32
listen_descriptor_win32 s not_a_socket queue = ([], returned)
listen_descriptor_win32 s select_error queue = ([], exited 5)
listen_descriptor_win32 s no_descriptor queue = ([], returned)
listen_descriptor_win32 s (descriptors is_set) queue =
    if is_set then accept_wrapper_win32 s queue else ([], returned)
