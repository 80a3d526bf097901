-- ===== src/Start/Windows/Loop.antt =====
-- The loop of `main` over `listen_descriptor` on Windows, with the events of the console. Their handler
-- runs in a thread of its own: while `main` waits in `select`, or for CTRL+BREAK also while `main`
-- accepts, where the handler reads the file and moves the socket as two steps and `main` copies the
-- settings for one client in front of the first or between the two. Finer interleavings of the two
-- threads are not modelled.
use sacagawea.Common.{false, true, map, if◌then◌else◌, Bool, [], ◌∷◌, List, Bytes, Option, ℕ}
use sacagawea.Effects.{
  crashes, pure_process, waits, stop, pure, do_action, process_exit, after, Trace, ◌>>=◌, ◌>>◌,
}
use sacagawea.Regex.{Pattern}
use sacagawea.Config.{Settings, ConfFile, windows, read_conf_file}
use sacagawea.Server.{derailed, returned, exited, Ending}
use sacagawea.Server.Windows.{WinsockCall, WinsockAnswers, closes_listener, open_socket_win32}
use sacagawea.Server.Windows.Accept.{
  allocates_args, accept_one_win32, accept_wrapper_win32, AcceptEvent, SelectedWin32,
  WindowsConnection, listen_descriptor_win32,
}
use sacagawea.Start.Windows.{calls_winsock, serves_win32, WindowsDoing, console_event_handler}

-- `open_socket` among all that the process does, and what it returns as the socket of the settings.
abbrev pub winsock : Trace WinsockCall ℕ → Trace WindowsDoing ℕ
winsock (calls, end) = (map calls_winsock calls, end)

unfoldable pub open_listener_win32 : WinsockAnswers → Settings → Trace WindowsDoing Settings
open_listener_win32 a s = winsock (open_socket_win32 a s) >>= λ sd. pure (record s { socket = sd })

-- A failure of `closesocket` is only logged.
unfoldable pub move_socket_win32 : WinsockAnswers → Settings → Bool → Trace WindowsDoing Settings
unfolding open_listener_win32
move_socket_win32 a s changed =
    if changed
    then do_action (calls_winsock (closes_listener s.socket)) >> open_listener_win32 a s
    else pure s

unfoldable pub universal_handler_win32 :
    (Pattern → Bytes → Option Bytes)
    → (Bytes → Bool)
    → ConfFile
    → WinsockAnswers
    → Settings
    → Trace WindowsDoing Settings
unfolding move_socket_win32
universal_handler_win32 group opendir file a s =
    pure_process (read_conf_file (windows group) opendir file s true) >>= λ (t, changed).
    move_socket_win32 a t changed

-- `select` comes back, or CTRL+BREAK or another event comes from the console; or `select` comes back, and
-- behind some connections CTRL+BREAK comes while the next one is accepted, whose settings are copied
-- between the two steps of the handler or in front of them.
pub data WindowsRound : Type 0 where
  wakes_win32 : SelectedWin32 → List WindowsConnection → WindowsRound
  console : Bool → ConfFile → WinsockAnswers → WindowsRound
  breaks_accepting :
      List WindowsConnection
      → WindowsConnection
      → Bool
      → ConfFile
      → WinsockAnswers
      → List WindowsConnection
      → WindowsRound

abbrev pub behind_round :
    List AcceptEvent × Ending → Trace WindowsDoing (Unit {0}) → Trace WindowsDoing (Unit {0})
behind_round (events, returned) rest = after (serves_win32 events ∷ []) rest
behind_round (events, derailed) rest = (serves_win32 events ∷ [], crashes)
behind_round (events, exited code) rest = (serves_win32 events ∷ [], process_exit code)

-- The connections in front of CTRL+BREAK, and then what comes with it.
accept_before_win32 :
    Settings
    → List WindowsConnection
    → Trace WindowsDoing (Unit {0})
    → Trace WindowsDoing (Unit {0})
unfolding accept_one_win32
accept_before_win32 s [] rest = after (serves_win32 (allocates_args ∷ []) ∷ []) rest
accept_before_win32 s (c ∷ queue) rest =
    let behind = accept_before_win32 s queue rest in
    let one = accept_one_win32 s c in behind_round (allocates_args ∷ one.0, one.1) behind

-- The client that is accepted while the handler runs, where the file gave the settings `t`.
accept_beside :
    Settings
    → WindowsConnection
    → Bool
    → WinsockAnswers
    → Settings × Bool
    → (Settings → Trace WindowsDoing (Unit {0}))
    → Trace WindowsDoing (Unit {0})
unfolding accept_one_win32 move_socket_win32
accept_beside s c true a (t, changed) rest =
    behind_round (accept_one_win32 t c) (move_socket_win32 a t changed >>= rest)
accept_beside s c false a (t, changed) rest =
    move_socket_win32 a t changed >>= λ u. behind_round (accept_one_win32 s c) (rest u)

-- The loop waits where no more happens.
unfoldable pub serve_loop_win32 :
    (Pattern → Bytes → Option Bytes)
    → (Bytes → Bool)
    → Settings
    → List WindowsRound
    → Trace WindowsDoing (Unit {0})
unfolding universal_handler_win32 accept_before_win32 accept_beside
serve_loop_win32 group opendir s [] = stop waits
serve_loop_win32 group opendir s (wakes_win32 selected queue ∷ rounds) =
    behind_round (listen_descriptor_win32 s selected queue)
      (serve_loop_win32 group opendir s rounds)
serve_loop_win32 group opendir s (console ctrl_break file a ∷ rounds) =
    console_event_handler ctrl_break (universal_handler_win32 group opendir file a) s >>= λ t.
    serve_loop_win32 group opendir t rounds
serve_loop_win32 group opendir s (breaks_accepting before c between file a behind ∷ rounds) =
    accept_before_win32 s before (
      pure_process (read_conf_file (windows group) opendir file s true) >>= λ read.
      accept_beside s c between a read (λ u.
        behind_round (accept_wrapper_win32 u behind) (serve_loop_win32 group opendir u rounds)))
