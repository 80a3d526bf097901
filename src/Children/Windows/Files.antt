-- ===== src/Children/Windows/Files.antt =====
-- A request for a file on Windows, from the bytes that the client sends to the bytes that it gets.
use sacagawea.Config.{broken}
use sacagawea.Common.{
  append_assoc, sym, ◌==◌, ◌<◌, All-append, leb, ◌≤◌, append-nil, c_string, false, ◌∙◌, contains,
  ap, ◌++◌, subst, ◌-◌, length, min, ◌+◌, ◌∷◌, List, true, Bytes, ◌≡◌, All, Bool, ℕ, refl, arith,
  [],
}
use sacagawea.Effects.{free_input, after, value, thread_exit, Run, Action, Stop, sent_bytes}
use sacagawea.Security.{check_security_path}
use sacagawea.Gopher.TypePath.{type_path_win32}
use sacagawea.Gopher.Sender.{broken, accepted, Job, SendAnswer}
use sacagawea.Gopher.Sender.Delivery.{drains, drain_loop_ends, drain_loop_quiet, sent_bytes-append}
use sacagawea.Transfer.{
  LoadAnswers, SenderAnswers, send_views, finish_sending_win32, write_named_pipe, write_message,
  thread_sender_win32,
}
use sacagawea.Transfer.Pieces.{finish_win32_quiet}
use sacagawea.Transfer.Whole.{IsServedWin32, send_views_sends_all}
use sacagawea.Request.Stream.{stream}
use sacagawea.Request.Lines.{crlf, read_request_complete}
use sacagawea.Children.{Client, close_socket_kill_child}
use sacagawea.Children.Answers.{home, room}
use sacagawea.Children.Closing.{IsWork}
use sacagawea.Children.Windows.{
  WindowsWorld, job_win32, path_max_win32, load_win32, reply_win32, serve_path_win32, serve_win32,
  manage_win32, management_function_win32,
}

send_views-IsWork :
    (g : ℕ) (view_ok : ℕ → Bool) (file : Bytes) (answers : List SendAnswer) (k : ℕ)
    → All IsWork (send_views g view_ok file k answers).0
unfolding send_views
send_views-IsWork g view_ok file [] k = ground arith
send_views-IsWork g view_ok file (broken ∷ answers) k = ground arith
send_views-IsWork g view_ok file (accepted n ∷ answers) k =
    ground (arith, send_views-IsWork g view_ok file answers (k + min n (min g (length file - k))))

finish_win32-IsWork :
    (a : SenderAnswers) (j : Job) (n : ℕ) → All IsWork (finish_sending_win32 a j n).0
unfolding finish_sending_win32 write_named_pipe write_message
finish_win32-IsWork a j n = ground (arith, drain_loop_quiet a.draining)

finish_win32_ends :
    (a : SenderAnswers) (j : Job) (n : ℕ)
    → drains a.draining ≡ true
    → (finish_sending_win32 a j n).1 ≡ thread_exit
unfolding finish_sending_win32 write_named_pipe write_message
finish_win32_ends a j n h = rw (drain_loop_ends a.draining h) (ground arith)

sender_served :
    (a : SenderAnswers) (j : Job) (n : ℕ) (rest : List SendAnswer)
    → IsServedWin32 a j n rest
    → drains a.draining ≡ true
    → (t : List Action) × (thread_sender_win32 a j ≡ (t, thread_exit))
      × (sent_bytes t ≡ j.file_to_send)
      × All IsWork t
unfolding thread_sender_win32
sender_served a j n rest served drained =
    let (t, ran, bytes) = send_views_sends_all a j n rest served in
    let end = finish_sending_win32 a j (length j.file_to_send) in
    let work : All IsWork t =
      subst (λ (r : Run ℕ). All IsWork r.0) ran
        (send_views-IsWork a.granularity a.view_ok j.file_to_send a.sending 0) in
    (
      t ++ end.0,
      rw ran (
          ap (λ (s : Stop (Unit {0})). (t ++ end.0, s))
            (finish_win32_ends a j (length j.file_to_send) drained)),
      sent_bytes-append t end.0
          ∙ ap (◌++◌ (sent_bytes t)) (finish_win32_quiet a j (length j.file_to_send))
          ∙ append-nil (sent_bytes t)
          ∙ bytes,
      All-append IsWork t end.0 work (finish_win32-IsWork a j (length j.file_to_send)),
    )

-- Every call on the file succeeds up to the wait for the sender.
pub record IsLoadedWin32 (a : LoadAnswers) : Type 0 where
  pub created : a.create_ok ≡ true
  pub sized : a.size_ok ≡ true
  pub mapped : a.mapping_ok ≡ true
  pub started : a.thread_ok ≡ true
  pub file_closed : a.close_file_ok ≡ true
  pub waited : a.wait_ok ≡ true

-- A request for a file that is there, is no directory and is read and sent without a failure: the
-- client's line fits into the request and its path into PATH_MAX.
pub record IsFileRequest (c : Client) (w : WindowsWorld) (line rest : Bytes) (n : ℕ)
    (more : List SendAnswer) : Type 0 where
  pub winsock : w.winsock_ok ≡ true
  pub sent : stream w.arrivals ≡ line ++ (crlf ++ rest)
  pub one_line : contains crlf line ≡ false
  pub line_fits : length line + 2 ≤ room c
  pub path_fits : length (home c) + length (c_string line) < path_max_win32
  pub allowed : check_security_path (home c ++ c_string line) ≡ false
  pub no_menu : (type_path_win32 w.info (home c ++ c_string line) == b'1') ≡ false
  pub no_error : (type_path_win32 w.info (home c ++ c_string line) == b'3') ≡ false
  pub loaded : IsLoadedWin32 w.load
  pub served : IsServedWin32 w.sender (job_win32 c w (home c ++ c_string line)) n more
  pub drained : drains w.sender.draining ≡ true

load_win32_loaded :
    (a : LoadAnswers) (beside : ℕ) (t : List Action)
    → IsLoadedWin32 a
    → load_win32 a beside (t, thread_exit) ≡ (t, value tt)
unfolding load_win32
load_win32_loaded a beside t l =
    rw (l.created, l.sized, l.mapped, l.started, l.file_closed, l.waited) refl

-- What `management_function` does for such a request: it sends the bytes of the file, and behind them
-- only frees the request and closes the connection.
pub management_function_win32_file :
    (c : Client) (w : WindowsWorld) (line rest : Bytes) (n : ℕ) (more : List SendAnswer)
    → IsFileRequest c w line rest n more
    → (t : List Action) × (management_function_win32 c w
        ≡ after (t ++ (free_input ∷ [])) (close_socket_kill_child c 0))
      × (sent_bytes t ≡ w.contents)
      × All IsWork t
unfolding management_function_win32 manage_win32 serve_win32 serve_path_win32 reply_win32
management_function_win32_file c w line rest n more r =
    let path = home c ++ c_string line in
    let read = read_request_complete (room c) w.arrivals line rest r.sent r.one_line r.line_fits in
    let (t, ran, bytes, work) =
      sender_served w.sender (job_win32 c w path) n more r.served r.drained in
    let short : leb path_max_win32 (length (home c) + length (c_string line)) ≡ false =
      ground (arith, r.path_fits) in
    (
      t,
      rw
          (
            r.winsock,
            read,
            short,
            r.allowed,
            r.no_menu,
            r.no_error,
            ran,
            load_win32_loaded w.load w.beside t r.loaded,
          )
          (ap (λ (u : List Action). (u, (close_socket_kill_child c 0).1))
            (sym (append_assoc t (free_input ∷ []) (close_socket_kill_child c 0).0))),
      bytes,
      work,
    )
