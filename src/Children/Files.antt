-- ===== src/Children/Files.antt =====
-- A request for a file, from the bytes that the client sends to the bytes that it gets.
use sacagawea.Common.{
  inr, inl, Bool-cases, if◌then◌else◌, ◌∙◌, append-nil, ◌==◌, returns, c_string, ◌≤◌, ◌+◌, ◌∷◌,
  false, length, contains, some, ◌++◌, [], true, ℕ, List, ◌≡◌, Bytes, refl,
}
use sacagawea.Effects.{
  process_exit, free_input, value, unmaps, closes_file, unlocks, maps, locks, opens, thread_exit,
  Action, Run, sent_bytes,
}
use sacagawea.Security.{check_security_path}
use sacagawea.Gopher.TypePath.{type_path}
use sacagawea.Gopher.Sender.{thread_sender}
use sacagawea.Gopher.Sender.Delivery.{IsServed, sent_bytes-append}
use sacagawea.Gopher.Sender.Served.{thread_sender_serves}
use sacagawea.Loader.{FileAnswers, load_file_memory_and_send, send_locked, send_mapped}
use sacagawea.Request.Stream.{stream}
use sacagawea.Request.Lines.{crlf, read_request_complete}
use sacagawea.Children.Answers.{home, room, manage_request, close_touches}
use sacagawea.Children.Closing.{Closed, management_function-Closed}
use sacagawea.Children.{
  Client, World, job_of, close_socket_kill_child, serve_path, reply, management_function,
}

-- Every call on the file succeeds, and it holds `contents`.
pub record IsLoaded (f : FileAnswers) (contents : Bytes) : Type 0 where
  pub opened : f.open_ok ≡ true
  pub lock_taken : f.lock_ok ≡ true
  pub holds : f.contents ≡ some contents
  pub mapped : f.mmap_ok (length contents) ≡ true
  pub unlocked : f.unlock_ok ≡ true
  pub file_closed : f.close_ok ≡ true
  pub created : f.create_ok ≡ true
  pub thread_joined : f.join_ok ≡ true
  pub unmapped : f.munmap_ok ≡ true

load_loaded :
    (f : FileAnswers) (sender : Bytes → Run (Unit {0})) (path contents : Bytes) (t : List Action)
    → IsLoaded f contents
    → sender contents ≡ (t, thread_exit)
    → load_file_memory_and_send f sender path ≡ (
      opens path ∷ locks ∷ maps (length contents) ∷ unlocks ∷ closes_file ∷ (t ++ (unmaps ∷ [])),
      value true,
    )
unfolding load_file_memory_and_send send_locked send_mapped
load_loaded f sender path contents t l e =
    rw
      (
        l.opened, l.lock_taken, l.holds, l.mapped, l.unlocked, l.file_closed, e, l.created,
        l.thread_joined, l.unmapped,
      )
      refl

-- What stands around the sending thread's own calls of `send` sends nothing.
framed_bytes :
    (t u rest : List Action)
    → sent_bytes u ≡ []
    → sent_bytes rest ≡ []
    → sent_bytes ((((t ++ u) ++ (unmaps ∷ [])) ++ []) ++ rest) ≡ sent_bytes t
framed_bytes t u rest h k =
    rw
      (
        sent_bytes-append (((t ++ u) ++ (unmaps ∷ [])) ++ []) rest,
        append-nil ((t ++ u) ++ (unmaps ∷ [])),
        sent_bytes-append (t ++ u) (unmaps ∷ []),
        sent_bytes-append t u,
        h,
        k,
        append-nil (sent_bytes t),
        append-nil (sent_bytes t),
        append-nil (sent_bytes t),
      )
      refl

closed_end :
    (c : Client)
    → (close_socket_kill_child c 0).1
      ≡ (if c.settings.mode == b't' then thread_exit else process_exit 0)
unfolding close_socket_kill_child
closed_end c = elim (Bool-cases (c.settings.mode == b't')) [
  | inl thread ↦ rw thread refl
  | inr process ↦ rw process refl
]

sends_file :
    (c : Client) (w : World) (line rest : Bytes) {contents : Bytes} {type total : ℕ}
    → stream w.arrivals ≡ line ++ (crlf ++ rest)
    → contains crlf line ≡ false
    → length line + 2 ≤ room c
    → check_security_path (home c ++ c_string line) ≡ false
    → type_path w.popen w.stale (home c ++ c_string line) ≡ returns type
    → (type == b'1') ≡ false
    → (type == b'3') ≡ false
    → IsLoaded w.file contents
    → IsServed w.sender (job_of c w (home c ++ c_string line) contents) total
    → (sent_bytes (management_function c w).0 ≡ contents)
      × ((management_function c w).1 ≡ (close_socket_kill_child c 0).1)
unfolding serve_path reply
sends_file c w line rest {contents} {type} {total} sent clean fits good type_is no_menu no_error
      loaded served =
    let path = home c ++ c_string line in
    let read = read_request_complete (room c) w.arrivals line rest sent clean fits in
    let (t, ran, bytes) = thread_sender_serves w.sender (job_of c w path contents) total served in
    rw
      (
        manage_request c w read,
        good,
        type_is,
        no_menu,
        no_error,
        load_loaded w.file (λ b. thread_sender w.sender (job_of c w path b)) path contents _ loaded
            ran,
      )
      (
        framed_bytes t _ (free_input ∷ (close_socket_kill_child c 0).0) refl (close_touches c 0).0
            ∙ bytes,
        refl,
      )

-- If the client's line fits, its path is allowed, exists and is no directory, and neither the file nor
-- the connection fails, then the client gets exactly the bytes of the file. In thread mode the thread
-- then ends, and its last two actions free the arguments and close the client's socket, which nothing
-- before did; in the other mode the process exits with 0.
pub management_function_sends_file :
    (c : Client) (w : World) (line rest : Bytes) {contents : Bytes} {type total : ℕ}
    → stream w.arrivals ≡ line ++ (crlf ++ rest)
    → contains crlf line ≡ false
    → length line + 2 ≤ room c
    → check_security_path (home c ++ c_string line) ≡ false
    → type_path w.popen w.stale (home c ++ c_string line) ≡ returns type
    → (type == b'1') ≡ false
    → (type == b'3') ≡ false
    → IsLoaded w.file contents
    → IsServed w.sender (job_of c w (home c ++ c_string line) contents) total
    → (sent_bytes (management_function c w).0 ≡ contents)
      × ((management_function c w).1
          ≡ (if c.settings.mode == b't' then thread_exit else process_exit 0))
      × Closed c (management_function c w)
management_function_sends_file c w line rest sent clean fits good type_is no_menu no_error loaded
      served =
    let (bytes, end) =
      sends_file c w line rest sent clean fits good type_is no_menu no_error loaded served in
    (bytes, end ∙ closed_end c, management_function-Closed c w)
