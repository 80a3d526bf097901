-- ===== src/Children/Answers.antt =====
-- What the client gets for the request that it sent.
use sacagawea.Common.{
  refl, returns, ◌+◌, false, true, ◌∷◌, [], ◌++◌, leb, arith, ◌-◌, ◌≡◌, ◌≤◌, length, ℕ, c_string,
  Bytes,
}
use sacagawea.Effects.{free_input, sends, after, sent_bytes}
use sacagawea.Security.{check_security_path}
use sacagawea.Gopher.TypePath.{type_path}
use sacagawea.Request.{request, read_request}
use sacagawea.Request.Lines.{read_request_sound}
use sacagawea.Loader.Release.{file_calls}
use sacagawea.Children.{
  error_reply, path_max, max_request_len, Client, World, close_socket_kill_child, manage, serve,
  serve_path, reply, management_function,
}

abbrev pub home : Client → Bytes
home c = c_string c.settings.homedir

-- The room that is left for the request behind the home directory.
abbrev pub room : Client → ℕ
room c = max_request_len - length (home c)

c_string-le : (s : Bytes) → length (c_string s) ≤ length s
c_string-le [] = omega arith
c_string-le (c ∷ s) = ground (arith, c_string-le s)

-- A request that was read always fits: the second check of the lengths never refuses one.
request_fits :
    (c : Client) (w : World) {line : Bytes} {n : ℕ}
    → read_request (room c) w.arrivals ≡ request line n
    → leb path_max (length (home c) + length (c_string line)) ≡ false
request_fits c w {line} h =
    let (rest, split, clean, count, fits) = read_request_sound (room c) w.arrivals h in
    let short = c_string-le line in ground arith

-- A request that was read is answered by `serve_path` on the home directory and the request.
pub manage_request :
    (c : Client) (w : World) {line : Bytes} {n : ℕ}
    → read_request (room c) w.arrivals ≡ request line n
    → management_function c w ≡ serve_path c w (home c ++ c_string line) (c_string line)
unfolding management_function manage serve
manage_request c w h = rw (h, request_fits c w h) refl

pub close_touches :
    (c : Client) (code : ℕ)
    → (sent_bytes (close_socket_kill_child c code).0 ≡ [])
      × (file_calls (close_socket_kill_child c code).0 ≡ [])
unfolding close_socket_kill_child
close_touches c code = ground arith

-- A request whose path is refused by `check_security_path` gets no byte and opens no file.
pub management_function_refuses :
    (c : Client) (w : World) {line : Bytes} {n : ℕ}
    → read_request (room c) w.arrivals ≡ request line n
    → check_security_path (home c ++ c_string line) ≡ true
    → (sent_bytes (management_function c w).0 ≡ []) × (file_calls (management_function c w).0 ≡ [])
unfolding serve_path
management_function_refuses c w h bad = rw (manage_request c w h, bad) (close_touches c 0)

-- A request that was read, for an allowed path of type '3', is answered by one `send` of the error
-- line and nothing else; the request is freed and then the connection closed.
pub management_function_error :
    (c : Client) (w : World) {line : Bytes} {n : ℕ}
    → read_request (room c) w.arrivals ≡ request line n
    → check_security_path (home c ++ c_string line) ≡ false
    → type_path w.popen w.stale (home c ++ c_string line) ≡ returns b'3'
    → management_function c w
      ≡ after (sends (error_reply (c_string line)) ∷ free_input ∷ []) (close_socket_kill_child c 0)
unfolding serve_path reply
management_function_error c w h good type = rw (manage_request c w h, good, type) refl
