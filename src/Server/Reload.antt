-- ===== src/Server/Reload.antt =====
-- `open_socket` of src/sacagalib/socket.c and `universal_handler` of src/server/sacagawea.c, which
-- SIGHUP runs (the Linux branches): the listening socket follows the port of sacagawea.conf.
use sacagawea.Common.{
  ◌∙◌, inr, >>=-eq-returns, inl, arith, Option-cases, ◌⊎◌, some, ◌%◌, false, ◌∷◌, true, [], exits,
  ◌&&◌, ◌<◌, ◌≡◌, ◌>>=◌, returns, none, if◌then◌else◌, List, Bool, Process, Option, ℕ, Bytes,
}
use sacagawea.Config.{linux, Settings, ConfFile, read_and_check_conf}
use sacagawea.Config.Ports.{IsValid, read_conf_file-IsValid}
use sacagawea.Config.Handler.{read_conf_file_reload}

-- The calls that act on listening sockets.
pub data SocketCall : Type 0 where
  creates : ℕ → SocketCall
  binds : ℕ → ℕ → SocketCall
  listens : ℕ → SocketCall
  shuts : ℕ → SocketCall

-- What the calls answer; `socket` gives a descriptor or fails. A failing `setsockopt(SO_REUSEADDR)` and
-- a failing `close` are only logged.
pub record SocketAnswers : Type 0 where
  pub socket_fd : Option ℕ
  pub ioctl_ok : Bool
  pub recvbuf_ok : Bool
  pub bind_ok : Bool
  pub listen_ok : Bool

-- Behind `socket`. `htons` takes the lower 16 bits of the port.
open_with : SocketAnswers → Settings → ℕ → Process (ℕ × List SocketCall)
open_with a s sd =
    if a.ioctl_ok && (a.recvbuf_ok && (a.bind_ok && a.listen_ok))
    then returns (sd, creates sd ∷ binds sd (s.port % 65536) ∷ listens sd ∷ [])
    else exits 5

unfoldable pub open_socket : SocketAnswers → Settings → Process (ℕ × List SocketCall)
unfolding open_with
open_socket a s = elim a.socket_fd [ none ↦ exits 5 | some sd ↦ open_with a s sd ]

-- With what `read_and_check_conf` returned.
move_socket : SocketAnswers → Settings → Bool → Process (Settings × List SocketCall)
unfolding open_socket
move_socket a s false = returns (s, [])
move_socket a s true = do
  (sd, calls) ← open_socket a s
  returns (record s { socket = sd }, shuts s.socket ∷ calls)

unfoldable pub universal_handler :
    (Bytes → Bool) → ConfFile → SocketAnswers → Settings → Process (Settings × List SocketCall)
unfolding move_socket
universal_handler opendir file a s = do
  (t, changed) ← read_and_check_conf opendir file s true
  move_socket a t changed

-- What the calls leave: nothing happened, or the old socket was shut and a new one listens on the port.
abbrev pub Moved : Settings → Settings → List SocketCall → Type 0
Moved s t calls =
    ((calls ≡ []) × (t.port ≡ s.port) × (t.socket ≡ s.socket))
    ⊎ (calls ≡ shuts s.socket ∷ creates t.socket ∷ binds t.socket t.port ∷ listens t.socket ∷ [])

pub open_socket_calls :
    (a : SocketAnswers) (s : Settings) {sd : ℕ} {calls : List SocketCall}
    → open_socket a s ≡ returns (sd, calls)
    → calls ≡ creates sd ∷ binds sd (s.port % 65536) ∷ listens sd ∷ []
unfolding open_socket
open_socket_calls a s h = elim (Option-cases a.socket_fd) [
  | inl e ↦ ground arith
  | inr (n, e) ↦ ground arith
]

move_socket_calls :
    (a : SocketAnswers) (s : Settings) (changed : Bool) {t : Settings} {calls : List SocketCall}
    → s.port < 65536
    → move_socket a s changed ≡ returns (t, calls)
    → (t.port ≡ s.port)
      × (t.homedir ≡ s.homedir)
      × (t.hostname ≡ s.hostname)
      × (t.mode ≡ s.mode)
      × (((changed ≡ false) × (calls ≡ []) × (t.socket ≡ s.socket))
          ⊎ (calls
              ≡ shuts s.socket ∷ creates t.socket ∷ binds t.socket t.port ∷ listens t.socket ∷ []))
unfolding move_socket
move_socket_calls a s false lt h = ground arith
move_socket_calls a s true lt h =
    let ((sd, made), opened, rest) = >>=-eq-returns (open_socket a s) _ h in
    let made_is = open_socket_calls a s opened in
    let small : s.port % 65536 ≡ s.port = omega arith in ground (arith, rw small at made_is)

-- A reload by SIGHUP changes nothing but the port and the socket. It leaves the socket as it is when
-- it makes no call; and where it makes one, it closes the old socket, and the new one, which the
-- settings then name, is bound to the port that the settings then have and listens there.
pub universal_handler_moves :
    (opendir : Bytes → Bool) (file : ConfFile) (a : SocketAnswers) (s : Settings) {t : Settings}
    {calls : List SocketCall}
    → IsValid s
    → universal_handler opendir file a s ≡ returns (t, calls)
    → IsValid t
      × (t.homedir ≡ s.homedir)
      × (t.hostname ≡ s.hostname)
      × (t.mode ≡ s.mode)
      × Moved s t calls
unfolding universal_handler
universal_handler_moves opendir file a s {t} {calls} v h =
    let ((u, changed), read, moved) =
      >>=-eq-returns (read_and_check_conf opendir file s true) _ h in
    let valid = read_conf_file-IsValid linux opendir file s true v read in
    let (same, told, _) = read_conf_file_reload linux opendir file s read in
    let (port, home, host, mode, done) = move_socket_calls a u changed valid.port_lt moved in
    let old : u.socket ≡ s.socket = same.socket_same in
    (
      record {
        port_pos = rw port valid.port_pos;
        port_lt = rw port valid.port_lt;
        mode_known = rw mode valid.mode_known;
      },
      home ∙ same.homedir_same,
      host ∙ same.hostname_same,
      mode ∙ same.mode_same,
      ground (arith, done, told, port, old),
    )
