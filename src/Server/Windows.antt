-- ===== src/Server/Windows.antt =====
-- `open_socket` of src/sacagalib/socket.c on Windows: the calls of Winsock, and what a failure gives
-- back before the process ends.
pub mod Accept
pub mod Cleanup
use sacagawea.Common.{some, none, ◌∷◌, if◌then◌else◌, List, Option, ℕ, Bool, Bytes, []}
use sacagawea.Effects.{pure, process_exit, do_action, ◌>>◌, Trace}
use sacagawea.Config.{Settings}
use sacagawea.Gopher.Menu.{snprintf, print_int}

-- An address is what `getaddrinfo` made of the text of a port.
pub data WinsockCall : Type 0 where
  starts_winsock cleans_winsock frees_address : WinsockCall
  resolves_port : Bytes → WinsockCall
  creates_socket sets_nonblocking sets_reuse listens_on closes_listener : ℕ → WinsockCall
  binds_to : ℕ → Bytes → WinsockCall

pub record WinsockAnswers : Type 0 where
  pub startup_ok : Bool
  pub resolve_ok : Bool
  pub listen_socket : Option ℕ
  pub nonblock_ok : Bool
  pub reuse_ok : Bool
  pub bind_ok : Bool
  pub listen_ok : Bool

-- "%d" into 15 of the 16 bytes.
unfoldable pub port_to_string : Settings → Bytes
port_to_string s = snprintf 15 (print_int s.port)

-- A call whose failure does `undo` and ends the process with 1.
abbrev pub or_undo : Bool → WinsockCall → List WinsockCall → Trace WinsockCall (Unit {0})
or_undo ok call undo = if ok then do_action call else (undo, process_exit 1)

-- With a socket. The address is freed when it is bound.
pub listen_with : WinsockAnswers → Bytes → ℕ → Trace WinsockCall ℕ
listen_with a port sd = do
  do_action (creates_socket sd)
  or_undo a.nonblock_ok (sets_nonblocking sd) []
  or_undo a.reuse_ok (sets_reuse sd) (closes_listener sd ∷ cleans_winsock ∷ [])
  or_undo a.bind_ok (binds_to sd port) (frees_address ∷ closes_listener sd ∷ cleans_winsock ∷ [])
  do_action frees_address
  or_undo a.listen_ok (listens_on sd) (closes_listener sd ∷ cleans_winsock ∷ [])
  pure sd

unfoldable pub open_socket_win32 : WinsockAnswers → Settings → Trace WinsockCall ℕ
unfolding listen_with port_to_string
open_socket_win32 a s = do
  or_undo a.startup_ok starts_winsock []
  or_undo a.resolve_ok (resolves_port (port_to_string s)) (cleans_winsock ∷ [])
  elim a.listen_socket [
    | none ↦ (frees_address ∷ cleans_winsock ∷ [], process_exit 1)
    | some sd ↦ listen_with a (port_to_string s) sd
  ]
