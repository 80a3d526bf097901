-- ===== src/Children/Closing.antt =====
-- How `management_function` ends in a thread: the arguments are freed and the socket is closed.
use sacagawea.Loader.Release.{give_back-All}
use sacagawea.Gopher.TypePath.{type_path}
use sacagawea.Security.{check_security_path}
use sacagawea.Request.{refused, waiting, request, read_request, Outcome}
use sacagawea.Gopher.Menu.{send_content_of_dir}
use sacagawea.Common.{
  ◌+◌, c_string, ◌-◌, leb, undefined, exits, returns, Process, arith, none, length, some, Option,
  refl, inr, All-append, inl, append_assoc, [], ◌==◌, ◌++◌, ◌∷◌, Bool-cases, ◌≡◌, ℕ, All, List,
  Bytes,
}
use sacagawea.Effects.{
  pure_process, ◌>>◌, free_input, pure, do_action, locks, opens, unmaps, maps, ◌>>=◌, signals,
  counts_signal, unlock_mutex, lock_mutex, ignores_sighup, crashes, shuts_down, waits, writes_pipe,
  sends, process_exit, join, value, thread_exit, after, free_args, close_socket, Action, Run,
}
use sacagawea.Gopher.Sender.Quiet.{IsSending, thread_sender-IsSending}
use sacagawea.Loader.{FileAnswers, load_file_memory_and_send, send_mapped, send_locked}
use sacagawea.Children.{
  path_max, max_request_len, Client, World, close_socket_kill_child, send_menu, reply, serve_path,
  serve, manage, management_function,
}

-- An action that is not part of the closing of the connection.
abbrev pub IsWork : Action → Type 0
IsWork (close_socket n) = ⊥
IsWork free_args = ⊥
IsWork _ = Unit

-- A run that does not return; if it ends its thread, it frees the arguments and closes the socket as
-- its last two actions, and does neither before.
abbrev pub Closed : Client → Run (Unit {0}) → Type 0
Closed c (t, thread_exit) =
    (u : List Action) × (t ≡ u ++ (free_args ∷ close_socket c.socket ∷ [])) × All IsWork u
Closed c (t, value x) = ⊥
Closed c (t, _) = Unit

after-Closed :
    (c : Client) (t : List Action) (r : Run (Unit {0}))
    → All IsWork t
    → Closed c r
    → Closed c (after t r)
after-Closed c t (u, thread_exit) h (v, e, work) = (
  t ++ v,
  rw (e, append_assoc t v (free_args ∷ close_socket c.socket ∷ [])) refl,
  All-append IsWork t v h work,
)
after-Closed c t (u, value x) h p = p
after-Closed c t (u, process_exit code) h p = tt
after-Closed c t (u, waits) h p = tt
after-Closed c t (u, crashes) h p = tt

-- A run that works and comes back to its caller, or stops everything.
abbrev IsInner {ℓ} : {A : Type ℓ} → Run A → Type 0
IsInner (t, thread_exit) = ⊥
IsInner (t, _) = All IsWork t

bind-Closed {ℓ} :
    {A : Type ℓ} (c : Client) (m : Run A) (f : A → Run (Unit {0}))
    → IsInner m
    → ((a : A) → Closed c (f a))
    → Closed c (m >>= f)
bind-Closed c (t, value a) f h k = after-Closed c t (f a) h (k a)
bind-Closed c (t, thread_exit) f h k = absurd h
bind-Closed c (t, process_exit code) f h k = tt
bind-Closed c (t, waits) f h k = tt
bind-Closed c (t, crashes) f h k = tt

after-IsInner {ℓ} :
    {B : Type ℓ} (t : List Action) (r : Run B) → All IsWork t → IsInner r → IsInner (after t r)
after-IsInner t (u, value x) h p = All-append IsWork t u h p
after-IsInner t (u, thread_exit) h p = absurd p
after-IsInner t (u, process_exit code) h p = All-append IsWork t u h p
after-IsInner t (u, waits) h p = All-append IsWork t u h p
after-IsInner t (u, crashes) h p = All-append IsWork t u h p

bind-IsInner {ℓ κ} :
    {A : Type ℓ} {B : Type κ} (m : Run A) (f : A → Run B)
    → IsInner m
    → ((a : A) → IsInner (f a))
    → IsInner (m >>= f)
bind-IsInner (t, value a) f h k = after-IsInner t (f a) h (k a)
bind-IsInner (t, thread_exit) f h k = absurd h
bind-IsInner (t, process_exit code) f h k = h
bind-IsInner (t, waits) f h k = h
bind-IsInner (t, crashes) f h k = h

close-Closed : (c : Client) (code : ℕ) → Closed c (close_socket_kill_child c code)
unfolding close_socket_kill_child
close-Closed c code = elim (Bool-cases (c.settings.mode == b't')) [
  | inl thread ↦ rw thread ([], refl, tt)
  | inr process ↦ rw process tt
]

sending-IsWork : (t : List Action) → All IsSending t → All IsWork t
sending-IsWork [] h = tt
sending-IsWork (sends b ∷ t) h = (tt, sending-IsWork t h.1)
sending-IsWork (shuts_down ∷ t) h = (tt, sending-IsWork t h.1)
sending-IsWork (ignores_sighup ∷ t) h = (tt, sending-IsWork t h.1)
sending-IsWork (lock_mutex ∷ t) h = (tt, sending-IsWork t h.1)
sending-IsWork (unlock_mutex ∷ t) h = (tt, sending-IsWork t h.1)
sending-IsWork (counts_signal ∷ t) h = (tt, sending-IsWork t h.1)
sending-IsWork (writes_pipe b ∷ t) h = (tt, sending-IsWork t h.1)
sending-IsWork (signals ∷ t) h = (tt, sending-IsWork t h.1)
sending-IsWork (_ ∷ t) h = absurd h.0

join-IsInner : (r : Run (Unit {0})) → All IsWork r.0 → IsInner (join r)
join-IsInner (t, value x) h = h
join-IsInner (t, thread_exit) h = h
join-IsInner (t, process_exit code) h = h
join-IsInner (t, waits) h = h
join-IsInner (t, crashes) h = h

send_mapped-IsInner :
    (f : FileAnswers) (r : Run (Unit {0})) → All IsWork r.0 → IsInner (send_mapped f r)
unfolding send_mapped
send_mapped-IsInner f (t, value x) h =
    ground (arith, All-append IsWork t [] h tt, All-append IsWork t (unmaps ∷ []) h (tt, tt))
send_mapped-IsInner f (t, thread_exit) h =
    ground (arith, All-append IsWork t [] h tt, All-append IsWork t (unmaps ∷ []) h (tt, tt))
send_mapped-IsInner f (t, process_exit code) h = ground (arith, All-append IsWork t [] h tt)
send_mapped-IsInner f (t, waits) h = ground (arith, All-append IsWork t [] h tt)
send_mapped-IsInner f (t, crashes) h = ground (arith, All-append IsWork t [] h tt)

-- The file is loaded and sent: the connection is left as it is.
load_file-IsInner :
    (f : FileAnswers) (sender : Bytes → Run (Unit {0})) (path : Bytes)
    → ((b : Bytes) → All IsWork (sender b).0)
    → IsInner (load_file_memory_and_send f sender path)
unfolding load_file_memory_and_send send_locked
load_file-IsInner f sender path h = elim (Bool-cases f.open_ok) [
  | inr missing ↦ rw missing tt
  | inl opened ↦ elim (Bool-cases f.lock_ok) [
    | inr busy ↦ rw (opened, busy) (tt, tt)
    | inl locked ↦
        rw (opened, locked)
          (after-IsInner (opens path ∷ locks ∷ []) (send_locked f sender f.contents) (tt, (tt, tt))
            (go f.contents))
  ]
]
  where
    go : (c : Option Bytes) → IsInner (send_locked f sender c)
    go none = give_back-All IsWork f tt tt
    go (some contents) = elim (Bool-cases (f.mmap_ok (length contents))) [
      | inr bad ↦ rw bad (give_back-All IsWork f tt tt)
      | inl good ↦ rw good (
          after-IsInner (maps (length contents) ∷ []) (send_mapped f (sender contents)) (tt, tt)
            (send_mapped-IsInner f (sender contents) (h contents)))
    ]

menu-IsInner : (p : Process (Option Bytes)) → IsInner (send_menu p)
unfolding send_menu
menu-IsInner (returns none) = tt
menu-IsInner (returns (some menu)) = (tt, tt)
menu-IsInner (exits code) = tt
menu-IsInner undefined = tt

reply-IsInner :
    (c : Client) (w : World) (path input : Bytes) (type : ℕ) → IsInner (reply c w path input type)
unfolding reply
reply-IsInner c w path input type = elim (Bool-cases (type == b'1')) [
  | inl menu ↦ rw menu (menu-IsInner (send_content_of_dir _ _ _))
  | inr other ↦ elim (Bool-cases (type == b'3')) [
    | inl error ↦ rw (other, error) (tt, tt)
    | inr file ↦
        rw (other, file)
          (bind-IsInner (load_file_memory_and_send w.file _ path) (λ _. pure tt)
            (load_file-IsInner w.file _ path
              (λ b. sending-IsWork _ (thread_sender-IsSending w.sender _)))
            (λ _. tt))
  ]
]

serve_path-Closed :
    (c : Client) (w : World) (path input : Bytes) → Closed c (serve_path c w path input)
unfolding serve_path
serve_path-Closed c w path input = elim (Bool-cases (check_security_path path)) [
  | inl bad ↦
      rw bad
        (after-Closed c (free_input ∷ []) (close_socket_kill_child c 0) (tt, tt) (close-Closed c 0))
  | inr good ↦ rw good (go (type_path w.popen w.stale path))
]
  where
    finish : Unit {0} → Closed c (do_action free_input >> close_socket_kill_child c 0)
    finish x =
        after-Closed c (free_input ∷ []) (close_socket_kill_child c 0) (tt, tt) (close-Closed c 0)

    go :
        (p : Process ℕ)
        → Closed c (
            pure_process p >>= λ type. reply c w path input type >>= λ _.
            do_action free_input >>= λ _. close_socket_kill_child c 0)
    go (returns type) =
        after-Closed c [] _ tt
          (bind-Closed c (reply c w path input type) _ (reply-IsInner c w path input type) finish)
    go (exits code) = tt
    go undefined = tt

manage-Closed : (c : Client) (w : World) (o : Outcome) → Closed c (manage c w o)
unfolding manage serve
manage-Closed c w waiting = tt
manage-Closed c w refused = close-Closed c 0
manage-Closed c w (request line n) =
    elim (Bool-cases
      (leb path_max (length (c_string c.settings.homedir) + length (c_string line)))) [
        | inl long ↦ rw long (close-Closed c 0)
        | inr fits ↦
            rw fits
              (serve_path-Closed c w (c_string c.settings.homedir ++ c_string line) (c_string line))
      ]

-- Whatever the client sends and the system answers, `management_function` never returns; and if it
-- ends its thread, it has freed the arguments and then closed the client's socket, as its last two
-- actions and each exactly once.
pub management_function-Closed : (c : Client) (w : World) → Closed c (management_function c w)
unfolding management_function
management_function-Closed c w =
    manage-Closed c w
      (read_request (max_request_len - length (c_string c.settings.homedir)) w.arrivals)
