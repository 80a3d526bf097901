-- ===== src/Start/Windows/Consistency.antt =====
-- The loop of Windows: which sockets listen while clients are served.
use sacagawea.Common.{
  ◌∙◌, append-nil, ◌⊎◌, ◌||◌, All, map, ◌==◌, ◌≡◌, ◌∷◌, [], List, Bytes, ℕ, refl, ap, Process,
  Option, true, false, Bool, returns, exits, undefined, arith, inl, inr, Bool-cases,
}
use sacagawea.Effects.{
  crashes, waits, thread_exit, pure, Trace, ◌>>=◌, value, process_exit, pure_process,
}
use sacagawea.Regex.{Pattern}
use sacagawea.Gopher.Menu.{print_int}
use sacagawea.Config.{Settings, ConfFile, windows, read_conf_file}
use sacagawea.Config.Ports.{IsValid, SameButPort, read_conf_file-IsValid}
use sacagawea.Config.Handler.{read_conf_file_reload}
use sacagawea.Children.{Client}
use sacagawea.Server.{derailed, client_of, returned, exited, Ending}
use sacagawea.Server.Windows.{
  WinsockCall, WinsockAnswers, starts_winsock, resolves_port, open_socket_win32,
}
use sacagawea.Server.Windows.Cleanup.{Opens, listen_calls, open_socket_win32-Opens}
use sacagawea.Server.Windows.Accept.{
  AcceptEvent, SelectedWin32, WindowsConnection, not_a_socket, select_error, no_descriptor,
  descriptors, listen_descriptor_win32,
}
use sacagawea.Server.Windows.Accept.Served.{survives, given, served, accept_wrapper_win32_serves}
use sacagawea.Start.Windows.{calls_winsock, WindowsDoing, close_all_win32, console_event_handler}
use sacagawea.Start.Windows.Loop.{
  winsock, open_listener_win32, move_socket_win32, universal_handler_win32, WindowsRound,
  wakes_win32, breaks_accepting, console, behind_round, serve_loop_win32,
}
use sacagawea.Start.Windows.Quiet.{
  unbind_win32, BoundWin32, steps, ListensWin32, ConsistentWin32, bind-ConsistentWin32,
  winsock-ConsistentWin32,
}

-- The clients of one round carry the settings of the round.
served_settings :
    (s : Settings) (queue : List WindowsConnection) (bound : BoundWin32)
    → ListensWin32 s bound
    → All (λ (c : Client). ListensWin32 c.settings bound) (served s queue)
unfolding client_of
served_settings s [] bound h = tt
served_settings s (c ∷ queue) bound h = elim (Bool-cases (survives s c)) [
  | inr ends ↦ rw ends tt
  | inl goes ↦ elim (Bool-cases (s.mode == b'p' || c.connection.started)) [
    | inl gets ↦ rw (goes, gets) (h, served_settings s queue bound h)
    | inr lacks ↦ rw (goes, lacks) (served_settings s queue bound h)
  ]
]

listen_descriptor_settings_win32 :
    (s : Settings) (selected : SelectedWin32) (queue : List WindowsConnection) (bound : BoundWin32)
    → IsValid s
    → ListensWin32 s bound
    → All
        (λ (c : Client). ListensWin32 c.settings bound)
        (given (listen_descriptor_win32 s selected queue).0)
unfolding listen_descriptor_win32
listen_descriptor_settings_win32 s not_a_socket queue bound v h = tt
listen_descriptor_settings_win32 s select_error queue bound v h = tt
listen_descriptor_settings_win32 s no_descriptor queue bound v h = tt
listen_descriptor_settings_win32 s (descriptors false) queue bound v h = tt
listen_descriptor_settings_win32 s (descriptors true) queue bound v h =
    rw (accept_wrapper_win32_serves s queue v).0 (served_settings s queue bound h)

round-ConsistentWin32 :
    (bound : BoundWin32) (r : List AcceptEvent × Ending) (rest : Trace WindowsDoing (Unit {0}))
    → All (λ (c : Client). ListensWin32 c.settings bound) (given r.0)
    → ConsistentWin32 bound rest.0
    → ConsistentWin32 bound (behind_round r rest).0
round-ConsistentWin32 bound (events, returned) rest h k = (h, k)
round-ConsistentWin32 bound (events, exited code) rest h k = (h, tt)
round-ConsistentWin32 bound (events, derailed) rest h k = (h, tt)

-- Where no socket is bound, the socket that `open_socket` returns is the one that is.
opened-ListensWin32 :
    (r : Trace WinsockCall ℕ) (s : Settings) (sd sd' : ℕ)
    → Opens
        (starts_winsock ∷ resolves_port (print_int s.port) ∷ listen_calls sd' (print_int s.port))
        sd'
        r
    → (winsock r).1 ≡ value sd
    → ListensWin32 (record s { socket = sd }) (steps [] (winsock r).0)
opened-ListensWin32 r s sd sd' (inl made) e =
    let same : sd' ≡ sd = ground arith in rw (made, same) refl
opened-ListensWin32 r s sd sd' (inr (ended, _)) e = cc

-- The sockets agree with the settings on the way, and at its end, if it has one, with the settings that
-- are left, which are valid.
abbrev pub EndsListening : BoundWin32 → Trace WindowsDoing Settings → Type 0
EndsListening bound m =
    ConsistentWin32 bound m.0
    × ((t : Settings) → m.1 ≡ value t → IsValid t × ListensWin32 t (steps bound m.0))

pub open_listener-EndsListening :
    (a : WinsockAnswers) (s : Settings) → IsValid s → EndsListening [] (open_listener_win32 a s)
unfolding open_listener_win32
open_listener-EndsListening a s v =
    let (sd', opens) = open_socket_win32-Opens a s (omega (arith, v.port_lt)) in
    go (open_socket_win32 a s)
      (λ sd e. opened-ListensWin32 (open_socket_win32 a s) s sd sd' opens e)
  where
    go :
        (r : Trace WinsockCall ℕ)
        → ((sd : ℕ)
            → (winsock r).1 ≡ value sd
            → ListensWin32 (record s { socket = sd }) (steps [] (winsock r).0))
        → EndsListening [] (winsock r >>= λ sd. pure (record s { socket = sd }))
    go (calls, value sd) k = rw (append-nil (map calls_winsock calls)) (
      winsock-ConsistentWin32 calls [],
      λ t e.
          let same : record s { socket = sd } ≡ t = ground (arith, e) in
          rw (← same) (
            record { port_pos = v.port_pos; port_lt = v.port_lt; mode_known = v.mode_known },
            k sd refl,
          ),
    )
    go (calls, thread_exit) k = (winsock-ConsistentWin32 calls [], λ t e. cc)
    go (calls, process_exit code) k = (winsock-ConsistentWin32 calls [], λ t e. cc)
    go (calls, waits) k = (winsock-ConsistentWin32 calls [], λ t e. cc)
    go (calls, crashes) k = (winsock-ConsistentWin32 calls [], λ t e. cc)

-- The socket that is closed is the one that is bound.
move_socket-EndsListening :
    (a : WinsockAnswers) (s t : Settings) (changed : Bool) (bound : BoundWin32)
    → IsValid t
    → SameButPort s t
    → (changed ≡ true) ⊎ (t.port ≡ s.port)
    → ListensWin32 s bound
    → EndsListening bound (move_socket_win32 a t changed)
unfolding move_socket_win32
move_socket-EndsListening a s t true bound v same told h =
    let (fine, ends) = open_listener-EndsListening a t v in
    let gone : unbind_win32 t.socket bound ≡ [] = rw h (ground (arith, same.socket_same)) in
    (
      (tt, rw gone fine),
      λ u e.
          let (valid, listens) = ends u e in
          (valid, ap (λ (b : BoundWin32). steps b (open_listener_win32 a t).0) gone ∙ listens),
    )
move_socket-EndsListening a s t false bound v same told h = (
  tt,
  λ u e.
      let is : t ≡ u = ground (arith, e) in
      let port : t.port ≡ s.port = elim told [
        | inl wrong ↦ absurd (ground (arith, wrong))
        | inr p ↦ p
      ] in
      rw (← is) (v, rw (h, port, same.socket_same) refl),
)

universal_handler-EndsListening :
    (group : Pattern → Bytes → Option Bytes) (opendir : Bytes → Bool) (file : ConfFile)
    (a : WinsockAnswers) (s : Settings) (bound : BoundWin32)
    → IsValid s
    → ListensWin32 s bound
    → EndsListening bound (universal_handler_win32 group opendir file a s)
unfolding universal_handler_win32
universal_handler-EndsListening group opendir file a s bound v h =
    go (read_conf_file (windows group) opendir file s true) refl
  where
    go :
        (p : Process (Settings × Bool))
        → read_conf_file (windows group) opendir file s true ≡ p
        → EndsListening bound (pure_process p >>= λ (t, changed). move_socket_win32 a t changed)
    go (returns (t, changed)) e =
        let (same, told, _) = read_conf_file_reload (windows group) opendir file s e in
        move_socket-EndsListening a s t changed bound
          (read_conf_file-IsValid (windows group) opendir file s true v e) same told h
    go (exits code) e = (tt, λ t e'. cc)
    go undefined e = (tt, λ t e'. cc)

console-EndsListening :
    (ctrl_break : Bool) (reload : Settings → Trace WindowsDoing Settings) (s : Settings)
    (bound : BoundWin32)
    → EndsListening bound (reload s)
    → EndsListening bound (console_event_handler ctrl_break reload s)
unfolding console_event_handler close_all_win32
console-EndsListening true reload s bound h = h
console-EndsListening false reload s bound h = ((tt, (tt, (tt, (tt, (tt, tt))))), λ t e. cc)

-- CTRL+BREAK does not come while the server accepts.
abbrev pub IsWaitingWin32 : WindowsRound → Type 0
IsWaitingWin32 (breaks_accepting before c between file a behind) = ⊥
IsWaitingWin32 _ = Unit

pub serve_loop-ConsistentWin32 :
    (group : Pattern → Bytes → Option Bytes) (opendir : Bytes → Bool) (rounds : List WindowsRound)
    (s : Settings) (bound : BoundWin32)
    → All IsWaitingWin32 rounds
    → IsValid s
    → ListensWin32 s bound
    → ConsistentWin32 bound (serve_loop_win32 group opendir s rounds).0
unfolding serve_loop_win32
serve_loop-ConsistentWin32 group opendir [] s bound w v h = tt
serve_loop-ConsistentWin32 group opendir (wakes_win32 selected queue ∷ rounds) s bound w v h =
    round-ConsistentWin32 bound (listen_descriptor_win32 s selected queue)
      (serve_loop_win32 group opendir s rounds)
      (listen_descriptor_settings_win32 s selected queue bound v h)
      (serve_loop-ConsistentWin32 group opendir rounds s bound w.1 v h)
serve_loop-ConsistentWin32 group opendir (console ctrl_break file a ∷ rounds) s bound w v h =
    let (fine, ends) =
      console-EndsListening ctrl_break (universal_handler_win32 group opendir file a) s bound
        (universal_handler-EndsListening group opendir file a s bound v h) in
    bind-ConsistentWin32
      (console_event_handler ctrl_break (universal_handler_win32 group opendir file a) s)
      (λ t. serve_loop_win32 group opendir t rounds) bound fine
      (λ t e.
        let (valid, listens) = ends t e in
        serve_loop-ConsistentWin32 group opendir rounds t
          (steps bound
            (console_event_handler ctrl_break (universal_handler_win32 group opendir file a) s).0)
          w.1 valid listens)
serve_loop-ConsistentWin32 group opendir (breaks_accepting before c between file a behind ∷ rounds)
      s bound w v h =
    absurd w.0
