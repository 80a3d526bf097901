-- ===== src/Start/Main/Listener.antt =====
-- Which sockets listen in a whole run of the server.
use sacagawea.Start.Daemon.{become_daemon}
use sacagawea.Server.Reload.{
  SocketCall, listens, creates, shuts, binds, open_socket, open_socket_calls,
}
use sacagawea.Common.{
  append_assoc, map, sym, subst, ◌%◌, ℕ, false, undefined, true, none, exits, some, returns, Option,
  Bool, Process, append-nil, ◌++◌, ◌≡◌, List, ◌∷◌, [], Bytes, refl, arith, All,
}
use sacagawea.Effects.{
  bind-All, pure, crashes, waits, process_exit, after, pure_process, thread_exit, value, Trace,
  ◌>>=◌,
}
use sacagawea.Config.{Settings}
use sacagawea.Config.Ports.{IsValid}
use sacagawea.Start.Options.{start_settings}
use sacagawea.Start.Options.Validity.{GoodPorts, start_settings-IsValid}
use sacagawea.Start.Setup.{ignores_sigchld, or_exit, close_all, serves, calls_socket, Doing, set_up}
use sacagawea.Start.Setup.Quiet.{IsQuiet, set_up-IsQuiet}
use sacagawea.Start.Loop.{serve_loop}
use sacagawea.Start.Loop.Consistency.{
  IsWaiting, track_all, Consistent, map-Consistent, serve_loop-Consistent,
}
use sacagawea.Start.Main.{Machine, read_settings, daemonize, open_listener, prepare, main}

quiet-Consistent : (t u : List Doing) → All IsQuiet t → Consistent [] u → Consistent [] (t ++ u)
quiet-Consistent [] u h k = k
quiet-Consistent (calls_socket (shuts n) ∷ t) u h k = quiet-Consistent t u h.1 k
quiet-Consistent (calls_socket (creates n) ∷ t) u h k = quiet-Consistent t u h.1 k
quiet-Consistent (calls_socket (listens n) ∷ t) u h k = quiet-Consistent t u h.1 k
quiet-Consistent (calls_socket (binds n p) ∷ t) u h k = absurd h.0
quiet-Consistent (serves events ∷ t) u h k = absurd h.0
quiet-Consistent (_ ∷ t) u h k = quiet-Consistent t u h.1 k

process-IsQuiet {ℓ} : {A : Type ℓ} (p : Process A) → All IsQuiet (pure_process {E = Doing} p).0
process-IsQuiet (returns a) = tt
process-IsQuiet (exits code) = tt
process-IsQuiet undefined = tt

ends-Consistent : (t : List Doing) → All IsQuiet t → Consistent [] t
ends-Consistent t h = rw (← append-nil t) (quiet-Consistent t [] h tt)

after-Consistent {ℓ} :
    {B : Type ℓ} (t : List Doing)
    → All IsQuiet t
    → (r : Trace Doing B) (g : B → Trace Doing (Unit {0})) → Consistent [] (r >>= g).0
    → Consistent [] (after t r >>= g).0
after-Consistent t h (u, value b) g k =
    subst (Consistent []) (sym (append_assoc t u (g b).0)) (quiet-Consistent t (u ++ (g b).0) h k)
after-Consistent t h (u, thread_exit) g k = quiet-Consistent t u h k
after-Consistent t h (u, process_exit code) g k = quiet-Consistent t u h k
after-Consistent t h (u, waits) g k = quiet-Consistent t u h k
after-Consistent t h (u, crashes) g k = quiet-Consistent t u h k

-- A part of `main` that makes no socket, in front of parts that begin with none.
bind-Consistent {ℓ κ} :
    {A : Type ℓ} {B : Type κ} (m : Trace Doing A) (f : A → Trace Doing B)
    (g : B → Trace Doing (Unit {0}))
    → All IsQuiet m.0
    → ((a : A) → m.1 ≡ value a → Consistent [] (f a >>= g).0)
    → Consistent [] ((m >>= f) >>= g).0
bind-Consistent (t, value a) f g h k = after-Consistent t h (f a) g (k a refl)
bind-Consistent (t, thread_exit) f g h k = ends-Consistent t h
bind-Consistent (t, process_exit code) f g h k = ends-Consistent t h
bind-Consistent (t, waits) f g h k = ends-Consistent t h
bind-Consistent (t, crashes) f g h k = ends-Consistent t h

first-IsQuiet : (ok : Bool) → All IsQuiet (or_exit 1 ok ignores_sigchld).0
first-IsQuiet true = (tt, tt)
first-IsQuiet false = tt

read_settings-IsQuiet : (w : Machine) (c : Option Bytes) → All IsQuiet (read_settings w c).0
unfolding read_settings close_all
read_settings-IsQuiet w none = omega arith
read_settings-IsQuiet w (some cwd) =
    process-IsQuiet (start_settings w.opendir w.file cwd w.host w.opts)

daemonize-IsQuiet : (w : Machine) (d : Bool) → All IsQuiet (daemonize w d).0
unfolding daemonize
daemonize-IsQuiet w true = tt
daemonize-IsQuiet w false =
    bind-All IsQuiet (pure_process (become_daemon w.daemon w.process)) _
      (process-IsQuiet (become_daemon w.daemon w.process)) (λ _. (tt, tt))

-- The listening socket is opened, and the loop begins.
opened-Consistent :
    (p : Process (ℕ × List SocketCall)) (s : Settings) (rest : Settings → Trace Doing (Unit {0}))
    → ((sd : ℕ) (calls : List SocketCall)
        → p ≡ returns (sd, calls)
        → Consistent (track_all [] calls) (rest (record s { socket = sd })).0)
    → Consistent []
        ((pure_process p >>= λ (sd, calls).
            after (map calls_socket calls) (pure (record s { socket = sd })))
          >>= rest).0
opened-Consistent (returns (sd, calls)) s rest h =
    rw (append-nil (map calls_socket calls)) (map-Consistent calls [] _ (h sd calls refl))
opened-Consistent (exits code) s rest h = tt
opened-Consistent undefined s rest h = tt

listener-Consistent :
    (w : Machine) (s : Settings)
    → IsValid s
    → All IsWaiting w.rounds
    → Consistent [] (open_listener w s >>= λ t. serve_loop w.opendir t false w.rounds).0
unfolding open_listener
listener-Consistent w s v quiet =
    opened-Consistent (open_socket w.sockets s) s (λ t. serve_loop w.opendir t false w.rounds)
      (λ sd calls e.
        let made = open_socket_calls w.sockets s e in
        let port_is : s.port % 65536 ≡ s.port = omega (arith, v.port_lt) in
        serve_loop-Consistent w.opendir w.rounds (record s { socket = sd }) false
          (track_all [] calls) quiet
          (record { port_pos = v.port_pos; port_lt = v.port_lt; mode_known = v.mode_known })
          (rw (made, port_is) refl))

settings-IsValid :
    (w : Machine) (c : Option Bytes) {s : Settings × Bool}
    → GoodPorts w.opts
    → (read_settings w c).1 ≡ value s
    → IsValid s.0
unfolding read_settings close_all
settings-IsValid w none good e = cc
settings-IsValid w (some cwd) {s} good e =
    go (start_settings w.opendir w.file cwd w.host w.opts) refl e
  where
    go :
        (p : Process (Settings × Bool))
        → start_settings w.opendir w.file cwd w.host w.opts ≡ p
        → (pure_process {E = Doing} p).1 ≡ value s
        → IsValid s.0
    go (returns (t, d)) read e' =
        let same : t ≡ s.0 = ground arith in
        rw same at (start_settings-IsValid w.opendir w.file cwd w.host w.opts good read)
    go (exits code) read e' = cc
    go undefined read e' = cc

-- In every run in which SIGHUP comes only while the loop of `main` waits and not while it accepts: whenever
-- a client is served exactly one socket is bound, the one that the client's copy of the settings names, to
-- the port that it names and that menus tell; if every -P names a port.
pub main-Consistent :
    (w : Machine) → GoodPorts w.opts → All IsWaiting w.rounds → Consistent [] (main w).0
unfolding main prepare
main-Consistent w good quiet =
    bind-Consistent (or_exit 1 w.sigchld_ok ignores_sigchld) _ _ (first-IsQuiet w.sigchld_ok)
      (λ _ _. bind-Consistent (read_settings w w.cwd) _ _ (read_settings-IsQuiet w w.cwd) (λ s e.
        bind-Consistent (daemonize w s.1) _ _ (daemonize-IsQuiet w s.1) (λ _ _.
          bind-Consistent (set_up w.setup) _ _ (set_up-IsQuiet w.setup)
            (λ _ _. listener-Consistent w s.0 (settings-IsValid w w.cwd good e) quiet))))
