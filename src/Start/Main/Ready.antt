-- ===== src/Start/Main/Ready.antt =====
-- What `main` has done when its loop begins.
use sacagawea.Start.Options.{start_settings, Opt, default_settings}
use sacagawea.Start.Options.Validity.{has_debug, read_options_overrides}
use sacagawea.Start.Daemon.{become_daemon, ProcessState, in_parent}
use sacagawea.Server.Reload.{SocketCall, binds, creates, listens, open_socket, open_socket_calls}
use sacagawea.Common.{
  >>=-eq-returns, none, undefined, exits, map, inr, returns, some, ◌∙◌, Option, inl, ℕ, false, true,
  ap, sym, ◌++◌, ◌%◌, if◌then◌else◌, ◌≡◌, Bool, List, ◌∷◌, [], Bytes, Process, refl,
}
use sacagawea.Effects.{
  pure, crashes, after, do_action, waits, pure_process, thread_exit, process_exit, value, Trace,
  Stop, ◌>>=◌,
}
use sacagawea.Config.{Settings, ConfFile, read_and_check_conf}
use sacagawea.Start.Setup.{
  close_all, SetupAnswers, ignores_sigchld, becomes_daemon, or_exit, calls_socket, Doing, Globals,
  set_up,
}
use sacagawea.Start.Setup.Stages.{ready_events, IsFork, SetUp, set_up_ends}
use sacagawea.Start.Main.{Machine, read_settings, daemonize, open_listener, prepare}

-- A part that returned, taken apart.
value_split {ℓ κ} :
    {A : Type ℓ} {B : Type κ} (m : Trace Doing A) (f : A → Trace Doing B) {t : List Doing} {b : B}
    → (m >>= f) ≡ (t, value b)
    → (u : List Doing) × (a : A) × (v : List Doing) × (m ≡ (u, value a))
      × (f a ≡ (v, value b))
      × (t ≡ u ++ v)
value_split {B = B} (u, value a) f {t} {b} h =
    let end : (f a).1 ≡ value b = ap (λ (r : Trace Doing B). r.1) h in
    let done : u ++ (f a).0 ≡ t = ap (λ (r : Trace Doing B). r.0) h in
    (u, a, (f a).0, refl, ap (λ (x : Stop B). ((f a).0, x)) end, sym done)
value_split (u, thread_exit) f h = absurd (cc h)
value_split (u, process_exit code) f h = absurd (cc h)
value_split (u, waits) f h = absurd (cc h)
value_split (u, crashes) f h = absurd (cc h)

abbrev pub daemon_events : Bool → List Doing
daemon_events debug_mode = if debug_mode then [] else becomes_daemon ∷ []

abbrev pub listener_events : Settings → List Doing
listener_events s =
    calls_socket (creates s.socket)
    ∷ calls_socket (binds s.socket (s.port % 65536))
    ∷ calls_socket (listens s.socket)
    ∷ []

first_value :
    (ok : Bool) (t : List Doing)
    → or_exit 1 ok ignores_sigchld ≡ (t, value tt)
    → t ≡ ignores_sigchld ∷ []
first_value true t h = sym (ap (λ (r : Trace Doing (Unit {0})). r.0) h)
first_value false t h = cc (ap (λ (r : Trace Doing (Unit {0})). r.1) h)

daemonize_value :
    (w : Machine) (d : Bool) (t : List Doing) → daemonize w d ≡ (t, value tt) → t ≡ daemon_events d
unfolding daemonize
daemonize_value w true t h = sym (ap (λ (r : Trace Doing (Unit {0})). r.0) h)
daemonize_value w false t h = go (become_daemon w.daemon w.process) h
  where
    go :
        (p : Process ProcessState)
        → (pure_process p >>= λ _. do_action becomes_daemon) ≡ (t, value tt)
        → t ≡ becomes_daemon ∷ []
    go (returns q) e = sym (ap (λ (r : Trace Doing (Unit {0})). r.0) e)
    go (exits code) e = absurd (cc e)
    go undefined e = absurd (cc e)

set_up_value :
    (a : SetupAnswers) (t : List Doing) (g : Globals)
    → IsFork a.log_fork
    → set_up a ≡ (t, value g)
    → (pid : ℕ) × (a.log_fork ≡ in_parent pid) × (t ≡ ready_events pid)
set_up_value a t g used h = go (set_up_ends a used)
  where
    go :
        SetUp a.log_fork (set_up a)
        → (pid : ℕ) × (a.log_fork ≡ in_parent pid) × (t ≡ ready_events pid)
    go (inl (pid, forked, e)) = (
      pid,
      forked,
      sym (ap (λ (r : Trace Doing Globals). r.0) h) ∙ ap (λ (r : Trace Doing Globals). r.0) e,
    )
    go (inr (inl (pid, forked, u, e))) = absurd (cc (h, e))
    go (inr (inr (inl (pid, forked, e)))) = absurd (cc (h, e))
    go (inr (inr (inr (code, e, quiet)))) = absurd (cc (h, e))

start_settings_debug :
    (opendir : Bytes → Bool) (file : ConfFile) (cwd : Bytes) (host : Option Bytes) (opts : List Opt)
    {t : Settings} {d : Bool}
    → start_settings opendir file cwd host opts ≡ returns (t, d)
    → d ≡ has_debug false opts
unfolding start_settings
start_settings_debug opendir file cwd host opts h =
    let (s, default, rest) = >>=-eq-returns (default_settings cwd host) _ h in
    let ((u, _), read, last) = >>=-eq-returns (read_and_check_conf opendir file s false) _ rest in
    let (mode, named, flag, home, host_is, sock, known) =
      read_options_overrides u false opts last in
    flag

read_settings_value :
    (w : Machine) (c : Option Bytes) (t : List Doing) (s : Settings × Bool)
    → read_settings w c ≡ (t, value s)
    → (t ≡ []) × (s.1 ≡ has_debug false w.opts)
unfolding read_settings close_all
read_settings_value w none t s h = absurd (cc h)
read_settings_value w (some cwd) t s h =
    go (start_settings w.opendir w.file cwd w.host w.opts)
      (λ u d e. start_settings_debug w.opendir w.file cwd w.host w.opts e) h
  where
    go :
        (p : Process (Settings × Bool))
        → ((u : Settings) (d : Bool) → p ≡ returns (u, d) → d ≡ has_debug false w.opts)
        → pure_process p ≡ (t, value s)
        → (t ≡ []) × (s.1 ≡ has_debug false w.opts)
    go (returns (u, d)) flag e =
        let same : (u, d) ≡ s = cc (ap (λ (r : Trace Doing (Settings × Bool)). r.1) e) in
        (
          sym (ap (λ (r : Trace Doing (Settings × Bool)). r.0) e),
          sym (ap (λ (x : Settings × Bool). x.1) same) ∙ flag u d refl,
        )
    go (exits code) flag e = absurd (cc e)
    go undefined flag e = absurd (cc e)

open_listener_value :
    (w : Machine) (s : Settings) (t : List Doing) (u : Settings)
    → open_listener w s ≡ (t, value u)
    → t ≡ listener_events u
unfolding open_listener
open_listener_value w s t u h = go (open_socket w.sockets s) refl h
  where
    go :
        (p : Process (ℕ × List SocketCall))
        → open_socket w.sockets s ≡ p
        → (pure_process p >>= λ (sd, calls).
            after (map calls_socket calls) (pure (record s { socket = sd })))
          ≡ (t, value u)
        → t ≡ listener_events u
    go (returns (sd, calls)) opened e =
        let made = open_socket_calls w.sockets s opened in
        let events : t ≡ map calls_socket calls ++ [] =
          sym (ap (λ (r : Trace Doing Settings). r.0) e) in
        let last : record s { socket = sd } ≡ u = cc (ap (λ (r : Trace Doing Settings). r.1) e) in
        rw (events, made, ← last) refl
    go (exits code) opened e = absurd (cc e)
    go undefined opened e = absurd (cc e)

join_parts :
    (t t0 r0 t1 r1 t2 r2 t3 r3 a b c d : List Doing)
    → t ≡ t0 ++ r0
    → r0 ≡ t1 ++ r1
    → r1 ≡ t2 ++ r2
    → r2 ≡ t3 ++ r3
    → t0 ≡ a
    → t1 ≡ []
    → t2 ≡ b
    → t3 ≡ c
    → r3 ≡ d
    → t ≡ a ++ (b ++ (c ++ d))
join_parts t t0 r0 t1 r1 t2 r2 t3 r3 a b c d e0 e1 e2 e3 h0 h1 h2 h3 h4 =
    rw (e0, e1, e2, e3, h0, h1, h2, h3, h4) refl

-- When the loop of `main` begins, everything in front of it was done, once and in this order: SIGCHLD
-- is ignored, the process becomes a daemon exactly if no -d was given, the memory is shared and the log
-- process that `fork` made runs, SIGHUP reloads and the five signals close the server, and the socket
-- that the settings name is bound to the port of the settings, reduced to 16 bits, and listens. It is
-- assumed that `fork` gives the parent no 0.
pub prepare_ready :
    (w : Machine) {t : List Doing} {s : Settings}
    → IsFork w.setup.log_fork
    → prepare w ≡ (t, value s)
    → (pid : ℕ) × (w.setup.log_fork ≡ in_parent pid)
      × (t
          ≡ ignores_sigchld
            ∷ (daemon_events (has_debug false w.opts) ++ (ready_events pid ++ listener_events s)))
unfolding prepare
prepare_ready w {t} {s} used h =
    let (t0, _, r0, first, h0, e0) = value_split (or_exit 1 w.sigchld_ok ignores_sigchld) _ h in
    let (t1, (s1, d), r1, read, h1, e1) = value_split (read_settings w w.cwd) _ h0 in
    let (t2, _, r2, daemon, h2, e2) = value_split (daemonize w d) _ h1 in
    let (t3, g, r3, setup, h3, e3) = value_split (set_up w.setup) _ h2 in
    let (pid, forked, ready) = set_up_value w.setup t3 g used setup in
    let (quiet, flag) = read_settings_value w w.cwd t1 (s1, d) read in
    (
      pid,
      forked,
      join_parts t t0 r0 t1 r1 t2 r2 t3 r3 (ignores_sigchld ∷ [])
          (daemon_events (has_debug false w.opts)) (ready_events pid) (listener_events s) e0 e1 e2
          e3 (first_value w.sigchld_ok t0 first) quiet
          (daemonize_value w d t2 daemon ∙ ap daemon_events flag) ready
          (open_listener_value w s1 r3 s h3),
    )
