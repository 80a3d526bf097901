-- ===== src/Start/Windows/Listener.antt =====
-- The whole server of Windows: which sockets listen while clients are served.
use sacagawea.Common.{
  All, ◌≡◌, [], Bytes, refl, Process, Option, some, none, true, false, Bool, returns, exits,
  undefined, arith,
}
use sacagawea.Effects.{
  crashes, waits, thread_exit, pure, Trace, ◌>>=◌, value, process_exit, pure_process, bind-All,
}
use sacagawea.Config.{Settings}
use sacagawea.Config.Ports.{IsValid}
use sacagawea.Start.Options.Validity.{GoodPorts}
use sacagawea.Start.Windows.{
  joins_job, logger_joins_job, kills_job_on_close, handles_console, makes_logger, creates_job,
  WindowsDoing, StartAnswers, close_all_win32, or_exit_1, or_close_win32, make_job, make_logger,
  prepare_win32,
}
use sacagawea.Start.Windows.Defaults.{start_settings_win32, start_settings_win32-IsValid}
use sacagawea.Start.Windows.Loop.{open_listener_win32}
use sacagawea.Start.Windows.Main.{WindowsMachine, configure, main_win32}
use sacagawea.Start.Windows.Quiet.{
  steps, ConsistentWin32, bind-ConsistentWin32, IsQuietWin32, quiet-ConsistentWin32,
  process-IsQuietWin32,
}
use sacagawea.Start.Windows.Consistency.{
  IsWaitingWin32, open_listener-EndsListening, serve_loop-ConsistentWin32,
}

or_exit_1-IsQuietWin32 :
    (ok : Bool) (d : WindowsDoing) → IsQuietWin32 d → All IsQuietWin32 (or_exit_1 ok d).0
or_exit_1-IsQuietWin32 true d h = (h, tt)
or_exit_1-IsQuietWin32 false d h = tt

or_close_win32-IsQuietWin32 :
    (ok : Bool) (d : WindowsDoing) → IsQuietWin32 d → All IsQuietWin32 (or_close_win32 ok d).0
unfolding or_close_win32 close_all_win32
or_close_win32-IsQuietWin32 true d h = (h, tt)
or_close_win32-IsQuietWin32 false d h = (tt, (tt, (tt, (tt, (tt, tt)))))

make_job-IsQuietWin32 : (a : StartAnswers) → All IsQuietWin32 (make_job a).0
unfolding make_job
make_job-IsQuietWin32 a =
    bind-All IsQuietWin32 (or_exit_1 a.job_ok creates_job) _
      (or_exit_1-IsQuietWin32 a.job_ok creates_job tt)
      (λ _.
        bind-All IsQuietWin32 (or_exit_1 a.limit_ok kills_job_on_close) _
          (or_exit_1-IsQuietWin32 a.limit_ok kills_job_on_close tt)
          (λ _. or_exit_1-IsQuietWin32 a.self_ok joins_job tt))

make_logger-IsQuietWin32 : (a : StartAnswers) → All IsQuietWin32 (make_logger a).0
unfolding make_logger
make_logger-IsQuietWin32 a =
    bind-All IsQuietWin32 (or_close_win32 a.logger_ok makes_logger) _
      (or_close_win32-IsQuietWin32 a.logger_ok makes_logger tt)
      (λ _. or_close_win32-IsQuietWin32 a.assign_ok logger_joins_job tt)

prepare_win32-IsQuietWin32 :
    (a : StartAnswers) (configured : Trace WindowsDoing Settings)
    → All IsQuietWin32 configured.0
    → All IsQuietWin32 (prepare_win32 a configured).0
unfolding prepare_win32
prepare_win32-IsQuietWin32 a configured h =
    bind-All IsQuietWin32 (make_job a) _ (make_job-IsQuietWin32 a) (λ _.
      bind-All IsQuietWin32 configured _ h (λ s.
        bind-All IsQuietWin32 (make_logger a) _ (make_logger-IsQuietWin32 a) (λ _.
          bind-All IsQuietWin32 (or_close_win32 a.console_ok handles_console) _
            (or_close_win32-IsQuietWin32 a.console_ok handles_console tt) (λ _. tt))))

-- The first of two steps, where both return.
bind-value :
    {A B : Type 0} (m : Trace WindowsDoing A) (f : A → Trace WindowsDoing B) {b : B}
    → (m >>= f).1 ≡ value b
    → (a : A) × (m.1 ≡ value a) × ((f a).1 ≡ value b)
bind-value (t, value a) f e = (a, refl, e)
bind-value (t, thread_exit) f e = cc
bind-value (t, process_exit code) f e = cc
bind-value (t, waits) f e = cc
bind-value (t, crashes) f e = cc

-- A start that succeeds gives the settings that were read.
prepare_win32-value :
    (a : StartAnswers) (configured : Trace WindowsDoing Settings) {s : Settings}
    → (prepare_win32 a configured).1 ≡ value s
    → configured.1 ≡ value s
unfolding prepare_win32
prepare_win32-value a configured {s} e =
    let (_, _, e1) = bind-value (make_job a) _ e in
    let (t, read, e2) = bind-value configured _ e1 in
    let (_, _, e3) = bind-value (make_logger a) _ e2 in
    let (_, _, e4) = bind-value (or_close_win32 a.console_ok handles_console) (λ _. pure t) e3 in
    let same : t ≡ s = ground (arith, e4) in rw (← same) read

configure-IsValid :
    (w : WindowsMachine) (cwd : Option Bytes) {s : Settings}
    → GoodPorts w.opts
    → (configure w cwd).1 ≡ value s
    → IsValid s
unfolding configure close_all_win32
configure-IsValid w none good e = cc
configure-IsValid w (some cwd) {s} good e =
    go (start_settings_win32 w.group w.opendir w.file cwd w.host w.opts) refl e
  where
    go :
        (p : Process Settings)
        → start_settings_win32 w.group w.opendir w.file cwd w.host w.opts ≡ p
        → (pure_process {E = WindowsDoing} p).1 ≡ value s
        → IsValid s
    go (returns t) read e' =
        let same : t ≡ s = ground (arith, e') in
        rw same at
          (start_settings_win32-IsValid w.group w.opendir w.file cwd w.host w.opts good read)
    go (exits code) read e' = cc
    go undefined read e' = cc

configure-IsQuietWin32 :
    (w : WindowsMachine) (cwd : Option Bytes) → All IsQuietWin32 (configure w cwd).0
unfolding configure close_all_win32
configure-IsQuietWin32 w none = (tt, (tt, (tt, (tt, (tt, tt)))))
configure-IsQuietWin32 w (some cwd) =
    process-IsQuietWin32 (start_settings_win32 w.group w.opendir w.file cwd w.host w.opts)

-- In every run on Windows in which CTRL+BREAK comes only while the loop of `main` waits and not while it
-- accepts: whenever a client is given to a thread or to a process exactly one socket is bound, the one that
-- the client's copy of the settings names, to the address of the port that it names, written out whole; if
-- every -P names a port.
pub main_win32-ConsistentWin32 :
    (w : WindowsMachine)
    → GoodPorts w.opts
    → All IsWaitingWin32 w.rounds
    → ConsistentWin32 [] (main_win32 w).0
unfolding main_win32
main_win32-ConsistentWin32 w good waiting =
    let prepared = prepare_win32 w.start (configure w w.cwd) in
    let (quiet, none_bound) =
      quiet-ConsistentWin32 prepared.0
        (prepare_win32-IsQuietWin32 w.start (configure w w.cwd) (configure-IsQuietWin32 w w.cwd)) in
    bind-ConsistentWin32 prepared _ [] quiet (λ s e.
      let valid =
        configure-IsValid w w.cwd good (prepare_win32-value w.start (configure w w.cwd) e) in
      let (fine, ends) = open_listener-EndsListening w.winsock s valid in
      rw none_bound (
        bind-ConsistentWin32 (open_listener_win32 w.winsock s) _ [] fine (λ t e'.
          let (valid', listens) = ends t e' in
          serve_loop-ConsistentWin32 w.group w.opendir w.rounds t
            (steps [] (open_listener_win32 w.winsock s).0) waiting valid' listens)))
