-- ===== src/Start/Windows/Logger.antt =====
-- The log process of Windows does not outlive the server.
use sacagawea.Common.{
  refl, inr, true, false, append_assoc, sym, ap, inl, ◌++◌, ◌∷◌, Bool, ◌≡◌, ◌⊎◌, All, List, [],
}
use sacagawea.Effects.{crashes, waits, thread_exit, value, process_exit, Trace}
use sacagawea.Config.{Settings}
use sacagawea.Server.Windows.{closes_listener, cleans_winsock}
use sacagawea.Start.Windows.{
  calls_winsock, handles_console, frees_settings, logger_joins_job, joins_job, ends_logger,
  kills_job_on_close, ends_logger_thread, creates_job, makes_logger, WindowsDoing, StartAnswers,
  close_all_win32, or_close_win32, make_job, make_logger, prepare_win32,
}

abbrev pub NoLogger : WindowsDoing → Type 0
NoLogger makes_logger = ⊥
NoLogger d = Unit

-- The calls that end the server, with no socket yet.
abbrev pub closing : List WindowsDoing
closing =
    calls_winsock (closes_listener 0)
    ∷ ends_logger_thread
    ∷ ends_logger
    ∷ calls_winsock cleans_winsock
    ∷ frees_settings
    ∷ []

-- There was no log process; or it was ended, as the last but two of the calls of an exit with 1; or the
-- server is ready, and both are in a job that ends with it.
abbrev pub LoggerOwned : List WindowsDoing → Trace WindowsDoing Settings → Type 0
LoggerOwned configured r =
    All NoLogger r.0
    ⊎ (((front : List WindowsDoing) × (r ≡ (front ++ closing, process_exit 1)))
        ⊎ ((s : Settings) × (r ≡ (
          creates_job
              ∷ kills_job_on_close
              ∷ joins_job
              ∷ (configured ++ (makes_logger ∷ logger_joins_job ∷ handles_console ∷ [])),
          value s,
        ))))

-- Behind the settings, with what was done before them.
closed_behind :
    (configured made : List WindowsDoing)
    → (front : List WindowsDoing) × (◌≡◌ {A = Trace WindowsDoing Settings}
        (
          creates_job ∷ kills_job_on_close ∷ joins_job ∷ (configured ++ (made ++ closing)),
          process_exit 1,
        )
        (front ++ closing, process_exit 1))
closed_behind configured made = (
  creates_job ∷ kills_job_on_close ∷ joins_job ∷ (configured ++ made),
  ap (λ (t : List WindowsDoing). (creates_job ∷ kills_job_on_close ∷ joins_job ∷ t, process_exit 1))
      (sym (append_assoc configured made closing)),
)

-- Whatever the calls answer, if reading the settings makes no log process: when the start ends, there
-- was no log process, or `close_all` ended it, or it is in the job that ends with the server.
pub prepare_win32-LoggerOwned :
    (a : StartAnswers) (configure : Trace WindowsDoing Settings)
    → All NoLogger configure.0
    → LoggerOwned configure.0 (prepare_win32 a configure)
unfolding prepare_win32 make_job make_logger or_close_win32 close_all_win32
prepare_win32-LoggerOwned a configure h =
    go a.job_ok a.limit_ok a.self_ok a.logger_ok a.assign_ok a.console_ok configure h
  where
    go :
        (j l s m p c : Bool) (configure : Trace WindowsDoing Settings)
        → All NoLogger configure.0
        → LoggerOwned configure.0 (
            prepare_win32
              (record {
                job_ok = j;
                limit_ok = l;
                self_ok = s;
                logger_ok = m;
                assign_ok = p;
                console_ok = c;
              })
              configure)
    go false l s m p c (t, end) h = inl tt
    go true false s m p c (t, end) h = inl (tt, tt)
    go true true false m p c (t, end) h = inl (tt, (tt, tt))
    go true true true m p c (t, thread_exit) h = inl (tt, (tt, (tt, h)))
    go true true true m p c (t, process_exit code) h = inl (tt, (tt, (tt, h)))
    go true true true m p c (t, waits) h = inl (tt, (tt, (tt, h)))
    go true true true m p c (t, crashes) h = inl (tt, (tt, (tt, h)))
    go true true true false p c (t, value x) h = inr (inl (closed_behind t []))
    go true true true true false c (t, value x) h = inr (inl (closed_behind t (makes_logger ∷ [])))
    go true true true true true false (t, value x) h =
        inr (inl (closed_behind t (makes_logger ∷ logger_joins_job ∷ [])))
    go true true true true true true (t, value x) h = inr (inr (x, refl))
