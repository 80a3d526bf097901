-- ===== src/Start/Setup/Stages.antt =====
-- How the setup of `main` ends: complete, or with everything that was started closed again.
use sacagawea.Server.Reload.{shuts}
use sacagawea.Common.{
  ap, ◌∙◌, ◌<◌, ◌==◌, sym, subst, true, false, append_assoc, inr, Bool-cases, ◌∷◌, [], inl, ◌++◌,
  ◌⊎◌, map, ◌≡◌, Bool, List, ℕ, refl, arith, All,
}
use sacagawea.Effects.{crashes, waits, thread_exit, pure, after, process_exit, value, Trace, ◌>>=◌}
use sacagawea.Start.Daemon.{in_child, fork_failed, in_parent, Fork}
use sacagawea.Start.Setup.{
  killed, share_calls, sigusr2, sigusr1, makes_pipe, sigalrm, inits_cond, sigterm, inits_mutex,
  frees_settings, closes_down, sets_mutex_attr, unlinks_memory, sigint, sets_cond_attr,
  closes_write_end, reloads, maps_memory, kills, closes_read_end, sighup, sizes_memory, forks_log,
  handles, shares_memory, calls_socket, Doing, Globals, SetupAnswers, close_all, or_exit_all,
  or_close_all, share_memory, start_log_process, set_handlers, set_up, with_log, handler_calls,
}

-- Either all calls were made, or one failed and the process ends with the code.
or_exit_all_ends :
    (code : ℕ) (calls : List (Bool × Doing))
    → (or_exit_all code calls ≡ (map (λ (c : Bool × Doing). c.1) calls, value tt))
      ⊎ ((or_exit_all code calls).1 ≡ process_exit code)
unfolding or_exit_all
or_exit_all_ends code [] = inl refl
or_exit_all_ends code ((ok, d) ∷ calls) = elim (Bool-cases ok) [
  | inl good ↦ elim (or_exit_all_ends code calls) [
    | inl done ↦ inl (rw (good, done) refl)
    | inr failed ↦ inr (rw good failed)
  ]
  | inr bad ↦ inr (rw bad refl)
]

close_all_stops :
    (g : Globals) (k : Unit {0} → Trace Doing (Unit {0})) → (close_all g >>= k) ≡ close_all g
unfolding close_all
close_all_stops g k = elim (Bool-cases (g.log_process == 0)) [
  | inl unmade ↦ rw unmade refl
  | inr made ↦ elim (Bool-cases g.mapped) [
    | inr unmapped ↦ rw (made, unmapped) refl
    | inl mapped ↦ elim (Bool-cases (g.logs_proces_pid == 0)) [
      | inl unset ↦ rw (made, mapped, unset) refl
      | inr is_set ↦ rw (made, mapped, is_set) refl
    ]
  ]
]

abbrev pub done_all : List (Bool × List Doing) → List Doing
done_all [] = []
done_all ((ok, t) ∷ calls) = t ++ done_all calls

-- Either all calls were made, or one failed and `close_all` follows what was done.
or_close_all_ends :
    (g : Globals) (calls : List (Bool × List Doing))
    → (or_close_all g calls ≡ (done_all calls, value tt))
      ⊎ ((t : List Doing) × (or_close_all g calls ≡ (t ++ (close_all g).0, (close_all g).1)))
unfolding or_close_all
or_close_all_ends g [] = inl refl
or_close_all_ends g ((ok, t) ∷ calls) = elim (Bool-cases ok) [
  | inl good ↦ elim (or_close_all_ends g calls) [
    | inl done ↦ inl (rw (good, done) refl)
    | inr (u, failed) ↦ inr (t ++ u, rw (good, failed, append_assoc t u (close_all g).0) refl)
  ]
  | inr bad ↦ inr ([], rw bad (close_all_stops g _))
]

pub or_exit_all-All :
    (P : Doing → Type 0) (code : ℕ) (calls : List (Bool × Doing))
    → All P (map (λ (c : Bool × Doing). c.1) calls)
    → All P (or_exit_all code calls).0
unfolding or_exit_all
or_exit_all-All P code [] h = tt
or_exit_all-All P code ((ok, d) ∷ calls) h = elim (Bool-cases ok) [
  | inl good ↦ rw good (h.0, or_exit_all-All P code calls h.1)
  | inr bad ↦ rw bad tt
]

abbrev pub share_events : List Doing
share_events =
    shares_memory ∷ sizes_memory ∷ maps_memory ∷ sets_cond_attr ∷ sets_mutex_attr ∷ inits_mutex
    ∷ inits_cond ∷ makes_pipe ∷ []

abbrev pub handler_events : List Doing
handler_events =
    handles sighup reloads
    ∷ handles sigint closes_down
    ∷ handles sigterm closes_down
    ∷ handles sigalrm closes_down
    ∷ handles sigusr1 closes_down
    ∷ handles sigusr2 closes_down
    ∷ []

-- What a setup with the log process `pid` has done when it is complete.
abbrev pub ready_events : ℕ → List Doing
ready_events pid = share_events ++ (forks_log pid ∷ closes_read_end ∷ handler_events)

-- No log process was made by this process.
abbrev pub NoLog : Doing → Type 0
NoLog (forks_log pid) = ⊥
NoLog _ = Unit

-- What `close_all` does behind the fork: it kills the log process and ends the server.
abbrev pub close_events : ℕ → List Doing
close_events pid =
    calls_socket (shuts 0)
    ∷ kills pid
    ∷ closes_write_end
    ∷ kills pid
    ∷ unlinks_memory
    ∷ frees_settings
    ∷ []

-- `fork` gives the parent a number that is not 0.
abbrev pub IsFork : Fork → Type 0
IsFork (in_parent pid) = 0 < pid
IsFork _ = Unit

abbrev pub SetUp : Fork → Trace Doing Globals → Type 0
SetUp f r =
    ((pid : ℕ) × (f ≡ in_parent pid) × (r ≡ (ready_events pid, value (with_log pid pid))))
    ⊎ ((pid : ℕ) × (f ≡ in_parent pid)
        × (t : List Doing) × (r ≡ (t ++ close_events pid, process_exit 1)))
    ⊎ ((pid : ℕ) × (f ≡ in_parent pid)
        × (r ≡ (
          share_events
              ++ (forks_log pid
                  ∷ calls_socket (shuts 0)
                  ∷ kills pid
                  ∷ closes_write_end
                  ∷ kills 0
                  ∷ []),
          killed,
        )))
    ⊎ ((code : ℕ) × (r.1 ≡ process_exit code) × All NoLog r.0)

close_all-made :
    (pid : ℕ) → 0 < pid → close_all (with_log pid pid) ≡ (close_events pid, process_exit 1)
unfolding close_all
close_all-made pid h = let used : (pid == 0) ≡ false = ground (arith, h) in rw used refl

-- In the parent, behind the fork.
handlers_SetUp :
    (a : SetupAnswers) (pid : ℕ)
    → 0 < pid
    → (set_handlers a (with_log pid pid) ≡ (handler_events, value tt))
      ⊎ ((t : List Doing) × (set_handlers a (with_log pid pid)
            ≡ (t ++ close_events pid, process_exit 1)))
unfolding set_handlers
handlers_SetUp a pid h = elim (or_close_all_ends (with_log pid pid) (handler_calls a)) [
  | inl done ↦ inl done
  | inr (t, failed) ↦
      inr (t, failed ∙ ap (λ (r : Trace Doing (Unit {0})). (t ++ r.0, r.1)) (close_all-made pid h))
]

-- The pipe's read end is closed, or not, and the handlers are set with the result `r`.
parent_SetUp :
    (pid : ℕ) (close_ok : Bool) (handlers : ℕ → Trace Doing (Unit {0}))
    → 0 < pid
    → (handlers pid ≡ (handler_events, value tt))
      ⊎ ((t : List Doing) × (handlers pid ≡ (t ++ close_events pid, process_exit 1)))
    → SetUp (in_parent pid) (
        after share_events (
          start_log_process (in_parent pid) close_ok >>= λ p.
          handlers p >>= λ _. pure (with_log p p)))
unfolding start_log_process close_all
parent_SetUp pid false handlers used h =
    let made : (pid == 0) ≡ false = ground (arith, used) in
    inr (inr (inl (pid, refl, rw made refl)))
parent_SetUp pid true handlers used (inl done) = inl (pid, refl, rw done refl)
parent_SetUp pid true handlers used (inr (t, failed)) =
    inr (inl (pid, refl, share_events ++ (forks_log pid ∷ closes_read_end ∷ t), rw failed refl))

fork_SetUp :
    (f : Fork) (close_ok : Bool) (handlers : ℕ → Trace Doing (Unit {0}))
    → IsFork f
    → ((pid : ℕ)
        → 0 < pid
        → (handlers pid ≡ (handler_events, value tt))
          ⊎ ((t : List Doing) × (handlers pid ≡ (t ++ close_events pid, process_exit 1))))
    → SetUp f (
        after share_events
          (start_log_process f close_ok >>= λ p. handlers p >>= λ _. pure (with_log p p)))
unfolding start_log_process close_all
fork_SetUp fork_failed close_ok handlers used h = inr (inr (inr (5, refl, omega arith)))
fork_SetUp in_child true handlers used h = inr (inr (inr (0, refl, omega arith)))
fork_SetUp in_child false handlers used h = inr (inr (inr (1, refl, omega arith)))
fork_SetUp (in_parent pid) close_ok handlers used h =
    parent_SetUp pid close_ok handlers used (h pid used)

share_SetUp :
    (f : Fork) (m : Trace Doing (Unit {0})) (rest : Unit {0} → Trace Doing Globals)
    → (m ≡ (share_events, value tt)) ⊎ (m.1 ≡ process_exit 5)
    → All NoLog m.0
    → SetUp f (after share_events (rest tt))
    → SetUp f (m >>= rest)
share_SetUp f m rest (inl done) quiet h = subst (λ x. SetUp f (x >>= rest)) (sym done) h
share_SetUp f (t, value x) rest (inr failed) quiet h = cc
share_SetUp f (t, thread_exit) rest (inr failed) quiet h = cc
share_SetUp f (t, process_exit code) rest (inr failed) quiet h = inr (inr (inr (code, refl, quiet)))
share_SetUp f (t, waits) rest (inr failed) quiet h = cc
share_SetUp f (t, crashes) rest (inr failed) quiet h = cc

-- If `fork` gives the parent no 0, the setup ends in one of four ways. It is complete: the memory is
-- shared, the log process was made, the server keeps the write end only, SIGHUP reloads, and the five
-- signals close the server. Or a handler cannot be set, and `close_all` kills the log process that was
-- made as it ends the server. Or the read end cannot be closed: then `close_all` kills the log process
-- and sends SIGTERM to the server's own group, which ends it before the memory is given back. Or the
-- process ends, and it has made no log process; so do the log process itself and a setup that fails before.
pub set_up_ends : (a : SetupAnswers) → IsFork a.log_fork → SetUp a.log_fork (set_up a)
unfolding set_up share_memory
set_up_ends a used =
    share_SetUp a.log_fork (share_memory a) _ (or_exit_all_ends 5 (share_calls a))
      (or_exit_all-All NoLog 5 (share_calls a) (omega arith))
      (fork_SetUp a.log_fork a.close_ok (λ p. set_handlers a (with_log p p)) used
        (handlers_SetUp a))
