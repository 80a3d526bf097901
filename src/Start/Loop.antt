-- ===== src/Start/Loop.antt =====
-- The loop of `main` of src/server/sacagawea.c over `listen_descriptor`, with the signals that reach
-- it: SIGHUP, while the loop waits or while `accept_wrapper` of src/sacagalib/socket.c accepts, and the
-- start of a client's thread, in which `start_thread_management` of src/sacagalib/children.c has SIGHUP
-- ignored by the whole process.
pub mod Consistency
pub mod Hangup
use sacagawea.Common.{◌++◌, false, map, true, Bool, [], ◌∷◌, List, Bytes}
use sacagawea.Effects.{crashes, pure_process, waits, stop, process_exit, after, Trace, ◌>>=◌}
use sacagawea.Config.{Settings, ConfFile}
use sacagawea.Server
use sacagawea.Server.{
  ready, accept_wrapper, allocates, accept_one, derailed, returned, exited, Event, Ending,
  Connection, Selected, listen_descriptor,
}
use sacagawea.Server.Reload.{SocketAnswers, universal_handler}
use sacagawea.Start.Setup.{calls_socket, serves, Doing}

-- A round of `listen_descriptor`, a SIGHUP while the loop waits for the next one, or the start of a
-- thread; or a round with a SIGHUP in it, behind some connections and between the copy of the settings for
-- the next one and its start.
pub data Round : Type 0 where
  wakes : Selected → List Connection → Round
  hangs_up : ConfFile → SocketAnswers → Round
  thread_begins : Round
  hangs_up_accepting :
      List Connection → Connection → ConfFile → SocketAnswers → List Connection → Round

-- Behind one round: the loop goes on, since the function returns true, or the process has ended.
abbrev pub after_round : List Event × Ending → Trace Doing (Unit {0}) → Trace Doing (Unit {0})
after_round (events, returned) rest = after (serves events ∷ []) rest
after_round (events, derailed) rest = (serves events ∷ [], crashes)
after_round (events, exited code) rest = (serves events ∷ [], process_exit code)

-- A reload, and what the new settings lead to.
abbrev pub reloading :
    (Bytes → Bool)
    → Settings
    → ConfFile
    → SocketAnswers
    → (Settings → Trace Doing (Unit {0}))
    → Trace Doing (Unit {0})
reloading opendir s file a rest =
    pure_process (universal_handler opendir file a s) >>= λ (t, calls).
    after (map calls_socket calls) (rest t)

-- The connections in front of the signal, and then what it interrupts.
accept_before : Settings → List Connection → Trace Doing (Unit {0}) → Trace Doing (Unit {0})
unfolding accept_one
accept_before s [] rest = after (serves (allocates ∷ []) ∷ []) rest
accept_before s (c ∷ queue) rest =
    let behind = accept_before s queue rest in
    let one = accept_one s c in after_round (allocates ∷ one.0, one.1) behind

-- With `ignores` where SIGHUP is ignored; the loop waits where no more happens.
unfoldable pub serve_loop : (Bytes → Bool) → Settings → Bool → List Round → Trace Doing (Unit {0})
unfolding listen_descriptor universal_handler accept_one accept_wrapper accept_before
serve_loop opendir s ignores [] = stop waits
serve_loop opendir s ignores (wakes selected queue ∷ rounds) =
    after_round (listen_descriptor s selected queue) (serve_loop opendir s ignores rounds)
serve_loop opendir s ignores (hangs_up file a ∷ rounds) = elim ignores [
  | true ↦ serve_loop opendir s true rounds
  | false ↦ reloading opendir s file a (λ t. serve_loop opendir t false rounds)
]
serve_loop opendir s ignores (thread_begins ∷ rounds) = serve_loop opendir s true rounds
serve_loop opendir s ignores (hangs_up_accepting before c file a behind ∷ rounds) = elim ignores [
  | true ↦
      after_round (listen_descriptor s (ready true) (before ++ (c ∷ behind)))
        (serve_loop opendir s true rounds)
  | false ↦ accept_before s before (
      reloading opendir s file a (λ t.
        after_round (accept_one s c)
          (after_round (accept_wrapper t behind) (serve_loop opendir t false rounds))))
]
