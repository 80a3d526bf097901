-- ===== src/Start/Setup/Quiet.antt =====
-- What the setup of `main` does not do.
use sacagawea.Server.Reload.{binds}
use sacagawea.Common.{
  ◌==◌, false, true, inr, Bool, List, inl, ◌∷◌, [], arith, All, All-append, Bool-cases,
}
use sacagawea.Effects.{pure, bind-All}
use sacagawea.Start.Daemon.{in_child, fork_failed, in_parent, Fork}
use sacagawea.Start.Setup.{
  calls_socket, serves, Doing, Globals, SetupAnswers, close_all, or_close_all, share_memory,
  start_log_process, set_handlers, set_up, with_log, handler_calls, share_calls,
}
use sacagawea.Start.Setup.Stages.{or_exit_all-All}

-- Not a round of the loop, and no socket is bound.
abbrev pub IsQuiet : Doing → Type 0
IsQuiet (serves events) = ⊥
IsQuiet (calls_socket (binds sd port)) = ⊥
IsQuiet _ = Unit

pub close_all-IsQuiet : (g : Globals) → All IsQuiet (close_all g).0
unfolding close_all
close_all-IsQuiet g = elim (Bool-cases (g.log_process == 0)) [
  | inl unmade ↦ rw unmade (omega arith)
  | inr made ↦ elim (Bool-cases g.mapped) [
    | inr unmapped ↦ rw (made, unmapped) (omega arith)
    | inl mapped ↦ elim (Bool-cases (g.logs_proces_pid == 0)) [
      | inl unset ↦ rw (made, mapped, unset) (omega arith)
      | inr is_set ↦ rw (made, mapped, is_set) (omega arith)
    ]
  ]
]

or_close_all-IsQuiet :
    (g : Globals) (calls : List (Bool × List Doing))
    → All (λ (c : Bool × List Doing). All IsQuiet c.1) calls
    → All IsQuiet (or_close_all g calls).0
unfolding or_close_all
or_close_all-IsQuiet g [] h = tt
or_close_all-IsQuiet g ((ok, t) ∷ calls) h = elim (Bool-cases ok) [
  | inl good ↦ rw good (All-append IsQuiet t _ h.0 (or_close_all-IsQuiet g calls h.1))
  | inr bad ↦ rw bad (
      bind-All IsQuiet (close_all g) _ (close_all-IsQuiet g)
        (λ _. or_close_all-IsQuiet g calls h.1))
]

start_log_process-IsQuiet : (f : Fork) (ok : Bool) → All IsQuiet (start_log_process f ok).0
unfolding start_log_process
start_log_process-IsQuiet fork_failed ok = tt
start_log_process-IsQuiet in_child true = omega arith
start_log_process-IsQuiet in_child false = tt
start_log_process-IsQuiet (in_parent pid) true = omega arith
start_log_process-IsQuiet (in_parent pid) false = (
  tt,
  bind-All IsQuiet (close_all (with_log pid 0)) (λ _. pure pid) (close_all-IsQuiet (with_log pid 0))
      (λ _. tt),
)

pub set_up-IsQuiet : (a : SetupAnswers) → All IsQuiet (set_up a).0
unfolding set_up share_memory set_handlers
set_up-IsQuiet a =
    bind-All IsQuiet (share_memory a) _ (or_exit_all-All IsQuiet 5 (share_calls a) (omega arith))
      (λ _.
        bind-All IsQuiet (start_log_process a.log_fork a.close_ok) _
          (start_log_process-IsQuiet a.log_fork a.close_ok)
          (λ pid.
            bind-All IsQuiet (set_handlers a (with_log pid pid)) _
              (or_close_all-IsQuiet (with_log pid pid) (handler_calls a) (omega arith)) (λ _. tt)))
