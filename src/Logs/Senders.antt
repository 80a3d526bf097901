-- ===== src/Logs/Senders.antt =====
-- `thread_sender` (src/sacagalib/gopher.c) and the log process (src/sacagalib/log.c) together: what the
-- actions of a sender do to the memory, the pipe and the log that they share, and any turns that
-- senders and wakes of the log process take. Only one thread holds the mutex, so what a sender does
-- under it is one turn.
pub mod Steps
pub mod Order
mod Tests
use sacagawea.Common.{◌++◌, some, ◌+◌, none, ℕ, ◌∷◌, false, if◌then◌else◌, List, true, []}
use sacagawea.Effects.{counts_signal, unlock_mutex, lock_mutex, writes_pipe, Action}
use sacagawea.Gopher.Sender.{Answers, Job, thread_sender}
use sacagawea.Logs.{LogState, wake}

-- What one action does to them: nothing, unless it is one of those under the mutex.
abbrev pub act : Action → LogState → LogState
act lock_mutex s = record s { held = true }
act unlock_mutex s = record s { held = false }
act counts_signal s = record s { cont = s.cont + 1 }
act (writes_pipe b) s = record s { pipe = s.pipe ++ b }
act _ s = s

pub perform : List Action → LogState → LogState
perform [] s = s
perform (a ∷ t) s = perform t (act a s)

-- A sender comes to its end, or the log process wakes up; `sizes` is what its calls of `read` give.
pub data Turn : Type 0 where
  sender : Answers → Job → Turn
  wakeup : List (List ℕ) → Turn

-- Whoever finds the mutex held waits for ever. A wake without the answers that it needs has not come
-- to its end and leaves the state.
pub turn : Turn → LogState → LogState
unfolding perform thread_sender
turn (sender a j) s = if s.held then s else perform (thread_sender a j).0 s
turn (wakeup sizes) s = if s.held then s else elim (wake sizes s) [ none ↦ s | some t ↦ t ]

unfoldable pub turns : List Turn → LogState → LogState
unfolding turn
turns [] s = s
turns (x ∷ rest) s = turns rest (turn x s)
