-- ===== src/Logs/Process.antt =====
-- `log_management` and `log_management_exit` of src/sacagalib/log.c with what every call answers: what
-- the log process does and how it ends.
pub mod Cleanup
use sacagawea.Common.{
  zero, ◌++◌, length, ◌-◌, take, c_string, suc, some, if◌then◌else◌, none, ℕ, ◌∷◌, List, Bool,
  Option, Bytes, [],
}
use sacagawea.Effects.{value, waits, ◌>>◌, do_action, stop, ◌>>=◌, pure, process_exit, Trace}

-- What the log process does.
pub data LogEvent : Type 0 where
  takes_mutex gives_mutex waits_for_lines : LogEvent
  destroys_mutex destroys_cond unlinks_shared closes_pipe : LogEvent
  opens_log closes_log frees_line : LogEvent
  prints : Bytes → LogEvent

-- The calls for one line: the length that `read` gives (none: it fails), `fopen`, `malloc`, and the
-- pieces of the line, where a failed `read` gives none.
pub record LineAnswers : Type 0 where
  pub len_string : Option ℕ
  pub fopen_ok : Bool
  pub malloc_ok : Bool
  pub pieces : List (Option Bytes)

-- `pthread_cond_wait`, and one line for each signal that was counted.
pub record Wakeup : Type 0 where
  pub wait_ok : Bool
  pub lines : List LineAnswers

abbrev pub cleanup : List LogEvent
cleanup = destroys_mutex ∷ destroys_cond ∷ unlinks_shared ∷ closes_pipe ∷ []

-- A failure of the unlock is only logged.
pub log_management_exit {ℓ} : {A : Type ℓ} → Trace LogEvent A
log_management_exit = (gives_mutex ∷ cleanup, process_exit 1)

-- The inner loop, with `want` bytes missing. Without an answer it blocks.
pub read_pieces : ℕ → Bytes → List (Option Bytes) → Trace LogEvent Bytes
unfolding log_management_exit
read_pieces zero line pieces = pure line
read_pieces (suc want) line [] = stop waits
read_pieces (suc want) line (none ∷ pieces) = log_management_exit
read_pieces (suc want) line (some piece ∷ pieces) =
    let got = take (suc want) piece in read_pieces (suc want - length got) (line ++ got) pieces

print_line : LineAnswers → ℕ → Trace LogEvent (Unit {0})
unfolding read_pieces
print_line a len = do
  line ← read_pieces len [] a.pieces
  (prints (c_string line) ∷ closes_log ∷ frees_line ∷ [], value tt)

pub with_log_open : LineAnswers → ℕ → Trace LogEvent (Unit {0})
unfolding print_line
with_log_open a len =
    if a.malloc_ok then print_line a len else do_action closes_log >> log_management_exit

pub log_line : LineAnswers → Trace LogEvent (Unit {0})
unfolding with_log_open
log_line a = elim a.len_string [
  | none ↦ log_management_exit
  | some len ↦
      (if a.fopen_ok then do_action opens_log >> with_log_open a len else log_management_exit)
]

pub log_lines : List LineAnswers → Trace LogEvent (Unit {0})
unfolding log_line
log_lines [] = pure tt
log_lines (a ∷ lines) = log_line a >> log_lines lines

-- `while (true)`; behind the wake-ups it waits.
pub log_wakeups : List Wakeup → Trace LogEvent (Unit {0})
unfolding log_lines
log_wakeups [] = stop waits
log_wakeups (w ∷ wakeups) = do
  do_action waits_for_lines
  if w.wait_ok then log_lines w.lines else log_management_exit
  log_wakeups wakeups

unfoldable pub log_management : Bool → List Wakeup → Trace LogEvent (Unit {0})
unfolding log_wakeups
log_management lock_ok wakeups =
    if lock_ok then do_action takes_mutex >> log_wakeups wakeups else (cleanup, process_exit 1)
