-- ===== src/Logs.antt =====
-- The log process: `log_management` of src/sacagalib/log.c, and the part of `thread_sender` of
-- src/sacagalib/gopher.c that feeds it. They share a counter, a pipe and a mutex. Each part runs
-- under the mutex, so each is one step of the system.
pub mod Messages
pub mod Process
pub mod Senders
pub mod System
mod Tests
use sacagawea.Common.{
  c_string, [], ◌-◌, zero, drop, min, ◌*◌, take, ◌∷◌, ltb, suc, true, none, if◌then◌else◌, some,
  ◌++◌, Option, Bool, ◌+◌, length, List, ℕ, Bytes,
}
use sacagawea.Gopher.Sender.{int_bytes}

-- `conditionVariable` with the contents of the pipe and of sacagawea.log; `held` says that a thread
-- ended while it held the mutex.
pub record LogState : Type 0 where
  pub cont : ℕ
  pub pipe : Bytes
  pub log : Bytes
  pub held : Bool

-- The number that four bytes in memory are, lowest first.
abbrev pub int_of : Bytes → ℕ
int_of (a ∷ b ∷ c ∷ d ∷ s) = a + b * 256 + c * 65536 + d * 16777216
int_of s = 0

-- The loop that reads one line. Each call of `read` gives at most the bytes that are still wanted
-- and that the pipe has; `sizes` says how many (one more than the number). Without an answer it blocks.
pub read_loop : List ℕ → ℕ → Bytes → Bytes → Option (Bytes × Bytes)
read_loop sizes zero pipe read_line = some (read_line, pipe)
read_loop [] (suc want) pipe read_line = none
read_loop (k ∷ sizes) (suc want) pipe read_line =
    let check = min (suc k) (min (suc want) (length pipe)) in
    read_loop sizes (suc want - check) (drop check pipe) (read_line ++ take check pipe)

-- `fprintf(log, "%s", read_line)`, behind what the log holds: up to a NUL, if there is one.
abbrev pub write_line : Bytes → Option (Bytes × Bytes) → Option (Bytes × Bytes)
write_line log none = none
write_line log (some (read_line, rest)) = some (rest, log ++ c_string read_line)

-- One line: its length, and then its bytes, which are written to the log.
unfoldable pub log_one : List ℕ → Bytes → Bytes → Option (Bytes × Bytes)
unfolding read_loop
log_one sizes pipe log =
    if ltb (length pipe) 4
    then none
    else write_line log (read_loop sizes (int_of (take 4 pipe)) (drop 4 pipe) [])

-- `for( ; condVar->cont > 0; condVar->cont--)`; one list of sizes for each line.
pub log_loop : ℕ → List (List ℕ) → Bytes → Bytes → Option (Bytes × Bytes)
log_loop zero sizes pipe log = some (pipe, log)
log_loop (suc cont) [] pipe log = none
log_loop (suc cont) (one ∷ sizes) pipe log = elim (log_one one pipe log) [
  | none ↦ none
  | some (pipe', log') ↦ log_loop cont sizes pipe' log'
]

-- The log process wakes up with the mutex and logs the lines that are counted.
unfoldable pub wake : List (List ℕ) → LogState → Option LogState
unfolding log_loop
wake sizes s = elim (log_loop s.cont sizes s.pipe s.log) [
  | none ↦ none
  | some (pipe, log) ↦ some (record s { cont = 0; pipe = pipe; log = log })
]

-- What a sender writes for one line.
abbrev pub message : Bytes → Bytes
message text = int_bytes (length text) ++ text

-- A sender under the mutex: all goes well, or a `write` fails and the thread ends with the mutex held.
abbrev pub send_line : Bytes → LogState → LogState
send_line text s = record s { cont = s.cont + 1; pipe = s.pipe ++ message text }

abbrev pub send_breaks : Bytes → LogState → LogState
send_breaks written s = record s { cont = s.cont + 1; pipe = s.pipe ++ written; held = true }
