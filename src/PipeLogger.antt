-- ===== src/PipeLogger.antt =====
-- src/sacagalib/win32-multiprocess/logger.c: the log process of Windows, which reads one message at a
-- time from 64 instances of a named pipe into one array and appends it to sacagawea.log. What the
-- calls of Windows answer is a parameter.
pub mod Refine
pub mod Stale
pub mod Transfers
mod Tests
use sacagawea.Common.{
  undefined, ◌&&◌, exits, ◌==◌, none, leb, replicate, c_string, some, set, returns, length, drop,
  Option, ◌>>=◌, ◌++◌, List, if◌then◌else◌, Bool, ℕ, ◌∷◌, [], Bytes, Process,
}

abbrev pub bufsize : ℕ
bufsize = 1024

abbrev pub max_pipes : ℕ
max_pipes = 64

-- An instance waits for a client, has one whose event is set, or waits for none, after a failure.
pub data Instance : Type 0 where
  pending signaled idle : Instance

-- `ConnectNamedPipe` returns at once, which is an error, or it ends with ERROR_IO_PENDING, with
-- ERROR_PIPE_CONNECTED (then `SetEvent` succeeds or not), or with another error.
pub data ConnectAnswer : Type 0 where
  connects io_pending connect_failed : ConnectAnswer
  pipe_connected : Bool → ConnectAnswer

pub connect_to_new_client : ConnectAnswer → Instance
connect_to_new_client connects = idle
connect_to_new_client io_pending = pending
connect_to_new_client (pipe_connected set_event_ok) = if set_event_ok then signaled else idle
connect_to_new_client connect_failed = idle

-- `request` is the whole array.
pub record Logger : Type 0 where
  pub request : Bytes
  pub log : Bytes
  pub instances : List Instance

-- `CreateEvent`, `CreateNamedPipe` and `ConnectNamedPipe` for one instance.
pub record CreateAnswer : Type 0 where
  pub event_ok : Bool
  pub pipe_ok : Bool
  pub connect : ConnectAnswer

-- The first loop of `main`, which gives up (`none`) at the first failure.
pub create_instances : List CreateAnswer → Option (List Instance)
unfolding connect_to_new_client
create_instances [] = some []
create_instances (a ∷ answers) = elim (create_instances answers) [
  | none ↦ none
  | some instances ↦
      if a.event_ok && a.pipe_ok then some (connect_to_new_client a.connect ∷ instances) else none
]

pub record FileAnswers : Type 0 where
  pub create_ok : Bool
  pub write_ok : Bool

-- A message is written over the front of the array.
abbrev pub overlay : Bytes → Bytes → Bytes
overlay arr message = message ++ drop (length message) arr

-- `strlen(request)` runs behind an array without a NUL.
pub request_string : Bytes → Process Bytes
request_string arr =
    if length (c_string arr) == length arr then undefined else returns (c_string arr)

-- With the file open.
pub write_request : Bool → Logger → Process Logger
unfolding request_string
write_request write_ok l = do
  text ← request_string l.request
  returns
      (record l { request = replicate bufsize 0; log = if write_ok then l.log ++ text else l.log })

-- `write_to_log_file`: where the file cannot be opened, the array is left as it is.
pub write_to_log_file : FileAnswers → Logger → Process Logger
unfolding write_request
write_to_log_file f l = if f.create_ok then write_request f.write_ok l else returns l

-- `DisconnectNamedPipe`, whose failure is only logged, and `ConnectNamedPipe` again.
pub disconnect_and_reconnect : ℕ → ConnectAnswer → Logger → Logger
unfolding connect_to_new_client
disconnect_and_reconnect i a l = record l {
  instances = set l.instances i (connect_to_new_client a);
}

-- One round of the second loop: which event is set, what `ReadFile` gives, and what the other calls
-- answer.
pub record Round : Type 0 where
  pub which_pipe : ℕ
  pub read : Option Bytes
  pub file : FileAnswers
  pub connect : ConnectAnswer

-- With a message.
pub log_message : Round → Bytes → Logger → Process Logger
unfolding write_to_log_file disconnect_and_reconnect
log_message r message l = do
  l' ← write_to_log_file r.file (record l { request = overlay l.request message })
  returns (disconnect_and_reconnect r.which_pipe r.connect l')

-- After a failed `ReadFile` the loop goes on; an index out of range ends `main` with 0.
pub log_rounds : List Round → Logger → Process Logger
unfolding log_message
log_rounds [] l = returns l
log_rounds (r ∷ rounds) l = if leb max_pipes r.which_pipe then exits 0 else elim r.read [
  | none ↦ log_rounds rounds l
  | some message ↦ log_message r message l >>= λ l'. log_rounds rounds l'
]
