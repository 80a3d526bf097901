-- ===== src/Transfer.antt =====
-- How a file goes out on Windows: the Windows branch of `load_file_memory_and_send` of
-- src/sacagalib/utility.c, and of `thread_sender` of src/sacagalib/gopher.c, which maps and sends one
-- piece of the file after the other. What the calls of Windows answer is a parameter.
pub mod Handles
pub mod Messages
pub mod Pieces
pub mod Whole
mod Tests
use sacagawea.Config.{broken}
use sacagawea.Common.{
  ◌+◌, drop, take, ◌-◌, min, ◌==◌, length, ◌&&◌, leb, false, if◌then◌else◌, ◌∷◌, true, ℕ, List,
  Bool, Bytes, [],
}
use sacagawea.Effects.{
  ◌>>=◌, sends, after, unmaps, waits, maps, pure, shuts_down, writes_pipe, do_action, thread_exit,
  ◌>>◌, stop, Run,
}
use sacagawea.Gopher.Sender.{broken, accepted, Job, SendAnswer, RecvAnswer, drain_loop, logs_string}

-- What the thread that answers the client does with its handles.
pub data HandleEvent : Type 0 where
  opens_file : Bytes → HandleEvent
  reads_size makes_file_mapping starts_sender closes_file_handle : HandleEvent
  waits_sender closes_thread_handle closes_mapping_handle : HandleEvent

pub record LoadAnswers : Type 0 where
  pub create_ok : Bool
  pub size_ok : Bool
  pub mapping_ok : Bool
  pub thread_ok : Bool
  pub close_file_ok : Bool
  pub wait_ok : Bool
  pub close_thread_ok : Bool
  pub close_mapping_ok : Bool

-- Calls of which the first that fails ends the function with 0 (`false`).
pub until_failure : List (Bool × HandleEvent) → List HandleEvent × Bool
until_failure [] = ([], true)
until_failure ((ok, event) ∷ calls) =
    let rest = until_failure calls in if ok then (event ∷ rest.0, rest.1) else ([], false)

-- The sender runs beside the calls behind its start.
pub load_calls : LoadAnswers → Bytes → List (Bool × HandleEvent)
load_calls a path_file =
    (a.create_ok, opens_file path_file)
    ∷ (a.size_ok, reads_size)
    ∷ (a.mapping_ok, makes_file_mapping)
    ∷ (a.thread_ok, starts_sender)
    ∷ (a.close_file_ok, closes_file_handle)
    ∷ (a.wait_ok, waits_sender)
    ∷ (a.close_thread_ok, closes_thread_handle)
    ∷ (a.close_mapping_ok, closes_mapping_handle)
    ∷ []

pub load_file_memory_and_send_win32 : LoadAnswers → Bytes → List HandleEvent × Bool
unfolding until_failure load_calls
load_file_memory_and_send_win32 a path_file = until_failure (load_calls a path_file)

-- The first loop of the sender, with `bytes_sent` bytes gone. `view_ok` says at which offsets
-- `MapViewOfFile` succeeds; `g` is dwAllocationGranularity. A `send` that accepts nothing is no end.
unfoldable pub send_views : ℕ → (ℕ → Bool) → Bytes → ℕ → List SendAnswer → Run ℕ
send_views g view_ok file bytes_sent [] =
    if leb (length file) bytes_sent
    then pure bytes_sent
    else if view_ok bytes_sent
    then (maps (min g (length file - bytes_sent)) ∷ [], waits)
    else stop thread_exit
send_views g view_ok file bytes_sent (broken ∷ rest) =
    if leb (length file) bytes_sent
    then pure bytes_sent
    else if view_ok bytes_sent
    then (maps (min g (length file - bytes_sent)) ∷ unmaps ∷ [], thread_exit)
    else stop thread_exit
send_views g view_ok file bytes_sent (accepted n ∷ rest) =
    let size = min g (length file - bytes_sent) in
    let temp = min n size in
    let more =
      after (maps size ∷ sends (take temp (drop bytes_sent file)) ∷ unmaps ∷ [])
        (send_views g view_ok file (bytes_sent + temp) rest) in
    if leb (length file) bytes_sent
    then pure bytes_sent
    else if view_ok bytes_sent
    then more
    else stop thread_exit

-- `CreateFile` on the named pipe.
pub data PipeOpen : Type 0 where
  pipe_opens pipe_busy pipe_missing : PipeOpen

pub record SenderAnswers : Type 0 where
  pub granularity : ℕ
  pub view_ok : ℕ → Bool
  pub sending : List SendAnswer
  pub shutdown_ok : Bool
  pub draining : List RecvAnswer
  pub open_pipe : PipeOpen
  pub instance_free : Bool
  pub mode_ok : Bool
  pub write_ok : Bool

-- The calls behind a `CreateFile` that the code lets through.
unfoldable pub write_message : SenderAnswers → Bytes → Run (Unit {0})
write_message a text =
    if a.instance_free && (a.mode_ok && a.write_ok)
    then do_action (writes_pipe text)
    else stop thread_exit

unfoldable pub write_named_pipe : SenderAnswers → Bytes → Run (Unit {0})
unfolding write_message
write_named_pipe a text = elim a.open_pipe [
  | pipe_opens ↦ write_message a text
  | pipe_busy ↦ write_message a text
  | pipe_missing ↦ stop thread_exit
]

unfoldable pub finish_sending_win32 : SenderAnswers → Job → ℕ → Run (Unit {0})
unfolding write_named_pipe
finish_sending_win32 a j bytes_sent = do
  if a.shutdown_ok then do_action shuts_down else stop thread_exit
  drain_loop a.draining
  if bytes_sent == length j.file_to_send then write_named_pipe a (logs_string j) else pure tt
  stop thread_exit

unfoldable pub thread_sender_win32 : SenderAnswers → Job → Run (Unit {0})
unfolding send_views finish_sending_win32
thread_sender_win32 a j =
    send_views a.granularity a.view_ok j.file_to_send 0 a.sending >>= finish_sending_win32 a j
