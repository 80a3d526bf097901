-- ===== src/Gopher/Sender.antt =====
-- `thread_sender` of src/sacagalib/gopher.c (the Linux branch): it sends the mapped file, waits for
-- the client to close, and hands a line for the log to the log process. What `send`, `shutdown`,
-- `recv` and the pipe answer are parameters, one answer for each call.
pub mod Delivery
pub mod Served
pub mod Quiet
pub mod Message
mod Tests
use sacagawea.Common.{
  ◌==◌, drop, take, ◌-◌, codes, [], min, ◌/◌, ◌+◌, decimal, not, ◌%◌, length, ◌∷◌, leb,
  if◌then◌else◌, ◌++◌, List, Bool, ℕ, Bytes,
}
use sacagawea.Gopher.Menu.{snprintf}
use sacagawea.Effects.{
  shuts_down, ◌>>=◌, process_exit, ignores_sighup, do_action, ◌>>◌, value, unlock_mutex, signals,
  sends, writes_pipe, after, counts_signal, lock_mutex, thread_exit, waits, pure, stop, Run,
}

-- `send` accepts some of the bytes (never more than it was given) or fails.
pub data SendAnswer : Type 0 where
  accepted : ℕ → SendAnswer
  broken : SendAnswer

-- `recv` reads some bytes, finds the connection closed, or fails.
pub data RecvAnswer : Type 0 where
  discarded : RecvAnswer
  closed : RecvAnswer
  lost : RecvAnswer

pub record Job : Type 0 where
  pub date : Bytes
  pub path_file : Bytes
  pub addr : Bytes
  pub file_to_send : Bytes

pub record Answers : Type 0 where
  pub signal_ok : Bool
  pub sending : List SendAnswer
  pub shutdown_ok : Bool
  pub draining : List RecvAnswer
  pub lock_ok : Bool
  pub write_len_ok : Bool
  pub write_text_ok : Bool

-- The first loop, with `bytes_sent` bytes gone. Where the answers run out, `send` blocks.
unfoldable pub send_loop : Bytes → ℕ → List SendAnswer → Run ℕ
send_loop file bytes_sent [] = if leb (length file) bytes_sent then pure bytes_sent else stop waits
send_loop file bytes_sent (broken ∷ rest) =
    if leb (length file) bytes_sent then pure bytes_sent else stop thread_exit
send_loop file bytes_sent (accepted n ∷ rest) =
    let temp = min n (length file - bytes_sent) in
    let more =
      after (sends (take temp (drop bytes_sent file)) ∷ [])
        (send_loop file (bytes_sent + temp) rest) in
    if leb (length file) bytes_sent
    then pure bytes_sent
    else if temp == 0
    then stop thread_exit
    else more

-- The loop that waits until the client has read everything and closes.
unfoldable pub drain_loop : List RecvAnswer → Run (Unit {0})
drain_loop [] = stop waits
drain_loop (discarded ∷ rest) = drain_loop rest
drain_loop (closed ∷ rest) = pure tt
drain_loop (lost ∷ rest) = stop thread_exit

-- The line for sacagawea.log, before `snprintf` cuts it to the size that is allocated.
abbrev pub log_text : Job → Bytes
log_text j =
    j.date
    ++ (b' '
        ∷ (j.path_file
            ++ (b' '
                ∷ (decimal (length j.file_to_send) ++ (codes " B " ++ (j.addr ++ b'\n' ∷ []))))))

pub len_logs_string : Job → ℕ
len_logs_string j = (length j.date + 1) + (length j.path_file + 1) + 24 + (length j.addr + 2)

unfoldable pub logs_string : Job → Bytes
unfolding len_logs_string
logs_string j = snprintf (len_logs_string j) (log_text j)

-- The bytes of an `int` in memory, lowest first.
abbrev pub int_bytes : ℕ → Bytes
int_bytes n = (n % 256) ∷ (n / 256 % 256) ∷ (n / 65536 % 256) ∷ (n / 16777216 % 256) ∷ []

-- The part under the mutex. A failed `write` ends the thread, and the mutex stays locked.
unfoldable pub write_logs : Answers → Bytes → Run (Unit {0})
write_logs a text =
    if not a.lock_ok
    then stop thread_exit
    else if not a.write_len_ok
    then (lock_mutex ∷ counts_signal ∷ [], thread_exit)
    else if not a.write_text_ok
    then (lock_mutex ∷ counts_signal ∷ writes_pipe (int_bytes (length text)) ∷ [], thread_exit)
    else (
      lock_mutex
          ∷ counts_signal
          ∷ writes_pipe (int_bytes (length text))
          ∷ writes_pipe text
          ∷ signals
          ∷ unlock_mutex
          ∷ [],
      value tt,
    )

-- Behind the first loop: the write half is closed, the client is waited for, and the log is written.
unfoldable pub finish_sending : Answers → Job → ℕ → Run (Unit {0})
unfolding drain_loop write_logs
finish_sending a j bytes_sent = do
  if a.shutdown_ok then do_action shuts_down else stop thread_exit
  drain_loop a.draining
  if bytes_sent == length j.file_to_send then write_logs a (logs_string j) else pure tt
  stop thread_exit

unfoldable pub thread_sender : Answers → Job → Run (Unit {0})
unfolding send_loop finish_sending
thread_sender a j = do
  if a.signal_ok then do_action ignores_sighup else stop (process_exit 1)
  bytes_sent ← send_loop j.file_to_send 0 a.sending
  finish_sending a j bytes_sent
