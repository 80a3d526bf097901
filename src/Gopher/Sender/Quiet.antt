-- ===== src/Gopher/Sender/Quiet.antt =====
-- Which actions the sender makes at all.
use sacagawea.Gopher.Sender.Delivery.{drain_loop_quiet}
use sacagawea.Common.{
  [], ◌-◌, length, min, ◌+◌, inr, inl, All-append, ◌∷◌, Bool-cases, arith, All, ℕ, List, Bytes,
}
use sacagawea.Effects.{
  crashes, signals, waits, counts_signal, thread_exit, unlock_mutex, process_exit, lock_mutex,
  ignores_sighup, value, shuts_down, Run, writes_pipe, sends, Action, ◌>>=◌,
}
use sacagawea.Gopher.Sender.{
  broken, accepted, SendAnswer, Job, Answers, finish_sending, send_loop, thread_sender,
}

-- An action on the connection, on the log or on the signal, and on nothing else.
abbrev pub IsSending : Action → Type 0
IsSending (sends b) = Unit
IsSending shuts_down = Unit
IsSending ignores_sighup = Unit
IsSending lock_mutex = Unit
IsSending unlock_mutex = Unit
IsSending counts_signal = Unit
IsSending (writes_pipe b) = Unit
IsSending signals = Unit
IsSending _ = ⊥

send_loop-IsSending :
    (file : Bytes) (answers : List SendAnswer) (k : ℕ) → All IsSending (send_loop file k answers).0
unfolding send_loop
send_loop-IsSending file [] k = ground arith
send_loop-IsSending file (broken ∷ answers) k = ground arith
send_loop-IsSending file (accepted n ∷ answers) k =
    ground (arith, send_loop-IsSending file answers (k + min n (length file - k)))

finish-IsSending : (a : Answers) (j : Job) (n : ℕ) → All IsSending (finish_sending a j n).0
unfolding finish_sending
finish-IsSending a j n = ground (arith, drain_loop_quiet a.draining)

continue-IsSending :
    (a : Answers) (j : Job) (r : Run ℕ)
    → All IsSending r.0
    → All IsSending (r >>= finish_sending a j).0
continue-IsSending a j (t, value n) h =
    All-append IsSending t (finish_sending a j n).0 h (finish-IsSending a j n)
continue-IsSending a j (t, thread_exit) h = h
continue-IsSending a j (t, process_exit code) h = h
continue-IsSending a j (t, waits) h = h
continue-IsSending a j (t, crashes) h = h

pub thread_sender-IsSending : (a : Answers) (j : Job) → All IsSending (thread_sender a j).0
unfolding thread_sender
thread_sender-IsSending a j = elim (Bool-cases a.signal_ok) [
  | inl good ↦ rw good (
    tt,
    continue-IsSending a j (send_loop j.file_to_send 0 a.sending)
        (send_loop-IsSending j.file_to_send a.sending 0),
  )
  | inr bad ↦ rw bad tt
]
