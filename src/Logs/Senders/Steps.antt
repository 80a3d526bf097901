-- ===== src/Logs/Senders/Steps.antt =====
-- A sender is at most one step of the log.
use sacagawea.Config.{broken}
use sacagawea.Common.{
  ◌==◌, append_assoc, if◌then◌else◌, ◌-◌, length, min, Bool-cases, ◌+◌, false, ℕ, refl, append-nil,
  arith, sym, inr, ap, ◌∙◌, ◌∷◌, inl, true, ◌++◌, ◌⊎◌, All, Bytes, List, ◌≡◌, [],
}
use sacagawea.Effects.{
  ignores_sighup, shuts_down, do_action, ◌>>◌, stop, crashes, waits, thread_exit, process_exit,
  counts_signal, value, unlock_mutex, lock_mutex, writes_pipe, ◌>>=◌, Run, Action,
}
use sacagawea.Gopher.Sender.{
  drain_loop, broken, int_bytes, accepted, Answers, Job, SendAnswer, send_loop, write_logs,
  finish_sending, thread_sender, logs_string,
}
use sacagawea.Gopher.Sender.Delivery.{logs, logs-append, drain_loop_quiet}
use sacagawea.Logs.{LogState, send_line, send_breaks}
use sacagawea.Logs.Senders.{act, perform}

-- An action that leaves the log, its pipe and its mutex alone.
abbrev pub IsQuiet : Action → Type 0
IsQuiet lock_mutex = ⊥
IsQuiet unlock_mutex = ⊥
IsQuiet counts_signal = ⊥
IsQuiet (writes_pipe b) = ⊥
IsQuiet _ = Unit

act_quiet : (a : Action) (s : LogState) → IsQuiet a → act a s ≡ s
act_quiet lock_mutex s h = absurd h
act_quiet unlock_mutex s h = absurd h
act_quiet counts_signal s h = absurd h
act_quiet (writes_pipe b) s h = absurd h
act_quiet _ s h = refl

perform_quiet :
    (t u : List Action) (s : LogState) → All IsQuiet t → perform (t ++ u) s ≡ perform u s
unfolding perform
perform_quiet [] u s h = refl
perform_quiet (a ∷ t) u s (h, g) = ap (perform (t ++ u)) (act_quiet a s h) ∙ perform_quiet t u s g

-- Nothing; the whole line is in the pipe and counted; or a `write` failed under the mutex.
abbrev pub Steps : Bytes → List Action → LogState → Type 0
Steps text t s =
    (perform t s ≡ s)
    ⊎ (((perform t s ≡ send_line text s) × (logs t ≡ true))
        ⊎ ((written : Bytes) × (perform t s ≡ send_breaks written s)))

Steps-behind :
    (text : Bytes) (t u : List Action) (s : LogState)
    → All IsQuiet t
    → Steps text u s
    → Steps text (t ++ u) s
Steps-behind text t u s h (inl e) = inl (perform_quiet t u s h ∙ e)
Steps-behind text t u s h (inr (inl (e, l))) =
    inr (inl (perform_quiet t u s h ∙ e, ground (arith, logs-append t u)))
Steps-behind text t u s h (inr (inr (written, e))) = inr (inr (written, perform_quiet t u s h ∙ e))

Steps-quiet : (text : Bytes) (t : List Action) (s : LogState) → All IsQuiet t → Steps text t s
unfolding perform
Steps-quiet text t s h =
    inl (ap (λ (u : List Action). perform u s) (sym (append-nil t)) ∙ perform_quiet t [] s h)

Steps-bind {ℓ} :
    {A : Type ℓ} (text : Bytes) (m : Run A) (f : A → Run (Unit {0})) (s : LogState)
    → All IsQuiet m.0
    → ((a : A) → Steps text (f a).0 s)
    → Steps text (m >>= f).0 s
Steps-bind text (t, value a) f s h next = Steps-behind text t (f a).0 s h (next a)
Steps-bind text (t, thread_exit) f s h next = Steps-quiet text t s h
Steps-bind text (t, process_exit code) f s h next = Steps-quiet text t s h
Steps-bind text (t, waits) f s h next = Steps-quiet text t s h
Steps-bind text (t, crashes) f s h next = Steps-quiet text t s h

send_loop-IsQuiet :
    (file : Bytes) (answers : List SendAnswer) (k : ℕ) → All IsQuiet (send_loop file k answers).0
unfolding send_loop
send_loop-IsQuiet file [] k = ground arith
send_loop-IsQuiet file (broken ∷ answers) k = ground arith
send_loop-IsQuiet file (accepted n ∷ answers) k =
    ground (arith, send_loop-IsQuiet file answers (k + min n (length file - k)))

-- Under the mutex, which is free before.
write_logs-Steps :
    (a : Answers) (text : Bytes) (s : LogState)
    → s.held ≡ false
    → Steps text (write_logs a text >> stop {A = Unit {0}} thread_exit).0 s
unfolding write_logs perform
write_logs-Steps a text s free = elim (Bool-cases a.lock_ok) [
  | inr busy ↦ rw busy (inl refl)
  | inl locked ↦ elim (Bool-cases a.write_len_ok) [
    | inr lost ↦
        rw (locked, lost)
          (inr (
            inr (
              [],
              ap (λ (b : Bytes). record s { cont = s.cont + 1; pipe = b; held = true })
                  (sym (append-nil s.pipe)),
            )))
    | inl wrote ↦ elim (Bool-cases a.write_text_ok) [
      | inr cut ↦ rw (locked, wrote, cut) (inr (inr (int_bytes (length text), refl)))
      | inl whole ↦
          rw (locked, wrote, whole)
            (inr (inl (rw (free, append_assoc s.pipe (int_bytes (length text)) text) refl, refl)))
    ]
  ]
]

finish_sending-Steps :
    (a : Answers) (j : Job) (n : ℕ) (s : LogState)
    → s.held ≡ false
    → Steps (logs_string j) (finish_sending a j n).0 s
unfolding finish_sending
finish_sending-Steps a j n s free =
    Steps-bind (logs_string j) (if a.shutdown_ok then do_action shuts_down else stop thread_exit) _
      s (ground arith)
      λ _.
        Steps-bind (logs_string j) (drain_loop a.draining) _ s (rw (drain_loop_quiet a.draining) tt)
          λ _. elim (Bool-cases (n == length j.file_to_send)) [
            | inl all ↦ rw all (write_logs-Steps a (logs_string j) s free)
            | inr part ↦ rw part (Steps-quiet (logs_string j) [] s tt)
          ]

-- A sender that finds the mutex free leaves the log, the counter and the pipe as they were; or its line
-- is in the pipe and counted, and it gave its line to the log; or a `write` failed and it ends with the
-- mutex.
pub thread_sender-Steps :
    (a : Answers) (j : Job) (s : LogState)
    → s.held ≡ false
    → Steps (logs_string j) (thread_sender a j).0 s
unfolding thread_sender
thread_sender-Steps a j s free =
    Steps-bind (logs_string j)
      (if a.signal_ok then do_action ignores_sighup else stop (process_exit 1)) _ s (ground arith)
      λ _.
        Steps-bind (logs_string j) (send_loop j.file_to_send 0 a.sending) _ s
          (send_loop-IsQuiet j.file_to_send a.sending 0) λ n. finish_sending-Steps a j n s free
