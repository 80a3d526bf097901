-- ===== src/Transfer/Messages.antt =====
-- What a transfer of Windows writes to the named pipe of the log process.
use sacagawea.Common.{
  ◌&&◌, ◌++◌, ◌∷◌, [], ◌≡◌, ◌⊎◌, inl, inr, List, Bytes, Bool, ℕ, length, refl, arith, true, false,
  ap, append-nil, Bool-cases, ◌==◌, if◌then◌else◌,
}
use sacagawea.Effects.{
  pure, shuts_down, stop, do_action, ◌>>◌, crashes, waits, thread_exit, process_exit, Action,
  writes_pipe, value, Run, ◌>>=◌,
}
use sacagawea.Gopher.Sender.{
  lost, closed, discarded, RecvAnswer, drain_loop, Job, log_text, logs_string,
}
use sacagawea.Gopher.Sender.Delivery.{logs}
use sacagawea.Gopher.Sender.Message.{logs_string_whole}
use sacagawea.Transfer.{
  pipe_missing, pipe_busy, pipe_opens, PipeOpen, write_message, write_named_pipe, SenderAnswers,
  send_views, thread_sender_win32, finish_sending_win32,
}
use sacagawea.Transfer.Pieces.{send_views_silent}

-- What is written to the log pipe.
abbrev pub written : List Action → List Bytes
written [] = []
written (writes_pipe text ∷ t) = text ∷ written t
written (_ ∷ t) = written t

written-append : (t u : List Action) → written (t ++ u) ≡ written t ++ written u
written-append [] u = refl
written-append (writes_pipe text ∷ t) u = ap (◌∷◌ text) (written-append t u)
written-append (_ ∷ t) u = written-append t u

pub silent-written : (t : List Action) → logs t ≡ false → written t ≡ []
silent-written [] h = refl
silent-written (writes_pipe text ∷ t) h = cc
silent-written (_ ∷ t) h = silent-written t h

-- Nothing, or the one line.
abbrev pub AtMost : Job → List Bytes → Type 0
AtMost j texts = (texts ≡ []) ⊎ (texts ≡ log_text j ∷ [])

write_named_pipe-AtMost :
    (a : SenderAnswers) (text : Bytes)
    → (written (write_named_pipe a text).0 ≡ []) ⊎ (written (write_named_pipe a text).0 ≡ text ∷ [])
unfolding write_named_pipe write_message
write_named_pipe-AtMost a text = go a.open_pipe (a.instance_free && (a.mode_ok && a.write_ok))
  where
    message : Bool → Run (Unit {0})
    message ok = if ok then do_action (writes_pipe text) else stop thread_exit

    go :
        (o : PipeOpen) (ok : Bool)
        → let m : Run (Unit {0}) = elim o [
          | pipe_opens ↦ message ok
          | pipe_busy ↦ message ok
          | pipe_missing ↦ stop thread_exit
        ] in
          (written m.0 ≡ []) ⊎ (written m.0 ≡ text ∷ [])
    go pipe_opens true = inr refl
    go pipe_opens false = inl refl
    go pipe_busy true = inr refl
    go pipe_busy false = inl refl
    go pipe_missing ok = inl refl

written-drain_loop : (answers : List RecvAnswer) → written (drain_loop answers).0 ≡ []
unfolding drain_loop
written-drain_loop [] = refl
written-drain_loop (discarded ∷ rest) = written-drain_loop rest
written-drain_loop (closed ∷ rest) = refl
written-drain_loop (lost ∷ rest) = refl

-- A step that writes nothing, and one behind which nothing is written.
quiet-AtMost :
    (j : Job) (m k : Run (Unit {0}))
    → written m.0 ≡ []
    → AtMost j (written k.0)
    → AtMost j (written (m >> k).0)
quiet-AtMost j (t, value tt) k h most = rw (written-append t k.0, h) most
quiet-AtMost j (t, thread_exit) k h most = inl h
quiet-AtMost j (t, process_exit code) k h most = inl h
quiet-AtMost j (t, waits) k h most = inl h
quiet-AtMost j (t, crashes) k h most = inl h

last-AtMost :
    (j : Job) (m : Run (Unit {0}))
    → AtMost j (written m.0)
    → AtMost j (written (◌>>◌ {B = Unit {0}} m (stop thread_exit)).0)
last-AtMost j (t, value tt) most = rw (append-nil t) most
last-AtMost j (t, thread_exit) most = most
last-AtMost j (t, process_exit code) most = most
last-AtMost j (t, waits) most = most
last-AtMost j (t, crashes) most = most

finish_win32-AtMost :
    (a : SenderAnswers) (j : Job) (n : ℕ) → AtMost j (written (finish_sending_win32 a j n).0)
unfolding finish_sending_win32
finish_win32-AtMost a j n =
    quiet-AtMost j (if a.shutdown_ok then do_action shuts_down else stop thread_exit) _
      (ground arith)
      (quiet-AtMost j (drain_loop a.draining) _ (written-drain_loop a.draining) (
        last-AtMost j
          (if n == length j.file_to_send then write_named_pipe a (logs_string j) else pure tt)
          (elim (Bool-cases (n == length j.file_to_send)) [
            | inl whole ↦ rw (whole, logs_string_whole j) (write_named_pipe-AtMost a (log_text j))
            | inr part ↦ rw part (inl refl)
          ])))

pub thread_sender_win32-AtMost :
    (a : SenderAnswers) (j : Job) → AtMost j (written (thread_sender_win32 a j).0)
unfolding thread_sender_win32
thread_sender_win32-AtMost a j =
    go (send_views a.granularity a.view_ok j.file_to_send 0 a.sending) (
      silent-written (send_views a.granularity a.view_ok j.file_to_send 0 a.sending).0
        (send_views_silent a.granularity a.view_ok j.file_to_send a.sending 0))
  where
    go : (r : Run ℕ) → written r.0 ≡ [] → AtMost j (written (r >>= finish_sending_win32 a j).0)
    go (t, value n) h =
        rw (written-append t (finish_sending_win32 a j n).0, h) (finish_win32-AtMost a j n)
    go (t, thread_exit) h = inl h
    go (t, process_exit code) h = inl h
    go (t, waits) h = inl h
    go (t, crashes) h = inl h
