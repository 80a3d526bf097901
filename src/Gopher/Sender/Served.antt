-- ===== src/Gopher/Sender/Served.antt =====
-- A file that is served from the first byte to the line in the log.
use sacagawea.Gopher.Sender.Delivery.{
  finish_sending_served, log_actions, send_loop_ends, send_loop-Sends, IsServed,
}
use sacagawea.Common.{sym, length, append-nil, ◌∙◌, ◌∷◌, arith, ◌++◌, ap, List, ◌≡◌, ℕ}
use sacagawea.Effects.{
  ignores_sighup, thread_exit, shuts_down, Stop, Action, sent_bytes, value, Run,
}
use sacagawea.Gopher.Sender.{logs_string, send_loop, Job, Answers, thread_sender}

value_pair : (r : Run ℕ) (n : ℕ) → r.1 ≡ value n → r ≡ (r.0, value n)
value_pair (t, s) n e = ap (λ (x : Stop ℕ). (t, x)) e

all_sent :
    (a : Answers) (j : Job) (total : ℕ)
    → IsServed a j total
    → j.file_to_send ≡ sent_bytes (send_loop j.file_to_send 0 a.sending).0
all_sent a j total s =
    let (rest, e, end) = send_loop-Sends j.file_to_send a.sending 0 (omega arith) in
    let ends =
      send_loop_ends j.file_to_send a.sending 0 total s.accepted_all (omega (arith, s.total_ge))
        (omega arith) in
    e
    ∙ ap (◌++◌ (sent_bytes (send_loop j.file_to_send 0 a.sending).0)) (end _ ends).0
    ∙ append-nil _

-- If every `send` accepts something, enough in all, and nothing else fails, the thread sends the whole
-- file, closes its half of the connection, and then hands the log process the length of one line and
-- the line, under the mutex and with one signal; then it ends.
pub thread_sender_serves :
    (a : Answers) (j : Job) (total : ℕ)
    → IsServed a j total
    → (t : List Action) × (thread_sender a j
        ≡ (t ++ (shuts_down ∷ log_actions (logs_string j)), thread_exit))
      × (sent_bytes t ≡ j.file_to_send)
unfolding thread_sender
thread_sender_serves a j total s =
    let t = (send_loop j.file_to_send 0 a.sending).0 in
    let ends =
      send_loop_ends j.file_to_send a.sending 0 total s.accepted_all (omega (arith, s.total_ge))
        (omega arith) in
    (
      ignores_sighup ∷ t,
      rw (
        s.signal_set,
        value_pair (send_loop j.file_to_send 0 a.sending) (length j.file_to_send) ends,
        finish_sending_served a j total s,
      ),
      sym (all_sent a j total s),
    )
