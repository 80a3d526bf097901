-- ===== src/Gopher/Sender/Delivery.antt =====
-- What reaches the client, and when the sender comes to its end.
use sacagawea.Common.{
  ◌⊎◌, Option-cases, zero, suc, none, append-nil, some, Option, ◌||◌, Bool, false, append_assoc,
  ◌==◌, drop-drop, ◌-◌, ap, min, ◌∙◌, take-append-drop, sym, arith, ◌∷◌, refl, drop_all, inr, take,
  [], inl, true, ◌++◌, Bool-cases, leb, ◌≡◌, ◌+◌, ◌≢◌, length, drop, ◌≤◌, List, ℕ, Bytes,
}
use sacagawea.Effects.{
  unlock_mutex, signals, counts_signal, shuts_down, lock_mutex, crashes, ◌>>=◌, process_exit,
  writes_pipe, Action, thread_exit, waits, pure, sends, stop, after, value, Stop, Run, sent_bytes,
}
use sacagawea.Gopher.Sender.{
  int_bytes, logs_string, lost, closed, Job, discarded, Answers, RecvAnswer, finish_sending,
  drain_loop, broken, accepted, SendAnswer, send_loop, thread_sender,
}

-- From byte `k` on, a part of the file went out in order, and all of it if the loop ended by its test.
abbrev pub Sends : Bytes → ℕ → Run ℕ → Type 0
Sends file k r =
    (rest : Bytes) × (drop k file ≡ sent_bytes r.0 ++ rest)
    × ((n : ℕ) → r.1 ≡ value n → (rest ≡ []) × (n ≡ length file))

pub Sends-done :
    (file : Bytes) (k : ℕ) → k ≤ length file → leb (length file) k ≡ true → Sends file k (pure k)
Sends-done file k h done = ([], drop_all k file (ground arith), λ n e. (refl, ground arith))

pub Sends-stopped :
    (file : Bytes) (k : ℕ) (s : Stop ℕ) → ((n : ℕ) → s ≢ value n) → Sends file k (stop s)
Sends-stopped file k s not_value = (drop k file, refl, λ n e. absurd (not_value n e))

pub Sends-more :
    (file : Bytes) (k t : ℕ) (r : Run ℕ)
    → Sends file (k + t) r
    → Sends file k (after (sends (take t (drop k file)) ∷ []) r)
Sends-more file k t r (rest, e, end) = (
  rest,
  sym (take-append-drop t (drop k file))
      ∙ ap (◌++◌ (take t (drop k file))) (drop-drop k t file ∙ e)
      ∙ sym (append_assoc (take t (drop k file)) (sent_bytes r.0) rest),
  end,
)

pub send_loop-Sends :
    (file : Bytes) (answers : List SendAnswer) (k : ℕ)
    → k ≤ length file
    → Sends file k (send_loop file k answers)
unfolding send_loop
send_loop-Sends file [] k h = elim (Bool-cases (leb (length file) k)) [
  | inl done ↦ rw done (Sends-done file k h done)
  | inr more ↦ rw more (Sends-stopped file k waits (λ n e. cc))
]
send_loop-Sends file (broken ∷ answers) k h = elim (Bool-cases (leb (length file) k)) [
  | inl done ↦ rw done (Sends-done file k h done)
  | inr more ↦ rw more (Sends-stopped file k thread_exit (λ n e. cc))
]
send_loop-Sends file (accepted n ∷ answers) k h = elim (Bool-cases (leb (length file) k)) [
  | inl done ↦ rw done (Sends-done file k h done)
  | inr more ↦ elim (Bool-cases (min n (length file - k) == 0)) [
    | inl none' ↦ rw (more, none') (Sends-stopped file k thread_exit (λ n e. cc))
    | inr some' ↦
        rw (more, some')
          (Sends-more file k (min n (length file - k))
            (send_loop file (k + min n (length file - k)) answers)
            (send_loop-Sends file answers (k + min n (length file - k)) (omega arith)))
  ]
]

-- The thread hands a line to the log process.
abbrev pub logs : List Action → Bool
logs [] = false
logs (writes_pipe b ∷ t) = true
logs (_ ∷ t) = logs t

pub logs-append : (t u : List Action) → logs (t ++ u) ≡ (logs t || logs u)
logs-append [] u = refl
logs-append (writes_pipe b ∷ t) u = refl
logs-append (_ ∷ t) u = logs-append t u

pub sent_bytes-append : (t u : List Action) → sent_bytes (t ++ u) ≡ sent_bytes t ++ sent_bytes u
sent_bytes-append [] u = refl
sent_bytes-append (sends b ∷ t) u = ap (◌++◌ b) (sent_bytes-append t u) ∙ sym (append_assoc b _ _)
sent_bytes-append (_ ∷ t) u = sent_bytes-append t u

pub drain_loop_quiet : (l : List RecvAnswer) → (drain_loop l).0 ≡ []
unfolding drain_loop
drain_loop_quiet [] = refl
drain_loop_quiet (discarded ∷ l) = drain_loop_quiet l
drain_loop_quiet (closed ∷ l) = refl
drain_loop_quiet (lost ∷ l) = refl

finish_quiet : (a : Answers) (j : Job) (n : ℕ) → sent_bytes (finish_sending a j n).0 ≡ []
unfolding finish_sending
finish_quiet a j n = ground (arith, drain_loop_quiet a.draining)

-- While the file is being sent, nothing is logged.
send_loop_silent :
    (file : Bytes) (answers : List SendAnswer) (k : ℕ) → logs (send_loop file k answers).0 ≡ false
unfolding send_loop
send_loop_silent file [] k = ground arith
send_loop_silent file (broken ∷ answers) k = ground arith
send_loop_silent file (accepted n ∷ answers) k =
    ground (arith, send_loop_silent file answers (k + min n (length file - k)))

abbrev pub Delivers : Bytes → Run (Unit {0}) → Type 0
Delivers file r =
    (rest : Bytes) × (file ≡ sent_bytes r.0 ++ rest) × ((logs r.0 ≡ false) ⊎ (rest ≡ []))

-- What follows the loop adds nothing to what was sent, and follows only a loop that sent everything.
pub continue-Delivers :
    (file : Bytes) (finish : ℕ → Run (Unit {0})) (r : Run ℕ)
    → ((n : ℕ) → sent_bytes (finish n).0 ≡ [])
    → Sends file 0 r
    → logs r.0 ≡ false
    → Delivers file (r >>= finish)
continue-Delivers file finish (t, value n) quiet (rest, e, end) silent =
    (rest, rw (sent_bytes-append t (finish n).0, quiet n, append-nil) e, inr (end n refl).0)
continue-Delivers file finish (t, thread_exit) quiet (rest, e, end) silent = (rest, e, inl silent)
continue-Delivers file finish (t, process_exit code) quiet (rest, e, end) silent =
    (rest, e, inl silent)
continue-Delivers file finish (t, waits) quiet (rest, e, end) silent = (rest, e, inl silent)
continue-Delivers file finish (t, crashes) quiet (rest, e, end) silent = (rest, e, inl silent)

-- Whatever `send` and the other calls answer, the client is sent a prefix of the file, byte for byte
-- and in order, in as many parts as `send` makes; and a line for the log is written only if the whole
-- file was sent.
pub thread_sender_delivers :
    (a : Answers) (j : Job)
    → (rest : Bytes) × (j.file_to_send ≡ sent_bytes (thread_sender a j).0 ++ rest)
      × ((logs (thread_sender a j).0 ≡ false) ⊎ (rest ≡ []))
unfolding thread_sender
thread_sender_delivers a j = elim (Bool-cases a.signal_ok) [
  | inl good ↦ rw good (
      continue-Delivers j.file_to_send (finish_sending a j) (send_loop j.file_to_send 0 a.sending)
        (finish_quiet a j) (send_loop-Sends j.file_to_send a.sending 0 (omega arith))
        (send_loop_silent j.file_to_send a.sending 0))
  | inr bad ↦ rw bad (j.file_to_send, refl, inl refl)
]

-- How many bytes the answers accept, if no one fails or accepts nothing.
abbrev pub accepts : List SendAnswer → Option ℕ
accepts [] = some 0
accepts (broken ∷ l) = none
accepts (accepted zero ∷ l) = none
accepts (accepted (suc n) ∷ l) = elim (accepts l) [ none ↦ none | some m ↦ some (suc n + m) ]

pub send_loop_ends :
    (file : Bytes) (answers : List SendAnswer) (k total : ℕ)
    → accepts answers ≡ some total
    → length file ≤ k + total
    → k ≤ length file
    → (send_loop file k answers).1 ≡ value (length file)
unfolding send_loop
send_loop_ends file [] k total e l h = ground arith
send_loop_ends file (broken ∷ answers) k total e l h = cc
send_loop_ends file (accepted zero ∷ answers) k total e l h = cc
send_loop_ends file (accepted (suc n) ∷ answers) k total e l h =
    elim (Option-cases (accepts answers)) [
      | inl e' ↦ absurd (ground arith)
      | inr (m, e') ↦
          ground (arith, send_loop_ends file answers (k + min (suc n) (length file - k)) m e')
    ]

-- The client reads on and then closes.
abbrev pub drains : List RecvAnswer → Bool
drains [] = false
drains (discarded ∷ l) = drains l
drains (closed ∷ l) = true
drains (lost ∷ l) = false

pub drain_loop_ends : (l : List RecvAnswer) → drains l ≡ true → drain_loop l ≡ pure tt
unfolding drain_loop
drain_loop_ends [] h = cc
drain_loop_ends (discarded ∷ l) h = drain_loop_ends l h
drain_loop_ends (closed ∷ l) h = refl
drain_loop_ends (lost ∷ l) h = cc

-- Everything that the thread asks for succeeds.
pub record IsServed (a : Answers) (j : Job) (total : ℕ) : Type 0 where
  pub signal_set : a.signal_ok ≡ true
  pub accepted_all : accepts a.sending ≡ some total
  pub total_ge : length j.file_to_send ≤ total
  pub shut_down : a.shutdown_ok ≡ true
  pub drained : drains a.draining ≡ true
  pub locked : a.lock_ok ≡ true
  pub wrote_len : a.write_len_ok ≡ true
  pub wrote_text : a.write_text_ok ≡ true

-- What is done under the mutex for one line of the log.
abbrev pub log_actions : Bytes → List Action
log_actions text =
    lock_mutex
    ∷ counts_signal
    ∷ writes_pipe (int_bytes (length text))
    ∷ writes_pipe text
    ∷ signals
    ∷ unlock_mutex
    ∷ []

pub finish_sending_served :
    (a : Answers) (j : Job) (total : ℕ)
    → IsServed a j total
    → finish_sending a j (length j.file_to_send)
      ≡ (shuts_down ∷ log_actions (logs_string j), thread_exit)
unfolding finish_sending
finish_sending_served a j total s =
    rw (s.shut_down, drain_loop_ends a.draining s.drained, s.locked, s.wrote_len, s.wrote_text)
      (ground arith)
