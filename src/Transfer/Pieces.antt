-- ===== src/Transfer/Pieces.antt =====
-- What reaches a client of Windows.
use sacagawea.Config.{broken}
use sacagawea.Common.{
  ◌⊎◌, ◌++◌, false, arith, ◌-◌, min, refl, inr, drop, inl, take, leb, ◌≢◌, Bool-cases, ◌∷◌, ◌≡◌,
  length, ◌≤◌, Bool, ◌+◌, List, ℕ, Bytes, [],
}
use sacagawea.Effects.{
  thread_exit, waits, unmaps, value, sends, maps, Stop, after, Action, Run, sent_bytes,
}
use sacagawea.Gopher.Sender.{broken, accepted, Job, SendAnswer}
use sacagawea.Gopher.Sender.Delivery.{
  continue-Delivers, Sends-more, Sends, Sends-done, Sends-stopped, drain_loop_quiet, logs,
}
use sacagawea.Transfer.{
  SenderAnswers, send_views, write_message, write_named_pipe, finish_sending_win32,
  thread_sender_win32,
}

-- A run that does nothing that the client sees, and then stops.
Sends-quiet :
    (file : Bytes) (k : ℕ) (t : List Action) (s : Stop ℕ)
    → sent_bytes t ≡ []
    → ((n : ℕ) → s ≢ value n)
    → Sends file k (t, s)
Sends-quiet file k t s quiet not_value = (drop k file, rw quiet refl, λ n e. absurd (not_value n e))

Sends-piece :
    (file : Bytes) (k size t : ℕ) (r : Run ℕ)
    → Sends file (k + t) r
    → Sends file k (after (maps size ∷ sends (take t (drop k file)) ∷ unmaps ∷ []) r)
Sends-piece file k size t r sent = Sends-more file k t r sent

pub send_views-Sends :
    (g : ℕ) (view_ok : ℕ → Bool) (file : Bytes) (answers : List SendAnswer) (k : ℕ)
    → k ≤ length file
    → Sends file k (send_views g view_ok file k answers)
unfolding send_views
send_views-Sends g view_ok file [] k h = elim (Bool-cases (leb (length file) k)) [
  | inl done ↦ rw done (Sends-done file k h done)
  | inr more ↦ elim (Bool-cases (view_ok k)) [
    | inl seen ↦
        rw (more, seen)
          (Sends-quiet file k (maps (min g (length file - k)) ∷ []) waits refl (λ n e. cc))
    | inr unseen ↦ rw (more, unseen) (Sends-stopped file k thread_exit (λ n e. cc))
  ]
]
send_views-Sends g view_ok file (broken ∷ answers) k h = elim (Bool-cases (leb (length file) k)) [
  | inl done ↦ rw done (Sends-done file k h done)
  | inr more ↦ elim (Bool-cases (view_ok k)) [
    | inl seen ↦
        rw (more, seen)
          (Sends-quiet file k (maps (min g (length file - k)) ∷ unmaps ∷ []) thread_exit refl
            (λ n e. cc))
    | inr unseen ↦ rw (more, unseen) (Sends-stopped file k thread_exit (λ n e. cc))
  ]
]
send_views-Sends g view_ok file (accepted n ∷ answers) k h =
    elim (Bool-cases (leb (length file) k)) [
      | inl done ↦ rw done (Sends-done file k h done)
      | inr more ↦ elim (Bool-cases (view_ok k)) [
        | inl seen ↦
            let size = min g (length file - k) in
            rw (more, seen)
              (Sends-piece file k size (min n size)
                (send_views g view_ok file (k + min n size) answers)
                (send_views-Sends g view_ok file answers (k + min n size) (omega arith)))
        | inr unseen ↦ rw (more, unseen) (Sends-stopped file k thread_exit (λ n e. cc))
      ]
    ]

pub send_views_silent :
    (g : ℕ) (view_ok : ℕ → Bool) (file : Bytes) (answers : List SendAnswer) (k : ℕ)
    → logs (send_views g view_ok file k answers).0 ≡ false
unfolding send_views
send_views_silent g view_ok file [] k = ground arith
send_views_silent g view_ok file (broken ∷ answers) k = ground arith
send_views_silent g view_ok file (accepted n ∷ answers) k =
    ground (arith, send_views_silent g view_ok file answers (k + min n (min g (length file - k))))

pub finish_win32_quiet :
    (a : SenderAnswers) (j : Job) (n : ℕ) → sent_bytes (finish_sending_win32 a j n).0 ≡ []
unfolding finish_sending_win32 write_named_pipe write_message
finish_win32_quiet a j n = ground (arith, drain_loop_quiet a.draining)

-- Whatever the calls of Windows answer, the client is sent a prefix of the file in order, and a line
-- is given to the log only if the whole file was sent.
pub thread_sender_win32_delivers :
    (a : SenderAnswers) (j : Job)
    → (rest : Bytes) × (j.file_to_send ≡ sent_bytes (thread_sender_win32 a j).0 ++ rest)
      × ((logs (thread_sender_win32 a j).0 ≡ false) ⊎ (rest ≡ []))
unfolding thread_sender_win32
thread_sender_win32_delivers a j =
    continue-Delivers j.file_to_send (finish_sending_win32 a j)
      (send_views a.granularity a.view_ok j.file_to_send 0 a.sending) (finish_win32_quiet a j)
      (send_views-Sends a.granularity a.view_ok j.file_to_send a.sending 0 (omega arith))
      (send_views_silent a.granularity a.view_ok j.file_to_send a.sending 0)
