-- ===== src/Transfer/Whole.antt =====
-- When the loop of the sender of Windows sends the whole file, and when it does not.
use sacagawea.Config.{broken}
use sacagawea.Common.{
  append-nil, ◌∙◌, sym, ap, zero, true, suc, ◌<◌, ◌++◌, false, arith, ◌-◌, min, refl, inr, drop,
  inl, take, leb, Bool-cases, ◌∷◌, ◌≡◌, length, ◌≤◌, Bool, ◌+◌, List, ℕ, Bytes, [],
}
use sacagawea.Effects.{
  stop, pure, thread_exit, unmaps, value, sends, maps, Stop, after, Action, sent_bytes,
}
use sacagawea.Gopher.Sender.{broken, accepted, Job, SendAnswer}
use sacagawea.Transfer.{SenderAnswers, send_views, thread_sender_win32}
use sacagawea.Transfer.Pieces.{send_views-Sends}

-- The offsets that a run of whole pieces reaches.
pub data Aligned (g : ℕ) : ℕ → Type 0 where
  at_start : Aligned g 0
  one_more : {k : ℕ} → Aligned g k → Aligned g (k + g)

-- `MapViewOfFile` succeeds at a multiple of the granularity, and nowhere else.
pub record IsGranular (a : SenderAnswers) : Type 0 where
  pub positive : 0 < a.granularity
  pub seen : (k : ℕ) → Aligned a.granularity k → a.view_ok k ≡ true
  pub unseen :
      (k n : ℕ) → Aligned a.granularity k → 0 < n → n < a.granularity → a.view_ok (k + n) ≡ false

-- `n` calls of `send` that accept all they are given, behind them any others.
abbrev pub full : ℕ → ℕ → List SendAnswer → List SendAnswer
full g zero answers = answers
full g (suc n) answers = accepted g ∷ full g n answers

abbrev pub pieces : ℕ → ℕ → ℕ
pieces g zero = 0
pieces g (suc n) = g + pieces g n

send_views_done :
    (g : ℕ) (view_ok : ℕ → Bool) (file : Bytes) (k : ℕ) (answers : List SendAnswer)
    → length file ≤ k
    → send_views g view_ok file k answers ≡ pure k
unfolding send_views
send_views_done g view_ok file k [] h =
    let done : leb (length file) k ≡ true = ground arith in rw done refl
send_views_done g view_ok file k (broken ∷ answers) h =
    let done : leb (length file) k ≡ true = ground arith in rw done refl
send_views_done g view_ok file k (accepted n ∷ answers) h =
    let done : leb (length file) k ≡ true = ground arith in rw done refl

-- Where the file is not done, one piece is mapped and sent.
send_views_step :
    (g : ℕ) (view_ok : ℕ → Bool) (file : Bytes) (k n : ℕ) (answers : List SendAnswer)
    → k < length file
    → view_ok k ≡ true
    → send_views g view_ok file k (accepted n ∷ answers)
      ≡ after
          (maps (min g (length file - k))
            ∷ sends (take (min n (min g (length file - k))) (drop k file))
            ∷ unmaps
            ∷ [])
          (send_views g view_ok file (k + min n (min g (length file - k))) answers)
unfolding send_views
send_views_step g view_ok file k n answers h seen =
    let more : leb (length file) k ≡ false = ground arith in rw (more, seen) refl

send_views_whole :
    (a : SenderAnswers) (file : Bytes) (n k : ℕ) (rest : List SendAnswer)
    → IsGranular a
    → Aligned a.granularity k
    → k ≤ length file
    → length file ≤ k + pieces a.granularity n
    → (send_views a.granularity a.view_ok file k (full a.granularity n rest)).1
      ≡ value (length file)
send_views_whole a file zero k rest ok aligned low high =
    let end : k ≡ length file = omega arith in
    rw (send_views_done a.granularity a.view_ok file k rest (omega arith)) (ap value end)
send_views_whole a file (suc n) k rest ok aligned low high =
    elim (Bool-cases (leb (length file) k)) [
      | inl done ↦
          let end : k ≡ length file = ground arith in
          rw
            (send_views_done a.granularity a.view_ok file k (full a.granularity (suc n) rest)
              (omega (arith, end)))
            (ap value end)
      | inr more ↦
          let next = k + min a.granularity (min a.granularity (length file - k)) in
          rw
            (send_views_step a.granularity a.view_ok file k a.granularity
              (full a.granularity n rest) (ground arith) (ok.seen k aligned))
            (elim (Bool-cases (leb a.granularity (length file - k))) [
              | inl room ↦
                  let e : next ≡ k + a.granularity = ground arith in
                  rw e (
                    send_views_whole a file n (k + a.granularity) rest ok (one_more aligned)
                      (ground arith) (ground arith))
              | inr last_piece ↦
                  let e : next ≡ length file = ground arith in
                  rw
                    (
                      e,
                      send_views_done a.granularity a.view_ok file (length file)
                          (full a.granularity n rest) (omega arith),
                    )
                    refl
            ])
    ]

-- The client reads on and then closes, and nothing else fails.
pub record IsServedWin32 (a : SenderAnswers) (j : Job) (n : ℕ) (rest : List SendAnswer)
    : Type 0 where
  pub granular : IsGranular a
  pub answers : a.sending ≡ full a.granularity n rest
  pub enough : length j.file_to_send ≤ pieces a.granularity n

-- If every `send` accepts the piece that it is given, the loop sends the whole file, also one that is no
-- multiple of the granularity, and one that is empty.
pub send_views_sends_all :
    (a : SenderAnswers) (j : Job) (n : ℕ) (rest : List SendAnswer)
    → IsServedWin32 a j n rest
    → (t : List Action) × (send_views a.granularity a.view_ok j.file_to_send 0 a.sending
        ≡ (t, value (length j.file_to_send)))
      × (sent_bytes t ≡ j.file_to_send)
send_views_sends_all a j n rest s =
    let run = send_views a.granularity a.view_ok j.file_to_send 0 a.sending in
    let ends : run.1 ≡ value (length j.file_to_send) = rw s.answers (
      send_views_whole a j.file_to_send n 0 rest s.granular at_start (omega arith)
        (omega (arith, s.enough))) in
    let (left, e, end) =
      send_views-Sends a.granularity a.view_ok j.file_to_send a.sending 0 (omega arith) in
    (
      run.0,
      ap (λ (x : Stop ℕ). (run.0, x)) ends,
      sym (
          e
          ∙ ap (◌++◌ (sent_bytes run.0)) (end (length j.file_to_send) ends).0
          ∙ append-nil (sent_bytes run.0)),
    )

send_views_refused :
    (g : ℕ) (view_ok : ℕ → Bool) (file : Bytes) (k : ℕ) (answers : List SendAnswer)
    → k < length file
    → view_ok k ≡ false
    → send_views g view_ok file k answers ≡ stop thread_exit
unfolding send_views
send_views_refused g view_ok file k [] h unseen =
    let more : leb (length file) k ≡ false = ground arith in rw (more, unseen) refl
send_views_refused g view_ok file k (broken ∷ answers) h unseen =
    let more : leb (length file) k ≡ false = ground arith in rw (more, unseen) refl
send_views_refused g view_ok file k (accepted n ∷ answers) h unseen =
    let more : leb (length file) k ≡ false = ground arith in rw (more, unseen) refl

-- If a `send` accepts only a part of the first piece, the next view is refused: the client gets those
-- bytes and nothing more, whatever could be sent later, and its connection is not shut down.
pub partial_send_stops :
    (a : SenderAnswers) (j : Job) (n : ℕ) (rest : List SendAnswer)
    → IsGranular a
    → 0 < n
    → n < a.granularity
    → n < length j.file_to_send
    → a.sending ≡ accepted n ∷ rest
    → thread_sender_win32 a j ≡ (
      maps (min a.granularity (length j.file_to_send))
          ∷ sends (take n j.file_to_send)
          ∷ unmaps
          ∷ [],
      thread_exit,
    )
unfolding thread_sender_win32
partial_send_stops a j n rest ok positive small short e =
    let g = a.granularity in
    let whole : length j.file_to_send - 0 ≡ length j.file_to_send = omega arith in
    let temp : min n (min g (length j.file_to_send)) ≡ n = omega arith in
    let from_zero : 0 + n ≡ n = omega arith in
    let refused : a.view_ok n ≡ false = (rw from_zero at (ok.unseen 0 n at_start positive small)) in
    rw
      (
        e,
        send_views_step g a.view_ok j.file_to_send 0 n rest (omega arith) (ok.seen 0 at_start),
        whole,
        temp,
        from_zero,
        send_views_refused g a.view_ok j.file_to_send n rest short refused,
      )
      refl
