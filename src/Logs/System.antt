-- ===== src/Logs/System.antt =====
-- Senders and the log process together: every interleaving of their steps under the mutex.
use sacagawea.Logs.Messages.{log_loop_ends, Enough, log_loop-messages, IsShort, messages, lines}
use sacagawea.Common.{
  All-append, length-replicate, replicate, none, append-nil, length-append, Option, arith, refl,
  append_assoc, sym, ◌∙◌, some, ap, ℕ, length, ◌∷◌, true, ◌++◌, false, All, [], ◌≡◌, Bytes, List,
}
use sacagawea.Logs.{log_loop, message, LogState, wake, send_line, send_breaks}

-- One step. `sent` is the line that a step sends, if it does. A wake happens only when the mutex is
-- free, and the lines of the senders are shorter than an `int` can say.
pub data Step (s : LogState) : List Bytes → LogState → Type 0 where
  send :
      (text : Bytes) {t : LogState}
      → s.held ≡ false
      → IsShort text
      → t ≡ send_line text s
      → Step s (text ∷ []) t
  breaks :
      (written : Bytes) {t : LogState} → s.held ≡ false → t ≡ send_breaks written s → Step s [] t
  wakes :
      (sizes : List (List ℕ)) {t : LogState} → s.held ≡ false → wake sizes s ≡ some t → Step s [] t

-- The lines that were sent on the way, in order.
pub data Reach (s : LogState) : List Bytes → LogState → Type 0 where
  here : Reach s [] s
  next :
      {sent more all : List Bytes} {t u : LogState}
      → Reach s sent t
      → Step t more u
      → all ≡ sent ++ more
      → Reach s all u

abbrev pub start : LogState
start = record { cont = 0; pipe = []; log = []; held = false }

-- While no thread has ended with the mutex, the pipe holds the lines that are counted and not yet
-- logged, and with them the log is all that was sent.
pub record Inv (sent : List Bytes) (s : LogState) : Type 0 where
  pub pending : List Bytes
  pub short : All IsShort pending
  pub counted : s.cont ≡ length pending
  pub queued : s.pipe ≡ messages pending
  pub complete : s.log ++ lines pending ≡ lines sent

-- A step from a state in which the mutex is held for ever: there is none.
no-Step : {s t : LogState} {sent : List Bytes} → s.held ≡ true → Step s sent t → ⊥
no-Step h (send text free short e) = cc
no-Step h (breaks written free e) = cc
no-Step h (wakes sizes free e) = cc

held_stuck :
    {s u : LogState} {sent : List Bytes} → s.held ≡ true → Reach s sent u → (u ≡ s) × (sent ≡ [])
held_stuck h here = (refl, refl)
held_stuck h (next r st e) =
    let (same, none') = held_stuck h r in
    absurd (no-Step (ap (λ (x : LogState). x.held) same ∙ h) st)

lines-append : (a b : List Bytes) → lines (a ++ b) ≡ lines a ++ lines b
lines-append [] b = refl
lines-append (x ∷ a) b = ap (◌++◌ x) (lines-append a b) ∙ sym (append_assoc x (lines a) (lines b))

messages-append : (a b : List Bytes) → messages (a ++ b) ≡ messages a ++ messages b
messages-append [] b = refl
messages-append (x ∷ a) b =
    ap (◌++◌ (message x)) (messages-append a b)
    ∙ sym (append_assoc (message x) (messages a) (messages b))

send-Inv :
    (sent : List Bytes) (s : LogState) (text : Bytes)
    → Inv sent s
    → IsShort text
    → Inv (sent ++ text ∷ []) (send_line text s)
send-Inv sent s text v short = record {
  pending = v.pending ++ text ∷ [];
  short = All-append IsShort v.pending (text ∷ []) v.short (short, tt);
  counted = omega (arith, v.counted, length-append v.pending (text ∷ []));
  queued =
      ap (λ (b : Bytes). b ++ message text) v.queued
      ∙ rw (messages-append v.pending (text ∷ []), append-nil text);
  complete =
      ap (◌++◌ s.log) (lines-append v.pending (text ∷ []))
      ∙ sym (append_assoc s.log (lines v.pending) (text ++ []))
      ∙ ap (λ (b : Bytes). b ++ (text ++ [])) v.complete
      ∙ sym (lines-append sent (text ∷ []));
}

wake-Inv :
    (sent : List Bytes) (s t : LogState) (sizes : List (List ℕ))
    → Inv sent s
    → wake sizes s ≡ some t
    → Inv sent t
unfolding wake
wake-Inv sent s t sizes v e = split (log_loop s.cont sizes s.pipe s.log) refl e
  where
    split :
        (o : Option (Bytes × Bytes))
        → log_loop s.cont sizes s.pipe s.log ≡ o
        → (elim o [
          | none ↦ none
          | some (pipe, log) ↦ some (record s { cont = 0; pipe = pipe; log = log })
        ])
          ≡ some t
        → Inv sent t
    split none f g = cc
    split (some (pipe, log)) f g =
        let read =
          log_loop-messages sizes v.pending [] s.log {r = (pipe, log)} v.short
            (rw (v.counted, v.queued ∙ sym (append-nil (messages v.pending))) at f) in
        let all : log ≡ s.log ++ lines v.pending = ap (λ (x : Bytes × Bytes). x.1) read in
        let gone : pipe ≡ [] = ap (λ (x : Bytes × Bytes). x.0) read in
        record {
          pending = [];
          short = tt;
          counted = ground arith;
          queued = ground arith;
          complete = append-nil t.log ∙ ground arith ∙ v.complete;
        }

Reach-Inv : {sent : List Bytes} {u : LogState} → Reach start sent u → u.held ≡ false → Inv sent u
Reach-Inv here h = record {
  pending = [];
  short = tt;
  counted = refl;
  queued = refl;
  complete = refl;
}
Reach-Inv (next {sent = sent} {t = t} r (send text free short e) all) h =
    rw (all, e) (send-Inv sent t text (Reach-Inv r free) short)
Reach-Inv (next r (breaks written free e) all) h = ground arith
Reach-Inv (next {sent = sent} {t = t} {u = u} r (wakes sizes free e) all) h =
    rw (all, append-nil sent) (wake-Inv sent t u sizes (Reach-Inv r free) e)

-- However senders and wakes of the log process interleave, as long as no thread has ended with the
-- mutex, the log followed by the lines that are counted but not yet logged is exactly the lines that
-- were sent, in order: none is lost, changed, doubled or overtaken.
pub log_in_order :
    (sent : List Bytes) (u : LogState)
    → Reach start sent u
    → u.held ≡ false
    → (pending : List Bytes) × (u.cont ≡ length pending) × (u.log ++ lines pending ≡ lines sent)
log_in_order sent u r free = let v = Reach-Inv r free in (v.pending, v.counted, v.complete)

-- One answer of `read` for each byte of each line.
abbrev by_bytes : List Bytes → List (List ℕ)
by_bytes [] = []
by_bytes (text ∷ texts) = replicate (length text) 0 ∷ by_bytes texts

by_bytes-Enough : (texts : List Bytes) → Enough (by_bytes texts) texts
by_bytes-Enough [] = tt
by_bytes-Enough (text ∷ texts) =
    (omega (arith, length-replicate {A = ℕ} (length text) 0), by_bytes-Enough texts)

wake_ends :
    (s : LogState) (pending : List Bytes)
    → All IsShort pending
    → s.cont ≡ length pending
    → s.pipe ≡ messages pending
    → wake (by_bytes pending) s
      ≡ some (record s { cont = 0; pipe = []; log = s.log ++ lines pending })
unfolding wake
wake_ends s pending short counted queued =
    let read : log_loop s.cont (by_bytes pending) s.pipe s.log ≡ some ([], s.log ++ lines pending) =
      ap (λ (n : ℕ). log_loop n (by_bytes pending) s.pipe s.log) counted
      ∙ ap (λ (b : Bytes). log_loop (length pending) (by_bytes pending) b s.log)
          (queued ∙ sym (append-nil (messages pending)))
      ∙ log_loop_ends (by_bytes pending) pending [] s.log short (by_bytes-Enough pending) in
    rw (read, wake)

-- From every such state a wake can come to its end, if `read` answers often enough, and it leaves
-- all that was sent in the log and nothing counted, also where the signals of earlier lines were lost.
pub wake_logs_all :
    (sent : List Bytes) (u : LogState)
    → Reach start sent u
    → u.held ≡ false
    → (sizes : List (List ℕ)) × (t : LogState) × (wake sizes u ≡ some t)
      × (t.log ≡ lines sent)
      × (t.cont ≡ 0)
wake_logs_all sent u r free =
    let v = Reach-Inv r free in
    (
      by_bytes v.pending,
      record u { cont = 0; pipe = []; log = u.log ++ lines v.pending },
      wake_ends u v.pending v.short v.counted v.queued,
      v.complete,
      refl,
    )
