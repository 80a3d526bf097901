-- ===== src/Logs/Senders/Order.antt =====
-- What sacagawea.log holds after any turns of senders and wakes.
use sacagawea.Common.{
  append_assoc, ap, Option, ◌∙◌, some, append-nil, inr, length, none, inl, sym, ◌⊎◌, Bool-cases,
  false, subst, ◌++◌, ◌∷◌, All, ℕ, true, Bytes, ◌≡◌, List, refl, [],
}
use sacagawea.Effects.{sent_bytes}
use sacagawea.Gopher.Sender.{Answers, Job, thread_sender, logs_string}
use sacagawea.Gopher.Sender.Delivery.{thread_sender_delivers, logs}
use sacagawea.Logs.{LogState, wake}
use sacagawea.Logs.Messages.{IsShort, lines}
use sacagawea.Logs.System.{Reach, here, next, Step, send, breaks, wakes, start, log_in_order}
use sacagawea.Logs.Senders.{wakeup, sender, Turn, turn, turns, perform}
use sacagawea.Logs.Senders.Steps.{Steps, thread_sender-Steps}

-- Lines of some of the senders, in their order: each stands for a file that was sent whole.
pub data Logged : List Turn → List Bytes → Type 0 where
  no_turns : Logged [] []
  no_line : (x : Turn) {rest : List Turn} {ls : List Bytes} → Logged rest ls → Logged (x ∷ rest) ls
  line :
      (a : Answers) (j : Job) {rest : List Turn} {ls : List Bytes}
      → sent_bytes (thread_sender a j).0 ≡ j.file_to_send
      → Logged rest ls
      → Logged (sender a j ∷ rest) (logs_string j ∷ ls)

-- A sender whose line fits.
abbrev pub IsLoggable : Turn → Type 0
IsLoggable (sender a j) = IsShort (logs_string j)
IsLoggable (wakeup sizes) = Unit

-- One turn adds at most one line.
abbrev Adds : Turn → List Bytes → Type 0
Adds x more = (rest : List Turn) (ls : List Bytes) → Logged rest ls → Logged (x ∷ rest) (more ++ ls)

logs_whole :
    (a : Answers) (j : Job)
    → logs (thread_sender a j).0 ≡ true
    → sent_bytes (thread_sender a j).0 ≡ j.file_to_send
logs_whole a j h = go (thread_sender_delivers a j)
  where
    go :
        ((rest : Bytes) × (j.file_to_send ≡ sent_bytes (thread_sender a j).0 ++ rest)
          × ((logs (thread_sender a j).0 ≡ false) ⊎ (rest ≡ [])))
        → sent_bytes (thread_sender a j).0 ≡ j.file_to_send
    go (rest, e, inl silent) = cc
    go (rest, e, inr none') =
        sym (e ∙ ap (◌++◌ (sent_bytes (thread_sender a j).0)) none' ∙ append-nil _)

abbrev Turned : Turn → List Bytes → LogState → LogState → Type 0
Turned x sent s t = (more : List Bytes) × Reach start (sent ++ more) t × Adds x more

Turned-same : (x : Turn) (sent : List Bytes) (s : LogState) → Reach start sent s → Turned x sent s s
Turned-same x sent s r = (
  [],
  subst (λ (l : List Bytes). Reach start l s) (sym (append-nil sent)) r,
  λ rest ls g. no_line x g,
)

Turned-Step :
    (x : Turn) (sent : List Bytes) {s t : LogState}
    → Reach start sent s
    → Step s [] t
    → Turned x sent s t
Turned-Step x sent r st = ([], next r st refl, λ rest ls g. no_line x g)

sender-Turned :
    (a : Answers) (j : Job) (sent : List Bytes) (s : LogState)
    → Reach start sent s
    → IsShort (logs_string j)
    → s.held ≡ false
    → Turned (sender a j) sent s (perform (thread_sender a j).0 s)
sender-Turned a j sent s r short free = go (thread_sender-Steps a j s free)
  where
    go :
        Steps (logs_string j) (thread_sender a j).0 s
        → Turned (sender a j) sent s (perform (thread_sender a j).0 s)
    go (inl e) = rw e (Turned-same (sender a j) sent s r)
    go (inr (inl (e, l))) = rw e (
      logs_string j ∷ [],
      next r (send (logs_string j) free short refl) refl,
      λ rest ls g. line a j (logs_whole a j l) g,
    )
    go (inr (inr (written, e))) = rw e (Turned-Step (sender a j) sent r (breaks written free refl))

wakeup-Turned :
    (sizes : List (List ℕ)) (sent : List Bytes) (s : LogState)
    → Reach start sent s
    → s.held ≡ false
    → Turned (wakeup sizes) sent s (elim (wake sizes s) [ none ↦ s | some t ↦ t ])
wakeup-Turned sizes sent s r free = go (wake sizes s) refl
  where
    go :
        (o : Option LogState)
        → wake sizes s ≡ o
        → Turned (wakeup sizes) sent s (elim o [ none ↦ s | some t ↦ t ])
    go none e = Turned-same (wakeup sizes) sent s r
    go (some t) e = Turned-Step (wakeup sizes) sent r (wakes sizes free e)

turn-Turned :
    (x : Turn) (sent : List Bytes) (s : LogState)
    → Reach start sent s
    → IsLoggable x
    → Turned x sent s (turn x s)
unfolding turn
turn-Turned (sender a j) sent s r ok = elim (Bool-cases s.held) [
  | inl held ↦ simp held (Turned-same (sender a j) sent s r)
  | inr free ↦ simp free (sender-Turned a j sent s r ok free)
]
turn-Turned (wakeup sizes) sent s r ok = elim (Bool-cases s.held) [
  | inl held ↦ simp held (Turned-same (wakeup sizes) sent s r)
  | inr free ↦ simp free (wakeup-Turned sizes sent s r free)
]

turns-Reach :
    (xs : List Turn) (sent : List Bytes) (s : LogState)
    → Reach start sent s
    → All IsLoggable xs
    → (more : List Bytes) × Logged xs more × Reach start (sent ++ more) (turns xs s)
unfolding turns
turns-Reach [] sent s r ok =
    ([], no_turns, subst (λ (l : List Bytes). Reach start l s) (sym (append-nil sent)) r)
turns-Reach (x ∷ xs) sent s r (ok, oks) =
    let (more, r', adds) = turn-Turned x sent s r ok in
    let (rest, logged, end) = turns-Reach xs (sent ++ more) (turn x s) r' oks in
    (more ++ rest, adds xs rest logged, rw (← append_assoc sent more rest) end)

-- However senders and wakes of the log process take turns, if the lines fit and no sender has ended
-- with the mutex: the log, followed by the lines that are counted but not yet logged, is exactly one
-- whole line for each of some senders, in the order of their turns, and each of these sent its file
-- whole.
pub turns-log :
    (xs : List Turn)
    → All IsLoggable xs
    → (turns xs start).held ≡ false
    → (sent : List Bytes) × (pending : List Bytes) × Logged xs sent
      × ((turns xs start).cont ≡ length pending)
      × ((turns xs start).log ++ lines pending ≡ lines sent)
turns-log xs ok free =
    let (sent, logged, r) = turns-Reach xs [] start here ok in
    let (pending, counted, all) = log_in_order sent (turns xs start) r free in
    (sent, pending, logged, counted, all)
