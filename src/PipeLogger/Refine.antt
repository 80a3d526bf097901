-- ===== src/PipeLogger/Refine.antt =====
-- The log process of Windows does what a log does that appends its messages.
use sacagawea.Common.{
  inr, inl, Option-cases, set, length-replicate, length-drop, length-append, ap, false, ◌∙◌, zero,
  leb, ◌==◌, suc, ◌++◌, returns, c_string, ◌-◌, true, if◌then◌else◌, length, drop, ◌≡◌, some, ℕ,
  replicate, ◌<◌, List, none, ◌∷◌, [], Bytes, refl, arith, All, NoNul,
}
use sacagawea.Config.Homedir.{c_string_append}
use sacagawea.PipeLogger.{
  connect_to_new_client, disconnect_and_reconnect, Logger, Round, bufsize, max_pipes, overlay,
  request_string, write_to_log_file, log_message, log_rounds,
}

-- The log that the process promises: a message is appended whole if the write succeeds.
abbrev pub append_message : Round → Bytes → Bytes
append_message r log = elim r.read [
  | none ↦ log
  | some message ↦ (if r.file.write_ok then log ++ message else log)
]

abbrev pub append_all : List Round → Bytes → Bytes
append_all [] log = log
append_all (r ∷ rounds) log = append_all rounds (append_message r log)

-- The message is a string that leaves room for its NUL, the event is one of the 64, and the file can
-- be opened.
pub record IsRound (r : Round) : Type 0 where
  pub pipe_lt : r.which_pipe < max_pipes
  pub file_opens : r.file.create_ok ≡ true
  pub plain : (message : Bytes) → r.read ≡ some message → NoNul message × (length message < bufsize)

abbrev pub zeros : Bytes
zeros = replicate bufsize 0

drop-replicate : (k n : ℕ) → drop {A = ℕ} k (replicate n 0) ≡ replicate (n - k) 0
drop-replicate zero n = let e : n - 0 ≡ n = omega arith in rw e refl
drop-replicate (suc k) zero = let e : 0 - suc k ≡ 0 = omega arith in rw e refl
drop-replicate (suc k) (suc n) =
    let e : suc n - suc k ≡ n - k = omega arith in rw e (drop-replicate k n)

-- Over an array of zeros, the string of the array is the message, and its NUL is in the array.
pub overlay_string :
    (n : ℕ) (message : Bytes)
    → NoNul message
    → length message < n
    → (c_string (overlay (replicate n 0) message) ≡ message)
      × (length (overlay (replicate n 0) message) ≡ n)
overlay_string n message clean short =
    let left : n - length message ≡ suc (n - length message - 1) = omega arith in
    let zero_first : drop {A = ℕ} (length message) (replicate n 0)
        ≡ 0 ∷ replicate (n - length message - 1) 0 =
      drop-replicate (length message) n ∙ ap (λ (k : ℕ). replicate {A = ℕ} k 0) left in
    (
      rw zero_first (c_string_append message (replicate (n - length message - 1) 0) clean),
      omega (
        arith,
        length-append message (drop (length message) (replicate {A = ℕ} n 0)),
        length-drop (length message) (replicate {A = ℕ} n 0),
        length-replicate {A = ℕ} n 0,
      ),
    )

pub request_string-overlay :
    (n : ℕ) (message : Bytes)
    → NoNul message
    → length message < n
    → request_string (overlay (replicate n 0) message) ≡ returns message
unfolding request_string
request_string-overlay n message clean short =
    let (text, size) = overlay_string n message clean short in
    let other : (length message == n) ≡ false = ground arith in rw (text, size, other) refl

log_message_appends :
    (r : Round) (message : Bytes) (l : Logger)
    → l.request ≡ zeros
    → r.file.create_ok ≡ true
    → NoNul message
    → length message < bufsize
    → (t : Logger) × (log_message r message l ≡ returns t)
      × (t.request ≡ zeros)
      × (t.log ≡ (if r.file.write_ok then l.log ++ message else l.log))
unfolding log_message write_to_log_file disconnect_and_reconnect
log_message_appends r message l clean opens plain short = (
  record {
    request = zeros;
    log = if r.file.write_ok then l.log ++ message else l.log;
    instances = set l.instances r.which_pipe (connect_to_new_client r.connect);
  },
  rw (clean, opens, request_string-overlay bufsize message plain short) refl,
  refl,
  refl,
)

-- The log process refines the log of its messages: from an empty array, if every message is a string
-- of at most 1023 bytes and sacagawea.log can always be opened, every run goes on for ever, and the
-- file is what appending each message makes of it, one that could not be written being left out.
pub log_rounds_refine :
    (rounds : List Round) (l : Logger)
    → l.request ≡ zeros
    → All IsRound rounds
    → (t : Logger) × (log_rounds rounds l ≡ returns t)
      × (t.request ≡ zeros)
      × (t.log ≡ append_all rounds l.log)
unfolding log_rounds log_message_appends
log_rounds_refine [] l clean h = (l, refl, clean, refl)
log_rounds_refine (r ∷ rounds) l clean (ok, h) =
    let in_range : leb max_pipes r.which_pipe ≡ false = ground (arith, ok.pipe_lt) in
    elim (Option-cases r.read) [
      | inl e ↦
          let (t, ran, clean', all) = log_rounds_refine rounds l clean h in
          (t, rw (in_range, e) ran, clean', rw e all)
      | inr (message, e) ↦
          let (plain, short) = ok.plain message e in
          let (u, logged, clean', log') =
            log_message_appends r message l clean ok.file_opens plain short in
          let (t, ran, clean'', all) = log_rounds_refine rounds u clean' h in
          (t, rw (in_range, e, logged) ran, clean'', rw e (all ∙ ap (append_all rounds) log'))
    ]
