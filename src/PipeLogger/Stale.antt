-- ===== src/PipeLogger/Stale.antt =====
-- What the log process of Windows does when sacagawea.log cannot always be opened.
use sacagawea.Common.{
  sym, inr, Option-cases, set, false, inl, leb, Bool-cases, ◌∙◌, All, returns, ◌≢◌, length-drop,
  refl, length-append, ap, zero, arith, All-append, append-nil, suc, length, drop, NoNul, ◌∷◌, some,
  if◌then◌else◌, ◌++◌, ℕ, ◌≡◌, ◌<◌, List, none, Bytes, [],
}
use sacagawea.PipeLogger.{
  connect_to_new_client, disconnect_and_reconnect, Logger, Round, FileAnswers, bufsize, max_pipes,
  overlay, request_string, write_to_log_file, log_message, log_rounds,
}
use sacagawea.PipeLogger.Refine.{request_string-overlay, zeros}

-- The bytes of a lost message that a shorter one does not cover, and the log.
pub record Kept : Type 0 where
  pub leftover : Bytes
  pub log : Bytes

abbrev pub with_leftover : Bytes → Bytes → Bytes
with_leftover message leftover = message ++ drop (length message) leftover

-- The log that the process keeps: a message that finds no open file stays in the array, and the next
-- one is written over it.
abbrev pub keep_message : FileAnswers → Bytes → Kept → Kept
keep_message f text k =
    if f.create_ok
    then record { leftover = []; log = if f.write_ok then k.log ++ text else k.log }
    else record { leftover = text; log = k.log }

abbrev pub keep : Round → Kept → Kept
keep r k = elim r.read [
  | none ↦ k
  | some message ↦ keep_message r.file (with_leftover message k.leftover) k
]

abbrev pub keep_all : List Round → Kept → Kept
keep_all [] k = k
keep_all (r ∷ rounds) k = keep_all rounds (keep r k)

-- The event is one of the 64, and a message is a string that leaves room for its NUL.
pub record IsHeard (r : Round) : Type 0 where
  pub pipe_lt : r.which_pipe < max_pipes
  pub plain : (message : Bytes) → r.read ≡ some message → NoNul message × (length message < bufsize)

-- The array holds what is left over, with zeros behind it.
pub record Holds (l : Logger) (k : Kept) : Type 0 where
  pub array : l.request ≡ overlay zeros k.leftover
  pub clean : NoNul k.leftover
  pub short : length k.leftover < bufsize
  pub same_log : l.log ≡ k.log

drop_nil : (n : ℕ) → drop {A = ℕ} n [] ≡ []
drop_nil zero = refl
drop_nil (suc n) = refl

overlay-overlay : (m p arr : Bytes) → overlay (overlay arr p) m ≡ overlay arr (with_leftover m p)
overlay-overlay [] p arr = refl
overlay-overlay (x ∷ m) [] arr =
    let e : with_leftover (x ∷ m) [] ≡ x ∷ m = ap (◌∷◌ x) (append-nil m) in sym (ap (overlay arr) e)
overlay-overlay (x ∷ m) (y ∷ p) [] = ap (◌∷◌ x) (
    rw (drop_nil (length p), drop_nil (length (m ++ drop (length m) p))) at
      (overlay-overlay m p []))
overlay-overlay (x ∷ m) (y ∷ p) (a ∷ arr) = ap (◌∷◌ x) (overlay-overlay m p arr)

drop-NoNul : (n : ℕ) (s : Bytes) → NoNul s → NoNul (drop n s)
drop-NoNul zero s h = h
drop-NoNul (suc n) [] h = h
drop-NoNul (suc n) (c ∷ s) h = drop-NoNul n s h.1

with_leftover_clean : (m p : Bytes) → NoNul m → NoNul p → NoNul (with_leftover m p)
with_leftover_clean m p h g =
    All-append (λ c. c ≢ 0) m (drop (length m) p) h (drop-NoNul (length m) p g)

with_leftover_short :
    (n : ℕ) (m p : Bytes) → length m < n → length p < n → length (with_leftover m p) < n
with_leftover_short n m p h g =
    omega (arith, length-append m (drop (length m) p), length-drop (length m) p)

-- What `overlay_string` says of the array in `l` when a message is read.
heard_string :
    (l : Logger) (k : Kept) (message : Bytes)
    → Holds l k
    → NoNul message
    → length message < bufsize
    → (overlay l.request message ≡ overlay zeros (with_leftover message k.leftover))
      × (request_string (overlay zeros (with_leftover message k.leftover))
          ≡ returns (with_leftover message k.leftover))
heard_string l k message ok plain short = (
  ap (λ (arr : Bytes). overlay arr message) ok.array ∙ overlay-overlay message k.leftover zeros,
  request_string-overlay bufsize (with_leftover message k.leftover)
      (with_leftover_clean message k.leftover plain ok.clean)
      (with_leftover_short bufsize message k.leftover short ok.short),
)

log_message_keeps :
    (r : Round) (message : Bytes) (l : Logger) (k : Kept)
    → Holds l k
    → NoNul message
    → length message < bufsize
    → (t : Logger) × (log_message r message l ≡ returns t)
      × Holds t (keep_message r.file (with_leftover message k.leftover) k)
unfolding log_message write_to_log_file disconnect_and_reconnect
log_message_keeps r message l k ok plain short =
    let (array, text) = heard_string l k message ok plain short in
    elim (Bool-cases r.file.create_ok) [
      | inl opens ↦ (
        record {
          request = zeros;
          log = if r.file.write_ok then k.log ++ with_leftover message k.leftover else k.log;
          instances = set l.instances r.which_pipe (connect_to_new_client r.connect);
        },
        rw (array, opens, text, ok.same_log) refl,
        rw opens (record { array = refl; clean = tt; short = omega arith; same_log = refl }),
      )
      | inr fails ↦ (
        record {
          request = overlay zeros (with_leftover message k.leftover);
          log = l.log;
          instances = set l.instances r.which_pipe (connect_to_new_client r.connect);
        },
        rw (array, fails) refl,
        rw fails (record {
          array = refl;
          clean = with_leftover_clean message k.leftover plain ok.clean;
          short = with_leftover_short bufsize message k.leftover short ok.short;
          same_log = ok.same_log;
        }),
      )
    ]

-- Whether or not sacagawea.log can be opened and written: from an array that holds the rest of a
-- string of at most 1023 bytes and zeros, if every message is such a string and every event one of
-- the 64, every run goes on, and the array and the log are those that `keep_all` says, where a
-- message that found no open file shows behind the next shorter one.
pub log_rounds_keep :
    (rounds : List Round) (l : Logger) (k : Kept)
    → Holds l k
    → All IsHeard rounds
    → (t : Logger) × (log_rounds rounds l ≡ returns t) × Holds t (keep_all rounds k)
unfolding log_rounds log_message_keeps
log_rounds_keep [] l k ok h = (l, refl, ok)
log_rounds_keep (r ∷ rounds) l k ok (heard, h) =
    let in_range : leb max_pipes r.which_pipe ≡ false = ground (arith, heard.pipe_lt) in
    elim (Option-cases r.read) [
      | inl e ↦
          let (t, ran, holds) = log_rounds_keep rounds l k ok h in
          (t, rw (in_range, e) ran, rw e holds)
      | inr (message, e) ↦
          let (plain, short) = heard.plain message e in
          let (u, logged, ok') = log_message_keeps r message l k ok plain short in
          let (t, ran, holds) =
            log_rounds_keep rounds u (keep_message r.file (with_leftover message k.leftover) k) ok'
              h in
          (t, rw (in_range, e, logged) ran, rw e holds)
    ]
