-- ===== src/Logs/Process/Cleanup.antt =====
-- How the log process ends.
use sacagawea.Common.{
  ◌≢◌, true, none, zero, length, false, ◌-◌, take, some, suc, append_assoc, if◌then◌else◌, Option,
  sym, Bool, Bytes, refl, ◌∙◌, ℕ, ap, ◌≡◌, ◌∷◌, All-append, ◌++◌, All, List, [],
}
use sacagawea.Effects.{
  crashes, thread_exit, ◌>>=◌, ◌>>◌, do_action, process_exit, waits, value, Trace,
}
use sacagawea.Logs.Process.{
  takes_mutex, waits_for_lines, opens_log, closes_log, print_line, closes_pipe, unlinks_shared,
  destroys_cond, destroys_mutex, gives_mutex, LogEvent, LineAnswers, Wakeup, cleanup,
  log_management_exit, read_pieces, with_log_open, log_line, log_lines, log_wakeups, log_management,
}

-- What stands in no exit.
abbrev pub IsWork : LogEvent → Type 0
IsWork gives_mutex = ⊥
IsWork destroys_mutex = ⊥
IsWork destroys_cond = ⊥
IsWork unlinks_shared = ⊥
IsWork closes_pipe = ⊥
IsWork e = Unit

-- Under the mutex: work, and then the rest of the code, a wait for ever, or an exit with 1 that first
-- gives back the mutex and cleans up.
pub data Locked {ℓ} {A : Type ℓ} : Trace LogEvent A → Type ℓ where
  goes_on : {t : List LogEvent} (a : A) → All IsWork t → Locked (t, value a)
  blocks : {t : List LogEvent} → All IsWork t → Locked (t, waits)
  leaves :
      (front : List LogEvent) {t : List LogEvent}
      → All IsWork front
      → t ≡ front ++ (gives_mutex ∷ cleanup)
      → Locked (t, process_exit 1)

Locked-after {ℓ} :
    {A : Type ℓ} (t : List LogEvent) (m : Trace LogEvent A)
    → All IsWork t
    → Locked m
    → Locked (t ++ m.0, m.1)
Locked-after t m h (goes_on a g) = goes_on a (All-append IsWork t _ h g)
Locked-after t m h (blocks g) = blocks (All-append IsWork t _ h g)
Locked-after t m h (leaves front g e) =
    leaves (t ++ front) (All-append IsWork t front h g)
      (ap (◌++◌ t) e ∙ sym (append_assoc t front (gives_mutex ∷ cleanup)))

Locked-bind {ℓ κ} :
    {A : Type ℓ} {B : Type κ} (m : Trace LogEvent A) (f : A → Trace LogEvent B)
    → Locked m
    → ((a : A) → Locked (f a))
    → Locked (m >>= f)
Locked-bind m f (goes_on {t} a h) next = Locked-after t (f a) h (next a)
Locked-bind m f (blocks h) next = blocks h
Locked-bind m f (leaves front h e) next = leaves front h e

exit-Locked {ℓ} : {A : Type ℓ} → Locked (log_management_exit {A = A})
unfolding log_management_exit
exit-Locked = leaves [] tt refl

read_pieces-Locked :
    (want : ℕ) (line : Bytes) (pieces : List (Option Bytes)) → Locked (read_pieces want line pieces)
unfolding read_pieces
read_pieces-Locked zero line pieces = goes_on line tt
read_pieces-Locked (suc want) line [] = blocks tt
read_pieces-Locked (suc want) line (none ∷ pieces) = exit-Locked
read_pieces-Locked (suc want) line (some piece ∷ pieces) =
    let got = take (suc want) piece in
    read_pieces-Locked (suc want - length got) (line ++ got) pieces

with_log_open-Locked : (a : LineAnswers) (len : ℕ) → Locked (with_log_open a len)
unfolding with_log_open print_line
with_log_open-Locked a len = go a.malloc_ok
  where
    go :
        (ok : Bool)
        → Locked (if ok then print_line a len else do_action closes_log >> log_management_exit)
    go false = Locked-bind (do_action closes_log) _ (goes_on tt (tt, tt)) (λ _. exit-Locked)
    go true =
        Locked-bind (read_pieces len [] a.pieces) _ (read_pieces-Locked len [] a.pieces)
          (λ line. goes_on tt (tt, (tt, (tt, tt))))

log_line-Locked : (a : LineAnswers) → Locked (log_line a)
unfolding log_line
log_line-Locked a = go a.len_string a.fopen_ok
  where
    go :
        (o : Option ℕ) (ok : Bool)
        → Locked {A = Unit {0}} (elim o [
          | none ↦ log_management_exit
          | some len ↦
              (if ok then do_action opens_log >> with_log_open a len else log_management_exit)
        ])
    go none ok = exit-Locked
    go (some len) false = exit-Locked
    go (some len) true =
        Locked-bind (do_action opens_log) _ (goes_on tt (tt, tt)) (λ _. with_log_open-Locked a len)

log_lines-Locked : (lines : List LineAnswers) → Locked (log_lines lines)
unfolding log_lines
log_lines-Locked [] = goes_on tt tt
log_lines-Locked (a ∷ lines) =
    Locked-bind (log_line a) _ (log_line-Locked a) (λ _. log_lines-Locked lines)

woken-Locked : (w : Wakeup) → Locked (if w.wait_ok then log_lines w.lines else log_management_exit)
woken-Locked w = go w.wait_ok
  where
    go : (ok : Bool) → Locked (if ok then log_lines w.lines else log_management_exit)
    go false = exit-Locked
    go true = log_lines-Locked w.lines

log_wakeups-Locked : (wakeups : List Wakeup) → Locked (log_wakeups wakeups)
unfolding log_wakeups
log_wakeups-Locked [] = blocks tt
log_wakeups-Locked (w ∷ wakeups) =
    Locked-bind (do_action waits_for_lines) _ (goes_on tt (tt, tt))
      λ _. Locked-bind _ _ (woken-Locked w) λ _. log_wakeups-Locked wakeups

never-bind :
    (m : Trace LogEvent (Unit {0})) (f : Unit {0} → Trace LogEvent (Unit {0}))
    → ((f tt).1 ≢ value tt)
    → (m >>= f).1 ≢ value tt
never-bind (t, value a) f h e = h e
never-bind (t, thread_exit) f h e = cc
never-bind (t, process_exit code) f h e = cc
never-bind (t, waits) f h e = cc
never-bind (t, crashes) f h e = cc

log_wakeups_never : (wakeups : List Wakeup) → (log_wakeups wakeups).1 ≢ value tt
unfolding log_wakeups
log_wakeups_never [] e = cc
log_wakeups_never (w ∷ wakeups) e =
    let rest : Unit {0} → Trace LogEvent (Unit {0}) = λ _. log_wakeups wakeups in
    let woken = if w.wait_ok then log_lines w.lines else log_management_exit in
    never-bind (do_action waits_for_lines) (λ _. woken >>= rest)
      (never-bind woken rest (log_wakeups_never wakeups)) e

-- The end of the log process.
pub data Ended : Trace LogEvent (Unit {0}) → Type 0 where
  no_mutex : Ended (cleanup, process_exit 1)
  in_wait : (work : List LogEvent) → All IsWork work → Ended (takes_mutex ∷ work, waits)
  by_exit :
      (work : List LogEvent)
      → All IsWork work
      → Ended (takes_mutex ∷ (work ++ (gives_mutex ∷ cleanup)), process_exit 1)

Locked-Ended :
    (m : Trace LogEvent (Unit {0})) → Locked m → (m.1 ≢ value tt) → Ended (takes_mutex ∷ m.0, m.1)
Locked-Ended m (goes_on a h) never = absurd (never refl)
Locked-Ended m (blocks {t} h) never = in_wait t h
Locked-Ended m (leaves front h e) never = rw e (by_exit front h)

-- Whatever the calls answer, the log process never comes back from `log_management`. It waits for
-- ever and has cleaned up nothing; or it exits with 1, and the last that it does, once each and in
-- this order, is to give back the mutex if it was taken, destroy the mutex and the condition variable,
-- unlink the shared memory and close the read end of the pipe.
pub log_management-Ended :
    (lock_ok : Bool) (wakeups : List Wakeup) → Ended (log_management lock_ok wakeups)
unfolding log_management
log_management-Ended false wakeups = no_mutex
log_management-Ended true wakeups =
    Locked-Ended (log_wakeups wakeups) (log_wakeups-Locked wakeups) (log_wakeups_never wakeups)
