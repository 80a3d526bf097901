-- ===== src/Handoff/Serves.antt =====
-- The child answers the client of the server.
use sacagawea.Gopher.Sender.Message.{length-decimal}
use sacagawea.Effects.{value, process_exit, stop, Trace, ◌>>◌, Run}
use sacagawea.Common.{
  none, false, refl, ◌-◌, ◌==◌, length-append, inr, Option, Bool, true, arith, decimal, ◌^◌, some,
  All, ◌<◌, returns, ◌≤◌, ltb, inl, ◌⊎◌, ◌≢◌, List, ◌≡◌, length, Bool-cases, ◌++◌, ◌∷◌, ℕ, Bytes,
  [],
}
use sacagawea.Children.{Client}
use sacagawea.Handoff.{
  frees_args, closes_socket, closes_mapping, unmaps_view, closes_process, cmdline_size,
  writes_mapping, creates_mapping, creates_process, Event, HandoffAnswers, process_management_win32,
  hand_over, cmdline, mp_main, Windows, frees_local, program, long_long,
}
use sacagawea.Handoff.Number.{IsNumeral, strtoll-long_long, decimal-IsNumeral}

-- A number in decimal.
abbrev pub IsInteger : Bytes → Type 0
IsInteger [] = ⊥
IsInteger (c ∷ s) = (IsNumeral (c ∷ s)) ⊎ ((c ≡ b'-') × IsNumeral s)

-- The C library splits a command line at its space; a process that inherits a handle sees in its
-- mapping what was written there before it was made.
pub record IsWindows (os : Windows) : Type 0 where
  pub splits : (arg : Bytes) → IsInteger arg → os.argv1 (program ++ (b' ' ∷ arg)) ≡ arg
  pub inherits :
      (h : ℕ) (client : Client) (line : Bytes)
      → os.view (creates_mapping h ∷ writes_mapping h client ∷ creates_process line ∷ []) h
        ≡ some client

IsInteger-numeral : (s : Bytes) → IsNumeral s → IsInteger s
IsInteger-numeral [] h = h
IsInteger-numeral (c ∷ s) h = inl h

long_long-IsInteger : (h : ℕ) → IsInteger (long_long h)
unfolding long_long
long_long-IsInteger h = elim (Bool-cases (ltb h (2 ^ 63))) [
  | inl positive ↦ rw positive (IsInteger-numeral (decimal h) (decimal-IsNumeral h))
  | inr negative ↦ rw negative (inr (refl, decimal-IsNumeral (2 ^ 64 - h)))
]

length-long_long : (h : ℕ) → length (long_long h) ≤ 21
unfolding long_long
length-long_long h = elim (Bool-cases (ltb h (2 ^ 63))) [
  | inl positive ↦ rw positive (omega (arith, length-decimal h))
  | inr negative ↦ rw negative (omega (arith, length-decimal (2 ^ 64 - h)))
]

abbrev pub line_of : ℕ → Bytes
line_of h = program ++ (b' ' ∷ long_long h)

-- The command line fits into its array.
pub cmdline_fits : (h : ℕ) → cmdline h ≡ returns (line_of h)
unfolding cmdline
cmdline_fits h =
    let short : ltb (length (line_of h)) cmdline_size ≡ true =
      ground (arith, length-append program (b' ' ∷ long_long h), length-long_long h) in
    rw short refl

abbrev pub before_process : Client → ℕ → List Event
before_process client h =
    creates_mapping h ∷ writes_mapping h client ∷ creates_process (line_of h) ∷ []

-- The child runs the management of the client, until it frees its arguments.
abbrev pub child_of : (Client → Run (Unit {0})) → Client → Run (Unit {0})
child_of manage client = frees_local (manage client).0 (manage client).1 >> stop (process_exit 1)

pub mp_main_serves :
    (os : Windows) (manage : Client → Run (Unit {0})) (client : Client) (h : ℕ)
    → IsWindows os
    → h ≢ 0
    → h < 2 ^ 64
    → mp_main os manage true (before_process client h) (line_of h) ≡ child_of manage client
unfolding mp_main
mp_main_serves os manage client h windows used small =
    let nonzero : (h == 0) ≡ false = ground (arith, used) in
    rw
      (
        windows.splits (long_long h) (long_long-IsInteger h),
        strtoll-long_long h small,
        nonzero,
        windows.inherits h client (line_of h),
      )
      refl

mp_main_stops :
    (os : Windows) (manage : Client → Run (Unit {0})) (client : Client) (h : ℕ)
    → IsWindows os
    → h ≢ 0
    → h < 2 ^ 64
    → mp_main os manage false (before_process client h) (line_of h) ≡ stop (process_exit 1)
unfolding mp_main
mp_main_stops os manage client h windows used small =
    let nonzero : (h == 0) ≡ false = ground (arith, used) in
    rw (windows.splits (long_long h) (long_long-IsInteger h), strtoll-long_long h small, nonzero)
      refl

abbrev pub NoProcess : Event → Type 0
NoProcess (creates_process line) = ⊥
NoProcess e = Unit

-- The server exits with 1 and made no process; or it made one, which runs the management of the same
-- client if it can set the handler of its console and otherwise exits with 1, and then gives up its own
-- socket and arguments.
pub data HandsOver (os : Windows) (manage : Client → Run (Unit {0})) (client : Client)
    : Trace Event (Unit {0}) → Type 0 where
  fails :
      (done : List Event) → All NoProcess done → HandsOver os manage client (done, process_exit 1)
  makes :
      (h : ℕ)
      → mp_main os manage true (before_process client h) (line_of h) ≡ child_of manage client
      → mp_main os manage false (before_process client h) (line_of h) ≡ stop (process_exit 1)
      → HandsOver os manage client (
        before_process client h
            ++ (closes_process
                ∷ unmaps_view
                ∷ closes_mapping h
                ∷ closes_socket client.socket
                ∷ frees_args
                ∷ []),
        value tt,
      )

with_mapping :
    (os : Windows) (manage : Client → Run (Unit {0})) (client : Client) (h : ℕ)
    → IsWindows os
    → h ≢ 0
    → h < 2 ^ 64
    → (view_ok process_ok : Bool)
    → HandsOver os manage client (
        process_management_win32 client
          (record { mapping = some h; view_ok = view_ok; process_ok = process_ok }))
unfolding process_management_win32 hand_over
with_mapping os manage client h windows used small false process_ok =
    fails (creates_mapping h ∷ []) (tt, tt)
with_mapping os manage client h windows used small true false =
    rw (cmdline_fits h) (fails (creates_mapping h ∷ writes_mapping h client ∷ []) (tt, (tt, tt)))
with_mapping os manage client h windows used small true true = rw (cmdline_fits h) (
    makes h (mp_main_serves os manage client h windows used small)
      (mp_main_stops os manage client h windows used small))

-- Whatever the calls of the server answer, if the handle of a mapping is one of 64 bits and not 0, the
-- command line of a process is split at its space, and a process can map the mapping that it inherits: the
-- server exits with 1 and has made no process; or it has made one and has closed its own socket and freed
-- its arguments behind that, and this process reads the handle, and then exits with 1 if it cannot set the
-- handler of its console, and otherwise runs the management of the same client up to the end of its
-- arguments.
pub process_management-HandsOver :
    (os : Windows) (manage : Client → Run (Unit {0})) (client : Client) (a : HandoffAnswers)
    → IsWindows os
    → ((h : ℕ) → a.mapping ≡ some h → (h ≢ 0) × (h < 2 ^ 64))
    → HandsOver os manage client (process_management_win32 client a)
unfolding process_management_win32
process_management-HandsOver os manage client a windows handle = go a.mapping refl
  where
    go :
        (m : Option ℕ)
        → a.mapping ≡ m
        → HandsOver os manage client (process_management_win32 client (record a { mapping = m }))
    go none e = fails [] tt
    go (some h) e =
        let (used, small) = handle h e in
        with_mapping os manage client h windows used small a.view_ok a.process_ok
