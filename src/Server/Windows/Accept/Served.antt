-- ===== src/Server/Windows/Accept/Served.antt =====
-- Who is served on Windows.
use sacagawea.Common.{
  inl, inr, Bool-cases, ℕ, Option, ap, ◌||◌, some, if◌then◌else◌, ◌==◌, false, ◌++◌, true, ◌∷◌,
  ◌&&◌, none, ◌≡◌, List, Bool, refl, arith, [],
}
use sacagawea.Config.{Settings}
use sacagawea.Config.Ports.{IsValid}
use sacagawea.Children.{Client}
use sacagawea.Server.{client_of, Ending, returned, exited}
use sacagawea.Handoff
use sacagawea.Handoff.{creates_process, HandoffAnswers, process_management_win32, hand_over}
use sacagawea.Handoff.Serves.{cmdline_fits}
use sacagawea.Server.Windows.Accept.{
  hands_over, threads, ending, WindowsConnection, AcceptEvent, dispatch, thread_management_win32,
  accept_wrapper_win32,
}

-- A process is made by the last of three calls.
abbrev pub hands : HandoffAnswers → Bool
hands a = elim a.mapping [ none ↦ false | some h ↦ a.view_ok && a.process_ok ]

-- Serving the connection does not end the server.
abbrev pub survives : Settings → WindowsConnection → Bool
survives s c = c.blocking_ok && (s.mode == b't' || hands c.handoff)

-- The clients that are served: those in front of the first connection that ends the server for which a
-- thread or a process is made, in order.
abbrev pub served : Settings → List WindowsConnection → List Client
served s [] = []
served s (c ∷ queue) =
    let rest = served s queue in
    if survives s c
    then if s.mode == b'p' || c.connection.started then client_of s c.connection ∷ rest else rest
    else []

abbrev pub all_survive : Settings → List WindowsConnection → Bool
all_survive s [] = true
all_survive s (c ∷ queue) = survives s c && all_survive s queue

abbrev pub makes_process : List Handoff.Event → Bool
makes_process [] = false
makes_process (creates_process line ∷ t) = true
makes_process (_ ∷ t) = makes_process t

-- The clients to whom a thread or a process was given.
abbrev pub given : List AcceptEvent → List Client
given [] = []
given (threads client ∷ t) = client ∷ given t
given (hands_over client done ∷ t) = if makes_process done then client ∷ given t else given t
given (_ ∷ t) = given t

given-append : (t u : List AcceptEvent) → given (t ++ u) ≡ given t ++ given u
given-append [] u = refl
given-append (threads client ∷ t) u = ap (◌∷◌ client) (given-append t u)
given-append (hands_over client done ∷ t) u = ground (arith, given-append t u)
given-append (_ ∷ t) u = given-append t u

-- Whether the server hands a client over, and whether it goes on.
hands_all :
    (client : Client) (a : HandoffAnswers)
    → (makes_process (process_management_win32 client a).0 ≡ hands a)
      × (ending (process_management_win32 client a).1 ≡ (if hands a then returned else exited 1))
unfolding process_management_win32 hand_over
hands_all client a = go a.mapping a.view_ok a.process_ok
  where
    go :
        (m : Option ℕ) (v p : Bool)
        → let b : HandoffAnswers = record { mapping = m; view_ok = v; process_ok = p } in
          (makes_process (process_management_win32 client b).0 ≡ hands b)
          × (ending (process_management_win32 client b).1
              ≡ (if hands b then returned else exited 1))
    go none v p = (refl, refl)
    go (some h) false p = (refl, refl)
    go (some h) true false = rw (cmdline_fits h) (refl, refl)
    go (some h) true true = rw (cmdline_fits h) (refl, refl)

abbrev Serves : Settings → List WindowsConnection → List AcceptEvent × Ending → Type 0
Serves s queue r =
    (given r.0 ≡ served s queue) × (r.1 ≡ (if all_survive s queue then returned else exited 1))

thread-Serves :
    (s : Settings) (c : WindowsConnection) (queue : List WindowsConnection)
    → (s.mode == b't') ≡ true
    → (s.mode == b'p') ≡ false
    → Serves s queue (accept_wrapper_win32 s queue)
    → Serves s (c ∷ queue) (accept_wrapper_win32 s (c ∷ queue))
unfolding accept_wrapper_win32 dispatch thread_management_win32
thread-Serves s c queue thread other (all, end) = elim (Bool-cases c.blocking_ok) [
  | inr bad ↦ rw bad (refl, refl)
  | inl good ↦ elim (Bool-cases c.connection.started) [
    | inl started ↦
        simp (good, thread, other, started) (ap (◌∷◌ (client_of s c.connection)) all, end)
    | inr failed ↦ simp (good, thread, other, failed) (all, end)
  ]
]

process-Serves :
    (s : Settings) (c : WindowsConnection) (queue : List WindowsConnection)
    → (s.mode == b't') ≡ false
    → (s.mode == b'p') ≡ true
    → Serves s queue (accept_wrapper_win32 s queue)
    → Serves s (c ∷ queue) (accept_wrapper_win32 s (c ∷ queue))
unfolding accept_wrapper_win32 dispatch
process-Serves s c queue other process (all, end) = elim (Bool-cases c.blocking_ok) [
  | inr bad ↦ rw bad (refl, refl)
  | inl good ↦
      let (makes, ends) = hands_all (client_of s c.connection) c.handoff in
      elim (Bool-cases (hands c.handoff)) [
        | inl handed ↦
            simp (good, other, process, handed, makes, ends)
              (ap (◌∷◌ (client_of s c.connection)) all, end)
        | inr failed ↦ simp (good, other, process, failed, makes, ends) (refl, refl)
      ]
]

-- With valid settings, whatever the calls answer: the clients to whom the server gives a thread or a
-- process are those in front of the first connection that ends it for whom one could be made, in order
-- and once each; and it ends, with 1, exactly where a connection cannot be made to block or, in process
-- mode, where a process cannot be made.
pub accept_wrapper_win32_serves :
    (s : Settings) (queue : List WindowsConnection)
    → IsValid s
    → (given (accept_wrapper_win32 s queue).0 ≡ served s queue)
      × ((accept_wrapper_win32 s queue).1 ≡ (if all_survive s queue then returned else exited 1))
unfolding accept_wrapper_win32
accept_wrapper_win32_serves s [] valid = (refl, refl)
accept_wrapper_win32_serves s (c ∷ queue) valid =
    let rest = accept_wrapper_win32_serves s queue valid in
    elim valid.mode_known [
      | inl thread ↦ thread-Serves s c queue (ground (arith, thread)) (ground (arith, thread)) rest
      | inr process ↦
          process-Serves s c queue (ground (arith, process)) (ground (arith, process)) rest
    ]
