-- ===== src/Handoff/Answers.antt =====
-- A client of Windows in process mode, from the server through the child to the bytes of the file.
use sacagawea.Gopher.Sender.{SendAnswer}
use sacagawea.Common.{
  ◌∙◌, true, some, ◌^◌, inr, ◌<◌, All-append, ◌≢◌, inl, ◌==◌, Bytes, Bool-cases, ap, ◌∷◌, ◌++◌, ◌≡◌,
  All, ℕ, List, refl, [],
}
use sacagawea.Effects.{
  value, process_exit, thread_exit, free_input, close_socket, crashes, free_args, Run, Action, Stop,
  sent_bytes,
}
use sacagawea.Children.{Client, close_socket_kill_child}
use sacagawea.Children.Closing.{IsWork}
use sacagawea.Children.Windows.{WindowsWorld, management_function_win32}
use sacagawea.Children.Windows.Files.{IsFileRequest, management_function_win32_file}
use sacagawea.Handoff.{
  frees_args, closes_socket, closes_mapping, unmaps_view, closes_process, Windows,
  process_management_win32, hand_over, mp_main, frees_local,
}
use sacagawea.Handoff.Serves.{
  IsWindows, mp_main_serves, cmdline_fits, before_process, line_of, child_of,
}

-- The child stops where it frees its arguments.
frees_local_stops :
    (t u : List Action) (s : Stop (Unit {0}))
    → All IsWork t
    → frees_local (t ++ (free_args ∷ u)) s ≡ (t, crashes)
unfolding frees_local
frees_local_stops [] u s h = refl
frees_local_stops (free_args ∷ t) u s h = absurd h.0
frees_local_stops (close_socket n ∷ t) u s h = absurd h.0
frees_local_stops (a ∷ t) u s h =
    ap (λ (r : Run (Unit {0})). (a ∷ r.0, r.1)) (frees_local_stops t u s h.1)

close_frees :
    (c : Client) (code : ℕ)
    → (u : List Action) × (s : Stop (Unit {0})) × (close_socket_kill_child c code
        ≡ (free_args ∷ u, s))
unfolding close_socket_kill_child
close_frees c code = elim (Bool-cases (c.settings.mode == b't')) [
  | inl thread ↦ (close_socket c.socket ∷ [], thread_exit, rw thread refl)
  | inr process ↦ ([], process_exit code, rw process refl)
]

-- What the child does for a request for a file: the bytes of the file, the end of the request, and then
-- the free of its own variable.
child_of_file :
    (c : Client) (w : WindowsWorld) (line rest : Bytes) (n : ℕ) (more : List SendAnswer)
    → IsFileRequest c w line rest n more
    → (t : List Action) × (child_of (λ d. management_function_win32 d w) c
        ≡ (t ++ (free_input ∷ []), crashes))
      × (sent_bytes t ≡ w.contents)
child_of_file c w line rest n more r =
    let (t, ran, bytes, work) = management_function_win32_file c w line rest n more r in
    let (u, s, frees) = close_frees c 0 in
    let stops =
      frees_local_stops (t ++ (free_input ∷ [])) u s
        (All-append IsWork t (free_input ∷ []) work (tt, tt)) in
    (t, rw (ran, frees, stops) refl, bytes)

-- On Windows in process mode, if no call of the server fails: for a request for a file that is there, is
-- allowed and is read and sent without a failure, the server makes one process for the client and gives
-- up its own copy of the connection, and that process sends exactly the bytes of the file, however the
-- request arrives; then it frees its own variable, which is undefined.
pub child_sends_file :
    (os : Windows) (c : Client) (w : WindowsWorld) (h : ℕ) (line rest : Bytes) (n : ℕ)
    (more : List SendAnswer)
    → IsWindows os
    → h ≢ 0
    → h < 2 ^ 64
    → IsFileRequest c w line rest n more
    → (process_management_win32 c (record { mapping = some h; view_ok = true; process_ok = true })
        ≡ (
          before_process c h
              ++ (closes_process
                  ∷ unmaps_view
                  ∷ closes_mapping h
                  ∷ closes_socket c.socket
                  ∷ frees_args
                  ∷ []),
          value tt,
        ))
      × ((t : List Action) × (mp_main os
              (λ d. management_function_win32 d w)
              true
              (before_process c h)
              (line_of h)
            ≡ (t ++ (free_input ∷ []), crashes))
          × (sent_bytes t ≡ w.contents))
unfolding process_management_win32 hand_over
child_sends_file os c w h line rest n more windows used small r =
    let (t, ran, bytes) = child_of_file c w line rest n more r in
    (
      rw (cmdline_fits h) refl,
      (
        t,
        mp_main_serves os (λ d. management_function_win32 d w) c h windows used small ∙ ran,
        bytes,
      ),
    )
