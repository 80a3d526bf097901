-- ===== src/Start/Loop/Hangup.antt =====
-- SIGHUP once the thread of a client has begun.
use sacagawea.Common.{◌++◌, ◌≡◌, true, Bool, List, ◌∷◌, [], Bytes, refl, ap}
use sacagawea.Config.{Settings}
use sacagawea.Server.{ready, listen_descriptor}
use sacagawea.Start.Loop.{
  wakes, thread_begins, hangs_up, hangs_up_accepting, Round, serve_loop, after_round,
}

abbrev pub without_reloads : List Round → List Round
without_reloads [] = []
without_reloads (hangs_up file a ∷ rounds) = without_reloads rounds
without_reloads (hangs_up_accepting before c file a behind ∷ rounds) =
    wakes (ready true) (before ++ (c ∷ behind)) ∷ without_reloads rounds
without_reloads (round ∷ rounds) = round ∷ without_reloads rounds

deaf_loop :
    (opendir : Bytes → Bool) (s : Settings) (rounds : List Round)
    → serve_loop opendir s true rounds ≡ serve_loop opendir s true (without_reloads rounds)
unfolding serve_loop
deaf_loop opendir s [] = refl
deaf_loop opendir s (wakes selected queue ∷ rounds) =
    ap (after_round (listen_descriptor s selected queue)) (deaf_loop opendir s rounds)
deaf_loop opendir s (hangs_up file a ∷ rounds) = deaf_loop opendir s rounds
deaf_loop opendir s (thread_begins ∷ rounds) = deaf_loop opendir s rounds
deaf_loop opendir s (hangs_up_accepting before c file a behind ∷ rounds) =
    ap (after_round (listen_descriptor s (ready true) (before ++ (c ∷ behind))))
      (deaf_loop opendir s rounds)

-- Once the thread of one client has begun, every later SIGHUP is lost: the server does exactly what it
-- would do if none came, whatever sacagawea.conf then says.
pub thread_begins_deaf :
    (opendir : Bytes → Bool) (s : Settings) (ignores : Bool) (rounds : List Round)
    → serve_loop opendir s ignores (thread_begins ∷ rounds)
      ≡ serve_loop opendir s ignores (thread_begins ∷ without_reloads rounds)
unfolding serve_loop
thread_begins_deaf opendir s ignores rounds = deaf_loop opendir s rounds
