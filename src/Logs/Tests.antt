-- ===== src/Logs/Tests.antt =====
-- A run of the log, and its theorems at it.
use sacagawea.Effects.{process_exit}
use sacagawea.Logs.Process.Cleanup.{log_management-Ended, Ended}
use sacagawea.Logs.Process.{
  cleanup, gives_mutex, frees_line, closes_log, prints, opens_log, waits_for_lines, takes_mutex,
  log_management, LineAnswers,
}
use sacagawea.Logs.Messages.{lines}
use sacagawea.Logs.System.{wake_logs_all, log_in_order, send, here, next, start, Reach}
use sacagawea.Common.{
  none, true, refl, arith, ◌++◌, false, length, some, ◌≡◌, codes, ℕ, [], Bytes, ◌∷◌, List,
}
use sacagawea.Logs.{log_one, send_line, LogState, wake}

abbrev two_sent : LogState
two_sent = send_line (codes "b\n") (send_line (codes "a\n") start)

abbrev both : List Bytes
both = codes "a\n" ∷ codes "b\n" ∷ []

Reach-two : Reach start both two_sent
Reach-two =
    next (next here (send (codes "a\n") refl (omega arith) refl) refl)
      (send (codes "b\n") refl (omega arith) refl) refl

-- The lines may arrive in any pieces.
run_wake :
    wake ((0 ∷ 0 ∷ []) ∷ (5 ∷ []) ∷ []) two_sent
    ≡ some (record { cont = 0; pipe = []; log = codes "a\nb\n"; held = false })
unfolding wake log_one
run_wake = refl

log_in_order_example :
    (pending : List Bytes) × (two_sent.cont ≡ length pending)
    × (two_sent.log ++ lines pending ≡ lines both)
log_in_order_example = log_in_order both two_sent Reach-two refl

wake_logs_all_example :
    (sizes : List (List ℕ)) × (t : LogState) × (wake sizes two_sent ≡ some t)
    × (t.log ≡ lines both)
    × (t.cont ≡ 0)
wake_logs_all_example = wake_logs_all both two_sent Reach-two refl

abbrev plain_line : LineAnswers
plain_line = record {
  len_string = some 2;
  fopen_ok = true;
  malloc_ok = true;
  pieces = some (codes "a") ∷ some (codes "\n") ∷ [];
}

-- One line is logged, and the next one cannot be read.
run_log_management :
    log_management true (
      record { wait_ok = true; lines = plain_line ∷ record plain_line { pieces = none ∷ [] } ∷ [] }
      ∷ [])
    ≡ (
      takes_mutex
          ∷ waits_for_lines
          ∷ opens_log
          ∷ prints (codes "a\n")
          ∷ closes_log
          ∷ frees_line
          ∷ opens_log
          ∷ gives_mutex
          ∷ cleanup,
      process_exit 1,
    )
unfolding log_management
run_log_management = refl

log_management-Ended_example :
    Ended (log_management true (record { wait_ok = true; lines = plain_line ∷ [] } ∷ []))
log_management-Ended_example =
    log_management-Ended true (record { wait_ok = true; lines = plain_line ∷ [] } ∷ [])
