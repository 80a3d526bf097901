-- ===== src/Logs/Senders/Tests.antt =====
-- Two senders and a wake of the log process.
use sacagawea.Common.{
  ap, ◌++◌, length, false, Bytes, ◌≡◌, ◌∷◌, true, decimal, List, codes, refl, arith, [],
}
use sacagawea.Gopher.Sender.{
  closed, Answers, Job, SendAnswer, accepted, broken, thread_sender, logs_string, drain_loop,
}
use sacagawea.Logs.{LogState, wake, log_one}
use sacagawea.Logs.Messages.{IsShort, lines}
use sacagawea.Logs.System.{start}
use sacagawea.Logs.Senders.{Turn, sender, wakeup, turns}
use sacagawea.Logs.Senders.Order.{Logged, turns-log}

abbrev job : Job
job = record {
  date = codes "d";
  path_file = codes "/f";
  addr = codes "c";
  file_to_send = codes "xy";
}

abbrev answers : List SendAnswer → Answers
answers sending = record {
  signal_ok = true;
  sending = sending;
  shutdown_ok = true;
  draining = closed ∷ [];
  lock_ok = true;
  write_len_ok = true;
  write_text_ok = true;
}

-- The first client gets its file in two parts, the second one breaks the connection.
abbrev served : List Turn
served =
    sender (answers (accepted 1 ∷ accepted 1 ∷ [])) job
    ∷ sender (answers (accepted 1 ∷ broken ∷ [])) job
    ∷ wakeup ((20 ∷ []) ∷ [])
    ∷ []

run_served :
    turns served start ≡ record { cont = 0; pipe = []; log = codes "d /f 2 B c\n"; held = false }
unfolding turns thread_sender logs_string decimal wake log_one drain_loop
run_served = refl

job_fits : IsShort (logs_string job)
unfolding logs_string decimal
job_fits = omega arith

turns-log_example :
    (sent : List Bytes) × (pending : List Bytes) × Logged served sent
    × ((turns served start).cont ≡ length pending)
    × ((turns served start).log ++ lines pending ≡ lines sent)
turns-log_example =
    turns-log served (job_fits, (job_fits, (tt, tt))) (ap (λ (s : LogState). s.held) run_served)
