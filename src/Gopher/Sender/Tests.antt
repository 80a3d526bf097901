-- ===== src/Gopher/Sender/Tests.antt =====
-- Runs of the sender, and its theorems at a concrete file.
use sacagawea.Gopher.Sender.Served.{thread_sender_serves}
use sacagawea.Gopher.Sender.Delivery.{thread_sender_delivers, log_actions, logs}
use sacagawea.Effects.{thread_exit, sends, shuts_down, sent_bytes, ignores_sighup, Action}
use sacagawea.Common.{
  ◌⊎◌, false, refl, arith, [], ◌∷◌, ◌++◌, ◌≡◌, decimal, true, codes, List, Bytes,
}
use sacagawea.Gopher.Sender.{closed, discarded, accepted, logs_string, Answers, Job, thread_sender}

abbrev job : Job
job = record {
  date = codes "[Jul 21 2019 15:54:33]";
  path_file = codes "/srv/a";
  addr = codes "10.0.0.4:3948";
  file_to_send = codes "hello";
}

abbrev good : Answers
good = record {
  signal_ok = true;
  sending = accepted 2 ∷ accepted 3 ∷ [];
  shutdown_ok = true;
  draining = discarded ∷ closed ∷ [];
  lock_ok = true;
  write_len_ok = true;
  write_text_ok = true;
}

run_sender : thread_sender good job ≡ (
  ignores_sighup
      ∷ sends (codes "he")
      ∷ sends (codes "llo")
      ∷ shuts_down
      ∷ log_actions (codes "[Jul 21 2019 15:54:33] /srv/a 5 B 10.0.0.4:3948\n"),
  thread_exit,
)
unfolding thread_sender logs_string decimal
run_sender = refl

thread_sender_delivers_example :
    (rest : Bytes) × (job.file_to_send ≡ sent_bytes (thread_sender good job).0 ++ rest)
    × ((logs (thread_sender good job).0 ≡ false) ⊎ (rest ≡ []))
thread_sender_delivers_example = thread_sender_delivers good job

thread_sender_serves_example :
    (t : List Action) × (thread_sender good job
      ≡ (t ++ (shuts_down ∷ log_actions (logs_string job)), thread_exit))
    × (sent_bytes t ≡ job.file_to_send)
thread_sender_serves_example = thread_sender_serves good job 5 (record {
  signal_set = refl;
  accepted_all = refl;
  total_ge = omega arith;
  shut_down = refl;
  drained = refl;
  locked = refl;
  wrote_len = refl;
  wrote_text = refl;
})
