-- ===== src/PipeLogger/Tests.antt =====
-- Runs of the log process of Windows.
use sacagawea.Common.{
  ◌==◌, ◌%◌, decimal, List, false, arith, ◌<◌, refl, length, returns, NoNul, ◌≡◌, codes, some, ◌∷◌,
  true, Bytes, Bool, [],
}
use sacagawea.PipeLogger.{
  signaled, io_pending, pipe_connected, pending, Logger, Round, log_rounds, bufsize,
  create_instances,
}
use sacagawea.Gopher.Sender.{Job, SendAnswer, accepted, closed, logs_string, drain_loop}
use sacagawea.Transfer.{SenderAnswers, pipe_opens, thread_sender_win32}
use sacagawea.Logs.Messages.{lines}
use sacagawea.PipeLogger.Transfers.{transfers_logged, WholeLines, IsPrintable, messages_of, reads}
use sacagawea.PipeLogger.Refine.{zeros}
use sacagawea.PipeLogger.Stale.{log_rounds_keep, Holds, IsHeard}

abbrev empty_log : Logger
empty_log = record { request = zeros; log = []; instances = pending ∷ pending ∷ [] }

abbrev heard : Bool → Bytes → Round
heard opens message = record {
  which_pipe = 1;
  read = some message;
  file = record { create_ok = opens; write_ok = true };
  connect = io_pending;
}

abbrev IsPlain : Bytes → Type 0
IsPlain message = NoNul message × (length message < bufsize)

only_message : (m message : Bytes) → IsPlain m → some m ≡ some message → IsPlain message
only_message m message h e = let f : m ≡ message = cc in rw f at h

ab-IsPlain : IsPlain (codes "ab\n")
ab-IsPlain = ((omega arith, (omega arith, (omega arith, tt))), omega arith)

d-IsPlain : IsPlain (codes "d\n")
d-IsPlain = ((omega arith, (omega arith, tt)), omega arith)

ab-IsHeard : IsHeard (heard false (codes "ab\n"))
ab-IsHeard = record {
  pipe_lt = omega arith;
  plain = λ message. only_message (codes "ab\n") message ab-IsPlain;
}

d-IsHeard : IsHeard (heard true (codes "d\n"))
d-IsHeard = record {
  pipe_lt = omega arith;
  plain = λ message. only_message (codes "d\n") message d-IsPlain;
}

nothing_kept : Holds empty_log (record { leftover = []; log = [] })
nothing_kept = record { array = refl; clean = tt; short = omega arith; same_log = refl }

-- The first message finds no open file, and its last byte shows behind the second one.
log_rounds_keep_example :
    (t : Logger) × (log_rounds
        (heard false (codes "ab\n") ∷ heard true (codes "d\n") ∷ [])
        empty_log
      ≡ returns t)
    × Holds t (record { leftover = []; log = codes "d\n\n" })
log_rounds_keep_example =
    log_rounds_keep (heard false (codes "ab\n") ∷ heard true (codes "d\n") ∷ []) empty_log
      (record { leftover = []; log = [] }) nothing_kept (ab-IsHeard, (d-IsHeard, tt))

run_create :
    create_instances
      (record { event_ok = true; pipe_ok = true; connect = pipe_connected true } ∷ [])
    ≡ some (signaled ∷ [])
unfolding create_instances
run_create = refl

abbrev job : Job
job = record {
  date = codes "[d]";
  path_file = codes "/f";
  addr = codes "c:1";
  file_to_send = codes "abcdef";
}

abbrev transfer_of : List SendAnswer → SenderAnswers
transfer_of sending = record {
  granularity = 4;
  view_ok = λ k. k % 4 == 0;
  sending = sending;
  shutdown_ok = true;
  draining = closed ∷ [];
  open_pipe = pipe_opens;
  instance_free = true;
  mode_ok = true;
  write_ok = true;
}

-- The first transfer stops behind a part of a piece, the second one sends its file.
abbrev transfers : List (SenderAnswers × Job)
transfers =
    (transfer_of (accepted 3 ∷ []), job) ∷ (transfer_of (accepted 4 ∷ accepted 2 ∷ []), job) ∷ []

abbrev job_line : Bytes
job_line = codes "[d] /f 6 B c:1\n"

job-IsPrintable : IsPrintable job
job-IsPrintable = record {
  date_clean = (omega arith, (omega arith, (omega arith, tt)));
  path_clean = (omega arith, (omega arith, tt));
  addr_clean = (omega arith, (omega arith, (omega arith, tt)));
  date_short = omega arith;
  path_short = omega arith;
  addr_short = omega arith;
}

run_transfers : reads (heard true job_line ∷ []) ≡ messages_of transfers
unfolding thread_sender_win32 logs_string decimal drain_loop
run_transfers = refl

transfers_logged_example :
    (t : Logger) × (log_rounds (heard true job_line ∷ []) empty_log ≡ returns t)
    × ((texts : List Bytes) × WholeLines transfers texts × (t.log ≡ lines texts))
transfers_logged_example =
    transfers_logged transfers (heard true job_line ∷ []) empty_log refl
      (job-IsPrintable, (job-IsPrintable, tt))
      (record { pipe_lt = omega arith; file_opens = refl; file_written = refl }, tt) run_transfers
