-- ===== src/Transfer/Tests.antt =====
-- Files that are sent on Windows, with a granularity of 4.
use sacagawea.Common.{refl, ◌==◌, false, ◌≡◌, arith, ◌%◌, ◌∷◌, true, decimal, ℕ, List, codes, []}
use sacagawea.Effects.{
  writes_pipe, thread_exit, shuts_down, unmaps, value, sends, maps, Action, sent_bytes,
}
use sacagawea.Gopher.Sender.{drain_loop, closed, discarded, Job, SendAnswer, accepted, logs_string}
use sacagawea.Transfer.{
  pipe_opens, reads_size, opens_file, SenderAnswers, send_views, thread_sender_win32,
  load_file_memory_and_send_win32,
}
use sacagawea.Transfer.Whole.{
  at_start, one_more, Aligned, IsGranular, full, send_views_sends_all, partial_send_stops,
}

abbrev job : Job
job = record {
  date = codes "[d]";
  path_file = codes "/f";
  addr = codes "c:1";
  file_to_send = codes "abcdefghij";
}

abbrev answers : List SendAnswer → SenderAnswers
answers sending = record {
  granularity = 4;
  view_ok = λ k. k % 4 == 0;
  sending = sending;
  shutdown_ok = true;
  draining = discarded ∷ closed ∷ [];
  open_pipe = pipe_opens;
  instance_free = true;
  mode_ok = true;
  write_ok = true;
}

Aligned-mod : {k : ℕ} → Aligned 4 k → k % 4 ≡ 0
Aligned-mod at_start = refl
Aligned-mod (one_more {k} h) = omega (arith, Aligned-mod h)

answers-IsGranular : (sending : List SendAnswer) → IsGranular (answers sending)
answers-IsGranular sending = record {
  positive = omega arith;
  seen = λ k h. ground (arith, Aligned-mod h);
  unseen = λ k n h low high. ground (arith, Aligned-mod h);
}

run_sender : thread_sender_win32 (answers (full 4 3 [])) job ≡ (
  maps 4
      ∷ sends (codes "abcd")
      ∷ unmaps
      ∷ maps 4
      ∷ sends (codes "efgh")
      ∷ unmaps
      ∷ maps 2
      ∷ sends (codes "ij")
      ∷ unmaps
      ∷ shuts_down
      ∷ writes_pipe (codes "[d] /f 10 B c:1\n")
      ∷ [],
  thread_exit,
)
unfolding thread_sender_win32 logs_string decimal drain_loop
run_sender = refl

run_load :
    load_file_memory_and_send_win32
      (record {
        create_ok = true;
        size_ok = true;
        mapping_ok = false;
        thread_ok = true;
        close_file_ok = true;
        wait_ok = true;
        close_thread_ok = true;
        close_mapping_ok = true;
      })
      (codes "/f")
    ≡ (opens_file (codes "/f") ∷ reads_size ∷ [], false)
unfolding load_file_memory_and_send_win32
run_load = refl

send_views_sends_all_example :
    (t : List Action) × (send_views 4 (λ k. k % 4 == 0) (codes "abcdefghij") 0 (full 4 3 [])
      ≡ (t, value 10))
    × (sent_bytes t ≡ codes "abcdefghij")
send_views_sends_all_example =
    send_views_sends_all (answers (full 4 3 [])) job 3 []
      (record { granular = answers-IsGranular (full 4 3 []); answers = refl; enough = omega arith })

partial_send_stops_example :
    thread_sender_win32 (answers (accepted 3 ∷ full 4 3 [])) job
    ≡ (maps 4 ∷ sends (codes "abc") ∷ unmaps ∷ [], thread_exit)
partial_send_stops_example =
    partial_send_stops (answers (accepted 3 ∷ full 4 3 [])) job 3 (full 4 3 [])
      (answers-IsGranular (accepted 3 ∷ full 4 3 [])) (omega arith) (omega arith) (omega arith) refl
